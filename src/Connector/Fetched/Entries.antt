-- ===== src/Connector/Fetched/Entries.antt =====
-- The mapping of files that `fetch_repository_contents` of
-- src/project_knowledge_mcp/gitlab_connector.py builds.
use gitlab_knowledege.Common.{
  suc, ◌≤◌, ◌≡◌, true, List, [], ◌∷◌, Text, eq_text, arith, All, inl, inr, Bool-cases, length,
}
use gitlab_knowledege.Connector.Selection.{leb_text}
use gitlab_knowledege.Connector.Selection.Order.{Ascending}
use gitlab_knowledege.Connector.Contents.{Files, put_file}

abbrev pub keys : Files → List Text
keys [] = []
keys ((p, t) ∷ files) = p ∷ keys files

pub put_file-All :
    (Q : Text → Type 0) (path text : Text) (files : Files)
    → Q path
    → All Q (keys files)
    → All Q (keys (put_file path text files))
unfolding put_file
put_file-All Q path text [] h hs = (h, hs)
put_file-All Q path text ((p, t) ∷ files) h (k, ks) = elim (Bool-cases (eq_text p path)) [
  | inl e ↦ rw e (k, ks)
  | inr e ↦ rw e (k, put_file-All Q path text files h ks)
]

pub put_file-Ascending :
    (path text : Text) (files : Files)
    → Ascending (keys files)
    → All (λ k. leb_text k path ≡ true) (keys files)
    → Ascending (keys (put_file path text files))
unfolding put_file
put_file-Ascending path text [] h hs = (tt, tt)
put_file-Ascending path text ((p, t) ∷ files) (h, hs) (k, ks) = elim (Bool-cases (eq_text p path)) [
  | inl e ↦ rw e (h, hs)
  | inr e ↦ rw e (
    put_file-All (λ q. leb_text p q ≡ true) path text files k h,
    put_file-Ascending path text files hs ks,
  )
]

pub length-put_file :
    (path text : Text) (files : Files) → length (put_file path text files) ≤ suc (length files)
unfolding put_file
length-put_file path text [] = omega arith
length-put_file path text ((p, t) ∷ files) = ground (arith, length-put_file path text files)

pub put_file-entries :
    (Q : Text × Text → Type 0) (path text : Text) (files : Files)
    → ((p : Text) → eq_text p path ≡ true → Q (p, text))
    → Q (path, text)
    → All Q files
    → All Q (put_file path text files)
unfolding put_file
put_file-entries Q path text [] same h hs = (h, hs)
put_file-entries Q path text ((p, t) ∷ files) same h (k, ks) = elim (Bool-cases (eq_text p path)) [
  | inl e ↦ rw e (same p e, ks)
  | inr e ↦ rw e (k, put_file-entries Q path text files same h ks)
]

pub heads :
    (p : Text) (ps : List Text) (ks : List Text)
    → All (λ k. All (λ q. leb_text k q ≡ true) (p ∷ ps)) ks
    → All (λ k. leb_text k p ≡ true) ks × All (λ k. All (λ q. leb_text k q ≡ true) ps) ks
heads p ps [] h = (tt, tt)
heads p ps (k ∷ ks) ((h, hs), rest) = let (a, b) = heads p ps ks rest in ((h, a), (hs, b))
