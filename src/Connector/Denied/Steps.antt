-- ===== src/Connector/Denied/Steps.antt =====
-- The steps of src/project_knowledge_mcp/gitlab_connector.py whose last answer is looked at.
use gitlab_knowledege.Common.{
  ℕ, ◌≡◌, refl, Bool, true, false, ◌||◌, List, ◌∷◌, Text, ◌==◌, if◌then◌else◌, arith, All, inl, inr,
  ◌⊎◌,
}
use gitlab_knowledege.Exec.{
  Error, gitlab_auth, other, Outcome, returned, raised, Exec, pure, raise, resume, ◌>>=◌,
}
use gitlab_knowledege.Connector.Client.{
  Params, Response, Library, GitLabConnector, raise_for_auth, raise_for_status,
}
use gitlab_knowledege.Connector.Projects.{check_status}

abbrev pub is_denied : ℕ → Bool
is_denied status = (status == 401) || (status == 403)

abbrev pub Clean : List ℕ → Type 0
Clean statuses = All (λ s. is_denied s ≡ false) statuses

-- `log` gives the statuses of the answers so far, the last one first: each answer adds its own, and
-- a request that raises adds none.
pub record Logs {W J : Type 0} (lib : Library W J) (log : W → List ℕ) : Type 0 where
  pub answers :
      (url : Text) (params headers : Params) (w w' : W) (r : Response J)
      → lib.get url params headers w ≡ returned r w'
      → log w' ≡ r.status_code ∷ log w
  pub failures :
      (url : Text) (params headers : Params) (w w' : W) (e : Error)
      → lib.get url params headers w ≡ raised e w'
      → log w' ≡ log w

pub not_missing : (s : ℕ) → is_denied s ≡ true → (s == 404) ≡ false
not_missing s e = ground arith

module _ {W : Type 0} (log : W → List ℕ) where
  -- No answer was 401 or 403, unless it was the last and its status was raised.
  abbrev pub StopsAtDenial : {A : Type 0} → Outcome W A → Type 0
  StopsAtDenial (returned a w) = Clean (log w)
  StopsAtDenial (raised e w) =
      Clean (log w)
      ⊎ ((s : ℕ) × (before : List ℕ) × (log w ≡ s ∷ before)
          × (is_denied s ≡ true)
          × Clean before
          × (e ≡ gitlab_auth s))

  pub record Stops {A : Type 0} (m : Exec W A) : Type 0 where
    pub holds : (w : W) → Clean (log w) → StopsAtDenial (m w)

  pub Stops-pure : (A : Type 0) (a : A) → Stops (pure a)
  unfolding pure
  Stops-pure A a = record { holds = λ w h. h }

  pub Stops-raise : (A : Type 0) (e : Error) → Stops {A = A} (raise e)
  unfolding raise
  Stops-raise A e = record { holds = λ w h. inl h }

  resumes :
      {A B : Type 0} (o : Outcome W A) (f : A → Exec W B)
      → StopsAtDenial o
      → ((a : A) → Stops (f a))
      → StopsAtDenial (resume o f)
  resumes (returned a w) f h k = (k a).holds w h
  resumes (raised e w) f h k = h

  pub Stops-bind :
      {A B : Type 0} (m : Exec W A) (f : A → Exec W B)
      → Stops m
      → ((a : A) → Stops (f a))
      → Stops (m >>= f)
  unfolding ◌>>=◌
  Stops-bind m f h k = record { holds = λ w clean. resumes (m w) f (h.holds w clean) k }

  pub Stops-if :
      {A : Type 0} (b : Bool) (m k : Exec W A) → Stops m → Stops k → Stops (if b then m else k)
  Stops-if true m k h h' = h
  Stops-if false m k h h' = h'

module _ {W J : Type 0} (lib : Library W J) (c : GitLabConnector) (log : W → List ℕ)
    (logs : Logs lib log) where
  abbrev S : {A : Type 0} → Exec W A → Type 0
  S m = Stops log m

  -- A request whose answer is looked at before anything else is done.
  requested_at :
      {A : Type 0} (url : Text) (params headers : Params) (k : Response J → Exec W A) (w : W)
      → ((r : Response J) → is_denied r.status_code ≡ false → S (k r))
      → ((r : Response J) (w : W)
          → is_denied r.status_code ≡ true
          → k r w ≡ raised (gitlab_auth r.status_code) w)
      → Clean (log w)
      → StopsAtDenial log (resume (lib.get url params headers w) k)
  requested_at url params headers k w fine denied clean =
      answered (lib.get url params headers w) refl
    where
      looked :
          (r : Response J) (w' : W) (b : Bool)
          → is_denied r.status_code ≡ b
          → log w' ≡ r.status_code ∷ log w
          → StopsAtDenial log (k r w')
      looked r w' false e l = (fine r e).holds w' (rw l (e, clean))
      looked r w' true e l = rw (denied r w' e) (inr (r.status_code, log w, l, e, clean, refl))

      answered :
          (o : Outcome W (Response J))
          → lib.get url params headers w ≡ o
          → StopsAtDenial log (resume o k)
      answered (returned r w') e =
          looked r w' (is_denied r.status_code) refl (logs.answers url params headers w w' r e)
      answered (raised x w') e = inl (rw (logs.failures url params headers w w' x e) clean)

  pub requested :
      {A : Type 0} (url : Text) (params headers : Params) (k : Response J → Exec W A)
      → ((r : Response J) → is_denied r.status_code ≡ false → S (k r))
      → ((r : Response J) (w : W)
          → is_denied r.status_code ≡ true
          → k r w ≡ raised (gitlab_auth r.status_code) w)
      → S (lib.get url params headers >>= k)
  unfolding ◌>>=◌
  requested url params headers k fine denied = record {
    holds = λ w clean. requested_at url params headers k w fine denied clean;
  }

  pub denied_check :
      {A : Type 0} (r : Response J) (k : Unit {0} → Exec W A) (w : W)
      → is_denied r.status_code ≡ true
      → (check_status lib c r >>= k) w ≡ raised (gitlab_auth r.status_code) w
  unfolding check_status raise_for_auth ◌>>=◌
  denied_check r k w e = rw (e, raise_for_auth)

  allowed : (r : Response J) → is_denied r.status_code ≡ false → S (raise_for_auth lib c r)
  unfolding raise_for_auth
  allowed r e = rw (e, raise_for_auth) (Stops-pure log (Unit {0}) tt)

  pub check_status-Stops :
      (r : Response J) → is_denied r.status_code ≡ false → S (check_status lib c r)
  unfolding check_status raise_for_status
  check_status-Stops r e = Stops-bind log _ _ (allowed r e) λ _.
      Stops-if log (lib.is_success r.status_code) (pure tt) (raise (other "HTTPStatusError"))
        (Stops-pure log (Unit {0}) tt) (Stops-raise log (Unit {0}) (other "HTTPStatusError"))
