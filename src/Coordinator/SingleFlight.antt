-- ===== src/Coordinator/SingleFlight.antt =====
-- Sequences of calls of the gate of src/project_knowledge_mcp/ingestion_coordinator.py.
use native.Mathlib.Decide.{ℕ_discrete}
use gitlab_knowledege.Common.{
  ◌==◌, ◌||◌, ◌≢◌, ◌↔◌, ℕ, suc, ◌<◌, ◌≡◌, refl, sym, Option-cases, Bool-cases, inl, inr, true,
  false, none, some, List, ◌∷◌, arith,
}
use gitlab_knowledege.Exec.{ingestion_in_progress, returned, raised, final}
use gitlab_knowledege.Models.{SnapshotTrigger}
use gitlab_knowledege.Coordinator.{
  JobHandle, Coordinator, idle_coordinator, contains, try_start, end_job,
}

-- One method call, by any thread. A handle is one that `try_start` has made before.
pub data Step : Coordinator → Coordinator → Type 0 where
  start :
      (c : Coordinator) (trigger : SnapshotTrigger) (snapshot_id started_at : ℕ)
      → Step c (final (try_start trigger snapshot_id started_at c))
  finish :
      (c : Coordinator) (h : JobHandle) → h.handle_id < c.created → Step c (final (end_job h c))

pub data Reach (c : Coordinator) : Coordinator → Type 0 where
  here : Reach c c
  next : {d e : Coordinator} → Reach c d → Step d e → Reach c e

-- A handle that was made and has not ended is the running one, and the other way round.
pub record IsExclusive (c : Coordinator) : Type 0 where
  pub ended_made : (i : ℕ) → contains i c.ended ≡ true → i < c.created
  pub running_active :
      (h : JobHandle)
      → c.running ≡ some h
      → (h.handle_id < c.created) × (contains h.handle_id c.ended ≡ false)
  pub active_running :
      (i : ℕ)
      → i < c.created
      → contains i c.ended ≡ false
      → (h : JobHandle) × (c.running ≡ some h) × (h.handle_id ≡ i)

abbrev new_handle : SnapshotTrigger → ℕ → ℕ → Coordinator → JobHandle
new_handle trigger s t c = record {
  handle_id = c.created;
  snapshot_id = s;
  trigger = trigger;
  started_at = t;
}

-- An idle coordinator takes the job.
pub try_start_idle :
    (c : Coordinator) (trigger : SnapshotTrigger) (s t : ℕ)
    → c.running ≡ none
    → try_start trigger s t c
      ≡ returned
          (new_handle trigger s t c)
          (record c { running = some (new_handle trigger s t c); created = suc c.created })
unfolding try_start
try_start_idle c trigger s t h = ground arith

-- A running one refuses it, and is unchanged.
pub try_start_running :
    (c : Coordinator) (trigger : SnapshotTrigger) (s t : ℕ) {h : JobHandle}
    → c.running ≡ some h
    → try_start trigger s t c ≡ raised ingestion_in_progress c
unfolding try_start
try_start_running c trigger s t h = ground arith

start-IsExclusive :
    (c : Coordinator) (trigger : SnapshotTrigger) (s t : ℕ)
    → IsExclusive c
    → IsExclusive (final (try_start trigger s t c))
start-IsExclusive c trigger s t h = elim (Option-cases c.running) [
  | inl e ↦ rw (try_start_idle c trigger s t e) (record {
    ended_made = λ i k. omega (arith, h.ended_made i k);
    running_active =
        λ r k. ground (arith, h.ended_made c.created, Bool-cases (contains c.created c.ended));
    active_running = λ i lt k. elim (ℕ_discrete i c.created) [
      | yes same ↦ (new_handle trigger s t c, refl, sym same)
      | no other ↦ let (r, on, _) = h.active_running i (omega arith) k in absurd (ground arith)
    ];
  })
  | inr (r, e) ↦ rw (try_start_running c trigger s t e) h
]

-- Ending a job twice does nothing.
pub end_job_ended :
    (c : Coordinator) (r : JobHandle)
    → contains r.handle_id c.ended ≡ true
    → end_job r c ≡ returned tt c
unfolding end_job
end_job_ended c r h = ground arith

-- Ending the running job frees the slot.
pub end_job_active :
    (c : Coordinator) (r q : JobHandle)
    → contains r.handle_id c.ended ≡ false
    → c.running ≡ some q
    → q.handle_id ≡ r.handle_id
    → end_job r c ≡ returned tt (record c { running = none; ended = r.handle_id ∷ c.ended })
unfolding end_job
end_job_active c r q h on same = ground arith

contains-cons : (i j : ℕ) (l : List ℕ) → contains i (j ∷ l) ≡ ((j == i) || contains i l)
unfolding contains
contains-cons i j l = refl

active-cons : (i j : ℕ) (l : List ℕ) → contains i (j ∷ l) ≡ false → (contains i l ≡ false) × (j ≢ i)
active-cons i j l h = ground (arith, contains-cons i j l)

end_job-IsExclusive :
    (c : Coordinator) (r : JobHandle)
    → r.handle_id < c.created
    → IsExclusive c
    → IsExclusive (final (end_job r c))
end_job-IsExclusive c r made h = elim (Bool-cases (contains r.handle_id c.ended)) [
  | inl old ↦ rw (end_job_ended c r old) h
  | inr new ↦
      let (q, on, same) = h.active_running r.handle_id made new in
      rw (end_job_active c r q new on same) (record {
        ended_made = λ i k. ground (arith, contains-cons i r.handle_id c.ended, h.ended_made i);
        running_active = λ q' k. absurd (ground arith);
        active_running = λ i lt k.
            let (older, other) = active-cons i r.handle_id c.ended k in
            let (q', on', same') = h.active_running i lt older in absurd (other (ground arith));
      })
]

Step-IsExclusive : {c d : Coordinator} → Step c d → IsExclusive c → IsExclusive d
Step-IsExclusive (start c trigger s t) h = start-IsExclusive c trigger s t h
Step-IsExclusive (finish c r made) h = end_job-IsExclusive c r made h

Reach-IsExclusive : {c d : Coordinator} → IsExclusive c → Reach c d → IsExclusive d
Reach-IsExclusive h here = h
Reach-IsExclusive h (next r st) = Step-IsExclusive st (Reach-IsExclusive h r)

pub idle-IsExclusive : IsExclusive idle_coordinator
unfolding contains
idle-IsExclusive = record {
  ended_made = λ i h. cc;
  running_active = λ r h. cc;
  active_running = λ i lt h. elim lt [ ];
}

-- From a new coordinator, after any sequence of starts and ends of made handles: the running
-- job's handle has not ended, and two handles that were made and have not ended are one.
pub single_flight :
    {c : Coordinator}
    → Reach idle_coordinator c
    → ((h : JobHandle) → c.running ≡ some h → contains h.handle_id c.ended ≡ false)
      × ((i j : ℕ)
          → i < c.created
          → j < c.created
          → contains i c.ended ≡ false
          → contains j c.ended ≡ false
          → i ≡ j)
single_flight {c} r =
    let inv = Reach-IsExclusive idle-IsExclusive r in
    (
      λ h e. (inv.running_active h e).1,
      λ i j hi hj ai aj.
          let (h, on, same) = inv.active_running i hi ai in
          let (h', on', same') = inv.active_running j hj aj in ground arith,
    )

-- From a new coordinator, after any sequence of starts and ends of made handles: a start is not
-- refused exactly if every handle that was made has ended.
pub start_iff_all_ended :
    {c : Coordinator} (trigger : SnapshotTrigger) (s t : ℕ)
    → Reach idle_coordinator c
    → (try_start trigger s t c ≢ raised ingestion_in_progress c)
      ↔ ((i : ℕ) → i < c.created → contains i c.ended ≡ true)
start_iff_all_ended {c} trigger s t r =
    let inv = Reach-IsExclusive idle-IsExclusive r in
    elim (Option-cases c.running) [
      | inl e ↦ (
        λ _ i lt. elim (Bool-cases (contains i c.ended)) [
          | inl over ↦ over
          | inr active ↦ let (h, on, _) = inv.active_running i lt active in absurd (ground arith)
        ],
        λ _ raises. cc (try_start_idle c trigger s t e),
      )
      | inr (h, e) ↦ (
        λ starts. absurd (starts (try_start_running c trigger s t e)),
        λ all_over.
            let (made, active) = inv.running_active h e in
            absurd (ground (arith, all_over h.handle_id)),
      )
    ]
