-- ===== src/Atlas/Storage/Rows.antt =====
-- How the statements of a transaction change what the selects find.
use nexus_agent_platform.Common.{
  ℕ, ◌≡◌, refl, sym, ◌∙◌, ◌≢◌, inl, inr, none, some, List, [], ◌∷◌, ◌++◌, arith, ℕ_discrete, ◌==◌,
  if◌then◌else◌, ==_iff, Bool-cases,
}
use nexus_agent_platform.Atlas.Storage.Tables.{JobRow, EventRow, find_job, events_of}
use nexus_agent_platform.Atlas.Storage.Write.{update_rows, count_rows}

module _ {T : Type 0} where
  -- No two rows have one id: the PRIMARY KEY.
  abbrev pub Distinct : List (JobRow T) → Type 0
  Distinct [] = Unit
  Distinct (r ∷ rs) = (find_job r.job_id rs ≡ none) × Distinct rs

  pub find_job-append_none :
      (id : ℕ) (rs : List (JobRow T)) (r : JobRow T)
      → find_job id rs ≡ none
      → find_job id (rs ++ r ∷ []) ≡ (if r.job_id == id then some r else none)
  unfolding find_job
  find_job-append_none id [] r h = refl
  find_job-append_none id (x ∷ rs) r h = ground (arith, find_job-append_none id rs r)

  pub find_job-append_some :
      (id : ℕ) (rs : List (JobRow T)) (r : JobRow T) {x : JobRow T}
      → find_job id rs ≡ some x
      → find_job id (rs ++ r ∷ []) ≡ some x
  unfolding find_job
  find_job-append_some id [] r h = cc
  find_job-append_some id (y ∷ rs) r {x} h = ground (arith, find_job-append_some id rs r {x = x})

  -- The row that a select finds has the id asked for.
  pub find_job-id :
      (id : ℕ) (rs : List (JobRow T)) {x : JobRow T} → find_job id rs ≡ some x → x.job_id ≡ id
  unfolding find_job
  find_job-id id [] h = cc
  find_job-id id (y ∷ rs) {x} h = ground (arith, find_job-id id rs {x = x})

  pub find_job-ne :
      (id : ℕ) (r : JobRow T) (rs : List (JobRow T))
      → find_job id (r ∷ rs) ≡ none
      → (r.job_id ≢ id) × (find_job id rs ≡ none)
  unfolding find_job
  find_job-ne id r rs h = ground arith

  pub events_of-append :
      (id : ℕ) (es : List (EventRow T)) (e : EventRow T)
      → events_of id (es ++ e ∷ [])
        ≡ (if e.job_id == id then events_of id es ++ e ∷ [] else events_of id es)
  unfolding events_of
  events_of-append id [] e = ground arith
  events_of-append id (x ∷ es) e = ground (arith, events_of-append id es e)

  pub find_job-update_rows-none :
      (id expected : ℕ) (new : JobRow T) (rs : List (JobRow T))
      → find_job id rs ≡ none
      → find_job id (update_rows new expected rs) ≡ none
  unfolding find_job update_rows
  find_job-update_rows-none id expected new [] h = refl
  find_job-update_rows-none id expected new (r ∷ rs) h =
      ground (arith, find_job-update_rows-none id expected new rs)

  pub find_job-update_rows_other :
      (id expected : ℕ) (new : JobRow T) (rs : List (JobRow T))
      → new.job_id ≢ id
      → find_job id (update_rows new expected rs) ≡ find_job id rs
  unfolding find_job update_rows
  find_job-update_rows_other id expected new [] h = refl
  find_job-update_rows_other id expected new (r ∷ rs) h =
      ground (arith, find_job-update_rows_other id expected new rs h)

  pub count_rows-none :
      (id expected : ℕ) (rs : List (JobRow T))
      → find_job id rs ≡ none
      → count_rows id expected rs ≡ 0
  unfolding find_job count_rows
  count_rows-none id expected [] h = refl
  count_rows-none id expected (r ∷ rs) h = ground (arith, count_rows-none id expected rs)

  -- An update of one row finds that row at the expected revision, and leaves the new one.
  pub find_job-update_rows_self :
      (expected : ℕ) (new : JobRow T) (rs : List (JobRow T))
      → Distinct rs
      → count_rows new.job_id expected rs ≡ 1
      → (old : JobRow T) × (find_job new.job_id rs ≡ some old)
        × (old.revision ≡ expected)
        × (find_job new.job_id (update_rows new expected rs) ≡ some new)
  unfolding find_job update_rows count_rows
  find_job-update_rows_self expected new [] d h = absurd (ground arith)
  find_job-update_rows_self expected new (r ∷ rs) d h = elim (Bool-cases (r.job_id == new.job_id)) [
    | inl e ↦
        let same : r.job_id ≡ new.job_id = (==_iff _ _).0 e in
        let gone : count_rows new.job_id expected rs ≡ 0 =
          count_rows-none new.job_id expected rs (rw (← same) d.0) in
        (r, ground (arith, e), ground (arith, e, gone), ground (arith, e, gone))
    | inr e ↦
        let (old, f, g, k) = find_job-update_rows_self expected new rs d.1 (ground (arith, e)) in
        (old, ground (arith, e, f), g, ground (arith, e, k))
  ]

  pub update_rows-Distinct :
      (expected : ℕ) (new : JobRow T) (rs : List (JobRow T))
      → Distinct rs
      → Distinct (update_rows new expected rs)
  unfolding update_rows
  update_rows-Distinct expected new [] d = tt
  update_rows-Distinct expected new (r ∷ rs) d = (
    ground (arith, find_job-update_rows-none r.job_id expected new rs d.0),
    update_rows-Distinct expected new rs d.1,
  )

  pub append-Distinct :
      (new : JobRow T) (rs : List (JobRow T))
      → Distinct rs
      → find_job new.job_id rs ≡ none
      → Distinct (rs ++ new ∷ [])
  unfolding find_job
  append-Distinct new [] d h = (refl, tt)
  append-Distinct new (r ∷ rs) d h = (
    ground (arith, find_job-append_none r.job_id rs new d.0, find_job-ne new.job_id r rs h),
    append-Distinct new rs d.1 (find_job-ne new.job_id r rs h).1,
  )

  -- What is absent after a statement was absent before it, and is not the row written.
  pub append-absent :
      (id : ℕ) (rs : List (JobRow T)) (r : JobRow T)
      → find_job id (rs ++ r ∷ []) ≡ none
      → (find_job id rs ≡ none) × (r.job_id ≢ id)
  unfolding find_job
  append-absent id [] r h = ground arith
  append-absent id (x ∷ rs) r h = ground (arith, append-absent id rs r)

  pub update_rows-absent :
      (id expected : ℕ) (new : JobRow T) (rs : List (JobRow T))
      → Distinct rs
      → count_rows new.job_id expected rs ≡ 1
      → find_job id (update_rows new expected rs) ≡ none
      → (find_job id rs ≡ none) × (new.job_id ≢ id)
  update_rows-absent id expected new rs d n h = elim (ℕ_discrete new.job_id id) [
    | yes e ↦
        let (old, f, g, k) = find_job-update_rows_self expected new rs d n in
        let found : find_job id (update_rows new expected rs) ≡ some new = rw (← e) k in absurd (cc)
    | no ne ↦ (sym (find_job-update_rows_other id expected new rs ne) ∙ h, ne)
  ]

  pub events_of-append_ne :
      (id : ℕ) (es : List (EventRow T)) (e : EventRow T)
      → e.job_id ≢ id
      → events_of id (es ++ e ∷ []) ≡ events_of id es
  events_of-append_ne id es e ne = events_of-append id es e ∙ ground arith
