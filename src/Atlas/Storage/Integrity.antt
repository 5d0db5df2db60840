-- ===== src/Atlas/Storage/Integrity.antt =====
-- Under the invariant the store answers: a job's audit history reads as a log that leads to its
-- status, and the integrity check passes.
use mathlib.Core.Path.{subst₂}
use nexus_agent_platform.Atlas.Errors.{Error, history_disagrees}
use nexus_agent_platform.Common.{
  ℕ, ◌+◌, ◌≡◌, refl, sym, ◌∙◌, subst, inl, inr, Bool, true, not, ◌||◌, none, some, List, [], ◌∷◌,
  map, arith, ◌==◌, Bool-cases, Option-cases, length, last_or, All, ok, raise_if,
}
use nexus_agent_platform.Atlas.Models.{AuditEvent, Job, JobStatus}
use nexus_agent_platform.Atlas.StateMachine.{same_status}
use nexus_agent_platform.Atlas.Storage.Tables.{
  Codec, JobRow, CommandRow, Database, find_job, events_of, order_by, insert_ordered,
}
use nexus_agent_platform.Atlas.Storage.Read.{
  job_from_row, jobs_from_rows, row_before, events_from_rows, list_audit_events, list_jobs, get_job,
  check_history, check_histories, check_commands, integrity_check,
}
use nexus_agent_platform.Atlas.Storage.History.{Log, Log-length, Log-last, order_by-Log}
use nexus_agent_platform.Atlas.Storage.Rows.{find_job-id}
use nexus_agent_platform.Atlas.Storage.Invariant.{RowOk, CommandOk, Inv}

All-insert_ordered :
    {A : Type 0} (P : A → Type 0) (before : A → A → Bool) (a : A) (as' : List A)
    → P a
    → All P as'
    → All P (insert_ordered before a as')
unfolding insert_ordered
All-insert_ordered P before a [] p h = (p, tt)
All-insert_ordered P before a (b ∷ bs) p h = elim (Bool-cases (before a b)) [
  | inl e ↦ rw e (p, h)
  | inr e ↦ rw e (h.0, All-insert_ordered P before a bs p h.1)
]

All-order_by :
    {A : Type 0} (P : A → Type 0) (before : A → A → Bool) (as' : List A)
    → All P as'
    → All P (order_by before as')
unfolding order_by
All-order_by P before [] h = tt
All-order_by P before (a ∷ as') h =
    All-insert_ordered P before a (order_by before as') h.0 (All-order_by P before as' h.1)

same_status-eq : (a b : JobStatus) → same_status a b ≡ true → a ≡ b
same_status-eq a b h = ground arith

module _ {T : Type 0} (codec : Codec T) where
  -- What a row is read as has the columns of the row.
  pub job_from_row-columns :
      (row : JobRow T) {job : Job}
      → job_from_row codec row ≡ ok job
      → (row.job_id ≡ job.job_id) × (row.revision ≡ job.revision) × (row.status ≡ job.status)
  unfolding job_from_row
  job_from_row-columns row {job} h =
      (ground arith, ground arith, same_status-eq row.status job.status (ground arith))

module _ {T : Type 0} (codec : Codec T) (P : Job → Type 0) (db : Database T) where
  row_history :
      (row : JobRow T) (r : RowOk codec P db.events row)
      → (list_audit_events codec r.job.job_id db ≡ ok r.log)
        × Log 0 none r.log (r.job.revision + 1) (some r.job.status)
  unfolding list_audit_events
  row_history row r =
      let (id, revision, status) = job_from_row-columns codec row r.stored in
      let logged : events_from_rows codec (events_of r.job.job_id db.events) ≡ ok r.log =
        subst (λ i. events_from_rows codec (events_of i db.events) ≡ ok r.log) id r.logged in
      (
        rw
            (order_by-Log codec (events_of r.job.job_id db.events) r.log (row.revision + 1) none
              (some row.status) 0 logged r.history)
            logged,
        subst₂ (λ n s. Log 0 none r.log (n + 1) (some s)) revision status r.history,
      )

  check_history_ok :
      (row : JobRow T) (r : RowOk codec P db.events row) → check_history codec db r.job ≡ ok tt
  unfolding check_history
  check_history_ok row r =
      let (listed, history) = row_history row r in
      let size = Log-length 0 none r.log (r.job.revision + 1) (some r.job.status) history in
      rw listed (last_revision r.log history size)
    where
      last_revision :
          (log : List AuditEvent)
          → Log 0 none log (r.job.revision + 1) (some r.job.status)
          → 0 + length log ≡ r.job.revision + 1
          → raise_if
              (length log == 0
                || not (length log == r.job.revision + 1)
                || not (last_or 0 (map (λ event. event.job_revision) log) == r.job.revision))
              (Error.storage history_disagrees)
            ≡ ok tt
      last_revision [] l n = absurd (omega arith)
      last_revision (e ∷ es) l n = ground (
        arith,
        Log-last e.job_revision 1 (some e.to_status) es (r.job.revision + 1) (some r.job.status) l.1
            (omega (arith, l.0.at_revision)),
      )

  rows_check :
      (rows : List (JobRow T))
      → All (RowOk codec P db.events) rows
      → (jobs : List Job) × (jobs_from_rows codec rows ≡ ok jobs)
        × (check_histories codec db jobs ≡ ok tt)
  rows_check [] a = ([], refl, refl)
  rows_check (row ∷ rows) a =
      let rest = rows_check rows a.1 in
      (a.0.job ∷ rest.0, rw a.0.stored (rw rest.1), rw (check_history_ok row a.0) rest.2)

  commands_check :
      (rows : List (CommandRow T))
      → All (CommandOk codec P) rows
      → check_commands codec rows ≡ ok tt
  commands_check [] a = refl
  commands_check (row ∷ rows) a = rw a.0.readable (commands_check rows a.1)

  -- Tables that satisfy the invariant pass the integrity check of the store.
  pub integrity_check_ok : Inv codec P db → integrity_check codec db ≡ ok tt
  unfolding integrity_check list_jobs
  integrity_check_ok v =
      let checked =
        rows_check (order_by row_before db.jobs) (All-order_by _ row_before db.jobs v.rows) in
      rw checked.1 (rw checked.2 (commands_check db.commands v.commands))

  find_row :
      (id : ℕ) (rows : List (JobRow T)) {row : JobRow T}
      → find_job id rows ≡ some row
      → All (RowOk codec P db.events) rows
      → RowOk codec P db.events row
  unfolding find_job
  find_row id [] h a = absurd (cc)
  find_row id (r ∷ rs) {row} h a = elim (Bool-cases (r.job_id == id)) [
    | inl e ↦ let same : r ≡ row = ground (arith, e) in subst (RowOk codec P db.events) same a.0
    | inr e ↦ find_row id rs (ground (arith, e)) a.1
  ]

  -- What a stored job is: P holds of it, and its audit events are a log of its whole life.
  pub stored_job :
      (id : ℕ) {job : Job}
      → Inv codec P db
      → get_job codec id db ≡ ok job
      → P job
        × ((log : List AuditEvent) × (list_audit_events codec id db ≡ ok log)
            × Log 0 none log (job.revision + 1) (some job.status))
  unfolding get_job
  stored_job id {job} v h = elim (Option-cases (find_job id db.jobs)) [
    | inl e ↦ absurd (ground (arith, e))
    | inr (row, e) ↦
        let r = find_row id db.jobs e v.rows in
        let same : r.job ≡ job = ground (arith, e, r.stored) in
        let own : r.job.job_id ≡ id =
          sym (job_from_row-columns codec row r.stored).0 ∙ find_job-id id db.jobs e in
        let (listed, history) = row_history row r in
        (
          subst P same r.kept,
          (
            r.log,
            subst (λ i. list_audit_events codec i db ≡ ok r.log) own listed,
            subst (λ (j : Job). Log 0 none r.log (j.revision + 1) (some j.status)) same history,
          ),
        )
  ]
