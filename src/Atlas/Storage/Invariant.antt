-- ===== src/Atlas/Storage/Invariant.antt =====
-- What holds of the tables between two transactions: one row to a job, each with the audit
-- history that leads to its status, and a readable response for every command.
use nexus_agent_platform.Common.{
  ℕ, ◌+◌, ◌≡◌, refl, ◌≢◌, inl, inr, none, some, List, [], ◌∷◌, ◌++◌, arith, ◌==◌, ==_iff,
  Bool-cases, All, ok,
}
use nexus_agent_platform.Atlas.Models.{AuditEvent, Job}
use nexus_agent_platform.Atlas.Storage.Tables.{
  Codec, JobRow, EventRow, CommandRow, Database, empty_database, find_job, events_of,
}
use nexus_agent_platform.Atlas.Storage.Read.{
  event_from_row, job_from_row, events_from_rows, command_response,
}
use nexus_agent_platform.Atlas.Storage.Write.{update_rows, count_rows}
use nexus_agent_platform.Atlas.Storage.Rows.{
  Distinct, find_job-ne, events_of-append, count_rows-none,
}
use nexus_agent_platform.Atlas.Storage.History.{events_from_rows-append, Log}

-- P holds of every stored job.
module _ {T : Type 0} (codec : Codec T) (P : Job → Type 0) where
  pub record RowOk (events : List (EventRow T)) (row : JobRow T) : Type 0 where
    pub job : Job
    pub stored : job_from_row codec row ≡ ok job
    pub kept : P job
    pub log : List AuditEvent
    pub logged : events_from_rows codec (events_of row.job_id events) ≡ ok log
    pub history : Log 0 none log (row.revision + 1) (some row.status)

  pub record CommandOk (row : CommandRow T) : Type 0 where
    pub response : Job
    pub readable : command_response codec row row.operation row.request_sha256 ≡ ok response
    pub kept : P response

  pub record Inv (db : Database T) : Type 0 where
    pub distinct : Distinct db.jobs
    pub rows : All (RowOk db.events) db.jobs
    pub no_orphans : (id : ℕ) → find_job id db.jobs ≡ none → events_of id db.events ≡ []
    pub commands : All CommandOk db.commands

  pub empty-Inv : Inv empty_database
  unfolding events_of
  empty-Inv = record { distinct = tt; rows = tt; no_orphans = λ id h. refl; commands = tt }

  -- An event of the job goes to the end of its log.
  pub logged-append :
      (id : ℕ) (events : List (EventRow T)) (row : EventRow T) (log : List AuditEvent)
      (event : AuditEvent)
      → row.job_id ≡ id
      → events_from_rows codec (events_of id events) ≡ ok log
      → event_from_row codec row ≡ ok event
      → events_from_rows codec (events_of id (events ++ row ∷ [])) ≡ ok (log ++ event ∷ [])
  logged-append id events row log event own h k = rw (events_of-append id events row) (
      rw ((==_iff row.job_id id).1 own)
        (events_from_rows-append codec (events_of id events) log row event h k))

  -- An event of another job leaves a row as it was.
  frame :
      (events : List (EventRow T)) (e : EventRow T) (row : JobRow T)
      → row.job_id ≢ e.job_id
      → RowOk events row
      → RowOk (events ++ e ∷ []) row
  frame events e row ne r = record {
    job = r.job;
    stored = r.stored;
    kept = r.kept;
    log = r.log;
    logged = rw (events_of-append row.job_id events e) (ground (arith, r.logged));
    history = r.history;
  }

  pub frame-All :
      (events : List (EventRow T)) (e : EventRow T) (rows : List (JobRow T))
      → find_job e.job_id rows ≡ none
      → All (RowOk events) rows
      → All (RowOk (events ++ e ∷ [])) rows
  frame-All events e [] h a = tt
  frame-All events e (r ∷ rs) h a =
      let ne = find_job-ne e.job_id r rs h in
      (frame events e r ne.0 a.0, frame-All events e rs ne.1 a.1)

  -- A row that the update passes over stays.
  update_rows-none :
      (new : JobRow T) (expected : ℕ) (rows : List (JobRow T))
      → find_job new.job_id rows ≡ none
      → update_rows new expected rows ≡ rows
  unfolding update_rows
  update_rows-none new expected [] h = refl
  update_rows-none new expected (r ∷ rs) h =
      let ne = find_job-ne new.job_id r rs h in
      ground (arith, ne.0, update_rows-none new expected rs ne.1)

  -- The update of the one row at the expected revision, with its event
  pub update_rows-RowOk :
      (events : List (EventRow T)) (e : EventRow T) (new : JobRow T) (expected : ℕ)
      (rows : List (JobRow T))
      → e.job_id ≡ new.job_id
      → Distinct rows
      → count_rows new.job_id expected rows ≡ 1
      → ((old : JobRow T)
          → find_job new.job_id rows ≡ some old
          → old.revision ≡ expected
          → RowOk events old
          → RowOk (events ++ e ∷ []) new)
      → All (RowOk events) rows
      → All (RowOk (events ++ e ∷ [])) (update_rows new expected rows)
  unfolding update_rows count_rows find_job
  update_rows-RowOk events e new expected [] same d n step a = absurd (ground arith)
  update_rows-RowOk events e new expected (r ∷ rs) same d n step a =
      elim (Bool-cases (r.job_id == new.job_id)) [
        | inl p ↦
            let own : r.job_id ≡ new.job_id = (==_iff _ _).0 p in
            let gone : find_job new.job_id rs ≡ none = rw (← own) d.0 in
            let due : r.revision ≡ expected =
              ground (arith, p, count_rows-none new.job_id expected rs gone) in
            rw (p, (==_iff r.revision expected).1 due, update_rows-none new expected rs gone)
              (step r (ground (arith, p)) due a.0, frame-All events e rs (rw same gone) a.1)
        | inr p ↦ rw p (
          frame events e r (ground (arith, p, same)) a.0,
          update_rows-RowOk events e new expected rs same d.1 (ground (arith, p))
              (λ old f. step old (ground (arith, p, f))) a.1,
        )
      ]
