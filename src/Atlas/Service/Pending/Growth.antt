-- ===== src/Atlas/Service/Pending/Growth.antt =====
-- How the tables grow from commit to commit: a job's row stays or goes to a higher revision, the
-- events and the commands stay.
use nexus_agent_platform.Common.{
  ◌+◌, ℕ, ◌≤◌, ◌<◌, String, ◌≡◌, refl, sym, ap, ◌∙◌, subst, ◌⊎◌, inl, inr, Option, none, some, List,
  [], ◌∷◌, ◌++◌, append-nil, append_assoc, arith, ℕ_discrete, ok,
}
use nexus_agent_platform.Atlas.Models.{AuditEvent, CommandRecord, Job, JobStatus}
use nexus_agent_platform.Atlas.Storage.Tables.{
  Codec, JobRow, EventRow, CommandRow, Database, find_job, find_command,
}
use nexus_agent_platform.Atlas.Storage.Transaction.{IsLawful}
use nexus_agent_platform.Atlas.Storage.Write.{
  count_rows, update_rows, job_row, event_row, command_row, write_job, write_event, write_all,
}
use nexus_agent_platform.Atlas.Storage.Rows.{
  Distinct, find_job-append_some, find_job-update_rows_self, find_job-update_rows_other,
}
use nexus_agent_platform.Atlas.Service.Plans.{Plan, replay, write}
use nexus_agent_platform.Atlas.Service.Pending.{IsSound, IsBased, Pending}

module _ {T : Type 0} where
  pub record Grows (db db' : Database T) : Type 0 where
    pub jobs :
        (id : ℕ) (row : JobRow T)
        → find_job id db.jobs ≡ some row
        → (row' : JobRow T) × (find_job id db'.jobs ≡ some row')
          × ((row' ≡ row) ⊎ (row.revision < row'.revision))
    pub events : (new : List (EventRow T)) × (db'.events ≡ db.events ++ new)
    pub commands :
        (id : String) (row : CommandRow T)
        → find_command id db.commands ≡ some row
        → find_command id db'.commands ≡ some row

  pub Grows-refl : (db : Database T) → Grows db db
  Grows-refl db = record {
    jobs = λ id row h. (row, h, inl refl);
    events = ([], sym (append-nil db.events));
    commands = λ id row h. h;
  }

  pub Grows-trans : (a b c : Database T) → Grows a b → Grows b c → Grows a c
  Grows-trans a b c g k = record {
    jobs = λ id row h.
        let (row1, h1, o1) = g.jobs id row h in
        let (row2, h2, o2) = k.jobs id row1 h1 in (row2, h2, later row row1 row2 o1 o2);
    events = (
      g.events.0 ++ k.events.0,
      k.events.1
          ∙ ap (λ l. l ++ k.events.0) g.events.1
          ∙ append_assoc a.events g.events.0 k.events.0,
    );
    commands = λ id row h. k.commands id row (g.commands id row h);
  }
    where
      later :
          (row row1 row2 : JobRow T)
          → (row1 ≡ row) ⊎ (row.revision < row1.revision)
          → (row2 ≡ row1) ⊎ (row1.revision < row2.revision)
          → (row2 ≡ row) ⊎ (row.revision < row2.revision)
      later row row1 row2 (inl e) (inl f) = inl (f ∙ e)
      later row row1 row2 (inl e) (inr f) =
          inr (subst (λ (r : JobRow T). r.revision < row2.revision) e f)
      later row row1 row2 (inr e) (inl f) =
          inr (subst (λ (r : JobRow T). row.revision < r.revision) (sym f) e)
      later row row1 row2 (inr e) (inr f) = inr (omega arith)

  find_command-append :
      (id : String) (rows : List (CommandRow T)) (new : CommandRow T) {row : CommandRow T}
      → find_command id rows ≡ some row
      → find_command id (rows ++ new ∷ []) ≡ some row
  unfolding find_command
  find_command-append id [] new h = absurd (cc)
  find_command-append id (r ∷ rows) new {row} h =
      ground (arith, find_command-append id rows new {row = row})

module _ {T : Type 0} (codec : Codec T) where
  -- A plan stays pending while the tables grow.
  pub Pending-Grows :
      (plan : Plan) (db db' : Database T)
      → Grows db db'
      → Pending codec plan db
      → Pending codec plan db'
  Pending-Grows (replay job) db db' g p = tt
  Pending-Grows (write none after event command) db db' g p = p
  Pending-Grows (write (some expected) after event command) db db' g p =
      let (source, up, from, linked, based) = p.9 in
      let (row, found, order) = g.jobs after.job_id based.row based.found in
      (
        p.0,
        p.1,
        p.2,
        p.3,
        p.4,
        p.5,
        p.6,
        p.7,
        p.8,
        (source, up, from, linked, moved expected source after.job_id row based found order),
      )
    where
      moved :
          (expected : ℕ) (source : JobStatus) (id : ℕ) (row : JobRow T)
          (b : IsBased codec expected source id db)
          → find_job id db'.jobs ≡ some row
          → (row ≡ b.row) ⊎ (b.row.revision < row.revision)
          → IsBased codec expected source id db'
      moved expected source id row b found (inl same) = record {
        row = row;
        found = found;
        not_before = subst (λ (r : JobRow T). expected ≤ r.revision) (sym same) b.not_before;
        agrees =
            subst (λ (r : JobRow T). r.revision ≡ expected → r.status ≡ source) (sym same) b.agrees;
      }
      moved expected source id row b found (inr above) = record {
        row = row;
        found = found;
        not_before = omega (arith, b.not_before);
        agrees = λ e. absurd (omega (arith, b.not_before));
      }

  -- The tables after a creation, and after an update.
  abbrev inserted : Job → AuditEvent → CommandRecord → Database T → Database T
  inserted after event command db = record {
    jobs = db.jobs ++ job_row codec after ∷ [];
    events = db.events ++ event_row codec event ∷ [];
    commands = db.commands ++ command_row codec command after ∷ [];
  }

  abbrev replaced : ℕ → Job → AuditEvent → CommandRecord → Database T → Database T
  replaced expected after event command db = record {
    jobs = update_rows (job_row codec after) expected db.jobs;
    events = db.events ++ event_row codec event ∷ [];
    commands = db.commands ++ command_row codec command after ∷ [];
  }

  inserted-Grows :
      (after : Job) (event : AuditEvent) (command : CommandRecord) (db : Database T)
      → Grows db (inserted after event command db)
  inserted-Grows after event command db = record {
    jobs = λ id row f. (row, find_job-append_some id db.jobs (job_row codec after) f, inl refl);
    events = (event_row codec event ∷ [], refl);
    commands = λ id row f. find_command-append id db.commands (command_row codec command after) f;
  }

  replaced-Grows :
      (expected : ℕ) (after : Job) (event : AuditEvent) (command : CommandRecord) (db : Database T)
      → Distinct db.jobs
      → after.revision ≡ expected + 1
      → count_rows after.job_id expected db.jobs ≡ 1
      → Grows db (replaced expected after event command db)
  unfolding job_row
  replaced-Grows expected after event command db d up n =
      let new : JobRow T = job_row codec after in
      let (old, f, due, k) = find_job-update_rows_self expected new db.jobs d n in
      record {
        jobs = λ id row found. elim (ℕ_discrete new.job_id id) [
          | yes e ↦
              let found' : find_job new.job_id db.jobs ≡ some row = rw e found in
              let same : old ≡ row = cc (f, found') in
              (
                new,
                rw (← e) k,
                inr (
                    subst (λ (r : JobRow T). r.revision < new.revision) same
                      (omega (arith, due, up))),
              )
          | no ne ↦ (row, find_job-update_rows_other id expected new db.jobs ne ∙ found, inl refl)
        ];
        events = (event_row codec event ∷ [], refl);
        commands = λ id row found.
            find_command-append id db.commands (command_row codec command after) found;
      }

  -- A lawful transaction makes the tables grow.
  pub write_all-Grows :
      (expected : Option ℕ) (after : Job) (event : AuditEvent) (command : CommandRecord)
      (db db' : Database T)
      → Distinct db.jobs
      → IsLawful codec IsSound expected after event command db
      → write_all codec expected after event command db ≡ ok db'
      → Grows db db'
  unfolding write_all write_job write_event
  write_all-Grows none after event command db db' d l h =
      subst (Grows db) (ground arith) (inserted-Grows after event command db)
  write_all-Grows (some expected) after event command db db' d l h =
      subst (Grows db) (ground arith)
        (replaced-Grows expected after event command db d l.fits.1 (ground arith))
