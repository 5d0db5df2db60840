-- ===== src/Atlas/Service/Runs/Conflict.antt =====
-- Two plans on one revision of a job: the second to be committed is refused.
use nexus_agent_platform.Common.{
  ℕ, ◌+◌, ◌<◌, ◌≡◌, refl, sym, ap, ◌∙◌, subst, ◌≢◌, ◌⊎◌, inl, inr, none, some, List, [], ◌∷◌, arith,
  ◌==◌, ==_iff, Bool-cases, ok, err,
}
use mathlib.Core.List.{Memᴰ}
use nexus_agent_platform.Atlas.Models.{AuditEvent, CommandRecord, Job}
use nexus_agent_platform.Atlas.Errors.{concurrency}
use nexus_agent_platform.Atlas.Storage.Tables.{Database, JobRow, find_command, find_job}
use nexus_agent_platform.Atlas.Storage.Rows.{Distinct, count_rows-none, find_job-update_rows_self}
use nexus_agent_platform.Atlas.Storage.Write.{
  job_row, update_rows, count_rows, write_all, write_job, write_event, update,
}
use nexus_agent_platform.Atlas.Service.Requests.{Platform}
use nexus_agent_platform.Atlas.Service.Plans.{write, commit}
use nexus_agent_platform.Atlas.Service.Pending.{IsFaithful, Normality, Pending}
use nexus_agent_platform.Atlas.Service.Pending.Growth.{Pending-Grows}
use nexus_agent_platform.Atlas.Service.Runs.{System, finish, Run, Reached}
use nexus_agent_platform.Atlas.Service.Runs.Reached.{
  Pending-member, Reached-IsOrderly, Run-keeps, Step-keeps,
}

module _ {T : Type 0} where
  -- The one row of a job at another revision is not counted.
  count_rows-other :
      (id expected : ℕ) (rows : List (JobRow T)) (row : JobRow T)
      → Distinct rows
      → find_job id rows ≡ some row
      → row.revision ≢ expected
      → count_rows id expected rows ≡ 0
  unfolding find_job count_rows
  count_rows-other id expected [] row d h ne = refl
  count_rows-other id expected (r ∷ rs) row d h ne = elim (Bool-cases (r.job_id == id)) [
    | inl e ↦
        let own : r.job_id ≡ id = (==_iff _ _).0 e in
        let same : r ≡ row = ground (arith, e) in
        let other : r.revision ≢ expected =
          λ q. ne (ap (λ (x : JobRow T). x.revision) (sym same) ∙ q) in
        ground (
          arith,
          e,
          other,
          count_rows-none id expected rs (subst (λ i. find_job i rs ≡ none) own d.0),
        )
    | inr e ↦ ground (arith, e, count_rows-other id expected rs row d.1 (ground (arith, e)) ne)
  ]

module _ {T : Type 0} (platform : Platform T) where
  -- A new command that is committed puts its job's row at the next revision.
  written_row :
      (n : ℕ) (after : Job) (event : AuditEvent) (command : CommandRecord) (db db' : Database T)
      {response : Job}
      → Distinct db.jobs
      → find_command command.command_id db.commands ≡ none
      → commit platform (write (some n) after event command) db ≡ ok (response, db')
      → find_job after.job_id db'.jobs ≡ some (job_row platform.codec after)
  unfolding commit update write_all write_job write_event job_row
  written_row n after event command db db' d new h =
      let once : count_rows after.job_id n db.jobs ≡ 1 = ground (arith, new) in
      let same : update_rows (job_row platform.codec after) n db.jobs ≡ db'.jobs =
        ground (arith, new) in
      let found = find_job-update_rows_self n (job_row platform.codec after) db.jobs d once in
      subst (λ rows. find_job after.job_id rows ≡ some (job_row platform.codec after)) same found.3

  -- A plan whose job has moved on is refused.
  stale_commit :
      (n : ℕ) (after : Job) (event : AuditEvent) (command : CommandRecord) (db : Database T)
      (row : JobRow T)
      → Distinct db.jobs
      → Pending platform.codec (write (some n) after event command) db
      → find_command command.command_id db.commands ≡ none
      → find_job after.job_id db.jobs ≡ some row
      → row.revision ≢ n
      → commit platform (write (some n) after event command) db ≡ err concurrency
  unfolding commit update write_all write_job
  stale_commit n after event command db row d p new found ne =
      let counted = count_rows-other after.job_id n db.jobs row d found ne in
      ground (arith, new, counted, p.3, p.4, p.5, p.6, p.9.1)

module _ {T : Type 0} (platform : Platform T) (Normal : Normality)
    (faithful : IsFaithful platform.codec Normal) where
  -- With a codec that is faithful on normal jobs and events, of two pending plans on the same
  -- revision of a job, once one is committed as a new command, the commit of the other is refused
  -- with a concurrency error after any run in which its own command stays new.
  pub second_writer_refused :
      (s t : System T) (n : ℕ) (a1 a2 : Job) (e1 e2 : AuditEvent) (c1 c2 : CommandRecord)
      (response : Job) (db : Database T)
      → Reached platform Normal s
      → Memᴰ (write (some n) a1 e1 c1) s.plans
      → Memᴰ (write (some n) a2 e2 c2) s.plans
      → a2.job_id ≡ a1.job_id
      → find_command c1.command_id s.db.commands ≡ none
      → commit platform (write (some n) a1 e1 c1) s.db ≡ ok (response, db)
      → Run platform Normal (record { db = db; plans = s.plans }) t
      → find_command c2.command_id t.db.commands ≡ none
      → commit platform (write (some n) a2 e2 c2) t.db ≡ err concurrency
  second_writer_refused s t n a1 a2 e1 e2 c1 c2 response db reached m1 m2 same new1 done run new2 =
      let o = Reached-IsOrderly platform Normal faithful reached in
      let p1 = Pending-member platform (write (some n) a1 e1 c1) s.plans s.db m1 o.pending in
      let (o1, _) =
        Step-keeps platform Normal faithful {s = s}
          (finish (write (some n) a1 e1 c1) response db m1 done) o in
      let p2 = Pending-member platform (write (some n) a2 e2 c2) s.plans db m2 o1.pending in
      let (o2, grown) = Run-keeps platform Normal faithful run o1 in
      let p2' = Pending-Grows platform.codec (write (some n) a2 e2 c2) db t.db grown p2 in
      let at_next = written_row platform n a1 e1 c1 s.db db o.inv.distinct new1 done in
      let (row, found, order) = grown.jobs a1.job_id (job_row platform.codec a1) at_next in
      stale_commit platform n a2 e2 c2 t.db row o2.inv.distinct p2' new2 (rw same found)
        (moved n (job_row platform.codec a1) row (unfold job_row in p1.9.1) order)
    where
      moved :
          (m : ℕ) (old row : JobRow T)
          → old.revision ≡ m + 1
          → (row ≡ old) ⊎ (old.revision < row.revision)
          → row.revision ≢ m
      moved m old row up (inl e) =
          subst (λ (r : JobRow T). r.revision ≢ m) (sym e) (omega (arith, up))
      moved m old row up (inr above) = omega (arith, up)
