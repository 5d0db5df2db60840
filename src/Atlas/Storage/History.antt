-- ===== src/Atlas/Storage/History.antt =====
-- The audit history of a job as a log: revisions in order, each status linked to the next.
use nexus_agent_platform.Common.{
  ℕ, ◌+◌, ◌≤◌, ◌≡◌, refl, sym, ap, ◌∙◌, subst, ◌⊎◌, true, Option, none, some, List, [], ◌∷◌, ◌++◌,
  map, arith, length, last_or, ok, >>=-eq-ok,
}
use nexus_agent_platform.Atlas.Models.{AuditEvent, JobStatus}
use nexus_agent_platform.Atlas.StateMachine.{permitted}
use nexus_agent_platform.Atlas.Storage.Tables.{Codec, EventRow, order_by, insert_ordered}
use nexus_agent_platform.Atlas.Storage.Read.{event_from_row, events_from_rows, sequence_before}

-- A job begins as created, moves along the lifecycle graph, and stays in place for a review.
abbrev pub Linked : Option JobStatus → JobStatus → Type 0
Linked none target = target ≡ JobStatus.created
Linked (some source) target =
    (permitted source target ≡ true)
    ⊎ ((source ≡ JobStatus.awaiting_review) × (target ≡ JobStatus.awaiting_review))

-- An event in its place: the n-th of the log, counted from 0, after the status `source`.
pub record IsNext (n : ℕ) (source : Option JobStatus) (event : AuditEvent) : Type 0 where
  pub in_sequence : event.sequence ≡ n + 1
  pub at_revision : event.job_revision ≡ n
  pub from_source : event.from_status ≡ source
  pub linked : Linked source event.to_status

-- The events lead from n events and the status `source` to m events and the status `target`.
abbrev pub Log : ℕ → Option JobStatus → List AuditEvent → ℕ → Option JobStatus → Type 0
Log n source [] m target = (n ≡ m) × (source ≡ target)
Log n source (e ∷ es) m target = IsNext n source e × Log (n + 1) (some e.to_status) es m target

pub Log-append :
    (n : ℕ) (source : Option JobStatus) (es : List AuditEvent) (m : ℕ) (target : Option JobStatus)
    (e : AuditEvent)
    → Log n source es m target
    → IsNext m target e
    → Log n source (es ++ e ∷ []) (m + 1) (some e.to_status)
Log-append n source [] m target e h k = (
  record {
    in_sequence = ground arith;
    at_revision = ground arith;
    from_source = k.from_source ∙ sym h.1;
    linked = subst (λ s. Linked s e.to_status) (sym h.1) k.linked;
  },
  (ap (λ t. t + 1) h.0, refl),
)
Log-append n source (x ∷ es) m target e h k =
    (h.0, Log-append (n + 1) (some x.to_status) es m target e h.1 k)

pub Log-length :
    (n : ℕ) (source : Option JobStatus) (es : List AuditEvent) (m : ℕ) (target : Option JobStatus)
    → Log n source es m target
    → n + length es ≡ m
Log-length n source [] m target h = omega (arith, h.0)
Log-length n source (e ∷ es) m target h =
    omega (arith, Log-length (n + 1) (some e.to_status) es m target h.1)

pub Log-last :
    (d n : ℕ) (source : Option JobStatus) (es : List AuditEvent) (m : ℕ) (target : Option JobStatus)
    → Log n source es m target
    → d + 1 ≡ n
    → last_or d (map (λ e. e.job_revision) es) + 1 ≡ m
Log-last d n source [] m target h k = omega (arith, h.0)
Log-last d n source (e ∷ es) m target h k =
    Log-last e.job_revision (n + 1) (some e.to_status) es m target h.1
      (omega (arith, h.0.at_revision))

module _ {T : Type 0} (codec : Codec T) where
  events_from_rows-cons :
      (r : EventRow T) (rows : List (EventRow T)) {es : List AuditEvent}
      → events_from_rows codec (r ∷ rows) ≡ ok es
      → (x : AuditEvent) × (xs : List AuditEvent) × (event_from_row codec r ≡ ok x)
        × (events_from_rows codec rows ≡ ok xs)
        × (x ∷ xs ≡ es)
  events_from_rows-cons r rows h =
      let (x, p, h1) = >>=-eq-ok (event_from_row codec r) _ h in
      let (xs, q, h2) = >>=-eq-ok (events_from_rows codec rows) _ h1 in (x, xs, p, q, cc)

  pub events_from_rows-append :
      (rows : List (EventRow T)) (es : List AuditEvent) (row : EventRow T) (e : AuditEvent)
      → events_from_rows codec rows ≡ ok es
      → event_from_row codec row ≡ ok e
      → events_from_rows codec (rows ++ row ∷ []) ≡ ok (es ++ e ∷ [])
  events_from_rows-append [] es row e h k = ground (arith, k)
  events_from_rows-append (r ∷ rows) es row e h k =
      let c = events_from_rows-cons r rows h in
      rw (c.2, events_from_rows-append rows c.1 row e c.3 k) (ap (λ l. ok (l ++ e ∷ [])) c.4)

  event_from_row-sequence :
      (row : EventRow T) {e : AuditEvent}
      → event_from_row codec row ≡ ok e
      → row.sequence ≡ e.sequence
  unfolding event_from_row
  event_from_row-sequence row h = ground arith

  -- A row of a sequence number that is not above any other's stays in front.
  insert_ordered-front :
      (row : EventRow T) (rows : List (EventRow T)) (es : List AuditEvent) (m : ℕ)
      (source target : Option JobStatus) (n : ℕ)
      → events_from_rows codec rows ≡ ok es
      → Log n source es m target
      → row.sequence ≤ n
      → insert_ordered sequence_before row rows ≡ row ∷ rows
  unfolding insert_ordered
  insert_ordered-front row [] es m source target n h l le = refl
  insert_ordered-front row (r ∷ rows) es m source target n h l le =
      let c = events_from_rows-cons r rows h in
      let first : Log n source (c.0 ∷ c.1) m target =
        subst (λ (k : List AuditEvent). Log n source k m target) (sym c.4) l in
      ground (arith, event_from_row-sequence r c.2, first.0.in_sequence)

  -- The rows of a log stand in the order of their sequence numbers.
  pub order_by-Log :
      (rows : List (EventRow T)) (es : List AuditEvent) (m : ℕ) (source target : Option JobStatus)
      (n : ℕ)
      → events_from_rows codec rows ≡ ok es
      → Log n source es m target
      → order_by sequence_before rows ≡ rows
  unfolding order_by
  order_by-Log [] es m source target n h l = refl
  order_by-Log (r ∷ rows) es m source target n h l =
      let c = events_from_rows-cons r rows h in
      let whole : Log n source (c.0 ∷ c.1) m target =
        subst (λ (k : List AuditEvent). Log n source k m target) (sym c.4) l in
      rw (order_by-Log rows c.1 m (some c.0.to_status) target (n + 1) c.3 whole.1) (
        insert_ordered-front r rows c.1 m (some c.0.to_status) target (n + 1) c.3 whole.1
          (omega (arith, event_from_row-sequence r c.2, whole.0.in_sequence)))
