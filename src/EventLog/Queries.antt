-- ===== src/EventLog/Queries.antt =====
-- What the queries of src/cee_core/event_log.py answer.
use cognitive_execution_engi.Prelude.{
  String, ◌≡◌, refl, ap, ◌==◌, ◌||◌, Bool, true, false, [], ◌∷◌, ◌++◌, arith, keep,
}
use cognitive_execution_engi.Outcome.{Outcome, ok, raise, attribute_error}
use cognitive_execution_engi.EventLog.{
  commitment_events, EventLog, EventRecord, by_trace, trace_of, revision_events,
}

module _ {F : Type 0} where
  -- a record that has no trace id
  abbrev pub untraced : EventRecord F → Bool
  untraced (EventRecord.commitment e) = true
  untraced (EventRecord.revision e) = true
  untraced _ = false

  unfoldable pub any_untraced : EventLog F → Bool
  any_untraced [] = false
  any_untraced (e ∷ log) = untraced e || any_untraced log

  -- the trace id of a record that has one
  abbrev pub has_trace : String → EventRecord F → Bool
  has_trace id (EventRecord.event e) = e.trace_id == id
  has_trace id (EventRecord.deliberation e) = e.trace_id == id
  has_trace id (EventRecord.approval e) = e.decision.transition_trace_id == id
  has_trace id (EventRecord.tool_call e) = e.call.call_id == id
  has_trace id (EventRecord.tool_result e) = e.call_id == id
  has_trace id (EventRecord.observation e) = e.observation.call_id == id
  has_trace id _ = false

  -- what the query is to give: an error on a log with a commitment or a revision, else the records
  -- of the trace
  abbrev pub traced : Bool → String → EventLog F → Outcome (EventLog F)
  traced true id log = raise (attribute_error "trace_id")
  traced false id log = ok (keep (has_trace id) log)

  -- A query by trace id gives the records with that id in order on a log without commitments and
  -- revisions, and raises an attribute error on every other log.
  pub by_trace_lem :
      (id : String) (log : EventLog F) → by_trace id log ≡ traced (any_untraced log) id log
  unfolding by_trace trace_of any_untraced
  by_trace_lem id [] = refl
  by_trace_lem id (EventRecord.event e ∷ log) = ground (arith, by_trace_lem id log)
  by_trace_lem id (EventRecord.commitment e ∷ log) = refl
  by_trace_lem id (EventRecord.revision e ∷ log) = refl
  by_trace_lem id (e ∷ log) = ground (arith, by_trace_lem id log)

  -- The revisions of a log that has grown.
  pub revision_events-append :
      (log more : EventLog F)
      → revision_events (log ++ more) ≡ revision_events log ++ revision_events more
  unfolding revision_events
  revision_events-append [] more = refl
  revision_events-append (EventRecord.revision e ∷ log) more =
      ap (λ es. e ∷ es) (revision_events-append log more)
  revision_events-append (_ ∷ log) more = revision_events-append log more

  pub commitment_events-append :
      (log more : EventLog F)
      → commitment_events (log ++ more) ≡ commitment_events log ++ commitment_events more
  unfolding commitment_events
  commitment_events-append [] more = refl
  commitment_events-append (EventRecord.commitment e ∷ log) more =
      ap (λ es. e ∷ es) (commitment_events-append log more)
  commitment_events-append (_ ∷ log) more = commitment_events-append log more
