-- ===== src/Ingress/Checks.antt =====
-- The checks of src/dtlab/services/host_ot_events.py on the content of an event, for documents that
-- the JSON schema accepts: their fields have the types below.
use dtlab_control_center.Prelude.{
  ℕ, ◌+◌, Bool, true, false, ◌&&◌, ◌||◌, not, List, [], ◌∷◌, ◌++◌, Text, codes, text_eq, any, map,
  ltb, ◌==◌, if◌then◌else◌,
}
use dtlab_control_center.Endpoint.Episodes.{Source, Destination, Bucket, Outcomes}
use dtlab_control_center.Endpoint.Aggregator.{Event}

-- The fields of a `modbus_write` document that the module reads
pub record Document : Type 0 where
  pub event_id : Text
  pub episode_id : Text
  pub revision : ℕ
  pub first_observed_at : Text
  pub last_observed_at : Text
  pub source : Source
  pub destination : Destination
  pub function_codes : List ℕ
  pub writes : List Bucket
  pub request_count : ℕ
  pub dropped_operation_buckets : ℕ
  pub states : Outcomes
  pub classification : Text
  pub severity : Text
  pub priority : Text
  pub truth : Text
  pub source_record_id : Text
  pub notes : List Text

-- An event that the schema accepts; of a heartbeat, the fields that are checked
pub data HostEvent : Type 0 where
  write_event : Document → HostEvent
  heartbeat : Text → Text → Text → Text → Text → HostEvent

-- What `datetime.fromisoformat` makes of a text
pub data Parsed : Type 0 where
  unreadable naive : Parsed
  instant : ℕ → Parsed

-- The messages of `_semantic_errors`
pub data SemanticError : Type 0 where
  episode_id_differs source_record_differs naive_time last_before_first : SemanticError
  codes_differ wrong_request_count wrong_states : SemanticError
  wrong_classification wrong_severity wrong_priority : SemanticError
  observed_with_outcome nothing_processed nothing_rejected : SemanticError

abbrev pub error_if : Bool → SemanticError → List SemanticError
error_if b e = if b then e ∷ [] else []

-- Whether the values from the address on have a zero at the register
unfoldable pub zero_from : ℕ → List ℕ → ℕ → Bool
zero_from address [] register = false
zero_from address (v ∷ rest) register =
    ((address == register) && (v == 0)) || zero_from (address + 1) rest register

-- `0 in _register_values(event).get(register, set())`
unfoldable pub wrote_zero : ℕ → List Bucket → Bool
unfolding zero_from
wrote_zero register [] = false
wrote_zero register (b ∷ rest) =
    (not b.operation.values_truncated && zero_from b.operation.address b.operation.values register)
    || wrote_zero register rest

-- is_shutdown_sequence
unfoldable pub is_shutdown_sequence : List Bucket → Bool
unfolding wrote_zero
is_shutdown_sequence writes = wrote_zero 3 writes && wrote_zero 4 writes && wrote_zero 16 writes

-- `set(xs) <= set(ys)`
unfoldable pub within : List ℕ → List ℕ → Bool
within [] ys = true
within (x ∷ xs) ys = any (λ y. x == y) ys && within xs ys

abbrev pub codes_of : List Bucket → List ℕ
codes_of writes = map (λ (b : Bucket). b.operation.function_code) writes

unfoldable pub total_count : List Bucket → ℕ
total_count [] = 0
total_count (b ∷ rest) = b.count + total_count rest

-- The time errors of `_parse_time`, and that of the order
abbrev pub time_errors : Parsed → Parsed → List SemanticError
time_errors (instant first) (instant last) = error_if (ltb last first) last_before_first
time_errors naive naive = naive_time ∷ naive_time ∷ []
time_errors naive _ = naive_time ∷ []
time_errors _ naive = naive_time ∷ []
time_errors _ _ = []

-- The checks of every event
unfoldable pub identity_errors :
    (Text → Parsed) → Text → Text → Text → Text → Text → List SemanticError
identity_errors time event_id episode_id source_record_id first last =
    error_if (not (text_eq episode_id event_id)) episode_id_differs
    ++ error_if (not (text_eq source_record_id event_id)) source_record_differs
    ++ time_errors (time first) (time last)

unfoldable pub detection_errors : Bool → Text → Text → Text → List SemanticError
detection_errors shutdown classification severity priority =
    error_if
      (not (
        text_eq classification
          (if shutdown then codes "process_shutdown_sequence" else codes "modbus_write")))
      wrong_classification
    ++ error_if (not (text_eq severity (if shutdown then codes "critical" else codes "high")))
        wrong_severity
    ++ error_if (not (text_eq priority (if shutdown then codes "p1" else codes "p2")))
        wrong_priority

unfoldable pub truth_errors : Text → Outcomes → List SemanticError
truth_errors truth states =
    error_if
      (text_eq truth (codes "endpoint_request_observed")
        && not ((states.processed_count == 0) && (states.rejected_count == 0)))
      observed_with_outcome
    ++ error_if (text_eq truth (codes "endpoint_server_processed") && (states.processed_count == 0))
        nothing_processed
    ++ error_if (text_eq truth (codes "endpoint_server_rejected") && (states.rejected_count == 0))
        nothing_rejected

unfoldable pub count_errors : Document → List SemanticError
unfolding total_count
count_errors d =
    error_if (not (total_count d.writes + d.dropped_operation_buckets == d.request_count))
      wrong_request_count
    ++ error_if
        (not (
          d.states.processed_count + (d.states.rejected_count + d.states.unknown_count)
          == d.request_count))
        wrong_states

-- `_semantic_errors`, in order
unfoldable pub semantic_errors : (Text → Parsed) → HostEvent → List SemanticError
unfolding identity_errors count_errors detection_errors truth_errors
semantic_errors time (heartbeat event_id episode_id source_record_id first last) =
    identity_errors time event_id episode_id source_record_id first last
semantic_errors time (write_event d) =
    identity_errors time d.event_id d.episode_id d.source_record_id d.first_observed_at
      d.last_observed_at
    ++ error_if
        (not (
          within d.function_codes (codes_of d.writes)
          && within (codes_of d.writes) d.function_codes))
        codes_differ
    ++ count_errors d
    ++ detection_errors (is_shutdown_sequence d.writes) d.classification d.severity d.priority
    ++ truth_errors d.truth d.states

-- The document that `_render` writes of an event
unfoldable pub document_of : Event → Document
document_of v = record {
  event_id = v.event_id;
  episode_id = v.event_id;
  revision = v.revision;
  first_observed_at = v.first_observed_at;
  last_observed_at = v.last_observed_at;
  source = v.source;
  destination = v.destination;
  function_codes = v.function_codes;
  writes = v.writes;
  request_count = v.request_count;
  dropped_operation_buckets = v.dropped_operation_buckets;
  states = v.outcome_states;
  classification = v.classification;
  severity = v.severity;
  priority = v.priority;
  truth = v.truth;
  source_record_id = v.event_id;
  notes =
      codes "Evidenza prodotta dal sensore endpoint PLC, non da Cisco Cyber Vision."
      ∷ codes "L'indirizzo IP non identifica il processo o l'intento dell'operatore."
      ∷ [];
}
