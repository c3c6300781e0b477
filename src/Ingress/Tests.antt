-- ===== src/Ingress/Tests.antt =====
-- Events of the sensor at the receiver's checks.
use dtlab_control_center.Prelude.{
  ℕ, ◌≡◌, ◌↔◌, refl, false, some, List, [], ◌∷◌, Text, codes, text_eq, map, All,
}
use dtlab_control_center.Endpoint.Episodes.{
  Outcome, processed, Observation, Settings, new_episode, same_write, bump, insert_code,
  count_outcome, count_write, update_shutdown, update_episode,
}
use dtlab_control_center.Endpoint.Aggregator.{
  Event, Input, seen, quiet, render, close_where, expired, observe_episode, observe_in, run,
  no_episodes,
}
use dtlab_control_center.Ingress.Checks.{
  SemanticError, wrong_classification, wrong_severity, wrong_priority, write_event, Parsed, instant,
  within, is_shutdown_sequence, semantic_errors, document_of,
}
use dtlab_control_center.Ingress.Agreement.{IsAcceptable, run-accepted}

abbrev settings : Settings
settings = record {
  sensor_id = codes "sensor";
  sensor_version = codes "1";
  boot_id = codes "boot";
  emit_interval = 5;
  quiet_window = 15;
  shutdown_window = 2;
  max_operation_buckets = 8;
  sha256_text = λ t. t;
  decimal = λ n. n ∷ [];
}

abbrev write : ℕ → ℕ → Outcome → Observation
write now address outcome = record {
  observed_at = now ∷ [];
  observed_epoch = now;
  source = record { ip = codes "10.0.0.9"; port = some 4000; classification = codes "unknown" };
  destination = record { asset_id = codes "plc"; ip = codes "10.0.0.1"; port = 502; unit_id = 1 };
  operation = record {
    function_code = 6;
    unit_id = 1;
    address = address;
    quantity = 1;
    values = 0 ∷ [];
    values_sha256 = codes "0";
    values_truncated = false;
  };
  outcome_state = outcome;
}

abbrev read_time : Text → Parsed
read_time [] = instant 0
read_time (t ∷ rest) = instant t

-- The three zeros of a shutdown, three seconds apart where the window is two
abbrev slow_shutdown : List Input
slow_shutdown =
    seen (write 100 3 processed)
    ∷ seen (write 103 4 processed)
    ∷ seen (write 106 16 processed)
    ∷ quiet 130
    ∷ []

-- The sensor reports writes, and the receiver, which knows no window, wants a shutdown: of the two events the last one
-- is refused.
slow_shutdown_refused :
    map {B = List SemanticError}
      (λ (v : Event). semantic_errors read_time (write_event (document_of v)))
      (run settings slow_shutdown no_episodes).1
    ≡ [] ∷ (wrong_classification ∷ wrong_severity ∷ wrong_priority ∷ []) ∷ []
unfolding run close_where observe_in observe_episode update_episode update_shutdown new_episode
    render count_write expired text_eq same_write bump semantic_errors document_of within
    insert_code count_outcome is_shutdown_sequence
slow_shutdown_refused = refl

run-accepted_example :
    All
      (λ v.
        (semantic_errors read_time (write_event (document_of v)) ≡ []) ↔ IsAcceptable read_time v)
      (run settings slow_shutdown no_episodes).1
run-accepted_example = run-accepted settings slow_shutdown read_time
