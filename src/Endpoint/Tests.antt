-- ===== src/Endpoint/Tests.antt =====
-- A write storm against the PLC, in three operations, with room for two.
use dtlab_control_center.Prelude.{
  ℕ, ◌≡◌, refl, false, some, List, [], ◌∷◌, Text, codes, text_eq, map, All,
}
use dtlab_control_center.Endpoint.Episodes.{
  Outcome, processed, rejected, Observation, Settings, new_episode, same_write, bump, count_write,
  update_shutdown, update_episode,
}
use dtlab_control_center.Endpoint.Aggregator.{
  Event, Input, seen, quiet, render, close_where, expired, observe_episode, observe_in, run,
  no_episodes,
}
use dtlab_control_center.Endpoint.Counts.{run-Balanced}
use dtlab_control_center.Endpoint.Balance.{BalancedEvent}

abbrev settings : Settings
settings = record {
  sensor_id = codes "sensor";
  sensor_version = codes "1";
  boot_id = codes "boot";
  emit_interval = 5;
  quiet_window = 15;
  shutdown_window = 2;
  max_operation_buckets = 2;
  sha256_text = λ t. t;
  decimal = λ n. n ∷ [];
}

abbrev write : ℕ → ℕ → Outcome → Observation
write now address outcome = record {
  observed_at = now ∷ [];
  observed_epoch = now;
  source = record { ip = codes "10.0.0.9"; port = some 4000; classification = codes "unknown" };
  destination = record { asset_id = codes "plc"; ip = codes "10.0.0.1"; port = 502; unit_id = 1 };
  operation = record {
    function_code = 6;
    unit_id = 1;
    address = address;
    quantity = 1;
    values = 0 ∷ [];
    values_sha256 = codes "0";
    values_truncated = false;
  };
  outcome_state = outcome;
}

abbrev storm : List Input
storm =
    seen (write 100 4 processed)
    ∷ seen (write 101 3 processed)
    ∷ seen (write 101 4 rejected)
    ∷ seen (write 102 16 processed)
    ∷ quiet 130
    ∷ []

-- The first write is reported at once, and the shutdown as soon as its third address is written; the
-- episode ends without a further event.
storm_events :
    map {B = ℕ × ℕ × ℕ × Text}
      (λ (v : Event). (v.revision, v.request_count, v.dropped_operation_buckets, v.priority))
      (run settings storm no_episodes).1
    ≡ (1, 1, 0, codes "p2") ∷ (2, 4, 1, codes "p1") ∷ []
unfolding run close_where observe_in observe_episode update_episode update_shutdown new_episode
    render count_write expired text_eq same_write bump
storm_events = refl

run-Balanced_example : All (BalancedEvent settings) (run settings storm no_episodes).1
run-Balanced_example = run-Balanced settings storm
