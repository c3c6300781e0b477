-- ===== src/Endpoint/Episodes.antt =====
-- The episodes of integrations/plc_endpoint_audit/dtlab_plc_audit/core.py. Epochs and windows are
-- microseconds as natural numbers in place of floats, and register values natural numbers.
use dtlab_control_center.Prelude.{
  ℕ, ◌+◌, ◌-◌, Bool, true, false, ◌&&◌, ◌||◌, not, Option, none, some, List, [], ◌∷◌, ◌++◌, Text,
  codes, text_eq, any, length, ltb, leb, ◌==◌, is_some, if◌then◌else◌,
}

pub data Outcome : Type 0 where
  processed rejected unknown : Outcome

pub record Source : Type 0 where
  pub ip : Text
  pub port : Option ℕ
  pub classification : Text

pub record Destination : Type 0 where
  pub asset_id : Text
  pub ip : Text
  pub port : ℕ
  pub unit_id : ℕ

-- What extract_modbus_write returns
pub record Operation : Type 0 where
  pub function_code : ℕ
  pub unit_id : ℕ
  pub address : ℕ
  pub quantity : ℕ
  pub values : List ℕ
  pub values_sha256 : Text
  pub values_truncated : Bool

pub record Observation : Type 0 where
  pub observed_at : Text
  pub observed_epoch : ℕ
  pub source : Source
  pub destination : Destination
  pub operation : Operation
  pub outcome_state : Outcome

-- The addresses of the configuration
pub record Addresses : Type 0 where
  pub local_ips : List Text
  pub authorized_hmi_ips : List Text
  pub security_test_ips : List Text

-- classify_source
unfoldable pub classify_source : Text → Text → Addresses → Text
unfolding text_eq
classify_source source_ip destination_ip config =
    if not (text_eq source_ip [])
      && (text_eq source_ip destination_ip || any (text_eq source_ip) config.local_ips)
    then codes "plc_self"
    else if any (text_eq source_ip) config.authorized_hmi_ips
    then codes "authorized_hmi"
    else if any (text_eq source_ip) config.security_test_ips
    then codes "security_test"
    else codes "unknown"

-- A value of the `writes` dictionary; its key is that of its operation.
pub record Bucket : Type 0 where
  pub operation : Operation
  pub count : ℕ

-- The `shutdown_seen` dictionary, on its three possible keys
pub record ShutdownSeen : Type 0 where
  pub at_3 : Option ℕ
  pub at_4 : Option ℕ
  pub at_16 : Option ℕ

pub record Outcomes : Type 0 where
  pub processed_count : ℕ
  pub rejected_count : ℕ
  pub unknown_count : ℕ

pub record Episode : Type 0 where
  pub episode_id : Text
  pub episode_sequence : ℕ
  pub revision : ℕ
  pub first_observed_at : Text
  pub last_observed_at : Text
  pub first_epoch : ℕ
  pub last_epoch : ℕ
  pub last_emit_epoch : Option ℕ
  pub source : Source
  pub destination : Destination
  pub function_codes : List ℕ
  pub writes : List Bucket
  pub request_count : ℕ
  pub dropped_operation_buckets : ℕ
  pub outcome_states : Outcomes
  pub last_outcome_state : Outcome
  pub shutdown_seen : ShutdownSeen
  pub shutdown : Bool
  pub dirty : Bool

-- The settings of the aggregator, with `sha256_text` and `str` of the standard library
pub record Settings : Type 0 where
  pub sensor_id : Text
  pub sensor_version : Text
  pub boot_id : Text
  pub emit_interval : ℕ
  pub quiet_window : ℕ
  pub shutdown_window : ℕ
  pub max_operation_buckets : ℕ
  pub sha256_text : Text → Text
  pub decimal : ℕ → Text

-- EpisodeAggregator: the episodes in order of insertion, and the counter of StateStore behind
-- `allocate_sequence`
pub record Aggregator : Type 0 where
  pub episodes : List Episode
  pub next_episode_sequence : ℕ

abbrev pub option_eq : Option ℕ → Option ℕ → Bool
option_eq none none = true
option_eq (some a) (some b) = a == b
option_eq _ _ = false

-- Equality of `_episode_key`, which an episode takes from its first observation
unfoldable pub same_key : Source → Destination → Episode → Bool
same_key s d e =
    text_eq e.source.ip s.ip
    && option_eq e.source.port s.port
    && text_eq e.destination.ip d.ip
    && (e.destination.port == d.port)
    && (e.destination.unit_id == d.unit_id)

-- _new_episode
unfoldable pub new_episode : Settings → ℕ → Observation → Episode
new_episode c sequence o = record {
  episode_id =
      codes "episode:dtlab-host-ot:"
      ++ c.sha256_text (c.sensor_id ++ codes "|" ++ c.boot_id ++ codes "|" ++ c.decimal sequence);
  episode_sequence = sequence;
  revision = 0;
  first_observed_at = o.observed_at;
  last_observed_at = o.observed_at;
  first_epoch = o.observed_epoch;
  last_epoch = o.observed_epoch;
  last_emit_epoch = none;
  source = o.source;
  destination = o.destination;
  function_codes = [];
  writes = [];
  request_count = 0;
  dropped_operation_buckets = 0;
  outcome_states = record { processed_count = 0; rejected_count = 0; unknown_count = 0 };
  last_outcome_state = unknown;
  shutdown_seen = record { at_3 = none; at_4 = none; at_16 = none };
  shutdown = false;
  dirty = false;
}

-- Equality of `_write_key`
unfoldable pub same_write : Operation → Bucket → Bool
same_write o b =
    (b.operation.function_code == o.function_code)
    && (b.operation.address == o.address)
    && (b.operation.quantity == o.quantity)
    && text_eq b.operation.values_sha256 o.values_sha256

-- `bucket["count"] += 1` on the bucket of the operation
unfoldable pub bump : Operation → List Bucket → List Bucket
bump o [] = []
bump o (b ∷ rest) =
    if same_write o b then record b { count = b.count + 1 } ∷ rest else b ∷ bump o rest

unfoldable pub insert_code : ℕ → List ℕ → List ℕ
insert_code c [] = c ∷ []
insert_code c (d ∷ rest) =
    if c == d then d ∷ rest else if ltb c d then c ∷ d ∷ rest else d ∷ insert_code c rest

unfoldable pub count_outcome : Outcome → Outcomes → Outcomes
count_outcome processed s = record s { processed_count = s.processed_count + 1 }
count_outcome rejected s = record s { rejected_count = s.rejected_count + 1 }
count_outcome unknown s = record s { unknown_count = s.unknown_count + 1 }

-- The buckets and the dropped ones after a write
unfoldable pub count_write : Settings → Operation → List Bucket → ℕ → List Bucket × ℕ
count_write c o writes dropped =
    if any (same_write o) writes
    then (bump o writes, dropped)
    else if leb c.max_operation_buckets (length writes)
    then (writes, dropped + 1)
    else (writes ++ record { operation = o; count = 1 } ∷ [], dropped)

unfoldable pub is_zero : List ℕ → Bool
is_zero (v ∷ []) = v == 0
is_zero _ = false

-- The write of a zero to one register that a shutdown consists of
unfoldable pub is_shutdown_write : Operation → Bool
unfolding is_zero
is_shutdown_write o =
    (o.function_code == 6)
    && (o.quantity == 1)
    && is_zero o.values
    && ((o.address == 3) || (o.address == 4) || (o.address == 16))

unfoldable pub note_address : ℕ → ℕ → ShutdownSeen → ShutdownSeen
note_address address now seen =
    if address == 3
    then record seen { at_3 = some now }
    else if address == 4
    then record seen { at_4 = some now }
    else record seen { at_16 = some now }

abbrev pub max2 : ℕ → ℕ → ℕ
max2 a b = if ltb a b then b else a

abbrev pub min2 : ℕ → ℕ → ℕ
min2 a b = if ltb b a then b else a

unfoldable pub spread_within : ℕ → Option ℕ → Option ℕ → Option ℕ → Option Bool
spread_within window (some a) (some b) (some c) =
    some (leb (max2 a (max2 b c) - min2 a (min2 b c)) window)
spread_within _ _ _ _ = none

-- `matched`, or `none` while an address has not been seen
unfoldable pub within_window : ℕ → ShutdownSeen → Option Bool
unfolding spread_within
within_window window seen = spread_within window seen.at_3 seen.at_4 seen.at_16

abbrev or_keep : Option Bool → Bool → Bool
or_keep none old = old
or_keep (some b) old = b

-- _update_shutdown_correlation, on `shutdown_seen` and `shutdown`; the result is whether it escalated.
unfoldable pub update_shutdown : Settings → Episode → Operation → ℕ → Episode × Bool
unfolding is_shutdown_write note_address within_window
update_shutdown c e o now =
    if not (is_shutdown_write o)
    then (e, false)
    else let seen = note_address o.address now e.shutdown_seen in
      let shutdown = or_keep (within_window c.shutdown_window seen) e.shutdown in
      (
        record e { shutdown_seen = seen; shutdown = shutdown },
        is_some (within_window c.shutdown_window seen) && shutdown && not e.shutdown,
      )

-- _update_episode
unfoldable pub update_episode : Settings → Episode → Observation → Episode × Bool
update_episode c e o =
    let counted = count_write c o.operation e.writes e.dropped_operation_buckets in
    let (after, escalated) =
      update_shutdown c
        (record e {
          last_observed_at = o.observed_at;
          last_epoch = o.observed_epoch;
          request_count = e.request_count + 1;
          function_codes = insert_code o.operation.function_code e.function_codes;
          outcome_states = count_outcome o.outcome_state e.outcome_states;
          last_outcome_state = o.outcome_state;
          writes = counted.0;
          dropped_operation_buckets = counted.1;
        })
        o.operation o.observed_epoch in
    (record after { dirty = true }, escalated)
