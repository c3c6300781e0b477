-- ===== src/Endpoint/Aggregator.antt =====
-- The operations of EpisodeAggregator in integrations/plc_endpoint_audit/dtlab_plc_audit/core.py: rendering,
-- the three flushes, and `observe`.
use dtlab_control_center.Prelude.{
  ℕ, ◌+◌, Bool, true, false, ◌&&◌, ◌||◌, not, Option, none, some, List, [], ◌∷◌, ◌++◌, Text, codes,
  text_eq, text_lt, any, ltb, leb, ◌==◌, if◌then◌else◌,
}
use dtlab_control_center.Endpoint.Episodes.{
  Outcome, processed, rejected, unknown, Source, Destination, Operation, Observation, Bucket,
  Outcomes, Episode, Settings, Aggregator, option_eq, same_key, new_episode, update_episode,
}

-- The order of the sort key of `_render`
unfoldable pub write_before : Operation → Operation → Bool
write_before a b =
    ltb a.function_code b.function_code
    || ((a.function_code == b.function_code)
        && (ltb a.address b.address
            || ((a.address == b.address)
                && (ltb a.quantity b.quantity
                    || ((a.quantity == b.quantity) && text_lt a.values_sha256 b.values_sha256)))))

unfoldable pub insert_bucket : Bucket → List Bucket → List Bucket
unfolding write_before
insert_bucket b [] = b ∷ []
insert_bucket b (d ∷ rest) =
    if write_before d.operation b.operation then d ∷ insert_bucket b rest else b ∷ d ∷ rest

unfoldable pub sort_writes : List Bucket → List Bucket
unfolding insert_bucket
sort_writes [] = []
sort_writes (b ∷ rest) = insert_bucket b (sort_writes rest)

-- The parts of an event that vary; the constant ones are left out.
pub record Event : Type 0 where
  pub event_id : Text
  pub revision : ℕ
  pub episode_sequence : ℕ
  pub first_observed_at : Text
  pub last_observed_at : Text
  pub source : Source
  pub destination : Destination
  pub function_codes : List ℕ
  pub writes : List Bucket
  pub request_count : ℕ
  pub dropped_operation_buckets : ℕ
  pub outcome_states : Outcomes
  pub last_state : Outcome
  pub truth : Text
  pub rule_id : Text
  pub classification : Text
  pub severity : Text
  pub priority : Text

unfoldable pub truth_of : Outcome → Text
truth_of processed = codes "endpoint_server_processed"
truth_of rejected = codes "endpoint_server_rejected"
truth_of unknown = codes "endpoint_request_observed"

-- _render: the episode that goes on, and the event
unfoldable pub render : Episode → Episode × Event
unfolding sort_writes truth_of
render e = (
  record e { revision = e.revision + 1; last_emit_epoch = some e.last_epoch; dirty = false },
  record {
    event_id = e.episode_id;
    revision = e.revision + 1;
    episode_sequence = e.episode_sequence;
    first_observed_at = e.first_observed_at;
    last_observed_at = e.last_observed_at;
    source = e.source;
    destination = e.destination;
    function_codes = e.function_codes;
    writes = sort_writes e.writes;
    request_count = e.request_count;
    dropped_operation_buckets = e.dropped_operation_buckets;
    outcome_states = e.outcome_states;
    last_state = e.last_outcome_state;
    truth = truth_of e.last_outcome_state;
    rule_id =
        if e.shutdown
        then codes "DTLAB-MODBUS-SHUTDOWN-SEQUENCE"
        else codes "DTLAB-MODBUS-WRITE-OBSERVED";
    classification = if e.shutdown then codes "process_shutdown_sequence" else codes "modbus_write";
    severity = if e.shutdown then codes "critical" else codes "high";
    priority = if e.shutdown then codes "p1" else codes "p2";
  },
)

-- The events of the episodes that pass a test, and the episodes that go on: the loops of the three flushes
unfoldable pub close_where : (Episode → Bool) → List Episode → List Episode × List Event
close_where test [] = ([], [])
close_where test (e ∷ rest) =
    let others = close_where test rest in
    if test e
    then (others.0, if e.dirty then (render e).1 ∷ others.1 else others.1)
    else (e ∷ others.0, others.1)

-- Quiet for the window or longer
unfoldable pub expired : Settings → ℕ → Episode → Bool
expired c now e = not (ltb now (e.last_epoch + c.quiet_window))

-- flush_expired
unfoldable pub flush_expired : Settings → ℕ → Aggregator → Aggregator × List Event
flush_expired c now a =
    let closed = close_where (expired c now) a.episodes in
    (record a { episodes = closed.0 }, closed.1)

-- flush_source
unfoldable pub flush_source : Text → Option ℕ → Aggregator → Aggregator × List Event
flush_source ip port a =
    let closed =
      close_where (λ e. text_eq e.source.ip ip && option_eq e.source.port port) a.episodes in
    (record a { episodes = closed.0 }, closed.1)

-- flush_all
unfoldable pub flush_all : Aggregator → Aggregator × List Event
flush_all a =
    let closed = close_where (λ e. true) a.episodes in (record a { episodes = closed.0 }, closed.1)

abbrev pub emit_due : Settings → ℕ → Option ℕ → Bool
emit_due c now none = true
emit_due c now (some last) = leb (last + c.emit_interval) now

-- `observe` on the episode of the observation
unfoldable pub observe_episode : Settings → Observation → Episode → Episode × List Event
observe_episode c o e =
    let (after, escalated) = update_episode c e o in
    if emit_due c o.observed_epoch after.last_emit_epoch || escalated
    then ((render after).0, (render after).1 ∷ [])
    else (after, [])

-- The episode of the observation in its place, or a new one behind the others
unfoldable pub observe_in : Settings → ℕ → Observation → List Episode → List Episode × List Event
unfolding same_key
observe_in c next o [] =
    let made = observe_episode c o (new_episode c next o) in (made.0 ∷ [], made.1)
observe_in c next o (e ∷ rest) =
    let others = observe_in c next o rest in
    if same_key o.source o.destination e
    then (let made = observe_episode c o e in (made.0 ∷ rest, made.1))
    else (e ∷ others.0, others.1)

-- observe
unfoldable pub observe : Settings → Observation → Aggregator → Aggregator × List Event
unfolding flush_expired
observe c o a =
    let (live, emitted) = flush_expired c o.observed_epoch a in
    let known = any (same_key o.source o.destination) live.episodes in
    let (episodes, events) = observe_in c live.next_episode_sequence o live.episodes in
    (
      record {
        episodes = episodes;
        next_episode_sequence =
            if known then live.next_episode_sequence else live.next_episode_sequence + 1;
      },
      emitted ++ events,
    )

-- What the sniffer calls: `observe` for a request, and the three flushes
pub data Input : Type 0 where
  seen : Observation → Input
  quiet : ℕ → Input
  source_closed : Text → Option ℕ → Input
  stopped : Input

unfoldable pub react : Settings → Input → Aggregator → Aggregator × List Event
unfolding observe flush_expired flush_source flush_all
react c (seen o) a = observe c o a
react c (quiet now) a = flush_expired c now a
react c (source_closed ip port) a = flush_source ip port a
react c stopped a = flush_all a

-- The events of a history of calls
unfoldable pub run : Settings → List Input → Aggregator → Aggregator × List Event
unfolding react
run c [] a = (a, [])
run c (input ∷ rest) a =
    let first = react c input a in
    let others = run c rest first.0 in (others.0, first.1 ++ others.1)

abbrev pub no_episodes : Aggregator
no_episodes = record { episodes = []; next_episode_sequence = 0 }
