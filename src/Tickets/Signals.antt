-- ===== src/Tickets/Signals.antt =====
-- The ingestion of signals by TicketStore.
use dtlab_control_center.Prelude.{
  ℕ, ◌+◌, Bool, true, false, ◌&&◌, not, Option, none, some, List, [], ◌∷◌, ◌++◌, Text, codes,
  text_eq, text_lt, text_lower, any, length, is_some, find, update, at_key, if◌then◌else◌,
}
use dtlab_control_center.Json.{Json, null, string, Members, object, get_value}
use dtlab_control_center.Json.Semantic.{semantic_payload}
use dtlab_control_center.Tickets.Model.{Signal, Occurrence, Ingest, validation}
use dtlab_control_center.Tickets.Validation.{required_text, optional_text, sha256_text}
use dtlab_control_center.Tickets.Sla.{Env}
use dtlab_control_center.Tickets.Tables.{
  Action, pure, raise, lift, gets, modify, ◌>>=◌, ◌>>◌, signal_at,
}

-- What ingestion takes from the standard library: SHA-256 in hexadecimal, the canonical
-- `json.dumps`, and `str` of a value that is neither a string nor None.
pub record Runtime : Type 0 where
  pub sha256 : Text → Text
  pub dumps : Json → Text
  pub str : Json → Text

-- SignalInput
pub record SignalInput : Type 0 where
  pub fingerprint : Text
  pub signal_type : Text
  pub snapshot_sha256 : Text
  pub evidence : Members
  pub severity : Text
  pub title : Text
  pub description : Text
  pub occurred_at : Option Text
  pub observed_at : Text
  pub asset_ids : List Text
  pub recommended_action : Option Text
  pub payload : Members

-- IngestStats
pub record IngestStats : Type 0 where
  pub signals_seen : ℕ
  pub signals_created : ℕ
  pub occurrences_created : ℕ

-- An element put in its place among sorted ones, unless it is there.
unfoldable pub insert_sorted : Text → List Text → List Text
insert_sorted a [] = a ∷ []
insert_sorted a (b ∷ rest) =
    if text_lt a b then a ∷ b ∷ rest else if text_eq a b then b ∷ rest else b ∷ insert_sorted a rest

-- `tuple(sorted({_required_text(item, …) for item in signal.asset_ids}))`
unfoldable pub asset_set : List Text → Action (List Text)
unfolding insert_sorted text_lt
asset_set [] = pure []
asset_set (item ∷ rest) = do
  id ← lift (required_text item 1024)
  others ← asset_set rest
  pure (insert_sorted id others)

-- `min` and `max` on `str`
abbrev pub text_min : Text → Text → Text
text_min a b = if text_lt b a then b else a

abbrev pub text_max : Text → Text → Text
text_max a b = if text_lt a b then b else a

-- A value of the evidence as `_optional_text` reads it
abbrev evidence_text : (Json → Text) → Json → Option Text
evidence_text str null = none
evidence_text str (string s) = some s
evidence_text str v = some (str v)

-- UNIQUE(signal_id, snapshot_sha256, payload_hash)
unfoldable pub same_occurrence : Occurrence → Occurrence → Bool
same_occurrence a b =
    text_eq a.signal_id b.signal_id
    && text_eq a.snapshot_sha256 b.snapshot_sha256
    && text_eq a.payload_hash b.payload_hash

-- INSERT OR IGNORE INTO signal_occurrences
unfoldable pub insert_occurrence : Occurrence → Action (Unit {0})
unfolding same_occurrence
insert_occurrence row = modify λ db. record db {
  occurrences =
      if any (same_occurrence row) db.occurrences
      then db.occurrences
      else db.occurrences ++ row ∷ [];
}

abbrev pub fingerprint_at : Text → Signal → Bool
fingerprint_at = at_key (λ (s : Signal). s.fingerprint)

abbrev pub ingest_at : Text → Ingest → Bool
ingest_at = at_key (λ (i : Ingest). i.snapshot_sha256)

module _ (rt : Runtime) where
  -- _payload_hash
  unfoldable pub payload_hash : Members → Text
  payload_hash payload = rt.sha256 (rt.dumps (semantic_payload false (object payload)))

  -- The normalised fields, as the row of a first sighting.
  unfoldable pub normalise : Env → SignalInput → Action Signal
  normalise env s = do
    fingerprint ← lift (sha256_text s.fingerprint 128)
    digest ← lift (sha256_text s.snapshot_sha256 64)
    signal_type ← lift (required_text s.signal_type 64)
    source_id ←
        lift (optional_text (evidence_text rt.str (get_value (codes "source_id") s.evidence)) 512)
    record_id ← lift (
        optional_text (evidence_text rt.str (get_value (codes "source_record_id") s.evidence)) 1024)
    severity ← lift (required_text s.severity 32)
    title ← lift (required_text s.title 1024)
    description ← lift (required_text s.description 16384)
    occurred_at ← lift (optional_text s.occurred_at 64)
    observed_at ← lift (required_text s.observed_at 64)
    asset_ids ← asset_set s.asset_ids
    recommended_action ← lift (optional_text s.recommended_action 16384)
    pure (record {
      id = codes "signal:" ++ fingerprint;
      fingerprint = fingerprint;
      signal_type = signal_type;
      snapshot_sha256 = digest;
      source_id = source_id;
      source_record_id = record_id;
      evidence = s.evidence;
      severity = text_lower severity;
      title = title;
      description = description;
      occurred_at = occurred_at;
      first_observed_at = observed_at;
      last_observed_at = observed_at;
      asset_ids = asset_ids;
      recommended_action = recommended_action;
      payload = s.payload;
      occurrence_count = 1;
      created_at = env.now;
      updated_at = env.now;
    })

  unfoldable pub occurrence_of : Env → Signal → Occurrence
  unfolding payload_hash
  occurrence_of env s = record {
    signal_id = s.id;
    snapshot_sha256 = s.snapshot_sha256;
    observed_at = s.last_observed_at;
    occurred_at = s.occurred_at;
    payload_hash = payload_hash s.payload;
    payload = s.payload;
    created_at = env.now;
  }

  -- The UPDATE of a signal that is seen again; what it does not set stays.
  unfoldable pub seen_again : Env → Signal → Signal → Bool → Signal
  seen_again env row old changed = record row {
    id = old.id;
    fingerprint = old.fingerprint;
    signal_type = old.signal_type;
    first_observed_at = text_min old.first_observed_at row.first_observed_at;
    last_observed_at = text_max old.last_observed_at row.last_observed_at;
    occurrence_count = old.occurrence_count + 1;
    created_at = old.created_at;
    updated_at = if changed then env.now else old.updated_at;
  }

  unfoldable pub insert_signal : Signal → Action (Unit {0})
  insert_signal row = modify λ db. record db { signals = db.signals ++ row ∷ [] }

  unfoldable pub update_signal : Text → (Signal → Signal) → Action (Unit {0})
  update_signal id change =
      modify λ db. record db { signals = update (signal_at id) change db.signals }

  -- `_upsert_signal` behind its SELECT. The results are (signal_created, observation_created).
  unfoldable pub store_signal : Env → Signal → Option Signal → Action (Bool × Bool)
  store_signal env row none = do
    insert_signal row
    insert_occurrence (occurrence_of env row)
    pure (true, true)
  store_signal env row (some old) =
      if text_eq old.snapshot_sha256 row.snapshot_sha256 then pure (false, false) else do
        let changed = not (text_eq (payload_hash row.payload) (payload_hash old.payload))
        (if changed then insert_occurrence (occurrence_of env row) else pure tt)
        update_signal row.id (λ now. seen_again env row now changed)
        pure (false, true)

  -- _upsert_signal
  unfoldable pub upsert_signal : Env → SignalInput → Action (Bool × Bool)
  upsert_signal env s = do
    row ← normalise env s
    existing ← gets (λ db. find (fingerprint_at row.fingerprint) db.signals)
    store_signal env row existing

  abbrev count : Bool → ℕ → ℕ
  count b n = if b then n + 1 else n

  -- The loop over the batch, with the two counters
  unfoldable pub upsert_all : Env → List SignalInput → Action (ℕ × ℕ)
  upsert_all env [] = pure (0, 0)
  upsert_all env (s ∷ rest) = do
    made ← upsert_signal env s
    others ← upsert_all env rest
    pure (count made.0 others.0, count made.1 others.1)

  -- ingest_signals
  unfoldable pub ingest_signals : Env → List SignalInput → Action IngestStats
  ingest_signals env batch = do
    counts ← upsert_all env batch
    pure (record {
      signals_seen = length batch;
      signals_created = counts.0;
      occurrences_created = counts.1;
    })

  abbrev pub no_stats : IngestStats
  no_stats = record { signals_seen = 0; signals_created = 0; occurrences_created = 0 }

  unfoldable pub insert_ingest : Ingest → Action (Unit {0})
  insert_ingest row = modify λ db. record db { ingests = db.ingests ++ row ∷ [] }

  -- The transaction of ingest_snapshot_signals behind the SELECT of the marker
  unfoldable pub ingest_new :
      Env → List SignalInput → Text → Text → Text → Bool → Action IngestStats
  ingest_new env batch digest snapshot_id generated_at true = pure no_stats
  ingest_new env batch digest snapshot_id generated_at false = do
    counts ← upsert_all env batch
    insert_ingest (record {
      snapshot_sha256 = digest;
      snapshot_id = snapshot_id;
      generated_at = generated_at;
      signals_seen = length batch;
      ingested_at = env.now;
    })
    pure (record {
      signals_seen = length batch;
      signals_created = counts.0;
      occurrences_created = counts.1;
    })

  -- ingest_snapshot_signals
  unfoldable pub ingest_snapshot_signals :
      Env → List SignalInput → Text → Text → Text → Action IngestStats
  ingest_snapshot_signals env batch sha snapshot_id generated_at = do
    digest ← lift (sha256_text sha 64)
    id ← lift (required_text snapshot_id 1024)
    at ← lift (required_text generated_at 64)
    (if any (λ (s : SignalInput). not (text_eq (text_lower s.snapshot_sha256) digest)) batch
        then raise validation
        else pure tt)
    marker ← gets (λ db. find (ingest_at digest) db.ingests)
    ingest_new env batch digest id at (is_some marker)

  -- snapshot_ingested
  unfoldable pub snapshot_ingested : Text → Action Bool
  snapshot_ingested sha = do
    digest ← lift (sha256_text sha 64)
    gets (λ db. is_some (find (ingest_at digest) db.ingests))
