-- ===== src/Ingress/Keyring.antt =====
-- What load_sensor_keys accepts.
use dtlab_control_center.Prelude.{
  ℕ, ◌≤◌, ◌≡◌, refl, sym, ◌∙◌, codes, false, none, List, [], ◌∷◌, ◌++◌, Text, text_eq, text_eq_comm,
  length, ltb, ◌==◌, ◌||◌, find, find-append, is_some, bind_ok, All, All-append, strip, ok,
  raise_if, arith, Option-cases, Bool-cases, inl, inr,
}
use dtlab_control_center.Json.{
  Json, null, boolean, number, string, object, array, Items, nil, cons, get_value,
}
use dtlab_control_center.Ingress.Auth.{
  Library, SensorKey, required_text, or_fail, bad_encoding, weak_key, duplicate_key, has_key,
  load_key, records_of, load_records, load_sensor_keys,
}

-- A secret of at least 256 bits under an identifier that is there and is not too long, for a sensor that is named.
pub record IsStrong (k : SensorKey) : Type 0 where
  pub secret_bytes : 32 ≤ length k.secret
  pub key_id_given : 1 ≤ length k.key_id
  pub key_id_short : length k.key_id ≤ 128
  pub sensor_given : 1 ≤ length k.sensor_id

-- No two keys have the same identifier.
abbrev pub Apart : List SensorKey → Type 0
Apart [] = Unit
Apart (k ∷ keys) = (find (has_key k.key_id) keys ≡ none) × Apart keys

pub record IsKeyring (keys : List SensorKey) : Type 0 where
  pub strong : All IsStrong keys
  pub apart : Apart keys

required_text_bounds :
    (value text : Text) (n : ℕ)
    → required_text value n ≡ ok text
    → (1 ≤ length text) × (length text ≤ n)
unfolding required_text
required_text_bounds value text n h =
    elim (Bool-cases ((length (strip value) == 0) || ltb n (length (strip value)))) [
      | inl bad ↦ absurd (ground arith)
      | inr good ↦ let same : strip value ≡ text = ground arith in rw (sym same) (ground arith)
    ]

module _ (c : Library) where
  load_key-IsStrong : (v : Json) (k : SensorKey) → load_key c v ≡ ok k → IsStrong k
  unfolding load_key
  load_key-IsStrong (object m) k h =
      let (key_id, is_id, h1) = bind_ok (required_text _ 128) _ k h in
      let (sensor_id, is_sensor, h2) = bind_ok (required_text _ 128) _ k h1 in
      let (encoded, is_encoded, h3) = bind_ok (required_text _ 1024) _ k h2 in
      let (secret, is_secret, h4) = bind_ok (or_fail bad_encoding (c.b64decode encoded)) _ k h3 in
      let (u, long, h5) = bind_ok (raise_if (ltb (length secret) 32) weak_key) _ k h4 in
      let same : record { key_id = key_id; sensor_id = sensor_id; secret = secret } ≡ k =
        ground arith in
      let (id_given, id_short) = required_text_bounds _ key_id 128 is_id in
      let (sensor_given, _) = required_text_bounds _ sensor_id 128 is_sensor in
      rw (sym same) record {
        secret_bytes = ground arith;
        key_id_given = id_given;
        key_id_short = id_short;
        sensor_given = sensor_given;
      }
  load_key-IsStrong null k h = absurd (ground arith)
  load_key-IsStrong (boolean b) k h = absurd (ground arith)
  load_key-IsStrong (number n) k h = absurd (ground arith)
  load_key-IsStrong (string t) k h = absurd (ground arith)
  load_key-IsStrong (array xs) k h = absurd (ground arith)

  Apart-append :
      (keys : List SensorKey) (k : SensorKey)
      → Apart keys
      → find (has_key k.key_id) keys ≡ none
      → Apart (keys ++ k ∷ [])
  unfolding find
  Apart-append [] k h absent = (refl, tt)
  Apart-append (x ∷ keys) k h absent = elim (Bool-cases (text_eq x.key_id k.key_id)) [
    | inl same ↦ absurd (ground arith)
    | inr other ↦
        let apart : text_eq k.key_id x.key_id ≡ false = text_eq_comm k.key_id x.key_id ∙ other in
        (
          find-append (has_key x.key_id) keys (k ∷ []) ∙ rw (h.0, apart, find) refl,
          Apart-append keys k h.1 (rw other at absent),
        )
  ]

  load_records-IsKeyring :
      (xs : Items) (keys result : List SensorKey)
      → IsKeyring keys
      → load_records c xs keys ≡ ok result
      → IsKeyring result
  unfolding load_records
  load_records-IsKeyring nil keys result h loaded =
      let same : keys ≡ result = ground arith in rw (sym same) h
  load_records-IsKeyring (cons v rest) keys result h loaded =
      let (k, is_key, h1) = bind_ok (load_key c v) _ result loaded in
      let (u, is_new, h2) =
        bind_ok (raise_if (is_some (find (has_key k.key_id) keys)) duplicate_key) _ result h1 in
      let absent : find (has_key k.key_id) keys ≡ none =
        elim (Option-cases (find (has_key k.key_id) keys)) [
          | inl absent ↦ absent
          | inr (old, there) ↦ absurd (ground arith)
        ] in
      load_records-IsKeyring rest (keys ++ k ∷ []) result
        record {
          strong = All-append IsStrong keys (k ∷ []) h.strong (load_key-IsStrong v k is_key, tt);
          apart = Apart-append keys k h.apart absent;
        }
        h2

-- A keyring that load_sensor_keys accepts has keys with secrets of at least 32 bytes, with
-- identifiers of 1 to 128 characters and a sensor that is named, and no two keys with the same
-- identifier.
pub load_sensor_keys-IsKeyring :
    (c : Library) (payload : Json) (keys : List SensorKey)
    → load_sensor_keys c payload ≡ ok keys
    → IsKeyring keys
unfolding load_sensor_keys
load_sensor_keys-IsKeyring c (object m) keys h =
    let (records, is_list, loaded) = bind_ok (records_of (get_value (codes "keys") m)) _ keys h in
    load_records-IsKeyring c records [] keys (record { strong = tt; apart = tt }) loaded
load_sensor_keys-IsKeyring c null keys h = absurd (ground arith)
load_sensor_keys-IsKeyring c (boolean b) keys h = absurd (ground arith)
load_sensor_keys-IsKeyring c (number n) keys h = absurd (ground arith)
load_sensor_keys-IsKeyring c (string t) keys h = absurd (ground arith)
load_sensor_keys-IsKeyring c (array xs) keys h = absurd (ground arith)
