-- ===== src/Endpoint/Spool.antt =====
-- The signed envelopes and the spool of integrations/plc_endpoint_audit/dtlab_plc_audit/spool.py. A line of
-- the file is kept as the members of its JSON object.
pub mod Chain
pub mod Forgery
pub mod Tests
use dtlab_control_center.Prelude.{
  ℕ, ◌+◌, Bool, true, false, not, Option, none, some, List, [], ◌∷◌, ◌++◌, Text, codes, text_eq,
  take, ltb, Result, ok, err, ◌>>=◌, ◌>>◌, raise_if, if◌then◌else◌,
}
use dtlab_control_center.Json.{
  Json, null, boolean, number, string, array, object, nil, Members, end, member, get, get_value,
}

-- What the module takes from the standard library: SHA-256, HMAC-SHA256 under a key, the canonical printer,
-- `str` of a value that is no string, `str(int(…))` where that does not raise, whether a number is zero, and
-- the bytes that a text takes.
pub record Library : Type 0 where
  pub sha256_text : Text → Text
  pub hmac : Text → Text → Text
  pub canonical_json : Json → Text
  pub str : Json → Text
  pub int_text : Json → Option Text
  pub is_zero : Text → Bool
  pub byte_length : Text → ℕ

-- KeyError or ValueError, EnvelopeValidationError by its message, and SpoolError
pub data SpoolError : Type 0 where
  missing_field bad_schema incomplete bad_algorithm bad_payload broken_chain : SpoolError
  bad_signature bad_record bad_record_id spool_full bad_last_record : SpoolError

-- `members[key] = value`
unfoldable pub set : Text → Json → Members → Members
set key v end = member key v end
set key v (member k old rest) =
    if text_eq k key then member k v rest else member k old (set key v rest)

abbrev pub members_of : Json → Members
members_of (object m) = m
members_of _ = end

-- `members["integrity"][key] = value`, where `integrity` is an object
unfoldable pub set_integrity : Text → Json → Members → Members
unfolding set get get_value
set_integrity key v m =
    set (codes "integrity") (object (set key v (members_of (get_value (codes "integrity") m)))) m

abbrev pub zero_hash : Text
zero_hash = codes "0000000000000000000000000000000000000000000000000000000000000000"

abbrev pub envelope_schema : Text
envelope_schema = codes "dtlab-plc-endpoint-envelope-v1"

abbrev pub is_string : Text → Json → Bool
is_string t (string s) = text_eq s t
is_string t _ = false

abbrev pub to_result : {A : Type 0} → SpoolError → Option A → Result SpoolError A
to_result e none = err e
to_result e (some a) = ok a

-- `isinstance(value, dict)`
abbrev pub dict_or : SpoolError → Json → Result SpoolError Members
dict_or e (object m) = ok m
dict_or e _ = err e

module _ (c : Library) where
  -- `str(value)`
  unfoldable pub str_of : Json → Text
  str_of (string s) = s
  str_of v = c.str v

  -- `str(value or "")`
  unfoldable pub str_or_empty : Json → Text
  str_or_empty null = []
  str_or_empty (boolean false) = []
  str_or_empty (number n) = if c.is_zero n then [] else c.str (number n)
  str_or_empty (string s) = s
  str_or_empty (array nil) = []
  str_or_empty (object end) = []
  str_or_empty v = c.str v

  -- _unsigned_envelope
  unfoldable pub unsigned_envelope : Members → Text → Text → Members
  unsigned_envelope event key_id previous_hash =
      member (codes "schema_version") (string envelope_schema) (
        member (codes "event") (object event) (
          member (codes "integrity")
            (object (
              member (codes "algorithm") (string (codes "HMAC-SHA256")) (
                member (codes "key_id") (string key_id) (
                  member (codes "payload_sha256")
                    (string (c.sha256_text (c.canonical_json (object event))))
                    (member (codes "previous_record_sha256") (string previous_hash) end)))))
            end))

  unfoldable pub signature_of : Text → Members → Text
  signature_of key unsigned = c.hmac key (c.canonical_json (object unsigned))

  -- `with_signature`, a copy of the unsigned envelope with its signature
  unfoldable pub sign : Text → Members → Members
  unfolding set_integrity signature_of
  sign key unsigned =
      set_integrity (codes "signature") (string (signature_of key unsigned)) unsigned

  unfoldable pub hash_of : Members → Text
  hash_of signed = c.sha256_text (c.canonical_json (object signed))

  unfoldable pub record_id : Text → Text → Text → Text
  record_id event_id revision record_hash =
      event_id ++ codes ":r" ++ revision ++ codes ":" ++ take 16 record_hash

  -- What build_envelope returns, from the texts of the identifier and of the revision
  unfoldable pub envelope_of : Members → Text → Text → Text → Text → Text → Members
  unfolding unsigned_envelope sign hash_of get set
  envelope_of event key_id key previous_hash event_id revision =
      let signed = sign key (unsigned_envelope event key_id previous_hash) in
      let record_hash = hash_of signed in
      set (codes "record_id") (string (record_id event_id revision record_hash))
        (set_integrity (codes "record_sha256") (string record_hash) signed)

  -- build_envelope. A `previous_hash` of its own is always given.
  unfoldable pub build_envelope : Members → Text → Text → Text → Result SpoolError Members
  unfolding envelope_of
  build_envelope event key_id key previous_hash = do
    id ← to_result missing_field (get (codes "event_id") event)
    revision ← to_result missing_field (get (codes "revision") event)
    number_text ← to_result missing_field (c.int_text revision)
    ok (envelope_of event key_id key previous_hash (str_of id) number_text)

  -- verify_envelope from the check of the algorithm on
  unfoldable pub verify_integrity :
      Members → Members → Members → Text → Option Text → Result SpoolError Text
  unfolding unsigned_envelope sign hash_of signature_of get get_value
  verify_integrity envelope event integrity key expected_previous = do
    raise_if (not (is_string (codes "HMAC-SHA256") (get_value (codes "algorithm") integrity)))
        bad_algorithm
    raise_if
        (not (
          text_eq (c.sha256_text (c.canonical_json (object event)))
            (str_of (get_value (codes "payload_sha256") integrity))))
        bad_payload
    let previous = str_or_empty (get_value (codes "previous_record_sha256") integrity)
    raise_if
        (elim expected_previous [ none ↦ false | some expected ↦ not (text_eq previous expected) ])
        broken_chain
    let unsigned = unsigned_envelope event (str_of (get_value (codes "key_id") integrity)) previous
    raise_if
        (not (
          text_eq (signature_of key unsigned)
            (str_or_empty (get_value (codes "signature") integrity))))
        bad_signature
    let record_hash = hash_of (sign key unsigned)
    raise_if
        (not (text_eq record_hash (str_or_empty (get_value (codes "record_sha256") integrity))))
        bad_record
    raise_if
        (not (
          text_eq (str_or_empty (get_value (codes "record_id") envelope)) (
            record_id (str_of (get_value (codes "event_id") event))
              (str_of (get_value (codes "revision") event)) record_hash)))
        bad_record_id
    ok record_hash

  -- verify_envelope
  unfoldable pub verify_envelope : Members → Text → Option Text → Result SpoolError Text
  unfolding verify_integrity get get_value
  verify_envelope envelope key expected_previous = do
    raise_if (not (is_string envelope_schema (get_value (codes "schema_version") envelope)))
        bad_schema
    event ← dict_or incomplete (get_value (codes "event") envelope)
    integrity ← dict_or incomplete (get_value (codes "integrity") envelope)
    verify_integrity envelope event integrity key expected_previous

  -- `envelope["integrity"]["record_sha256"]`
  unfoldable pub record_hash_of : Members → Text
  unfolding get get_value str_of
  record_hash_of envelope =
      str_of
        (get_value (codes "record_sha256") (members_of (get_value (codes "integrity") envelope)))

  -- SignedSpool with its file
  pub record Spool : Type 0 where
    pub key_id : Text
    pub key : Text
    pub max_bytes : ℕ
    pub lines : List Members
    pub size : ℕ
    pub previous_hash : Text

  -- _last_record_hash, of a file whose lines are all records
  unfoldable pub last_record_hash : List Members → Text
  unfolding record_hash_of
  last_record_hash [] = zero_hash
  last_record_hash (e ∷ []) = record_hash_of e
  last_record_hash (e ∷ f ∷ rest) = last_record_hash (f ∷ rest)

  -- SignedSpool.append, with its result and the spool that it leaves
  unfoldable pub append : Members → Spool → Result SpoolError (Members × Spool)
  unfolding build_envelope record_hash_of
  append event s = do
    envelope ← build_envelope event s.key_id s.key s.previous_hash
    let bytes = c.byte_length (c.canonical_json (object envelope) ++ codes "\n")
    raise_if (ltb s.max_bytes (s.size + bytes)) spool_full
    ok (
      envelope,
      record s {
        lines = s.lines ++ envelope ∷ [];
        size = s.size + bytes;
        previous_hash = record_hash_of envelope;
      },
    )

  -- The spool after a list of events, each of which may be refused
  abbrev pub kept : Spool → Result SpoolError (Members × Spool) → Spool
  kept s (ok (envelope, after)) = after
  kept s (err e) = s

  unfoldable pub append_all : List Members → Spool → Spool
  unfolding append
  append_all [] s = s
  append_all (event ∷ rest) s = append_all rest (kept s (append event s))

  -- Every record is accepted behind the one before it; the result is the last hash.
  unfoldable pub verify_chain : Text → Text → List Members → Result SpoolError Text
  unfolding verify_envelope
  verify_chain key previous [] = ok previous
  verify_chain key previous (e ∷ rest) =
      verify_envelope e key (some previous) >>= λ h. verify_chain key h rest

abbrev pub new_spool : (c : Library) → Text → Text → ℕ → Spool c
new_spool c key_id key max_bytes = record {
  key_id = key_id;
  key = key;
  max_bytes = max_bytes;
  lines = [];
  size = 0;
  previous_hash = zero_hash;
}
