-- ===== src/Ingress/Auth.antt =====
-- The credentials of src/dtlab/services/host_ot_ingress.py: the keyring and the signature of a request. Bytes are a list of
-- numbers.
use dtlab_control_center.Prelude.{
  ℕ, ◌+◌, ◌-◌, Bool, true, ◌&&◌, ◌||◌, not, Option, none, some, List, [], ◌∷◌, ◌++◌, Text, codes,
  text_eq, text_lower, strip, length, ltb, leb, ◌==◌, find, is_some, Result, ok, err, ◌>>=◌, ◌>>◌,
  raise_if, if◌then◌else◌,
}
use dtlab_control_center.Json.{Json, object, array, Items, nil, cons, get, get_value}

pub data ℤ : Type 0 where
  pos : ℕ → ℤ
  negsuc : ℕ → ℤ

-- What the module takes from the standard library: HMAC-SHA256 of a secret and a message in hexadecimal, `int`, strict
-- base64, and `str(value or "")`.
pub record Library : Type 0 where
  pub hmac : Text → Text → Text
  pub int : Text → Option ℤ
  pub b64decode : Text → Option Text
  pub str_or_empty : Json → Text

-- HostOtIngressError by its message, and the UnicodeEncodeError of a timestamp outside ASCII
pub data IngressError : Type 0 where
  not_valid unknown_key bad_timestamp out_of_tolerance bad_signature not_ascii : IngressError
  no_keys bad_record bad_encoding weak_key duplicate_key : IngressError

pub record SensorKey : Type 0 where
  pub key_id : Text
  pub sensor_id : Text
  pub secret : Text

-- _required_text, of a text
unfoldable pub required_text : Text → ℕ → Result IngressError Text
required_text value max_length =
    let text = strip value in
    if (length text == 0) || ltb max_length (length text) then err not_valid else ok text

abbrev pub or_empty : Option Text → Text
or_empty none = []
or_empty (some s) = s

abbrev pub or_fail : {A : Type 0} → IngressError → Option A → Result IngressError A
or_fail e none = err e
or_fail e (some a) = ok a

abbrev pub has_key : Text → SensorKey → Bool
has_key id k = text_eq k.key_id id

-- `abs(reference - timestamp_value)`
unfoldable pub distance : ℕ → ℤ → ℕ
distance now (pos t) = (now - t) + (t - now)
distance now (negsuc t) = now + (t + 1)

abbrev pub is_hex : ℕ → Bool
is_hex c = (leb 48 c && leb c 57) || (leb 97 c && leb c 102)

unfoldable pub all_hex : Text → Bool
all_hex [] = true
all_hex (c ∷ s) = is_hex c && all_hex s

unfoldable pub all_ascii : Text → Bool
all_ascii [] = true
all_ascii (c ∷ s) = ltb c 128 && all_ascii s

-- `timestamp_text.encode("ascii") + b"\n" + body`
abbrev pub signed_text : Text → Text → Text
signed_text timestamp body = timestamp ++ codes "\n" ++ body

-- A list that is not empty
abbrev pub records_of : Json → Result IngressError Items
records_of (array (cons v rest)) = ok (cons v rest)
records_of v = err no_keys

module _ (c : Library) where
  -- verify_request_auth, with the values of the headers
  unfoldable pub verify_request_auth :
      Text
      → Option Text
      → Option Text
      → Option Text
      → List SensorKey
      → ℕ
      → ℕ
      → Result IngressError SensorKey
  unfolding required_text find text_eq distance all_hex all_ascii text_lower
  verify_request_auth body key_id timestamp signature keys now max_clock_skew = do
    id ← required_text (or_empty key_id) 128
    key ← or_fail unknown_key (find (has_key id) keys)
    timestamp_text ← required_text (or_empty timestamp) 20
    value ← or_fail bad_timestamp (c.int timestamp_text)
    raise_if (ltb max_clock_skew (distance now value)) out_of_tolerance
    stripped ← required_text (or_empty signature) 128
    let supplied = text_lower stripped
    raise_if (not (length supplied == 64) || not (all_hex supplied)) bad_signature
    raise_if (not (all_ascii timestamp_text)) not_ascii
    raise_if (not (text_eq supplied (c.hmac key.secret (signed_text timestamp_text body))))
        bad_signature
    ok key

  -- A record of the keyring
  unfoldable pub load_key : Json → Result IngressError SensorKey
  unfolding required_text get get_value
  load_key (object m) = do
    key_id ← required_text (c.str_or_empty (get_value (codes "key_id") m)) 128
    sensor_id ← required_text (c.str_or_empty (get_value (codes "sensor_id") m)) 128
    encoded ← required_text (c.str_or_empty (get_value (codes "secret_base64") m)) 1024
    secret ← or_fail bad_encoding (c.b64decode encoded)
    raise_if (ltb (length secret) 32) weak_key
    ok (record { key_id = key_id; sensor_id = sensor_id; secret = secret })
  load_key v = err bad_record

  unfoldable pub load_records : Items → List SensorKey → Result IngressError (List SensorKey)
  unfolding load_key find
  load_records nil keys = ok keys
  load_records (cons v rest) keys = do
    key ← load_key v
    raise_if (is_some (find (has_key key.key_id) keys)) duplicate_key
    load_records rest (keys ++ key ∷ [])

  -- load_sensor_keys, of what `json.loads` gives
  unfoldable pub load_sensor_keys : Json → Result IngressError (List SensorKey)
  unfolding load_records get get_value
  load_sensor_keys (object m) = do
    records ← records_of (get_value (codes "keys") m)
    load_records records []
  load_sensor_keys v = err no_keys

-- build_http_signature of integrations/plc_endpoint_audit/dtlab_plc_audit/sender.py
abbrev pub build_http_signature : Library → Text → Text → Text → Text
build_http_signature c timestamp body key = c.hmac key (timestamp ++ codes "\n" ++ body)
