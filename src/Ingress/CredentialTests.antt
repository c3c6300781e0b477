-- ===== src/Ingress/CredentialTests.antt =====
-- A keyring of one key, and a request under it.
use dtlab_control_center.Prelude.{
  ℕ, zero, suc, text_eq, is_space, drop_spaces, find, ◌≤◌, ◌≡◌, refl, some, [], ◌∷◌, Text, codes,
  ok, arith, All,
}
use dtlab_control_center.Json.{Json, string, object, array, nil, cons, end, member}
use dtlab_control_center.Ingress.Auth.{
  pos, Library, SensorKey, load_sensor_keys, distance, verify_request_auth, build_http_signature,
}
use dtlab_control_center.Ingress.Keyring.{IsKeyring, load_sensor_keys-IsKeyring}
use dtlab_control_center.Ingress.Signed.{
  IsHex, IsHexDigest, IsRequest, IsTrusted, verify-build, verify_request_auth-IsTrusted,
}

abbrev repeat : ℕ → Text
repeat zero = []
repeat (suc n) = 97 ∷ repeat n

repeat-IsHex : (n : ℕ) → All IsHex (repeat n)
repeat-IsHex zero = tt
repeat-IsHex (suc n) = (refl, repeat-IsHex n)

abbrev secret : Text
secret = repeat 32

abbrev string_or_empty : Json → Text
string_or_empty (string t) = t
string_or_empty v = []

-- Not a digest, but a text of its form
abbrev library : Library
library = record {
  hmac = λ key message. repeat 64;
  int = λ t. some (pos 100);
  b64decode = some;
  str_or_empty = string_or_empty;
}

abbrev keyring : Json
keyring = object (
    member (codes "keys")
      (array (
        cons
          (object (
            member (codes "key_id") (string (codes "k1")) (
              member (codes "sensor_id") (string (codes "plc1"))
                (member (codes "secret_base64") (string secret) end))))
          nil))
      end)

abbrev key : SensorKey
key = record { key_id = codes "k1"; sensor_id = codes "plc1"; secret = secret }

loaded : load_sensor_keys library keyring ≡ ok (key ∷ [])
unfolding load_sensor_keys text_eq is_space drop_spaces
loaded = refl

load_sensor_keys-IsKeyring_example : IsKeyring (key ∷ [])
load_sensor_keys-IsKeyring_example = load_sensor_keys-IsKeyring library keyring (key ∷ []) loaded

digest : IsHexDigest library
digest = record { hex = λ s m. repeat-IsHex 64; digits64 = λ s m. refl }

request : IsRequest library (key ∷ []) key (codes "100") 100
unfolding find text_eq is_space
request = record {
  registered = refl;
  plain_id = (refl, (refl, tt));
  id_given = omega arith;
  id_short = omega arith;
  digits =
      ((omega arith, omega arith), ((omega arith, omega arith), ((omega arith, omega arith), tt)));
  time_given = omega arith;
  time_short = omega arith;
  reads = refl;
}

abbrev body : Text
body = codes "{}"

abbrev signature : Text
signature = build_http_signature library (codes "100") body secret

near : distance 350 (pos 100) ≤ 300
unfolding distance
near = omega arith

verify-build_example :
    verify_request_auth library body
      (some (codes "k1"))
      (some (codes "100"))
      (some signature)
      (key ∷ [])
      350
      300
    ≡ ok key
verify-build_example =
    verify-build library (key ∷ []) key (codes "100") body 100 350 300 digest request near

verify_request_auth-IsTrusted_example :
    IsTrusted library (key ∷ []) key body (codes "k1") (codes "100") signature 350 300
verify_request_auth-IsTrusted_example =
    verify_request_auth-IsTrusted library (key ∷ []) key body (some (codes "k1"))
      (some (codes "100")) (some signature) 350 300
      (verify-build library (key ∷ []) key (codes "100") body 100 350 300 digest request near)
