-- ===== src/Ingress/Signed.antt =====
-- The signature that the sender makes against the check that the receiver makes.
use dtlab_control_center.Prelude.{
  ℕ, ◌≤◌, ◌≡◌, refl, sym, ap, ◌∙◌, Bool, true, false, not, Option, none, some, List, [], ◌∷◌, Text,
  text_eq, text_eq_refl, text_eq_sound, text_lower, strip, is_space, drop_spaces, length, ltb, ◌==◌,
  ◌||◌, find, bind_ok, ok_inj, All, All-append, ok, raise_if, arith, inl, inr, Bool-cases,
}
use mathlib.Core.List.{reverse, reverse-cons, reverse-reverse}
use dtlab_control_center.Ingress.Auth.{
  ℤ, pos, Library, IngressError, SensorKey, required_text, or_empty, or_fail, unknown_key,
  bad_timestamp, out_of_tolerance, bad_signature, not_ascii, has_key, distance, is_hex, all_hex,
  all_ascii, signed_text, verify_request_auth, build_http_signature,
}

abbrev NotSpace : ℕ → Type 0
NotSpace ch = is_space ch ≡ false

All-reverse : (P : ℕ → Type 0) (s : Text) → All P s → All P (reverse s)
All-reverse P [] h = tt
All-reverse P (ch ∷ s) h =
    rw (reverse-cons ch s) (All-append P (reverse s) (ch ∷ []) (All-reverse P s h.1) (h.0, tt))

drop_none : (s : Text) → All NotSpace s → drop_spaces s ≡ s
unfolding drop_spaces
drop_none [] h = refl
drop_none (ch ∷ s) h = rw h.0 refl

pub strip_none : (s : Text) → All NotSpace s → strip s ≡ s
strip_none s h =
    rw (drop_none s h, drop_none (reverse s) (All-reverse NotSpace s h)) (reverse-reverse s)

pub required_as_is :
    (s : Text) (n : ℕ) → All NotSpace s → 1 ≤ length s → length s ≤ n → required_text s n ≡ ok s
unfolding required_text
required_as_is s n h given short = rw (strip_none s h) (ground arith)

-- A digit, and a lower-case hexadecimal digit
abbrev pub IsDigit : ℕ → Type 0
IsDigit ch = (48 ≤ ch) × (ch ≤ 57)

abbrev pub IsHex : ℕ → Type 0
IsHex ch = is_hex ch ≡ true

digits_ascii : (s : Text) → All IsDigit s → all_ascii s ≡ true
unfolding all_ascii
digits_ascii [] h = refl
digits_ascii (ch ∷ s) h = ground (arith, digits_ascii s h.1)

hex-All : (s : Text) → All IsHex s → all_hex s ≡ true
unfolding all_hex
hex-All [] h = refl
hex-All (ch ∷ s) h = rw (h.0, hex-All s h.1) refl

hex_lower : (s : Text) → All IsHex s → text_lower s ≡ s
unfolding text_lower
hex_lower [] h = refl
hex_lower (ch ∷ s) h = ground (arith, hex_lower s h.1)

digits_NotSpace : (s : Text) → All IsDigit s → All NotSpace s
unfolding is_space
digits_NotSpace [] h = tt
digits_NotSpace (ch ∷ s) h = (ground arith, digits_NotSpace s h.1)

hex_NotSpace : (s : Text) → All IsHex s → All NotSpace s
unfolding is_space
hex_NotSpace [] h = tt
hex_NotSpace (ch ∷ s) h = (ground arith, hex_NotSpace s h.1)

-- A request as the sender makes it: the time in digits, a key that the receiver has, under an identifier without
-- spaces
pub record IsRequest (c : Library) (keys : List SensorKey) (key : SensorKey) (timestamp : Text)
    (t : ℕ) : Type 0 where
  pub registered : find (has_key key.key_id) keys ≡ some key
  pub plain_id : All NotSpace key.key_id
  pub id_given : 1 ≤ length key.key_id
  pub id_short : length key.key_id ≤ 128
  pub digits : All IsDigit timestamp
  pub time_given : 1 ≤ length timestamp
  pub time_short : length timestamp ≤ 20
  pub reads : c.int timestamp ≡ some (pos t)

-- HMAC-SHA256 in hexadecimal has 64 lower-case digits.
pub record IsHexDigest (c : Library) : Type 0 where
  pub hex : (secret message : Text) → All IsHex (c.hmac secret message)
  pub digits64 : (secret message : Text) → length (c.hmac secret message) ≡ 64

-- A request signed by the sender with a registered key under an identifier of 1 to 128
-- characters without spaces, at a time in 1 to 20 digits, is accepted as of that key whenever
-- the clocks differ by at most the tolerance, where HMAC gives 64 hexadecimal digits.
pub verify-build :
    (c : Library) (keys : List SensorKey) (key : SensorKey) (timestamp body : Text)
    (t now max_clock_skew : ℕ)
    → IsHexDigest c
    → IsRequest c keys key timestamp t
    → distance now (pos t) ≤ max_clock_skew
    → verify_request_auth c body
        (some key.key_id)
        (some timestamp)
        (some (build_http_signature c timestamp body key.secret))
        keys
        now
        max_clock_skew
      ≡ ok key
unfolding verify_request_auth
verify-build c keys key timestamp body t now max_clock_skew digest r near =
    let signature = build_http_signature c timestamp body key.secret in
    let hex = digest.hex key.secret (signed_text timestamp body) in
    let long = digest.digits64 key.secret (signed_text timestamp body) in
    let in_time : ltb max_clock_skew (distance now (pos t)) ≡ false = ground arith in
    let signature_text : required_text signature 128 ≡ ok signature =
      required_as_is signature 128 (hex_NotSpace signature hex) (omega (arith, long))
        (omega (arith, long)) in
    rw
      (
        required_as_is key.key_id 128 r.plain_id r.id_given r.id_short,
        r.registered,
        required_as_is timestamp 20 (digits_NotSpace timestamp r.digits) r.time_given r.time_short,
        r.reads,
        in_time,
        signature_text,
        hex_lower signature hex,
        long,
        hex-All signature hex,
        digits_ascii timestamp r.digits,
        text_eq_refl,
      )
      refl

-- What the receiver knows of a request that it takes
pub record IsTrusted (c : Library) (keys : List SensorKey) (key : SensorKey)
    (body key_id timestamp signature : Text) (now max_clock_skew : ℕ) : Type 0 where
  pub registered : find (has_key (strip key_id)) keys ≡ some key
  pub named : key.key_id ≡ strip key_id
  pub time : ℤ
  pub reads : c.int (strip timestamp) ≡ some time
  pub in_time : distance now time ≤ max_clock_skew
  pub signed : text_lower (strip signature) ≡ c.hmac key.secret (signed_text (strip timestamp) body)

required_text-strip : (s text : Text) (n : ℕ) → required_text s n ≡ ok text → strip s ≡ text
unfolding required_text
required_text-strip s text n h =
    elim (Bool-cases ((length (strip s) == 0) || ltb n (length (strip s)))) [
      | inl bad ↦ absurd (ground arith)
      | inr good ↦ ground arith
    ]

or_fail-some :
    {A : Type 0} (e : IngressError) (o : Option A) (a : A) → or_fail e o ≡ ok a → o ≡ some a
or_fail-some e none a h = absurd (ground arith)
or_fail-some e (some b) a h = ground arith

raise_false : (b : Bool) (e : IngressError) (u : Unit {0}) → raise_if b e ≡ ok u → b ≡ false
raise_false true e u h = absurd (ground arith)
raise_false false e u h = refl

not-false-true : (b : Bool) → not b ≡ false → b ≡ true
not-false-true b h = ground arith

found_named :
    (id : Text) (keys : List SensorKey) (key : SensorKey)
    → find (has_key id) keys ≡ some key
    → key.key_id ≡ id
unfolding find
found_named id [] key h = absurd (cc)
found_named id (k ∷ keys) key h = elim (Bool-cases (text_eq k.key_id id)) [
  | inl same ↦
      let found : k ≡ key = ground (arith, rw same at h) in
      ap (λ (x : SensorKey). x.key_id) (sym found) ∙ text_eq_sound _ _ same
  | inr other ↦ found_named id keys key (rw other at h)
]

not_over : (a b : ℕ) → ltb a b ≡ false → b ≤ a
not_over a b h = ground arith

-- A request that verify_request_auth accepts for a key gives, less outer spaces, the identifier
-- of that key, under which the keyring has it, a time that is read and differs from the clock by
-- at most the tolerance, and a signature that is, in lower case, the HMAC of its time and body
-- under the secret of the key.
pub verify_request_auth-IsTrusted :
    (c : Library) (keys : List SensorKey) (key : SensorKey) (body : Text)
    (key_id timestamp signature : Option Text) (now max_clock_skew : ℕ)
    → verify_request_auth c body key_id timestamp signature keys now max_clock_skew ≡ ok key
    → IsTrusted c keys key body
        (or_empty key_id)
        (or_empty timestamp)
        (or_empty signature)
        now
        max_clock_skew
unfolding verify_request_auth
verify_request_auth-IsTrusted c keys key body key_id timestamp signature now max_clock_skew h =
    let (id, is_id, h1) = bind_ok (required_text (or_empty key_id) 128) _ key h in
    let (found, is_found, h2) = bind_ok (or_fail unknown_key (find (has_key id) keys)) _ key h1 in
    let (time, is_time, h3) = bind_ok (required_text (or_empty timestamp) 20) _ key h2 in
    let (value, is_value, h4) = bind_ok (or_fail bad_timestamp (c.int time)) _ key h3 in
    let (u1, near, h5) =
      bind_ok (raise_if (ltb max_clock_skew (distance now value)) out_of_tolerance) _ key h4 in
    let (supplied, is_supplied, h6) = bind_ok (required_text (or_empty signature) 128) _ key h5 in
    let (u2, shaped, h7) =
      bind_ok
        (raise_if (not (length (text_lower supplied) == 64) || not (all_hex (text_lower supplied)))
          bad_signature)
        _ key h6 in
    let (u3, plain, h8) = bind_ok (raise_if (not (all_ascii time)) not_ascii) _ key h7 in
    let (u4, matches, h9) =
      bind_ok
        (raise_if
          (not (text_eq (text_lower supplied) (c.hmac found.secret (signed_text time body))))
          bad_signature)
        _ key h8 in
    let same_key : found ≡ key = ok_inj h9 in
    let same_id = required_text-strip (or_empty key_id) id 128 is_id in
    let registered : find (has_key (strip (or_empty key_id))) keys ≡ some key =
      ap (λ i. find (has_key i) keys) same_id
      ∙ or_fail-some unknown_key _ found is_found
      ∙ ap some same_key in
    let same_time = required_text-strip (or_empty timestamp) time 20 is_time in
    let same_signature = required_text-strip (or_empty signature) supplied 128 is_supplied in
    let not_late = raise_false _ out_of_tolerance u1 near in
    let unequal = raise_false _ bad_signature u4 matches in
    record {
      registered = registered;
      named = found_named (strip (or_empty key_id)) keys key registered;
      time = value;
      reads = ap c.int same_time ∙ or_fail-some bad_timestamp _ value is_value;
      in_time = not_over _ _ not_late;
      signed =
          ap text_lower same_signature
          ∙ text_eq_sound _ _ (not-false-true _ unequal)
          ∙ ap (λ (k : SensorKey). c.hmac k.secret (signed_text time body)) same_key
          ∙ ap (λ t. c.hmac key.secret (signed_text t body)) (sym same_time);
    }
