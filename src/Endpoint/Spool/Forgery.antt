-- ===== src/Endpoint/Spool/Forgery.antt =====
-- What `verify_envelope` has checked when it accepts.
use dtlab_control_center.Prelude.{
  ◌≡◌, refl, sym, ◌∙◌, ◌⊎◌, inl, inr, false, not, Option, some, Text, codes, text_eq, text_eq_sound,
  arith, ok, err,
}
use dtlab_control_center.Json.{
  Json, null, boolean, number, string, array, object, Members, get_value,
}
use dtlab_control_center.Endpoint.Spool.{
  Library, incomplete, dict_or, str_of, str_or_empty, unsigned_envelope, signature_of, sign,
  hash_of, verify_integrity, verify_envelope,
}

same_text : (s t : Text) → not (text_eq s t) ≡ false → s ≡ t
same_text s t h = text_eq_sound s t (ground arith)

as_dict : (j : Json) → ((m : Members) × (j ≡ object m)) ⊎ (dict_or incomplete j ≡ err incomplete)
as_dict (object m) = inl (m, refl)
as_dict null = inr refl
as_dict (boolean b) = inr refl
as_dict (number n) = inr refl
as_dict (string s) = inr refl
as_dict (array xs) = inr refl

opened :
    (c : Library) (envelope : Members) (key : Text) (expected : Option Text) (h : Text)
    → verify_envelope c envelope key expected ≡ ok h
    → (event : Members) × (integrity : Members) × (get_value (codes "event") envelope
        ≡ object event)
      × (get_value (codes "integrity") envelope ≡ object integrity)
      × (verify_integrity c envelope event integrity key expected ≡ ok h)
unfolding verify_envelope
opened c envelope key expected h run = elim (as_dict (get_value (codes "event") envelope)) [
  | inr no_event ↦ absurd (ground arith)
  | inl (event, e) ↦ elim (as_dict (get_value (codes "integrity") envelope)) [
    | inr no_integrity ↦ absurd (ground arith)
    | inl (integrity, i) ↦ (event, integrity, e, i, ground arith)
  ]
]

-- The signature, the hash and the predecessor of an accepted envelope.
pub record IsAuthentic (c : Library) (envelope : Members) (key previous record_hash : Text)
    : Type 0 where
  pub event : Members
  pub has_event : get_value (codes "event") envelope ≡ object event
  pub integrity : Members
  pub has_integrity : get_value (codes "integrity") envelope ≡ object integrity
  pub follows : str_or_empty c (get_value (codes "previous_record_sha256") integrity) ≡ previous
  pub signed :
      str_or_empty c (get_value (codes "signature") integrity)
      ≡ signature_of c key
          (unsigned_envelope c event (str_of c (get_value (codes "key_id") integrity)) previous)
  pub hashed :
      record_hash
      ≡ hash_of c (
          sign c key
            (unsigned_envelope c event (str_of c (get_value (codes "key_id") integrity)) previous))
  pub recorded : str_or_empty c (get_value (codes "record_sha256") integrity) ≡ record_hash

module _ (c : Library) (envelope event integrity : Members) (key previous : Text) where
  named_previous : Text
  named_previous = str_or_empty c (get_value (codes "previous_record_sha256") integrity)

  unsigned : Members
  unsigned =
      unsigned_envelope c event (str_of c (get_value (codes "key_id") integrity)) named_previous

  checked :
      (h : Text)
      → verify_integrity c envelope event integrity key (some previous) ≡ ok h
      → (not (text_eq named_previous previous) ≡ false)
        × (not (
              text_eq
                (signature_of c key unsigned)
                (str_or_empty c (get_value (codes "signature") integrity)))
            ≡ false)
        × (not (
              text_eq
                (hash_of c (sign c key unsigned))
                (str_or_empty c (get_value (codes "record_sha256") integrity)))
            ≡ false)
        × (h ≡ hash_of c (sign c key unsigned))
  unfolding verify_integrity named_previous unsigned
  checked h run = (ground arith, ground arith, ground arith, ground arith)

  authentic :
      (h : Text)
      → get_value (codes "event") envelope ≡ object event
      → get_value (codes "integrity") envelope ≡ object integrity
      → named_previous ≡ previous
      → signature_of c key unsigned ≡ str_or_empty c (get_value (codes "signature") integrity)
      → hash_of c (sign c key unsigned)
        ≡ str_or_empty c (get_value (codes "record_sha256") integrity)
      → h ≡ hash_of c (sign c key unsigned)
      → IsAuthentic c envelope key previous h
  unfolding named_previous unsigned
  authentic h e i follows signature hash result = record {
    event = event;
    has_event = e;
    integrity = integrity;
    has_integrity = i;
    follows = follows;
    signed = rw⁻¹ follows (sym signature);
    hashed = rw⁻¹ follows result;
    recorded = sym (result ∙ hash);
  }

-- An envelope that verify_envelope accepts behind a given hash names that hash as its
-- predecessor, carries the HMAC of its own event, of the key identifier that its integrity names
-- and of that predecessor, and records the hash that is returned, which is that of the signed
-- content.
pub verify_envelope-IsAuthentic :
    (c : Library) (envelope : Members) (key previous record_hash : Text)
    → verify_envelope c envelope key (some previous) ≡ ok record_hash
    → IsAuthentic c envelope key previous record_hash
verify_envelope-IsAuthentic c envelope key previous record_hash h =
    let (event, integrity, e, i, run) = opened c envelope key (some previous) record_hash h in
    let (follows, signature, hash, result) =
      checked c envelope event integrity key previous record_hash run in
    authentic c envelope event integrity key previous record_hash e i (same_text _ _ follows)
      (same_text _ _ signature) (same_text _ _ hash) result
