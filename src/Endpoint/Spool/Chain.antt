-- ===== src/Endpoint/Spool/Chain.antt =====
-- Envelopes that `build_envelope` makes are accepted, and so is the file that appends make of them.
use dtlab_control_center.Prelude.{
  ℕ, ◌+◌, ◌≤◌, ◌≡◌, ◌⊎◌, refl, some, List, [], ◌∷◌, ◌++◌, Text, codes, text_eq, text_eq_refl, ok,
  err, arith, All, Bool-cases, inl, inr, ltb, Result-cases,
}
use dtlab_control_center.Json.{Json, Members, object, get, get_value}
use dtlab_control_center.Endpoint.Spool.{
  Library, spool_full, zero_hash, str_of, str_or_empty, envelope_of, build_envelope,
  verify_envelope, record_hash_of, Spool, last_record_hash, append, kept, append_all, verify_chain,
  new_spool,
}

-- An event as the aggregator renders it: with an identifier, and a revision that is an integer.
pub record IsEvent (c : Library) (event : Members) : Type 0 where
  pub event_id : Json
  pub has_event_id : get (codes "event_id") event ≡ some event_id
  pub revision : Json
  pub has_revision : get (codes "revision") event ≡ some revision
  pub is_integer : c.int_text revision ≡ some (str_of c revision)

get_value_found : (key : Text) (m : Members) (v : Json) → get key m ≡ some v → get_value key m ≡ v
unfolding get_value
get_value_found key m v h = rw (h, get_value) refl

module _ (c : Library) (event : Members) (key_id key previous : Text) (e : IsEvent c event) where
  pub made : Members
  made = envelope_of c event key_id key previous (str_of c e.event_id) (str_of c e.revision)

  pub build-made : build_envelope c event key_id key previous ≡ ok made
  unfolding build_envelope made
  build-made = rw (e.has_event_id, e.has_revision, e.is_integer) refl

  pub verify-made : verify_envelope c made key (some previous) ≡ ok (record_hash_of c made)
  unfolding made envelope_of verify_envelope record_hash_of text_eq str_or_empty
  verify-made =
      simp
        (
          text_eq_refl,
          get_value_found _ event e.event_id e.has_event_id,
          get_value_found _ event e.revision e.has_revision,
        )
        refl

pub append_step :
    (c : Library) (event : Members) (s : Spool c)
    → IsEvent c event
    → (append c event s ≡ err spool_full)
      ⊎ ((envelope : Members) × (bytes : ℕ) × (append c event s
            ≡ ok (
              envelope,
              record s {
                lines = s.lines ++ envelope ∷ [];
                size = s.size + bytes;
                previous_hash = record_hash_of c envelope;
              },
            ))
          × (s.size + bytes ≤ s.max_bytes)
          × (verify_envelope c envelope s.key (some s.previous_hash)
              ≡ ok (record_hash_of c envelope)))
unfolding append
append_step c event s e =
    let envelope = made c event s.key_id s.key s.previous_hash e in
    let bytes = c.byte_length (c.canonical_json (object envelope) ++ codes "\n") in
    elim (Bool-cases (ltb s.max_bytes (s.size + bytes))) [
      | inl full ↦ inl (rw (build-made c event s.key_id s.key s.previous_hash e, full) refl)
      | inr room ↦ inr (
        envelope,
        bytes,
        rw (build-made c event s.key_id s.key s.previous_hash e, room) refl,
        ground arith,
        verify-made c event s.key_id s.key s.previous_hash e,
      )
    ]

-- The file is a chain of accepted records from the zero hash on, it fits, and opening it again gives the
-- hash to go on from.
pub record IsSound (c : Library) (s : Spool c) : Type 0 where
  pub chained : verify_chain c s.key zero_hash s.lines ≡ ok s.previous_hash
  pub fits : s.size ≤ s.max_bytes
  pub reopens : last_record_hash c s.lines ≡ s.previous_hash

module _ (c : Library) where
  pub verify_chain-append :
      (key p h h' : Text) (xs : List Members) (e : Members)
      → verify_chain c key p xs ≡ ok h
      → verify_envelope c e key (some h) ≡ ok h'
      → verify_chain c key p (xs ++ e ∷ []) ≡ ok h'
  unfolding verify_chain
  verify_chain-append key p h h' [] e start last =
      let same : p ≡ h = cc start in rw (same, last) refl
  verify_chain-append key p h h' (x ∷ xs) e start last =
      elim (Result-cases (verify_envelope c x key (some p))) [
        | inl (h1, r) ↦ rw r (verify_chain-append key h1 h h' xs e (rw r at start) last)
        | inr (bad, r) ↦ absurd (ground arith)
      ]

  last-append :
      (xs : List Members) (e : Members) → last_record_hash c (xs ++ e ∷ []) ≡ record_hash_of c e
  unfolding last_record_hash
  last-append [] e = refl
  last-append (x ∷ []) e = refl
  last-append (x ∷ y ∷ xs) e = last-append (y ∷ xs) e

  pub append-IsSound :
      (event : Members) (s : Spool c)
      → IsEvent c event
      → IsSound c s
      → IsSound c (kept c s (append c event s))
  append-IsSound event s e h = elim (append_step c event s e) [
    | inl full ↦ rw full h
    | inr (envelope, bytes, done, fits, accepted) ↦ rw done record {
      chained =
          verify_chain-append s.key zero_hash s.previous_hash _ s.lines envelope h.chained accepted;
      fits = fits;
      reopens = last-append s.lines envelope;
    }
  ]

  append_all-kept :
      (events : List Members) (s : Spool c)
      → All (IsEvent c) events
      → IsSound c s
      → IsSound c (append_all c events s)
  unfolding append_all
  append_all-kept [] s es h = h
  append_all-kept (event ∷ rest) s es h =
      append_all-kept rest (kept c s (append c event s)) es.1 (append-IsSound event s es.0 h)

-- A new spool, after any appends of events with an identifier and an integer revision, refused
-- ones included, has a file whose records verify as a chain from the zero hash on and end in the
-- hash that the next record will name, which opening the file again gives too, and whose size is
-- within the limit.
pub append_all-IsSound :
    (c : Library) (key_id key : Text) (max_bytes : ℕ) (events : List Members)
    → All (IsEvent c) events
    → IsSound c (append_all c events (new_spool c key_id key max_bytes))
append_all-IsSound c key_id key max_bytes events es =
    append_all-kept c events (new_spool c key_id key max_bytes) es (record {
      chained = unfold verify_chain in refl;
      fits = omega arith;
      reopens = unfold last_record_hash in refl;
    })
