-- ===== src/Hours/Stored.antt =====
-- A stored policy is read back.
use dtlab_control_center.Prelude.{ℕ, ◌≡◌, refl, true, some, ok, List, [], ◌∷◌, text_eq, text_lt}
use dtlab_control_center.Json.{Json, number, object, get}
use dtlab_control_center.Snapshots.Readable.{in_key_order, items_in_order}
use dtlab_control_center.Hours.{Policy}
use dtlab_control_center.Hours.Payload.{
  JsonLibrary, sort_members, insert_member, only_fields, items_of, payload_of, encode_policy,
  days_of, policy_of, decode_policy,
}

-- The reader gives back what the printer wrote of a value in key order, and an integer that was
-- written is read as itself.
pub record JsonLaws {B : Type 0} (c : JsonLibrary B) : Type 0 where
  pub reads_back : (v : Json) → in_key_order v ≡ true → c.loads (c.dumps v) ≡ some v
  pub reads_int : (n : ℕ) → c.int (number (c.literal n)) ≡ some n

module _ {B : Type 0} (c : JsonLibrary B) where
  items_lem : (ds : List ℕ) → items_in_order (items_of c ds) ≡ true
  unfolding items_of
  items_lem [] = refl
  items_lem (d ∷ ds) = items_lem ds

  sorted_payload : (p : Policy) → in_key_order (object (sort_members (payload_of c p))) ≡ true
  unfolding sort_members insert_member payload_of text_lt
  sorted_payload p = rw (items_lem p.weekdays) refl

  days_lem : (ds : List ℕ) → JsonLaws c → days_of c (items_of c ds) ≡ ok ds
  unfolding items_of days_of
  days_lem [] h = refl
  days_lem (d ∷ ds) h = rw (h.reads_int d, days_lem ds h) refl

  policy_lem : (p : Policy) → JsonLaws c → policy_of c (sort_members (payload_of c p)) ≡ ok p
  unfolding policy_of sort_members insert_member payload_of text_lt text_eq get only_fields
  policy_lem p h = rw (days_lem p.weekdays h) refl

  pub decode-encode : (p : Policy) → JsonLaws c → decode_policy c (encode_policy c p) ≡ ok p
  unfolding decode_policy encode_policy
  decode-encode p h =
      rw (h.reads_back (object (sort_members (payload_of c p))) (sorted_payload p), decode_policy)
        (policy_lem p h)
