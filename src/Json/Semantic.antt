-- ===== src/Json/Semantic.antt =====
-- `_semantic_payload` of src/dtlab/services/ticket_store.py
use dtlab_control_center.Prelude.{
  ◌≡◌, refl, Bool, true, false, ◌&&◌, ◌||◌, Text, codes, text_eq, if◌then◌else◌,
}
use dtlab_control_center.Json.{
  Json, null, boolean, number, string, array, object, Items, nil, cons, Members, end, member,
}

abbrev is_fetch_time : Text → Bool
is_fetch_time key = text_eq key (codes "fetched_at") || text_eq key (codes "observed_at")

-- `inside_evidence` is the Boolean argument.
unfoldable mutual
  pub semantic_payload : Bool → Json → Json
  semantic_payload inside null = null
  semantic_payload inside (boolean b) = boolean b
  semantic_payload inside (number n) = number n
  semantic_payload inside (string s) = string s
  semantic_payload inside (array xs) = array (semantic_items inside xs)
  semantic_payload inside (object ms) = object (semantic_members inside ms)

  pub semantic_items : Bool → Items → Items
  semantic_items inside nil = nil
  semantic_items inside (cons x xs) = cons (semantic_payload inside x) (semantic_items inside xs)

  pub semantic_members : Bool → Members → Members
  semantic_members inside end = end
  semantic_members inside (member k v rest) =
      if inside && is_fetch_time k
      then semantic_members inside rest
      else member k (semantic_payload (inside || text_eq k (codes "evidence")) v)
          (semantic_members inside rest)

-- Polling noise: `SameFacts inside a b` if `b` is `a` with other fetch times inside the evidence.
mutual
  pub data SameFacts : Bool → Json → Json → Type 0 where
    same : {inside : Bool} (v : Json) → SameFacts inside v v
    items :
        {inside : Bool} {xs ys : Items}
        → SameItems inside xs ys
        → SameFacts inside (array xs) (array ys)
    members :
        {inside : Bool} {xs ys : Members}
        → SameMembers inside xs ys
        → SameFacts inside (object xs) (object ys)

  pub data SameItems : Bool → Items → Items → Type 0 where
    none_left : {inside : Bool} → SameItems inside nil nil
    one_more :
        {inside : Bool} {x y : Json} {xs ys : Items}
        → SameFacts inside x y
        → SameItems inside xs ys
        → SameItems inside (cons x xs) (cons y ys)

  pub data SameMembers : Bool → Members → Members → Type 0 where
    no_member : {inside : Bool} → SameMembers inside end end
    kept :
        {inside : Bool} (k : Text) {x y : Json} {xs ys : Members}
        → SameFacts (inside || text_eq k (codes "evidence")) x y
        → SameMembers inside xs ys
        → SameMembers inside (member k x xs) (member k y ys)
    refetched :
        {inside : Bool} (k : Text) (x y : Json) {xs ys : Members}
        → inside ≡ true
        → is_fetch_time k ≡ true
        → SameMembers inside xs ys
        → SameMembers inside (member k x xs) (member k y ys)

mutual
  unfolding semantic_payload semantic_items semantic_members

  payload-SameFacts :
      (inside : Bool) {a b : Json}
      → SameFacts inside a b
      → semantic_payload inside a ≡ semantic_payload inside b
  payload-SameFacts inside (same v) = refl
  payload-SameFacts inside (items h) = cc (items-SameItems inside h)
  payload-SameFacts inside (members h) = cc (members-SameMembers inside h)

  items-SameItems :
      (inside : Bool) {a b : Items}
      → SameItems inside a b
      → semantic_items inside a ≡ semantic_items inside b
  items-SameItems inside none_left = refl
  items-SameItems inside (one_more x h) = cc (payload-SameFacts inside x, items-SameItems inside h)

  members-SameMembers :
      (inside : Bool) {a b : Members}
      → SameMembers inside a b
      → semantic_members inside a ≡ semantic_members inside b
  members-SameMembers inside no_member = refl
  members-SameMembers inside (kept k x h) =
      rw
        (members-SameMembers inside h, payload-SameFacts (inside || text_eq k (codes "evidence")) x)
  members-SameMembers inside (refetched k x y e f h) =
      rw (e, f) (rw e at (members-SameMembers inside h))

-- Payloads that differ only in fetch times inside their evidence have the same semantic payload.
pub semantic_payload-SameFacts :
    (a b : Json) → SameFacts false a b → semantic_payload false a ≡ semantic_payload false b
semantic_payload-SameFacts a b h = payload-SameFacts false h
