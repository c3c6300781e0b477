-- ===== src/Snapshots/History.antt =====
-- Histories of the store: publications and prunings, each of which may be interrupted at any of its writes.
use dtlab_control_center.Prelude.{
  ℕ, ◌≡◌, refl, Bool, true, false, Option, none, some, or_else, List, [], ◌∷◌, Text, take, All, ok,
  Result-cases, inl, inr, if◌then◌else◌, arith,
}
use dtlab_control_center.Json.{Json, Members}
use dtlab_control_center.Snapshots.{Library, last_known_good, Store}
use dtlab_control_center.Snapshots.Publish.{Attempt, apply_all, publish}
use dtlab_control_center.Snapshots.Prune.{prune_objects}
use dtlab_control_center.Snapshots.Readable.{in_key_order, Entry, Readable}
use dtlab_control_center.Snapshots.Shelf.{Shelf, Shows, Laws, shelve, empty_shelf}
use dtlab_control_center.Snapshots.Refines.{Refined, shelved}
use dtlab_control_center.Snapshots.Accepted.{fresh_of, publish-Refined, publish-Readable}
use dtlab_control_center.Snapshots.Unlinked.{prune_objects-Readable}

-- What publish is given, and the time
pub record Publication : Type 0 where
  pub allow_demo : Bool
  pub now : ℕ
  pub published_at : Text
  pub snapshot : Json

-- A call of publish, or one of prune_objects at a time
pub data StoreCall : Type 0 where
  publication : Publication → StoreCall
  pruning : ℕ → ℕ → StoreCall

abbrev pub empty_store : {B : Type 0} → Store B
empty_store = record { objects = []; manifests = []; pointers = λ p. none }

-- A publication of a snapshot in key order
abbrev pub IsOrdered : Publication → Type 0
IsOrdered p = in_key_order p.snapshot ≡ true

abbrev pub IsOrderedCall : StoreCall → Type 0
IsOrderedCall (publication p) = IsOrdered p
IsOrderedCall (pruning retain now) = Unit

module _ {B : Type 0} (c : Library B) where
  unfoldable pub publish_in : Publication → Store B → Attempt B Members
  unfolding publish
  publish_in p s = publish c p.allow_demo p.now p.published_at p.snapshot s

  -- The store behind the first `n` writes of a call
  unfoldable pub interrupted : StoreCall → ℕ → Store B → Store B
  unfolding apply_all publish_in prune_objects
  interrupted (publication p) n s = apply_all p.now (take n (publish_in p s).1) s
  interrupted (pruning retain now) n s = apply_all now (take n (prune_objects c retain s).1) s

  -- Calls one after another, each with the number of its writes that are done
  unfoldable pub interrupted_all : List (StoreCall × ℕ) → Store B → Store B
  unfolding interrupted
  interrupted_all [] s = s
  interrupted_all (call ∷ rest) s = interrupted_all rest (interrupted call.0 call.1 s)

  unfoldable pub publish_all : List Publication → Store B → Store B
  unfolding apply_all publish_in
  publish_all [] s = s
  publish_all (p ∷ rest) s = publish_all rest (apply_all p.now (publish_in p s).1 s)

module _ {B : Type 0} {c : Library B} (laws : Laws c) where
  interrupted-Readable :
      (call : StoreCall) (n : ℕ) (s : Store B)
      → IsOrderedCall call
      → Readable c s
      → Readable c (interrupted c call n s)
  unfolding interrupted publish_in
  interrupted-Readable (publication p) n s order h =
      publish-Readable laws p.now p.allow_demo p.published_at p.snapshot s n order h
  interrupted-Readable (pruning retain now) n s order h = prune_objects-Readable c now retain n s h

  interrupted_all-Readable_from :
      (calls : List (StoreCall × ℕ)) (s : Store B)
      → All (λ call. IsOrderedCall call.0) calls
      → Readable c s
      → Readable c (interrupted_all c calls s)
  unfolding interrupted_all
  interrupted_all-Readable_from [] s order h = h
  interrupted_all-Readable_from (call ∷ rest) s order h =
      interrupted_all-Readable_from rest (interrupted c call.0 call.1 s) order.1
        (interrupted-Readable call.0 call.1 s order.0 h)

  -- From an empty store, after any sequence of publications of snapshots in key order and of
  -- prunings, each interrupted at any of its writes, every pointer is absent or can be loaded,
  -- under a library that keeps its laws.
  pub interrupted_all-Readable :
      (calls : List (StoreCall × ℕ))
      → All (λ call. IsOrderedCall call.0) calls
      → Readable c (interrupted_all c calls empty_store)
  interrupted_all-Readable calls order =
      interrupted_all-Readable_from calls empty_store order λ p. (none, refl)

  -- A shelf whose last known good snapshot is fresh
  abbrev is_fresh_entry : Option Entry → Bool
  is_fresh_entry none = false
  is_fresh_entry (some e) = fresh_of e.snapshot

  abbrev pub FreshGood : Store B → Type 0
  FreshGood s = (shelf : Shelf) × Shows c s shelf × (is_fresh_entry (shelf last_known_good) ≡ true)

  fresh_choice :
      (b : Bool) (e : Entry) (o : Option Entry)
      → (b ≡ true → fresh_of e.snapshot ≡ true)
      → is_fresh_entry o ≡ true
      → is_fresh_entry (if b then some e else or_else o (some e)) ≡ true
  fresh_choice true e o fresh h = fresh refl
  fresh_choice false e none fresh h = absurd (ground arith)
  fresh_choice false e (some g) fresh h = h

  -- The store behind a call of publish that is not interrupted
  abbrev behind : Publication → Store B → Store B
  behind p s = apply_all p.now (publish_in c p s).1 s

  publish_in-Refined :
      (p : Publication) (s : Store B) (shelf : Shelf)
      → IsOrdered p
      → Shows c s shelf
      → Refined c p.now s shelf
          (shelved laws p.now
            (fresh_of p.snapshot)
            (c.sha256 (c.dumps p.snapshot))
            p.snapshot
            shelf)
          (publish_in c p s)
  unfolding publish_in
  publish_in-Refined p s shelf order h =
      publish-Refined laws p.now p.allow_demo p.published_at p.snapshot s shelf order h

  behind-Shows :
      (p : Publication) (s : Store B) (shelf : Shelf)
      → IsOrdered p
      → Shows c s shelf
      → (after : Shelf) × Shows c (behind p s) after
  behind-Shows p s shelf order h =
      let promised = (publish_in-Refined p s shelf order h).promised in
      elim (Result-cases (publish_in c p s).0) [
        | inl (m, done) ↦ (_, rw done at promised)
        | inr (e, bad) ↦ (shelf, rw bad at promised)
      ]

  publish_all-Shows :
      (ps : List Publication) (s : Store B) (shelf : Shelf)
      → All IsOrdered ps
      → Shows c s shelf
      → (after : Shelf) × Shows c (publish_all c ps s) after
  unfolding publish_all
  publish_all-Shows [] s shelf order h = (shelf, h)
  publish_all-Shows (p ∷ rest) s shelf order h =
      let (after, shows) = behind-Shows p s shelf order.0 h in
      publish_all-Shows rest (behind p s) after order.1 shows

  behind-FreshGood :
      (p : Publication) (s : Store B) → IsOrdered p → FreshGood s → FreshGood (behind p s)
  unfolding shelve
  behind-FreshGood p s order (shelf, h, fresh) =
      let promised = (publish_in-Refined p s shelf order h).promised in
      elim (Result-cases (publish_in c p s).0) [
        | inl (m, done) ↦ (
          _,
          rw done at promised,
          fresh_choice (fresh_of p.snapshot) (record { manifest = m; snapshot = p.snapshot })
              (shelf last_known_good) (λ e. e) fresh,
        )
        | inr (e, bad) ↦ (shelf, rw bad at promised, fresh)
      ]

  publish_all-FreshGood_from :
      (ps : List Publication) (s : Store B)
      → All IsOrdered ps
      → FreshGood s
      → FreshGood (publish_all c ps s)
  unfolding publish_all
  publish_all-FreshGood_from [] s order h = h
  publish_all-FreshGood_from (p ∷ rest) s order h =
      publish_all-FreshGood_from rest (behind p s) order.1 (behind-FreshGood p s order.0 h)

  starts_fresh :
      (p : Publication) (m : Members) (s : Store B) (shelf : Shelf)
      → IsOrdered p
      → fresh_of p.snapshot ≡ true
      → (publish_in c p s).0 ≡ ok m
      → Shows c s shelf
      → FreshGood (behind p s)
  unfolding shelve
  starts_fresh p m s shelf order fresh done h =
      let promised = (publish_in-Refined p s shelf order h).promised in
      (_, rw done at promised, rw (fresh, shelve) fresh)

  -- From an empty store, once a publication of a fresh snapshot has returned, last_known_good
  -- loads a fresh snapshot behind all later publications, those that raise included, all of
  -- snapshots in key order, under a library that keeps its laws.
  pub publish_all-FreshGood :
      (earlier later : List Publication) (p : Publication) (m : Members)
      → All IsOrdered earlier
      → All IsOrdered later
      → IsOrdered p
      → fresh_of p.snapshot ≡ true
      → (publish_in c p (publish_all c earlier empty_store)).0 ≡ ok m
      → FreshGood (publish_all c (p ∷ later) (publish_all c earlier empty_store))
  unfolding publish_all
  publish_all-FreshGood earlier later p m before after order fresh done =
      let (shelf, shows) = publish_all-Shows earlier empty_store empty_shelf before (λ q. refl) in
      publish_all-FreshGood_from later _ after
        (starts_fresh p m (publish_all c earlier empty_store) shelf order fresh done shows)
