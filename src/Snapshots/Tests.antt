-- ===== src/Snapshots/Tests.antt =====
-- A store whose bytes are the documents themselves.
use dtlab_control_center.Prelude.{
  List, ℕ, ◌∷◌, ◌||◌, if◌then◌else◌, ◌≡◌, refl, Bool, true, false, ◌&&◌, none, some, [], ◌++◌, Text,
  codes, text_eq, text_eq_refl, text_lt, take, Result, ok, err, Result-cases, inl, inr, arith,
}
use dtlab_control_center.Json.{
  Json, null, boolean, number, string, array, object, Members, end, member, get,
}
use dtlab_control_center.Snapshots.{
  Library, Failure, read, object_of, read_archived_manifest, item, is_file_name, file_name, current,
  pointer_name, Store, load,
}
use dtlab_control_center.Snapshots.Publish.{apply_all, is_fresh, manifest_with, publish}
use dtlab_control_center.Snapshots.Prune.{prune_objects}
use dtlab_control_center.Snapshots.Readable.{in_key_order, Readable}
use dtlab_control_center.Snapshots.Shelf.{Laws, empty_shelf}
use dtlab_control_center.Snapshots.Refines.{Refined, shelved}
use dtlab_control_center.Snapshots.Accepted.{
  fresh_of, publish-Refined, publish-Readable, publish-load,
}
use dtlab_control_center.Snapshots.Dangling.{prune_objects-NoneDangling}
use dtlab_control_center.Snapshots.History.{
  Publication, StoreCall, publication, pruning, empty_store, publish_in, publish_all,
  interrupted_all, FreshGood, publish_all-FreshGood, interrupted_all-Readable,
}
use dtlab_control_center.Snapshots.Unlinked.{prune_objects-Readable}

abbrev eight : Text
eight = codes "aaaaaaaa"

abbrev digest : Text
digest = eight ++ eight ++ eight ++ eight ++ eight ++ eight ++ eight ++ eight

abbrev is_string_result : Result Failure Json → Bool
is_string_result (ok (string t)) = true
is_string_result r = false

abbrev is_result : Result Failure Json → Bool
is_result (ok v) = true
is_result (err e) = false

abbrev has_state : Result Failure Json → Bool
has_state (ok sync) = is_result (item (codes "state") sync)
has_state (err e) = false

abbrev equal_values : Json → Json → Bool
equal_values (number n) (number m) = text_eq n m
equal_values (string s) (string t) = text_eq s t
equal_values v w = false

abbrev other_eight : Text
other_eight = codes "bbbbbbbb"

abbrev other_digest : Text
other_digest =
    other_eight ++ other_eight ++ other_eight ++ other_eight ++ other_eight ++ other_eight
    ++ other_eight ++ other_eight

abbrev item_of : Text → Result Failure Json → Result Failure Json
item_of key (ok v) = item key v
item_of key (err e) = err e

abbrev says : Text → Result Failure Json → Bool
says t (ok (string s)) = text_eq s t
says t r = false

-- Fresh snapshots, and manifests of the time "u", have the other digest.
abbrev is_other : Json → Bool
is_other v =
    says (codes "fresh") (item_of (codes "state") (item (codes "sync") v))
    || says (codes "u") (item (codes "published_at") v)

abbrev library : Library Json
library = record {
  sha256 = λ v. if is_other v then other_digest else digest;
  size = λ v. 7;
  same_bytes = λ v w. false;
  loads = some;
  dumps = λ v. v;
  is_valid =
      λ v. is_string_result (item (codes "snapshot_id") v) && has_state (item (codes "sync") v);
  str = λ v. [];
  int_text = λ n. codes "7";
  equals = equal_values;
}

string_result :
    (r : Result Failure Json) → is_string_result r ≡ true → (t : Text) × (r ≡ ok (string t))
string_result (ok (string t)) h = (t, refl)
string_result (ok null) h = absurd (ground arith)
string_result (ok (boolean b)) h = absurd (ground arith)
string_result (ok (number n)) h = absurd (ground arith)
string_result (ok (array xs)) h = absurd (ground arith)
string_result (ok (object m)) h = absurd (ground arith)
string_result (err e) h = absurd (ground arith)

state_result :
    (r : Result Failure Json)
    → has_state r ≡ true
    → (sync : Json) × (state : Json) × (r ≡ ok sync) × (item (codes "state") sync ≡ ok state)
state_result (ok sync) h = elim (Result-cases (item (codes "state") sync)) [
  | inl (state, there) ↦ (sync, state, refl, there)
  | inr (e, bad) ↦ absurd (ground arith)
]
state_result (err e) h = absurd (ground arith)

digest_name : (b : Bool) → is_file_name (file_name (if b then other_digest else digest)) ≡ true
unfolding is_file_name text_eq
digest_name true = refl
digest_name false = refl

laws : Laws library
laws = record {
  reads_back = λ v order. refl;
  keeps_bytes = λ a b h. absurd (ground arith);
  digest_name = λ b. digest_name (is_other b);
  equal_int = λ n. text_eq_refl (codes "7");
  equal_string = text_eq_refl;
  valid_id = λ v valid. string_result (item (codes "snapshot_id") v) (ground arith);
  valid_state = λ v valid. state_result (item (codes "sync") v) (ground arith);
}

abbrev snapshot : Json
snapshot = object (
    member (codes "schema_version") (string (codes "2.0")) (
      member (codes "snapshot_id") (string (codes "s1")) (
        member (codes "sync")
          (object (
            member (codes "collector_version") (string (codes "1")) (
              member (codes "publication_mode") (string (codes "real_only"))
                (member (codes "state") (string (codes "stale")) end))))
          end)))

abbrev manifest : Members
manifest =
    manifest_with library (string (codes "2.0")) (string (codes "s1")) (string (codes "1")) snapshot
      (codes "t")

published : (publish library false 5 (codes "t") snapshot empty_store).0 ≡ ok manifest
unfolding publish item get text_eq apply_all
published = refl

in_order : in_key_order snapshot ≡ true
unfolding text_lt
in_order = refl

publish-Refined_example :
    Refined library 5 empty_store empty_shelf
      (shelved laws 5 (fresh_of snapshot) (library.sha256 snapshot) snapshot empty_shelf)
      (publish library false 5 (codes "t") snapshot empty_store)
publish-Refined_example =
    publish-Refined laws 5 false (codes "t") snapshot empty_store empty_shelf in_order (λ p. refl)

-- Three of its four writes are done.
publish-Readable_example :
    Readable library (
      apply_all 5 (take 3 (publish library false 5 (codes "t") snapshot empty_store).1) empty_store)
publish-Readable_example =
    publish-Readable laws 5 false (codes "t") snapshot empty_store 3 in_order (λ p. (none, refl))

publish-load_example :
    load library current
      (apply_all 5 (publish library false 5 (codes "t") snapshot empty_store).1 empty_store)
    ≡ ok (record { snapshot = snapshot; manifest = manifest; pointer = pointer_name current })
publish-load_example =
    publish-load laws 5 false (codes "t") snapshot empty_store empty_shelf manifest in_order
      (λ p. refl) published

abbrev stored : Store Json
stored =
    apply_all 5 (take 9 (publish library false 5 (codes "t") snapshot empty_store).1) empty_store

prune_objects-Readable_example :
    Readable library (apply_all 6 (take 9 (prune_objects library 3 stored).1) stored)
prune_objects-Readable_example =
    prune_objects-Readable library 6 3 9 stored (
      publish-Readable laws 5 false (codes "t") snapshot empty_store 9 in_order (λ p. (none, refl)))

abbrev pruned : Store Json
pruned = apply_all 6 (take 9 (prune_objects library 3 stored).1) stored

archived : read_archived_manifest library (file_name digest) pruned ≡ ok manifest
unfolding read_archived_manifest prune_objects apply_all publish item get text_eq
archived = refl

object_stored : read (object_of library manifest) stored.objects ≡ some snapshot
unfolding read apply_all publish item get text_eq
object_stored = refl

prune_objects-NoneDangling_example :
    read (object_of library manifest) pruned.objects ≡ some snapshot
prune_objects-NoneDangling_example =
    prune_objects-NoneDangling library (λ b. digest_name (is_other b)) 6 3 9 stored
      (file_name digest) manifest snapshot archived object_stored

abbrev fresh_snapshot : Json
fresh_snapshot = object (
    member (codes "schema_version") (string (codes "2.0")) (
      member (codes "snapshot_id") (string (codes "s2")) (
        member (codes "sync")
          (object (
            member (codes "collector_version") (string (codes "1")) (
              member (codes "publication_mode") (string (codes "real_only"))
                (member (codes "state") (string (codes "fresh")) end))))
          end)))

abbrev of_stale : Publication
of_stale = record { allow_demo = false; now = 5; published_at = codes "t"; snapshot = snapshot }

abbrev of_fresh : Publication
of_fresh = record {
  allow_demo = false;
  now = 6;
  published_at = codes "u";
  snapshot = fresh_snapshot;
}

abbrev fresh_manifest : Members
fresh_manifest =
    manifest_with library (string (codes "2.0")) (string (codes "s2")) (string (codes "1"))
      fresh_snapshot (codes "u")

fresh_in_order : in_key_order fresh_snapshot ≡ true
unfolding text_lt
fresh_in_order = refl

is_of_fresh : fresh_of fresh_snapshot ≡ true
unfolding is_fresh item get text_eq
is_of_fresh = refl

fresh_published :
    (publish_in library of_fresh (publish_all library (of_stale ∷ []) empty_store)).0
    ≡ ok fresh_manifest
unfolding publish_all publish_in publish item get text_eq apply_all
fresh_published = refl

-- The last publication raises, since its object is there with other bytes.
publish_all-FreshGood_example : FreshGood laws (
    publish_all library
      (of_fresh ∷ of_stale ∷ [])
      (publish_all library (of_stale ∷ []) empty_store))
publish_all-FreshGood_example =
    publish_all-FreshGood laws (of_stale ∷ []) (of_stale ∷ []) of_fresh fresh_manifest
      (in_order, tt) (in_order, tt) fresh_in_order is_of_fresh fresh_published

abbrev calls : List (StoreCall × ℕ)
calls =
    (publication of_stale, 9)
    ∷ (publication of_fresh, 3)
    ∷ (pruning 3 7, 1)
    ∷ (publication of_fresh, 9)
    ∷ []

interrupted_all-Readable_example : Readable library (interrupted_all library calls empty_store)
interrupted_all-Readable_example =
    interrupted_all-Readable laws calls (in_order, (fresh_in_order, (tt, (fresh_in_order, tt))))
