-- ===== src/Snapshots/Shelf.antt =====
-- The store seen from its readers: which snapshot each pointer stands for.
use dtlab_control_center.Prelude.{
  ℕ, ◌≡◌, Bool, true, Option, none, some, or_else, Text, codes, ok, if◌then◌else◌,
}
use dtlab_control_center.Json.{Json, number, string, get_value}
use dtlab_control_center.Snapshots.{
  Library, Pointer, current, last_known_good, previous, item, is_text, is_file_name, file_name,
  Store,
}
use dtlab_control_center.Snapshots.Readable.{Entry, Shown, in_key_order}

abbrev pub Shelf : Type 0
Shelf = Pointer → Option Entry

-- The one that `current` stood for, where the new one has another digest
unfoldable pub displaced : Text → Option Entry → Option Entry → Option Entry
unfolding get_value
displaced digest none old = old
displaced digest (some e) old =
    if is_text digest (get_value (codes "sha256") e.manifest) then old else some e

-- What publishing an entry with the given digest promises
unfoldable pub shelve : Bool → Text → Entry → Shelf → Shelf
unfolding displaced
shelve fresh digest e shelf current = some e
shelve fresh digest e shelf previous = displaced digest (shelf current) (shelf previous)
shelve fresh digest e shelf last_known_good =
    if fresh then some e else or_else (shelf last_known_good) (some e)

abbrev pub empty_shelf : Shelf
empty_shelf p = none

module _ {B : Type 0} (c : Library B) where
  abbrev pub Shows : Store B → Shelf → Type 0
  Shows s shelf = (p : Pointer) → Shown c s p (shelf p)

  -- What the code relies on: the reader gives back what the printer wrote of a value in key order, bytes
  -- that are equal are the same, a digest is 64 hexadecimal digits, integers and strings are equal to
  -- themselves, and the contract asks for an identifier and a state.
  pub record Laws : Type 0 where
    pub reads_back : (v : Json) → in_key_order v ≡ true → c.loads (c.dumps v) ≡ some v
    pub keeps_bytes : (a b : B) → c.same_bytes a b ≡ true → a ≡ b
    pub digest_name : (b : B) → is_file_name (file_name (c.sha256 b)) ≡ true
    pub equal_int : (n : ℕ) → c.equals (number (c.int_text n)) (number (c.int_text n)) ≡ true
    pub equal_string : (t : Text) → c.equals (string t) (string t) ≡ true
    pub valid_id :
        (v : Json)
        → c.is_valid v ≡ true
        → (t : Text) × (item (codes "snapshot_id") v ≡ ok (string t))
    pub valid_state :
        (v : Json)
        → c.is_valid v ≡ true
        → (sync : Json) × (state : Json) × (item (codes "sync") v ≡ ok sync)
          × (item (codes "state") sync ≡ ok state)
