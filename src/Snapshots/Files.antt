-- ===== src/Snapshots/Files.antt =====
-- The files of the snapshot store of src/dtlab/services/snapshot_store.py, its errors, and what it takes from elsewhere.
use dtlab_control_center.Prelude.{
  ℕ, Bool, true, false, not, ◌||◌, ◌&&◌, Option, none, some, List, [], ◌∷◌, ◌++◌, Text, codes,
  text_eq, length, leb, ◌==◌, take, drop, any, find, Result, ok, err, if◌then◌else◌,
}
use dtlab_control_center.Json.{Json, string, array, object, Items, nil, cons, Members, get}

-- What the module takes from elsewhere: SHA-256 in hexadecimal and the length of bytes, their equality, the JSON
-- reader behind the UTF-8 decoder, the printer with sorted keys and its newline, the contract's
-- `validate_snapshot`, `str` of a value that is no string, the literal of an integer, and `==` on JSON values.
pub record Library (B : Type 0) : Type 0 where
  pub sha256 : B → Text
  pub size : B → ℕ
  pub same_bytes : B → B → Bool
  pub loads : B → Option Json
  pub dumps : Json → B
  pub is_valid : Json → Bool
  pub str : Json → Text
  pub int_text : ℕ → Text
  pub equals : Json → Json → Bool

-- SnapshotStoreError by its message
pub data StoreError : Type 0 where
  bad_manifest incomplete_manifest wrong_origin bad_object_name wrong_object_name missing_pointer :
      StoreError
  missing_object wrong_size wrong_hash bad_snapshot wrong_snapshot_id demo_refused : StoreError
  object_differs manifest_differs bad_archive_name missing_archive wrong_archive_hash bad_retain
        none_available :
      StoreError

-- What the code raises: SnapshotStoreError, ContractValidationError, KeyError or TypeError
pub data Failure : Type 0 where
  store_error : StoreError → Failure
  contract_error key_error type_error : Failure

abbrev pub or_raise : {A : Type 0} → StoreError → Option A → Result Failure A
or_raise e none = err (store_error e)
or_raise e (some a) = ok a

abbrev pub require : Bool → StoreError → Result Failure (Unit {0})
require true e = ok tt
require false e = err (store_error e)

-- `value[key]`
unfoldable pub item : Text → Json → Result Failure Json
unfolding get
item key (object m) = elim (get key m) [ none ↦ err key_error | some v ↦ ok v ]
item key v = err type_error

abbrev pub is_text : Text → Json → Bool
is_text t (string s) = text_eq s t
is_text t _ = false

abbrev pub is_hex : ℕ → Bool
is_hex c = (leb 48 c && leb c 57) || (leb 97 c && leb c 102)

abbrev pub all_hex : Text → Bool
all_hex [] = true
all_hex (c ∷ s) = is_hex c && all_hex s

-- _OBJECT_NAME and _MANIFEST_NAME, with `fullmatch`
unfoldable pub is_file_name : Text → Bool
is_file_name name =
    (length (take 64 name) == 64)
    && all_hex (take 64 name)
    && text_eq (drop 64 name) (codes ".json")

abbrev pub file_name : Text → Text
file_name digest = digest ++ codes ".json"

abbrev pub has_item : Text → Items → Bool
has_item t nil = false
has_item t (cons v rest) = is_text t v || has_item t rest

abbrev pub is_hashable : Json → Bool
is_hashable (array xs) = false
is_hashable (object m) = false
is_hashable v = true

abbrev pub all_hashable : Items → Bool
all_hashable nil = true
all_hashable (cons v rest) = is_hashable v && all_hashable rest

abbrev pub required : List Text
required =
    codes "manifest_version"
    ∷ codes "contract_version"
    ∷ codes "snapshot_id"
    ∷ codes "sha256"
    ∷ codes "object_name"
    ∷ codes "byte_length"
    ∷ codes "published_at"
    ∷ codes "trusted_origin"
    ∷ codes "collector_version"
    ∷ []

abbrev pub is_missing : Members → Text → Bool
unfolding get
is_missing m key = elim (get key m) [ none ↦ true | some v ↦ false ]

-- `required - set(manifest)` and the indexing behind it, where the manifest is an object, and where it is not
abbrev pub fields_of : Json → Result Failure Members
fields_of (object m) =
    if any (is_missing m) required then err (store_error incomplete_manifest) else ok m
fields_of (string s) = err (store_error incomplete_manifest)
fields_of (array xs) =
    if all_hashable xs && any (λ key. not (has_item key xs)) required
    then err (store_error incomplete_manifest)
    else err type_error
fields_of v = err type_error

-- The three pointers, by _POINTER_NAMES
pub data Pointer : Type 0 where
  current last_known_good previous : Pointer

abbrev pub pointer_name : Pointer → Text
pointer_name current = codes "current"
pointer_name last_known_good = codes "last_known_good"
pointer_name previous = codes "previous"

abbrev pub same_pointer : Pointer → Pointer → Bool
same_pointer current current = true
same_pointer last_known_good last_known_good = true
same_pointer previous previous = true
same_pointer p q = false

pub record File (B : Type 0) : Type 0 where
  pub name : Text
  pub content : B
  pub modified : ℕ

-- The directories `objects` and `manifests`, and the manifest of each pointer
pub record Store (B : Type 0) : Type 0 where
  pub objects : List (File B)
  pub manifests : List (File B)
  pub pointers : Pointer → Option B

-- StoredSnapshot
pub record StoredSnapshot : Type 0 where
  pub snapshot : Json
  pub manifest : Members
  pub pointer : Text

module _ {B : Type 0} where
  abbrev pub named : Text → File B → Bool
  named name f = text_eq f.name name

  abbrev pub content_in : Option (File B) → Option B
  content_in none = none
  content_in (some f) = some f.content

  -- `path.read_bytes()`, where there is a file
  unfoldable pub read : Text → List (File B) → Option B
  unfolding find text_eq
  read name files = content_in (find (named name) files)
