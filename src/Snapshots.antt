-- ===== src/Snapshots.antt =====
-- What reads the files of the snapshot store of src/dtlab/services/snapshot_store.py. The members of an object stand in
-- the order of their keys, which is the order that the printer gives them.
pub mod Files
pub mod History
pub mod Prune
pub mod Publish
pub mod Accepted
pub mod Archives
pub mod Dangling
pub mod Pointers
pub mod Readable
pub mod Refines
pub mod Shelf
pub mod Tests
pub mod Unlinked
pub mod Written
pub use Files.*
unfoldable pub use Files.{item, is_file_name, read}
use dtlab_control_center.Prelude.{
  ℕ, Bool, true, false, not, ◌||◌, ◌&&◌, Option, none, some, List, [], ◌∷◌, ◌++◌, Text, codes,
  text_eq, text_lt, length, leb, ltb, ◌==◌, take, drop, any, find, Result, ok, err, ◌>>=◌, ◌>>◌,
  raise_if, if◌then◌else◌,
}
use dtlab_control_center.Json.{
  Json, null, boolean, number, string, array, object, Items, nil, cons, Members, end, member, get,
  get_value,
}

module _ {B : Type 0} (c : Library B) where
  abbrev pub str_of : Json → Text
  str_of (string s) = s
  str_of v = c.str v

  -- _decode_manifest from the check of the origin on
  unfoldable pub check_manifest : Members → Result Failure Members
  unfolding get_value is_file_name
  check_manifest manifest = do
    require (is_text (codes "dtlab_collector") (get_value (codes "trusted_origin") manifest))
        wrong_origin
    let object_name = get_value (codes "object_name") manifest
    require (is_file_name (str_of object_name)) bad_object_name
    require (is_text (file_name (str_of (get_value (codes "sha256") manifest))) object_name)
        wrong_object_name
    ok manifest

  -- _decode_manifest
  unfoldable pub decode_manifest : B → Result Failure Members
  unfolding check_manifest
  decode_manifest content = do
    value ← or_raise bad_manifest (c.loads content)
    manifest ← fields_of value
    check_manifest manifest

  -- AtomicSnapshotStore._read_manifest
  unfoldable pub read_manifest : Pointer → Store B → Result Failure Members
  unfolding decode_manifest
  read_manifest p s = or_raise missing_pointer (s.pointers p) >>= decode_manifest

  -- AtomicSnapshotStore._load_manifest from the bytes of the object on
  unfoldable pub check_object : Members → B → Result Failure Json
  unfolding get_value item
  check_object manifest content = do
    require
        (c.equals (number (c.int_text (c.size content))) (get_value (codes "byte_length") manifest))
        wrong_size
    require (is_text (c.sha256 content) (get_value (codes "sha256") manifest)) wrong_hash
    snapshot ← or_raise bad_snapshot (c.loads content)
    require (c.is_valid snapshot) bad_snapshot
    id ← item (codes "snapshot_id") snapshot
    require (c.equals id (get_value (codes "snapshot_id") manifest)) wrong_snapshot_id
    ok snapshot

  -- `manifest["object_name"]`, the name of a file
  abbrev pub object_of : Members → Text
  unfolding get_value
  object_of manifest = str_of (get_value (codes "object_name") manifest)

  -- The snapshot that AtomicSnapshotStore._load_manifest finds
  unfoldable pub open_object : Members → List (File B) → Result Failure Json
  unfolding check_object read
  open_object manifest objects =
      or_raise missing_object (read (object_of manifest) objects) >>= check_object manifest

  abbrev pub load_manifest : Members → Text → List (File B) → Result Failure StoredSnapshot
  unfolding open_object
  load_manifest manifest label objects = do
    snapshot ← open_object manifest objects
    ok (record { snapshot = snapshot; manifest = manifest; pointer = label })

  -- AtomicSnapshotStore.load
  unfoldable pub load : Pointer → Store B → Result Failure StoredSnapshot
  unfolding read_manifest open_object
  load p s = do manifest ← read_manifest p s; load_manifest manifest (pointer_name p) s.objects

  -- AtomicSnapshotStore.probe_manifest
  unfoldable pub probe_manifest : Pointer → Store B → Result Failure Members
  unfolding read_manifest read get_value
  probe_manifest p s = do
    manifest ← read_manifest p s
    content ← or_raise missing_object (read (object_of manifest) s.objects)
    require
        (c.equals (number (c.int_text (c.size content))) (get_value (codes "byte_length") manifest))
        wrong_size
    ok manifest

  -- AtomicSnapshotStore._read_archived_manifest, of a file name with its suffix
  unfoldable pub read_archived_manifest : Text → Store B → Result Failure Members
  unfolding decode_manifest read
  read_archived_manifest name s = do
    content ← or_raise missing_archive (read name s.manifests)
    require (text_eq name (file_name (c.sha256 content))) wrong_archive_hash
    decode_manifest content

  -- AtomicSnapshotStore.probe_archive_manifest
  unfoldable pub probe_archive_manifest : Text → Store B → Result Failure Members
  unfolding read_archived_manifest read get_value is_file_name
  probe_archive_manifest name s = do
    require (is_file_name name) bad_archive_name
    manifest ← read_archived_manifest name s
    content ← or_raise missing_object (read (object_of manifest) s.objects)
    require
        (c.equals (number (c.int_text (c.size content))) (get_value (codes "byte_length") manifest))
        wrong_size
    ok manifest

  -- AtomicSnapshotStore.load_archive
  unfoldable pub load_archive : Text → Store B → Result Failure StoredSnapshot
  unfolding read_archived_manifest open_object is_file_name
  load_archive name s = do
    require (is_file_name name) bad_archive_name
    manifest ← read_archived_manifest name s
    load_manifest manifest (codes "archive:" ++ name) s.objects

  -- `try: … except SnapshotStoreError`: the value, or none
  abbrev pub caught : {A : Type 0} → Result Failure A → Result Failure (Option A)
  caught (ok a) = ok (some a)
  caught (err (store_error e)) = ok none
  caught (err e) = err e

  abbrev pub or_next :
      Result Failure StoredSnapshot → Result Failure StoredSnapshot → Result Failure StoredSnapshot
  or_next (err (store_error e)) next = next
  or_next r next = r

  abbrev pub or_none : Result Failure StoredSnapshot → Result Failure StoredSnapshot
  or_none (err (store_error e)) = err (store_error none_available)
  or_none r = r

  -- AtomicSnapshotStore.load_best_available
  unfoldable pub load_best_available : Store B → Result Failure StoredSnapshot
  unfolding load
  load_best_available s =
      or_next (load current s) (or_next (load last_known_good s) (or_none (load previous s)))
