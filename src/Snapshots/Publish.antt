-- ===== src/Snapshots/Publish.antt =====
-- AtomicSnapshotStore.publish as its writes, each of which replaces or adds one file at once: a process that dies leaves
-- the store with the first few of them done.
use dtlab_control_center.Prelude.{
  ℕ, Bool, true, false, not, Option, none, some, List, [], ◌∷◌, ◌++◌, Text, codes, text_eq, Result,
  ok, err, ◌>>=◌, ◌>>◌, if◌then◌else◌,
}
use dtlab_control_center.Json.{Json, number, string, object, Members, end, member, get_value}
use dtlab_control_center.Snapshots.{
  Library, StoreError, object_differs, manifest_differs, demo_refused, Failure, store_error,
  contract_error, item, require, is_text, file_name, Pointer, current, last_known_good, previous,
  same_pointer, File, Store, read, read_manifest, load, caught,
}

-- A file that `_atomic_write` leaves, or one that is unlinked
pub data Write (B : Type 0) : Type 0 where
  put_object put_manifest : Text → B → Write B
  point : Pointer → B → Write B
  unlink_object unlink_manifest : Text → Write B

module _ {B : Type 0} where
  abbrev pub without : Text → List (File B) → List (File B)
  without name [] = []
  without name (f ∷ files) =
      let rest = without name files in if text_eq f.name name then rest else f ∷ rest

  -- A write at the time `now`. Objects and manifests are only written where there is no such file.
  unfoldable pub apply : ℕ → Write B → Store B → Store B
  apply now (put_object name content) s = record s {
    objects = s.objects ++ record { name = name; content = content; modified = now } ∷ [];
  }
  apply now (put_manifest name content) s = record s {
    manifests = s.manifests ++ record { name = name; content = content; modified = now } ∷ [];
  }
  apply now (point p content) s = record s {
    pointers = λ q. if same_pointer p q then some content else s.pointers q;
  }
  apply now (unlink_object name) s = record s { objects = without name s.objects }
  apply now (unlink_manifest name) s = record s { manifests = without name s.manifests }

  unfoldable pub apply_all : ℕ → List (Write B) → Store B → Store B
  unfolding apply
  apply_all now [] s = s
  apply_all now (w ∷ ws) s = apply_all now ws (apply now w s)

-- What a call returns or raises, with the writes that it has done
abbrev pub Attempt : Type 0 → Type 0 → Type 0
Attempt B A = Result Failure A × List (Write B)

abbrev pub on_ok : {B A D : Type 0} → Result Failure A → (A → Attempt B D) → Attempt B D
on_ok (ok a) next = next a
on_ok (err e) next = (err e, [])

-- The writes, and what follows on the store that they leave
abbrev pub on_writes :
    {B D : Type 0} → ℕ → List (Write B) → Store B → (Store B → Attempt B D) → Attempt B D
on_writes now ws s next = let later = next (apply_all now ws s) in (later.0, ws ++ later.1)

-- `snapshot["sync"]["state"] == "fresh"`
unfoldable pub is_fresh : Json → Result Failure Bool
unfolding item
is_fresh snapshot = do
  sync ← item (codes "sync") snapshot
  state ← item (codes "state") sync
  ok (is_text (codes "fresh") state)

module _ {B : Type 0} (c : Library B) where
  -- An immutable file: no write where it is there already with the same bytes
  unfoldable pub write_once :
      StoreError → (Text → B → Write B) → Text → B → List (File B) → Result Failure (List (Write B))
  unfolding read
  write_once differs put name content files = elim (read name files) [
    | none ↦ ok (put name content ∷ [])
    | some existing ↦ if c.same_bytes existing content then ok [] else err (store_error differs)
  ]

  -- The checks, `canonical_bytes` and `snapshot_sha256`
  unfoldable pub snapshot_content : Bool → Json → Result Failure B
  unfolding item
  snapshot_content allow_demo snapshot =
      if not (c.is_valid snapshot)
      then err contract_error
      else if allow_demo
      then ok (c.dumps snapshot)
      else (do
        sync ← item (codes "sync") snapshot
        mode ← item (codes "publication_mode") sync
        require (is_text (codes "real_only") mode) demo_refused
        ok (c.dumps snapshot))

  abbrev pub manifest_with : Json → Json → Json → B → Text → Members
  manifest_with schema_version snapshot_id collector_version content published_at =
      let digest = c.sha256 content in
      member (codes "byte_length") (number (c.int_text (c.size content))) (
        member (codes "collector_version") collector_version (
          member (codes "contract_version") schema_version (
            member (codes "manifest_version") (string (codes "1.0")) (
              member (codes "object_name") (string (file_name digest)) (
                member (codes "published_at") (string published_at) (
                  member (codes "sha256") (string digest) (
                    member (codes "snapshot_id") snapshot_id (
                      member (codes "trusted_origin") (string (codes "dtlab_collector")) end))))))))

  -- The manifest of a snapshot
  unfoldable pub manifest_of : Json → B → Text → Result Failure Members
  unfolding item
  manifest_of snapshot content published_at = do
    schema_version ← item (codes "schema_version") snapshot
    snapshot_id ← item (codes "snapshot_id") snapshot
    sync ← item (codes "sync") snapshot
    collector_version ← item (codes "collector_version") sync
    ok (manifest_with schema_version snapshot_id collector_version content published_at)

  -- `if snapshot["sync"]["state"] == "fresh" or last_known_good is None`
  unfoldable pub mark_good : Json → Members → Store B → Attempt B Members
  unfolding load is_fresh
  mark_good snapshot manifest s = on_ok (caught c (load c last_known_good s)) λ good.
      on_ok (is_fresh snapshot) λ fresh.
        let write = if fresh then true else elim good [ none ↦ true | some g ↦ false ] in
        (ok manifest, if write then point last_known_good (c.dumps (object manifest)) ∷ [] else [])

  -- The write of `previous`, where there is a manifest of another snapshot
  unfoldable pub keep_previous : Text → Option Members → List (Write B)
  unfolding get_value
  keep_previous digest none = []
  keep_previous digest (some old) =
      if is_text digest (get_value (codes "sha256") old)
      then []
      else point previous (c.dumps (object old)) ∷ []

  unfoldable pub switch_pointers : ℕ → Json → Text → Members → Store B → Attempt B Members
  unfolding read_manifest keep_previous mark_good
  switch_pointers now snapshot digest manifest s =
      on_ok (caught c (read_manifest c current s)) λ old.
        on_writes now (keep_previous digest old ++ point current (c.dumps (object manifest)) ∷ []) s
          (mark_good snapshot manifest)

  unfoldable pub publish_manifest : ℕ → Text → Json → B → Store B → Attempt B Members
  unfolding manifest_of write_once switch_pointers
  publish_manifest now published_at snapshot content s =
      on_ok (manifest_of snapshot content published_at) λ manifest.
        let printed = c.dumps (object manifest) in
        on_ok
          (write_once manifest_differs put_manifest (file_name (c.sha256 printed)) printed
            s.manifests)
          λ archived.
            on_writes now archived s (switch_pointers now snapshot (c.sha256 content) manifest)

  -- AtomicSnapshotStore.publish, with the text of the time that it is given
  unfoldable pub publish : Bool → ℕ → Text → Json → Store B → Attempt B Members
  unfolding snapshot_content write_once publish_manifest
  publish allow_demo now published_at snapshot s =
      on_ok (snapshot_content allow_demo snapshot) λ content.
        on_ok
          (write_once object_differs put_object (file_name (c.sha256 content)) content s.objects)
          λ stored. on_writes now stored s (publish_manifest now published_at snapshot content)
