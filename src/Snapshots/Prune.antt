-- ===== src/Snapshots/Prune.antt =====
-- AtomicSnapshotStore.prune_objects as its unlinks, in their order.
use dtlab_control_center.Prelude.{
  ℕ, Bool, false, not, ◌||◌, Option, none, some, List, [], ◌∷◌, ◌++◌, Text, text_eq, text_lt, map,
  take, ltb, leb, is_some, Result, ok, err, ◌>>=◌, if◌then◌else◌,
}
use dtlab_control_center.Json.{Members}
use dtlab_control_center.Snapshots.{
  Library, Failure, bad_retain, require, caught, is_file_name, object_of, current, last_known_good,
  previous, File, Store, read, read_manifest, read_archived_manifest,
}
use dtlab_control_center.Snapshots.Publish.{Write, unlink_object, unlink_manifest, Attempt, on_ok}

abbrev pub contains : Text → List Text → Bool
contains name [] = false
contains name (n ∷ names) = text_eq n name || contains name names

module _ {B : Type 0} where
  abbrev pub sort_in : (File B → File B → Bool) → File B → List (File B) → List (File B)
  sort_in before f [] = f ∷ []
  sort_in before f (g ∷ files) =
      let rest = sort_in before f files in if before g f then g ∷ rest else f ∷ g ∷ files

  -- `sorted`, which is stable
  abbrev pub sorted : (File B → File B → Bool) → List (File B) → List (File B)
  sorted before [] = []
  sorted before (f ∷ files) = sort_in before f (sorted before files)

  -- The files of a name that the pattern takes
  unfoldable pub well_named : List (File B) → List (File B)
  unfolding is_file_name
  well_named [] = []
  well_named (f ∷ files) =
      let rest = well_named files in if is_file_name f.name then f ∷ rest else rest

  -- `path.stat().st_mtime`, the newest first
  abbrev pub newer : File B → File B → Bool
  newer f g = ltb g.modified f.modified

  abbrev pub name_before : File B → File B → Bool
  unfolding text_lt
  name_before f g = text_lt f.name g.name

  abbrev pub file_names : List (File B) → List Text
  file_names files = map (λ f. f.name) files

  -- AtomicSnapshotStore.archived_manifest_names
  unfoldable pub archived_manifest_names : Store B → List Text
  unfolding well_named
  archived_manifest_names s = file_names (well_named (sorted name_before s.manifests))

  -- The last loop
  unfoldable pub unlink_objects : List Text → List (File B) → List (Write B)
  unfolding text_eq
  unlink_objects keep [] = []
  unlink_objects keep (f ∷ files) =
      let rest = unlink_objects keep files in
      if contains f.name keep then rest else unlink_object f.name ∷ rest

module _ {B : Type 0} (c : Library B) where
  abbrev pub object_in : Option Members → List Text
  object_in none = []
  object_in (some m) = object_of c m ∷ []

  -- The objects that the pointers name
  unfoldable pub protected : Store B → Result Failure (List Text)
  unfolding read_manifest
  protected s = do
    now ← caught c (read_manifest c current s)
    good ← caught c (read_manifest c last_known_good s)
    before ← caught c (read_manifest c previous s)
    ok (object_in now ++ object_in good ++ object_in before)

  -- `object_name not in keep or not (self.objects / object_name).is_file()`
  unfoldable pub is_stale : List Text → Members → Store B → Bool
  unfolding read text_eq
  is_stale keep m s =
      not (contains (object_of c m) keep) || not (is_some (read (object_of c m) s.objects))

  -- The loop over the manifests. It reads files that it has not unlinked yet, as they were before.
  unfoldable pub unlink_manifests : List Text → List (File B) → Store B → Attempt B (Unit {0})
  unfolding is_stale read_archived_manifest
  unlink_manifests keep [] s = (ok tt, [])
  unlink_manifests keep (f ∷ files) s =
      let rest = unlink_manifests keep files s in
      on_ok (read_archived_manifest c f.name s)
        λ m. (rest.0, if is_stale keep m s then unlink_manifest f.name ∷ rest.1 else rest.1)

  abbrev pub and_then : Attempt B (Unit {0}) → List (Write B) → Attempt B (Unit {0})
  and_then (ok u, ws) vs = (ok u, ws ++ vs)
  and_then (err e, ws) vs = (err e, ws)

  unfoldable pub prune_objects : ℕ → Store B → Attempt B (Unit {0})
  unfolding protected unlink_manifests unlink_objects well_named
  prune_objects retain s = on_ok (require (leb 3 retain) bad_retain) λ u.
      on_ok (protected s) λ names.
        let objects = sorted newer (well_named s.objects) in
        let keep = names ++ file_names (take retain objects) in
        and_then (unlink_manifests keep (well_named (sorted name_before s.manifests)) s)
          (unlink_objects keep objects)
