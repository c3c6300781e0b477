-- ===== src/Snapshots/Dangling.antt =====
-- An archived manifest that prune_objects leaves has the object that it had, wherever it is interrupted.
use dtlab_control_center.Prelude.{
  ℕ, ◌≡◌, refl, sym, ap, ◌∙◌, subst, true, none, some, List, [], ◌++◌, Text, text_eq, text_eq_sound,
  take, leb, All, ok, err, Result-cases, Bool-cases, Option-cases, inl, inr, arith,
}
use dtlab_control_center.Json.{Members}
use dtlab_control_center.Snapshots.{
  Library, bad_retain, require, object_of, is_file_name, file_name, File, Store, read,
  decode_manifest, read_archived_manifest,
}
use dtlab_control_center.Snapshots.Publish.{Write, apply_all, Attempt}
use dtlab_control_center.Snapshots.Readable.{apply_all-append}
use dtlab_control_center.Snapshots.Prune.{
  contains, sorted, newer, name_before, well_named, file_names, unlink_objects, protected, is_stale,
  unlink_manifests, and_then, prune_objects,
}
use dtlab_control_center.Snapshots.Archives.{
  take_append, All-take, IsManifestUnlink, IsUnkept, none-some, manifests_only, read_earlier,
  read-contains, contains-sorted, contains-well_named, unlink_objects-IsUnkept, unkept_manifests,
  kept_object, unlink_manifests-only, stale_gone,
}

module _ {B : Type 0} (c : Library B) where
  archive_file :
      (name : Text) (s : Store B) (m : Members)
      → read_archived_manifest c name s ≡ ok m
      → (content : B) × (read name s.manifests ≡ some content)
        × (name ≡ file_name (c.sha256 content))
        × (decode_manifest c content ≡ ok m)
  unfolding read_archived_manifest
  archive_file name s m h = elim (Option-cases (read name s.manifests)) [
    | inl absent ↦ absurd (ground arith)
    | inr (content, there) ↦ elim (Bool-cases (text_eq name (file_name (c.sha256 content)))) [
      | inr other ↦ absurd (ground arith)
      | inl same ↦ (content, there, text_eq_sound _ _ same, rw (there, same) at h)
    ]
  ]

  archive_elsewhere :
      (name : Text) (s t : Store B) (m : Members)
      → ((content : B)
          → read name t.manifests ≡ some content
          → read name s.manifests ≡ some content)
      → read_archived_manifest c name t ≡ ok m
      → read_archived_manifest c name s ≡ ok m
  unfolding read_archived_manifest
  archive_elsewhere name s t m back h = elim (Option-cases (read name t.manifests)) [
    | inl absent ↦ absurd (ground arith)
    | inr (content, there) ↦ rw (back content there) (rw there at h)
  ]

  -- An archive that can be read in `t` has its object there, if it had it in `s`.
  abbrev NoneDangling : Store B → Store B → Type 0
  NoneDangling s t =
      (name : Text) (m : Members) (content : B)
      → read_archived_manifest c name t ≡ ok m
      → read (object_of c m) s.objects ≡ some content
      → read (object_of c m) t.objects ≡ some content

  module _ (digest_name : (b : B) → is_file_name (file_name (c.sha256 b)) ≡ true) (now : ℕ) where
    before_objects :
        (ws : List (Write B)) (s : Store B)
        → All IsManifestUnlink ws
        → NoneDangling s (apply_all now ws s)
    before_objects ws s only name m content reads there = rw (manifests_only now ws s only) there

    among_objects :
        (keep : List Text) (ws vs : List (Write B)) (s : Store B)
        → All IsManifestUnlink ws
        → All (IsUnkept keep) vs
        → ((name : Text) (m : Members)
            → contains name (file_names (well_named (sorted name_before s.manifests))) ≡ true
            → read_archived_manifest c name s ≡ ok m
            → is_stale c keep m s ≡ true
            → read name (apply_all now ws s).manifests ≡ none)
        → NoneDangling s (apply_all now vs (apply_all now ws s))
    unfolding is_stale
    among_objects keep ws vs s only unkept gone name m content reads there =
        let u = apply_all now ws s in
        let t = apply_all now vs u in
        let back = λ (b : B) (h : read name t.manifests ≡ some b).
          subst (λ (fs : List (File B)). read name fs ≡ some b)
            (unkept_manifests now keep vs u unkept) h in
        let in_u : read_archived_manifest c name u ≡ ok m =
          archive_elsewhere name u t m back reads in
        let in_s : read_archived_manifest c name s ≡ ok m =
          archive_elsewhere name s u m (λ b. read_earlier now name b ws s only) in_u in
        let (b, found, named, _) = archive_file name s m in_s in
        let (b1, found1, _, _) = archive_file name u m in_u in
        let listed : contains name (file_names (well_named (sorted name_before s.manifests)))
            ≡ true =
          contains-well_named name (sorted name_before s.manifests)
            (ap is_file_name named ∙ digest_name b)
            (contains-sorted name name_before s.manifests
              ∙ read-contains name b s.manifests found) in
        let object_there : read (object_of c m) u.objects ≡ some content =
          ap (read (object_of c m)) (manifests_only now ws s only) ∙ there in
        elim (Bool-cases (contains (object_of c m) keep)) [
          | inl kept ↦ kept_object now keep (object_of c m) content vs u unkept kept object_there
          | inr other ↦
              let stale : is_stale c keep m s ≡ true = rw other refl in
              absurd (none-some b1 (sym (gone name m listed in_s stale) ∙ found1))
        ]

    and_then-NoneDangling :
        (n : ℕ) (keep : List Text) (o : Attempt B (Unit {0})) (vs : List (Write B)) (s : Store B)
        → All IsManifestUnlink o.1
        → All (IsUnkept keep) vs
        → (o.0 ≡ ok tt
            → (name : Text) (m : Members)
            → contains name (file_names (well_named (sorted name_before s.manifests))) ≡ true
            → read_archived_manifest c name s ≡ ok m
            → is_stale c keep m s ≡ true
            → read name (apply_all now o.1 s).manifests ≡ none)
        → NoneDangling s (apply_all now (take n (and_then c o vs).1) s)
    and_then-NoneDangling n keep (err e, ws) vs s only unkept gone =
        before_objects (take n ws) s (All-take IsManifestUnlink n ws only)
    and_then-NoneDangling n keep (ok u, ws) vs s only unkept gone = elim (take_append n ws vs) [
      | inl (k, h) ↦ rw h (before_objects (take k ws) s (All-take IsManifestUnlink k ws only))
      | inr (k, h) ↦
          subst (λ (all : List (Write B)). NoneDangling s (apply_all now all s)) (sym h)
            (subst (NoneDangling s) (sym (apply_all-append c now ws (take k vs) s)) (
              among_objects keep ws (take k vs) s only (All-take (IsUnkept keep) k vs unkept)
                (gone refl)))
    ]

    prune_objects-NoneDangling_after :
        (retain n : ℕ) (s : Store B)
        → NoneDangling s (apply_all now (take n (prune_objects c retain s).1) s)
    unfolding prune_objects
    prune_objects-NoneDangling_after retain n s =
        elim (Result-cases (require (leb 3 retain) bad_retain)) [
          | inr (e, bad) ↦ rw bad (before_objects (take n []) s (All-take IsManifestUnlink n [] tt))
          | inl (u, good) ↦ elim (Result-cases (protected c s)) [
            | inr (e, bad) ↦
                rw (good, bad) (before_objects (take n []) s (All-take IsManifestUnlink n [] tt))
            | inl (names, found) ↦
                let objects = sorted newer (well_named s.objects) in
                let keep = names ++ file_names (take retain objects) in
                let files = well_named (sorted name_before s.manifests) in
                rw (good, found)
                  (and_then-NoneDangling n keep (unlink_manifests c keep files s)
                    (unlink_objects keep objects) s (unlink_manifests-only c keep files s)
                    (unlink_objects-IsUnkept keep objects)
                    (λ done name m listed reads stale.
                      stale_gone c now keep files s s name m done listed reads stale))
          ]
        ]

    -- At whatever unlink prune_objects is interrupted, an archived manifest that can be read
    -- still has the object that it had before, where digests have the form of file names.
    pub prune_objects-NoneDangling :
        (retain n : ℕ) (s : Store B) (name : Text) (m : Members) (content : B)
        → read_archived_manifest c name (apply_all now (take n (prune_objects c retain s).1) s)
          ≡ ok m
        → read (object_of c m) s.objects ≡ some content
        → read (object_of c m) (apply_all now (take n (prune_objects c retain s).1) s).objects
          ≡ some content
    prune_objects-NoneDangling retain n s = prune_objects-NoneDangling_after retain n s
