-- ===== src/Snapshots/Written.antt =====
-- What publish writes can be read again: the object, and the manifest that names it.
use dtlab_control_center.Prelude.{
  ℕ, ◌≡◌, refl, sym, ap, ◌∙◌, true, Option, some, List, [], ◌∷◌, Text, codes, text_eq, text_eq_refl,
  ok, Result-cases, Bool-cases, Option-cases, inl, inr, arith, any,
}
use dtlab_control_center.Json.{
  Json, null, boolean, number, string, array, object, Members, get, get_value,
}
use dtlab_control_center.Snapshots.{
  Library, StoreError, item, fields_of, required, is_missing, file_name, Pointer, File, Store,
  check_object, open_object, read, check_manifest, decode_manifest,
}
use dtlab_control_center.Snapshots.Publish.{
  Write, put_object, put_manifest, apply, apply_all, write_once, manifest_with,
}
use dtlab_control_center.Snapshots.Readable.{Entry, Shown, AllSafe, apply-Shown, read_appended}
use dtlab_control_center.Snapshots.Shelf.{Laws}

module _ {B : Type 0} {c : Library B} (laws : Laws c) where
  pub new_decodes :
      (schema_version snapshot_id collector_version : Json) (content : B) (published_at : Text)
      → let m = manifest_with c schema_version snapshot_id collector_version content published_at in
        c.loads (c.dumps (object m)) ≡ some (object m)
        → decode_manifest c (c.dumps (object m)) ≡ ok m
  unfolding decode_manifest check_manifest get get_value text_eq
  new_decodes schema_version snapshot_id collector_version content published_at h =
      rw (h, laws.digest_name content, text_eq_refl) refl

  pub new_opens :
      (schema_version collector_version snapshot : Json) (id : Text) (content : B)
      (published_at : Text) (objects : List (File B))
      → c.loads content ≡ some snapshot
      → c.is_valid snapshot ≡ true
      → item (codes "snapshot_id") snapshot ≡ ok (string id)
      → read (file_name (c.sha256 content)) objects ≡ some content
      → open_object c
          (manifest_with c schema_version (string id) collector_version content published_at)
          objects
        ≡ ok snapshot
  unfolding open_object check_object get get_value text_eq
  new_opens schema_version collector_version snapshot id content published_at objects loaded valid
        named there =
      rw
        (
          there,
          laws.equal_int (c.size content),
          text_eq_refl,
          loaded,
          valid,
          named,
          laws.equal_string id,
        )
        refl

  check_manifest_same : (m m1 : Members) → check_manifest c m ≡ ok m1 → m ≡ m1
  unfolding check_manifest
  check_manifest_same m m1 h = ground arith

  fields_same : (v : Json) (m : Members) → fields_of v ≡ ok m → v ≡ object m
  fields_same (object m1) m h = elim (Bool-cases (any (is_missing m1) required)) [
    | inl missing ↦ absurd (ground arith)
    | inr whole ↦ ground arith
  ]
  fields_same (string s) m h = absurd (ground arith)
  fields_same (array xs) m h = absurd (ground arith)
  fields_same null m h = absurd (ground arith)
  fields_same (boolean b) m h = absurd (ground arith)
  fields_same (number n) m h = absurd (ground arith)

  -- The manifest printed again is the same manifest.
  pub decodes_again :
      (m : Members) (content content1 : B)
      → decode_manifest c content ≡ ok m
      → c.loads content1 ≡ some (object m)
      → decode_manifest c content1 ≡ ok m
  unfolding decode_manifest
  decodes_again m content content1 h loaded = elim (Option-cases (c.loads content)) [
    | inl nothing ↦ absurd (ground arith)
    | inr (v, found) ↦ elim (Result-cases (fields_of v)) [
      | inr (e, bad) ↦ absurd (ground arith)
      | inl (m1, fields) ↦
          let same : m1 ≡ m = check_manifest_same m1 m (rw (found, fields) at h) in
          let whole : v ≡ object m = fields_same v m1 fields ∙ ap object same in
          let same_load : c.loads content1 ≡ c.loads content = cc (loaded, ap some whole, found) in
          rw same_load h
    ]
  ]

  -- Writes that are safe, and leave what all pointers show
  pub record Keeps (now : ℕ) (s : Store B) (ws : List (Write B)) : Type 0 where
    pub safe : AllSafe c now s ws
    pub shown : (p : Pointer) (o : Option Entry) → Shown c s p o → Shown c (apply_all now ws s) p o

  pub nothing-Keeps : (now : ℕ) (s : Store B) → Keeps now s []
  unfolding apply_all
  nothing-Keeps now s = record { safe = tt; shown = λ p o h. h }

  pub object-Keeps :
      (now : ℕ) (differs : StoreError) (name : Text) (content : B) (s : Store B)
      (ws : List (Write B))
      → write_once c differs put_object name content s.objects ≡ ok ws
      → Keeps now s ws × (read name (apply_all now ws s).objects ≡ some content)
  unfolding write_once apply_all apply
  object-Keeps now differs name content s ws h = elim (Option-cases (read name s.objects)) [
    | inl absent ↦
        let one : put_object name content ∷ [] ≡ ws = ground arith in
        rw (sym one) (
          record {
            safe = (absent, tt);
            shown =
                λ p o shown. apply-Shown c now (put_object name content) s p o absent refl shown;
          },
          read_appended name content now s.objects absent,
        )
    | inr (existing, there) ↦ elim (Bool-cases (c.same_bytes existing content)) [
      | inr other ↦ absurd (ground arith)
      | inl same ↦
          let none_written : [] ≡ ws = ground arith in
          rw (sym none_written)
            (nothing-Keeps now s, rw (sym (laws.keeps_bytes existing content same)) there)
    ]
  ]

  pub manifest-Keeps :
      (now : ℕ) (differs : StoreError) (name : Text) (content : B) (s : Store B)
      (ws : List (Write B))
      → write_once c differs put_manifest name content s.manifests ≡ ok ws
      → Keeps now s ws × ((apply_all now ws s).objects ≡ s.objects)
  unfolding write_once apply_all apply
  manifest-Keeps now differs name content s ws h = elim (Option-cases (read name s.manifests)) [
    | inl absent ↦
        let one : put_manifest name content ∷ [] ≡ ws = ground arith in
        rw (sym one) (
          record {
            safe = (tt, tt);
            shown = λ p o shown. apply-Shown c now (put_manifest name content) s p o tt refl shown;
          },
          refl,
        )
    | inr (existing, there) ↦ elim (Bool-cases (c.same_bytes existing content)) [
      | inr other ↦ absurd (ground arith)
      | inl same ↦
          let none_written : [] ≡ ws = ground arith in
          rw (sym none_written) (nothing-Keeps now s, refl)
    ]
  ]
