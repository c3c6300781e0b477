-- ===== src/Snapshots/Pointers.antt =====
-- The writes of `previous` and `current`.
use dtlab_control_center.Prelude.{
  ℕ, ◌≡◌, refl, subst, Option, none, some, [], ◌∷◌, ◌++◌, Text, codes, ok, Bool-cases, Option-cases,
  inl, inr, arith,
}
use dtlab_control_center.Json.{object, Members, get_value}
use dtlab_control_center.Snapshots.{
  Library, is_text, Pointer, current, last_known_good, previous, Store, decode_manifest,
  read_manifest,
}
use dtlab_control_center.Snapshots.Publish.{point, apply, apply_all, keep_previous}
use dtlab_control_center.Snapshots.Readable.{Entry, Opens, Shown, AllSafe, apply-Shown, point-Shown}
use dtlab_control_center.Snapshots.Shelf.{Shelf, Shows, Laws, displaced}
use dtlab_control_center.Snapshots.Written.{decodes_again}

abbrev pub manifest_in : Option Entry → Option Members
manifest_in none = none
manifest_in (some e) = some e.manifest

-- The shelf behind the writes of `previous` and `current`
unfoldable pub switched : Text → Entry → Shelf → Shelf
unfolding displaced
switched digest e shelf current = some e
switched digest e shelf previous = displaced digest (shelf current) (shelf previous)
switched digest e shelf last_known_good = shelf last_known_good

module _ {B : Type 0} {c : Library B} (laws : Laws c) (now : ℕ) where
  reprinted :
      (s : Store B) (p : Pointer) (f : Entry)
      → Shown c s p (some f)
      → decode_manifest c (c.dumps (object f.manifest)) ≡ ok f.manifest
  unfolding read_manifest
  reprinted s p f h = elim (Option-cases (s.pointers p)) [
    | inl absent ↦ absurd (ground arith)
    | inr (content, there) ↦
        decodes_again laws f.manifest content (c.dumps (object f.manifest)) (rw there at h.0)
          (laws.reads_back (object f.manifest) h.1.in_order)
  ]

  current-Shows :
      (s : Store B) (shelf : Shelf) (e : Entry) (content : B) (digest : Text)
      → decode_manifest c content ≡ ok e.manifest
      → Opens c s.objects e
      → Shown c s previous (displaced digest (shelf current) (shelf previous))
      → Shown c s last_known_good (shelf last_known_good)
      → Shows c (apply now (point current content) s) (switched digest e shelf)
  unfolding switched
  current-Shows s shelf e content digest decodes opens before good current =
      point-Shown c now current content s e decodes opens
  current-Shows s shelf e content digest decodes opens before good previous =
      apply-Shown c now (point current content) s previous _ (e, decodes, opens) refl before
  current-Shows s shelf e content digest decodes opens before good last_known_good =
      apply-Shown c now (point current content) s last_known_good _ (e, decodes, opens) refl good

  pub switch-Shows :
      (s : Store B) (shelf : Shelf) (e : Entry) (content : B) (digest : Text)
      → decode_manifest c content ≡ ok e.manifest
      → Opens c s.objects e
      → Shows c s shelf
      → let ws =
          keep_previous c digest (manifest_in (shelf current)) ++ point current content ∷ [] in
        AllSafe c now s ws × Shows c (apply_all now ws s) (switched digest e shelf)
  unfolding keep_previous apply_all displaced
  switch-Shows s shelf e content digest decodes opens h = elim (Option-cases (shelf current)) [
    | inl absent ↦ rw absent (
      ((e, decodes, opens), tt),
      current-Shows s shelf e content digest decodes opens (rw absent (h previous))
          (h last_known_good),
    )
    | inr (f, there) ↦ elim (Bool-cases (is_text digest (get_value (codes "sha256") f.manifest))) [
      | inl same ↦
          rw (there, same)
            (
              ((e, decodes, opens), tt),
              current-Shows s shelf e content digest decodes opens (rw (there, same) (h previous))
                  (h last_known_good),
            )
      | inr other ↦
          let shown : Shown c s current (some f) =
            subst (λ o. Shown c s current o) there (h current) in
          let again = reprinted s current f shown in
          let opens1 : Opens c (apply now (point previous (c.dumps (object f.manifest))) s).objects
              e =
            record { opens = opens.opens; in_order = opens.in_order } in
          rw (there, other)
            (
              ((f, again, shown.1), ((e, decodes, opens1), tt)),
              current-Shows (apply now (point previous (c.dumps (object f.manifest))) s) shelf e
                  content digest decodes opens1
                  (rw (there, other)
                    (point-Shown c now previous (c.dumps (object f.manifest)) s f again shown.1))
                  (apply-Shown c now (point previous (c.dumps (object f.manifest))) s
                    last_known_good _ (f, again, shown.1) refl (h last_known_good)),
            )
    ]
  ]
