-- ===== src/Snapshots/Readable.antt =====
-- Stores in which every pointer that is there can be loaded, and the writes that keep them so.
use dtlab_control_center.Prelude.{
  ℕ, zero, suc, ◌≡◌, refl, subst, Bool, true, false, ◌&&◌, Option, none, some, List, [], ◌∷◌, ◌++◌,
  Text, text_eq, text_lt, text_eq_refl, text_eq_sound, take, find, ok, Bool-cases, Option-cases,
  inl, inr, arith,
}
use dtlab_control_center.Json.{Json, array, object, Items, nil, cons, Members, end, member}
use dtlab_control_center.Snapshots.{
  Library, Pointer, current, last_known_good, previous, pointer_name, same_pointer, File, Store,
  object_of, open_object, read, decode_manifest, read_manifest, load,
}
use dtlab_control_center.Snapshots.Publish.{
  Write, put_object, put_manifest, point, unlink_object, unlink_manifest, without, apply, apply_all,
}

-- Members stand in the order of their keys, each key once, at all depths.
abbrev mutual
  pub in_key_order : Json → Bool
  in_key_order (array xs) = items_in_order xs
  in_key_order (object m) = members_in_order m
  in_key_order v = true

  pub items_in_order : Items → Bool
  items_in_order nil = true
  items_in_order (cons v rest) = in_key_order v && items_in_order rest

  pub members_in_order : Members → Bool
  members_in_order end = true
  members_in_order (member k v rest) = in_key_order v && comes_first k rest && members_in_order rest

  pub comes_first : Text → Members → Bool
  comes_first k end = true
  comes_first k (member k1 v rest) = text_lt k k1

module _ {B : Type 0} where
  read-append :
      (name name1 : Text) (content content1 : B) (now : ℕ) (files : List (File B))
      → read name1 files ≡ none
      → read name files ≡ some content
      → read name (files ++ record { name = name1; content = content1; modified = now } ∷ [])
        ≡ some content
  unfolding read find
  read-append name name1 content content1 now [] absent there = absurd (ground arith)
  read-append name name1 content content1 now (f ∷ files) absent there =
      elim (Bool-cases (text_eq f.name name)) [
        | inl here ↦ rw here (rw here at there)
        | inr later ↦ elim (Bool-cases (text_eq f.name name1)) [
          | inl taken ↦ absurd (ground arith)
          | inr other ↦ rw later (
              read-append name name1 content content1 now files (rw other at absent)
                (rw later at there))
        ]
      ]

  pub read_appended :
      (name : Text) (content : B) (now : ℕ) (files : List (File B))
      → read name files ≡ none
      → read name (files ++ record { name = name; content = content; modified = now } ∷ [])
        ≡ some content
  unfolding read find
  read_appended name content now [] absent = rw (text_eq_refl name) refl
  read_appended name content now (f ∷ files) absent = elim (Bool-cases (text_eq f.name name)) [
    | inl here ↦ absurd (ground arith)
    | inr later ↦ rw later (read_appended name content now files (rw later at absent))
  ]

  pub read-without :
      (name gone : Text) (content : B) (files : List (File B))
      → text_eq name gone ≡ false
      → read name files ≡ some content
      → read name (without gone files) ≡ some content
  unfolding read find
  read-without name gone content [] other there = there
  read-without name gone content (f ∷ files) other there = elim (Bool-cases (text_eq f.name name)) [
    | inl here ↦
        let same : f.name ≡ name = text_eq_sound f.name name here in
        let stays : text_eq f.name gone ≡ false = rw same other in
        rw (stays, here) (rw here at there)
    | inr later ↦ elim (Bool-cases (text_eq f.name gone)) [
      | inl removed ↦ rw removed (read-without name gone content files other (rw later at there))
      | inr stays ↦
          rw (stays, later) (read-without name gone content files other (rw later at there))
    ]
  ]

-- What a pointer stands for
pub record Entry : Type 0 where
  pub manifest : Members
  pub snapshot : Json

module _ {B : Type 0} (c : Library B) where
  -- The object of the entry's manifest is in the file, and is its snapshot.
  pub record Opens (objects : List (File B)) (e : Entry) : Type 0 where
    pub opens : open_object c e.manifest objects ≡ ok e.snapshot
    pub in_order : in_key_order (object e.manifest) ≡ true

  -- A pointer that is not there, or one that gives the entry
  abbrev pub Shown : Store B → Pointer → Option Entry → Type 0
  Shown s p none = s.pointers p ≡ none
  Shown s p (some e) = (read_manifest c p s ≡ ok e.manifest) × Opens s.objects e

  abbrev pub Readable : Store B → Type 0
  Readable s = (p : Pointer) → (o : Option Entry) × Shown s p o

  -- A write that cannot break a pointer: a new object, a manifest whose object is there, an object that no
  -- pointer names
  abbrev pub IsSafe : Store B → Write B → Type 0
  IsSafe s (put_object name content) = read name s.objects ≡ none
  IsSafe s (put_manifest name content) = Unit
  IsSafe s (point p content) =
      (e : Entry) × (decode_manifest c content ≡ ok e.manifest) × Opens s.objects e
  IsSafe s (unlink_object name) =
      (p : Pointer) (m : Members)
      → read_manifest c p s ≡ ok m
      → text_eq (object_of c m) name ≡ false
  IsSafe s (unlink_manifest name) = Unit

  abbrev pub AllSafe : ℕ → Store B → List (Write B) → Type 0
  AllSafe now s [] = Unit
  AllSafe now s (w ∷ ws) = IsSafe s w × AllSafe now (apply now w s) ws

  abbrev pub is_point : Pointer → Write B → Bool
  is_point p (point q content) = same_pointer q p
  is_point p w = false

  open_more :
      (m : Members) (objects objects1 : List (File B)) (v : Json)
      → ((content : B)
          → read (object_of c m) objects ≡ some content
          → read (object_of c m) objects1 ≡ some content)
      → open_object c m objects ≡ ok v
      → open_object c m objects1 ≡ ok v
  unfolding open_object
  open_more m objects objects1 v more h = elim (Option-cases (read (object_of c m) objects)) [
    | inl absent ↦ absurd (ground arith)
    | inr (content, there) ↦ rw (more content there) (rw there at h)
  ]

  -- A write leaves what the other pointers show.
  pub apply-Shown :
      (now : ℕ) (w : Write B) (s : Store B) (p : Pointer) (o : Option Entry)
      → IsSafe s w
      → is_point p w ≡ false
      → Shown s p o
      → Shown (apply now w s) p o
  unfolding apply read_manifest
  apply-Shown now (put_object name content) s p none safe other h = h
  apply-Shown now (put_object name content) s p (some e) safe other h = (
    h.0,
    record {
      opens =
          open_more e.manifest s.objects _ e.snapshot
            (λ found there. read-append _ name found content now s.objects safe there) h.1.opens;
      in_order = h.1.in_order;
    },
  )
  apply-Shown now (put_manifest name content) s p none safe other h = h
  apply-Shown now (put_manifest name content) s p (some e) safe other h =
      (h.0, record { opens = h.1.opens; in_order = h.1.in_order })
  apply-Shown now (point q content) s p none safe other h = rw other h
  apply-Shown now (point q content) s p (some e) safe other h =
      (rw other h.0, record { opens = h.1.opens; in_order = h.1.in_order })
  apply-Shown now (unlink_object name) s p none safe other h = h
  apply-Shown now (unlink_object name) s p (some e) safe other h = (
    h.0,
    record {
      opens =
          open_more e.manifest s.objects _ e.snapshot
            (λ found there. read-without _ name found s.objects (safe p e.manifest h.0) there)
            h.1.opens;
      in_order = h.1.in_order;
    },
  )
  apply-Shown now (unlink_manifest name) s p none safe other h = h
  apply-Shown now (unlink_manifest name) s p (some e) safe other h =
      (h.0, record { opens = h.1.opens; in_order = h.1.in_order })

  same_pointer_refl : (p : Pointer) → same_pointer p p ≡ true
  same_pointer_refl current = refl
  same_pointer_refl last_known_good = refl
  same_pointer_refl previous = refl

  same_pointer_sound : (p q : Pointer) → same_pointer p q ≡ true → p ≡ q
  same_pointer_sound current current h = refl
  same_pointer_sound current last_known_good h = absurd (ground arith)
  same_pointer_sound current previous h = absurd (ground arith)
  same_pointer_sound last_known_good current h = absurd (ground arith)
  same_pointer_sound last_known_good last_known_good h = refl
  same_pointer_sound last_known_good previous h = absurd (ground arith)
  same_pointer_sound previous current h = absurd (ground arith)
  same_pointer_sound previous last_known_good h = absurd (ground arith)
  same_pointer_sound previous previous h = refl

  pub point-Shown :
      (now : ℕ) (p : Pointer) (content : B) (s : Store B) (e : Entry)
      → decode_manifest c content ≡ ok e.manifest
      → Opens s.objects e
      → Shown (apply now (point p content) s) p (some e)
  unfolding apply read_manifest
  point-Shown now p content s e decodes h =
      (rw (same_pointer_refl p) decodes, record { opens = h.opens; in_order = h.in_order })

  apply-Readable :
      (now : ℕ) (w : Write B) (s : Store B) → IsSafe s w → Readable s → Readable (apply now w s)
  apply-Readable now (point q content) s safe h p = elim (Bool-cases (same_pointer q p)) [
    | inl here ↦
        let (e, decodes, opens) = safe in
        (
          some e,
          subst (λ r. Shown (apply now (point q content) s) r (some e))
              (same_pointer_sound q p here) (point-Shown now q content s e decodes opens),
        )
    | inr other ↦ ((h p).0, apply-Shown now (point q content) s p (h p).0 safe other (h p).1)
  ]
  apply-Readable now (put_object name content) s safe h p =
      ((h p).0, apply-Shown now (put_object name content) s p (h p).0 safe refl (h p).1)
  apply-Readable now (put_manifest name content) s safe h p =
      ((h p).0, apply-Shown now (put_manifest name content) s p (h p).0 safe refl (h p).1)
  apply-Readable now (unlink_object name) s safe h p =
      ((h p).0, apply-Shown now (unlink_object name) s p (h p).0 safe refl (h p).1)
  apply-Readable now (unlink_manifest name) s safe h p =
      ((h p).0, apply-Shown now (unlink_manifest name) s p (h p).0 safe refl (h p).1)

  -- So does any number of the first of a list of safe writes.
  pub take-Readable :
      (now n : ℕ) (ws : List (Write B)) (s : Store B)
      → AllSafe now s ws
      → Readable s
      → Readable (apply_all now (take n ws) s)
  unfolding apply_all
  take-Readable now zero ws s safe h = h
  take-Readable now (suc n) [] s safe h = h
  take-Readable now (suc n) (w ∷ ws) s safe h =
      take-Readable now n ws (apply now w s) safe.1 (apply-Readable now w s safe.0 h)

  pub AllSafe-append :
      (now : ℕ) (ws vs : List (Write B)) (s : Store B)
      → AllSafe now s ws
      → AllSafe now (apply_all now ws s) vs
      → AllSafe now s (ws ++ vs)
  unfolding apply_all
  AllSafe-append now [] vs s h g = g
  AllSafe-append now (w ∷ ws) vs s h g = (h.0, AllSafe-append now ws vs (apply now w s) h.1 g)

  pub apply_all-append :
      (now : ℕ) (ws vs : List (Write B)) (s : Store B)
      → apply_all now (ws ++ vs) s ≡ apply_all now vs (apply_all now ws s)
  unfolding apply_all
  apply_all-append now [] vs s = refl
  apply_all-append now (w ∷ ws) vs s = apply_all-append now ws vs (apply now w s)

  -- A pointer that shows an entry is loaded.
  pub Shown-load :
      (s : Store B) (p : Pointer) (e : Entry)
      → Shown s p (some e)
      → load c p s
        ≡ ok (record { snapshot = e.snapshot; manifest = e.manifest; pointer = pointer_name p })
  unfolding load
  Shown-load s p e h = rw (h.0, h.1.opens) refl
