-- ===== src/Prelude/RowKeys.antt =====
-- Rows with distinct keys.
use mathlib.Core.Path.{◌≡◌}
use mathlib.Core.Logic.{inl, inr}
use mathlib.Core.Bool.{Bool, false}
use mathlib.Core.Option.{none}
use mathlib.Core.List.{List, [], ◌∷◌, ◌++◌}
use native.Mathlib.Omega.{arith}
use dtlab_control_center.Prelude.Tests.{Bool-cases}
use dtlab_control_center.Prelude.Lists.{All, All-append}
use dtlab_control_center.Prelude.Texts.{Text, text_eq, text_eq_comm}
use dtlab_control_center.Prelude.Rows.{find, update, at_key, All-update}

module _ {A : Type 0} (key : A → Text) where
  -- No later row has the key of an earlier one.
  abbrev pub Distinct : List A → Type 0
  Distinct [] = Unit
  Distinct (x ∷ xs) = All (λ y. text_eq (key x) (key y) ≡ false) xs × Distinct xs

  pub free-All :
      (k : Text) (xs : List A)
      → find (at_key key k) xs ≡ none
      → All (λ y. text_eq k (key y) ≡ false) xs
  unfolding find
  free-All k [] h = tt
  free-All k (x ∷ xs) h = ground (arith, text_eq_comm (key x) k, free-All k xs)

  pub Distinct-append :
      (x : A) (xs : List A)
      → Distinct xs
      → find (at_key key (key x)) xs ≡ none
      → Distinct (xs ++ x ∷ [])
  unfolding find
  Distinct-append x [] d h = (tt, tt)
  Distinct-append x (y ∷ xs) d h = (
    All-append (λ z. text_eq (key y) (key z) ≡ false) xs (x ∷ []) d.0 (ground arith, tt),
    Distinct-append x xs d.1 (ground arith),
  )

  pub All-update_key :
      (P : Text → Type 0) (test : A → Bool) (change : A → A)
      → ((a : A) → key (change a) ≡ key a)
      → (xs : List A) → All (λ y. P (key y)) xs
      → All (λ y. P (key y)) (update test change xs)
  All-update_key P test change keep xs h =
      All-update (λ y. P (key y)) test change xs h λ a _ p. rw (keep a) p

  pub Distinct-update :
      (test : A → Bool) (change : A → A)
      → ((a : A) → key (change a) ≡ key a)
      → (xs : List A) → Distinct xs
      → Distinct (update test change xs)
  unfolding update
  Distinct-update test change keep [] d = tt
  Distinct-update test change keep (x ∷ xs) d = elim (Bool-cases (test x)) [
    | inl here ↦
        rw (here, keep x)
          (
            All-update_key (λ k. text_eq (key x) k ≡ false) test change keep xs d.0,
            Distinct-update test change keep xs d.1,
          )
    | inr later ↦ rw later (
      All-update_key (λ k. text_eq (key x) k ≡ false) test change keep xs d.0,
      Distinct-update test change keep xs d.1,
    )
  ]
