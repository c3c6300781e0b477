-- ===== src/Ingress/Compared.antt =====
-- The comparisons of src/dtlab/services/host_ot_events.py between the times of an event and between
-- its lists of function codes, in terms of what they hold.
use dtlab_control_center.Prelude.{
  ℕ, ◌≤◌, ◌≡◌, ◌≢◌, ◌↔◌, refl, ◌∙◌, sym, Bool, true, false, ◌&&◌, List, [], ◌∷◌, any, ◌==◌, arith,
  ltb, Bool-cases, inl, inr,
}
use dtlab_control_center.Ingress.Checks.{Parsed, unreadable, naive, instant, time_errors, within}

-- Each time has a zone if it is read, and the last is not before the first if both are.
pub record TimesFit (first last : Parsed) : Type 0 where
  pub first_zoned : first ≢ naive
  pub last_zoned : last ≢ naive
  pub ordered : (f l : ℕ) → first ≡ instant f → last ≡ instant l → f ≤ l

instant_inj : (a b : ℕ) → instant a ≡ instant b → a ≡ b
instant_inj a b h = ground arith

in_order :
    (first last f l : ℕ)
    → ltb last first ≡ false
    → instant first ≡ instant f
    → instant last ≡ instant l
    → f ≤ l
in_order first last f l h p q = ground (arith, instant_inj first f p, instant_inj last l q)

pub times_lem : (first last : Parsed) → (time_errors first last ≡ []) ↔ TimesFit first last
times_lem (instant first) (instant last) = (
  λ none. record {
    first_zoned = λ h. absurd (cc);
    last_zoned = λ h. absurd (cc);
    ordered = λ f l p q. in_order first last f l (ground arith) p q;
  },
  λ fit. let le = fit.ordered first last refl refl in ground arith,
)
times_lem naive naive = (λ none. absurd (cc), λ fit. absurd (fit.first_zoned refl))
times_lem naive unreadable = (λ none. absurd (cc), λ fit. absurd (fit.first_zoned refl))
times_lem naive (instant last) = (λ none. absurd (cc), λ fit. absurd (fit.first_zoned refl))
times_lem unreadable naive = (λ none. absurd (cc), λ fit. absurd (fit.last_zoned refl))
times_lem (instant first) naive = (λ none. absurd (cc), λ fit. absurd (fit.last_zoned refl))
times_lem unreadable unreadable = (
  λ none. record {
    first_zoned = λ h. absurd (cc);
    last_zoned = λ h. absurd (cc);
    ordered = λ f l p q. absurd (cc);
  },
  λ fit. refl,
)
times_lem unreadable (instant last) = (
  λ none. record {
    first_zoned = λ h. absurd (cc);
    last_zoned = λ h. absurd (cc);
    ordered = λ f l p q. absurd (cc);
  },
  λ fit. refl,
)
times_lem (instant first) unreadable = (
  λ none. record {
    first_zoned = λ h. absurd (cc);
    last_zoned = λ h. absurd (cc);
    ordered = λ f l p q. absurd (cc);
  },
  λ fit. refl,
)

abbrev pub has_code : ℕ → List ℕ → Bool
has_code n codes = any (λ c. n == c) codes

within_lem :
    (xs ys : List ℕ)
    → (within xs ys ≡ true) ↔ ((n : ℕ) → has_code n xs ≡ true → has_code n ys ≡ true)
unfolding within
within_lem [] ys = (λ h n m. absurd (cc), λ h. refl)
within_lem (x ∷ xs) ys = (
  λ h n m. elim (Bool-cases (n == x)) [
    | inl same ↦ let e : n ≡ x = ground arith in rw e (ground arith)
    | inr other ↦ (within_lem xs ys).0 (ground arith) n (rw other at m)
  ],
  λ h.
      let first = h x (ground arith) in
      let rest = (within_lem xs ys).1 (λ n m. h n (ground arith)) in ground arith,
)

same_truth : (a b : Bool) → (a ≡ true → b ≡ true) → (b ≡ true → a ≡ true) → a ≡ b
same_truth true b f g = sym (f refl)
same_truth false true f g = g refl
same_truth false false f g = refl

-- Two lists include one another exactly when they hold the same codes.
pub same_codes_lem :
    (xs ys : List ℕ)
    → (within xs ys && within ys xs ≡ true) ↔ ((n : ℕ) → has_code n xs ≡ has_code n ys)
same_codes_lem xs ys = (
  λ h n.
      same_truth _ _ ((within_lem xs ys).0 (ground arith) n)
        ((within_lem ys xs).0 (ground arith) n),
  λ h.
      let there = (within_lem xs ys).1 (λ n m. sym (h n) ∙ m) in
      let back = (within_lem ys xs).1 (λ n m. h n ∙ m) in rw (there, back) refl,
)
