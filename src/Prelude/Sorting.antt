-- ===== src/Prelude/Sorting.antt =====
-- `sorted(xs, key=…)`: a stable sort, and what it keeps.
use Prim.Native.Nat.{ℕ, ◌+◌}
use Prim.Native.String.{String, compare}
use Prim.Native.Nat.{Ordering}
use mathlib.Core.Path.{◌≡◌, refl, sym, subst}
use mathlib.Core.Bool.{Bool, true, false}
use mathlib.Core.List.{List, [], ◌∷◌, ◌++◌}
use native.Mathlib.Omega.{arith}
use mathlib.Core.Option.{some}
use mathlib.Core.Logic.{inl, inr}
use full_shelf.Prelude.Tests.{if◌then◌else◌, Bool-cases, some-injective, and-true, or-true}
use full_shelf.Prelude.Lists.{sum_by, All, select, first, any, all}

-- `a < b` on texts
abbrev pub ltb_text : String → String → Bool
ltb_text a b = elim (compare a b) [ Ordering.lt ↦ true | _ ↦ false ]

module _ {ℓ} {A : Type ℓ} (before : A → A → Bool) where
  -- The element stood before those of the list, so it stays before its equals.
  unfoldable pub insert_by : A → List A → List A
  insert_by a [] = a ∷ []
  insert_by a (b ∷ bs) = if before b a then b ∷ insert_by a bs else a ∷ b ∷ bs

  unfoldable pub sort_by : List A → List A
  unfolding insert_by
  sort_by [] = []
  sort_by (a ∷ rest) = insert_by a (sort_by rest)

  sum_by-insert_by :
      (f : A → ℕ) (a : A) (xs : List A) → sum_by f (insert_by a xs) ≡ f a + sum_by f xs
  unfolding insert_by
  sum_by-insert_by f a [] = refl
  sum_by-insert_by f a (b ∷ bs) = ground (arith, sum_by-insert_by f a bs)

  pub sum_by-sort_by : (f : A → ℕ) (xs : List A) → sum_by f (sort_by xs) ≡ sum_by f xs
  unfolding sort_by
  sum_by-sort_by f [] = refl
  sum_by-sort_by f (a ∷ rest) =
      omega (arith, sum_by-insert_by f a (sort_by rest), sum_by-sort_by f rest)

  All-insert_by : (P : A → Type 0) (a : A) (xs : List A) → P a → All P xs → All P (insert_by a xs)
  unfolding insert_by
  All-insert_by P a [] here rest = (here, tt)
  All-insert_by P a (b ∷ bs) here (next, rest) = elim (Bool-cases (before b a)) [
    | inl later ↦ rw later (next, All-insert_by P a bs here rest)
    | inr stays ↦ rw stays (here, (next, rest))
  ]

  pub All-sort_by : (P : A → Type 0) (xs : List A) → All P xs → All P (sort_by xs)
  unfolding sort_by
  All-sort_by P [] h = tt
  All-sort_by P (a ∷ rest) (here, there) =
      All-insert_by P a (sort_by rest) here (All-sort_by P rest there)

module _ {ℓ} {A : Type ℓ} where
  pub All-select : (p : A → Bool) (xs : List A) → All (λ a. p a ≡ true) (select p xs)
  All-select p [] = tt
  All-select p (a ∷ xs) = elim (Bool-cases (p a)) [
    | inl hit ↦ rw hit (hit, All-select p xs)
    | inr miss ↦ rw miss (All-select p xs)
  ]

  pub All-first : (P : A → Type 0) (xs : List A) (a : A) → All P xs → first xs ≡ some a → P a
  All-first P [] a h e = cc
  All-first P (b ∷ xs) a (here, rest) e = subst P (some-injective e) here

  -- What a filtered query answers first is a row of the table.
  pub first-any :
      (p q : A → Bool) (xs : List A) (a : A)
      → first (select p xs) ≡ some a
      → (p a ≡ true → q a ≡ true)
      → any q xs ≡ true
  first-any p q [] a e h = cc
  first-any p q (b ∷ xs) a e h = elim (Bool-cases (p b)) [
    | inl hit ↦
        let same : b ≡ a = some-injective (rw hit at e) in
        let q_b : q b ≡ true =
          subst (λ c. q c ≡ true) (sym same) (h (subst (λ c. p c ≡ true) same hit)) in
        rw q_b refl
    | inr miss ↦ rw (first-any p q xs a (rw miss at e) h) (or-true (q b))
  ]

  pub any-imp :
      (p q : A → Bool) (xs : List A)
      → any p xs ≡ true
      → ((a : A) → p a ≡ true → q a ≡ true)
      → any q xs ≡ true
  any-imp p q [] e h = cc
  any-imp p q (b ∷ xs) e h = elim (Bool-cases (p b)) [
    | inl hit ↦ rw (h b hit) refl
    | inr miss ↦ rw (any-imp p q xs (rw miss at e) h) (or-true (q b))
  ]

  pub All-imp : {P Q : A → Type ℓ} (xs : List A) → All P xs → ((a : A) → P a → Q a) → All Q xs
  All-imp [] all_ h = tt
  All-imp (a ∷ xs) (here, rest) h = (h a here, All-imp xs rest h)

  -- A row of a table: what holds of it holds of some row.
  abbrev pub IsRow : List A → A → Type ℓ
  IsRow xs a = (q : A → Bool) → q a ≡ true → any q xs ≡ true

  -- The rows that a filtered query answers pass the test.
  pub All-query : (p : A → Bool) (xs : List A) → All (λ a. (p a ≡ true) × IsRow xs a) (select p xs)
  All-query p [] = tt
  All-query p (a ∷ xs) =
      let rest : All (λ b. (p b ≡ true) × IsRow (a ∷ xs) b) (select p xs) =
        All-imp (select p xs) (All-query p xs)
          (λ b (hit, row). (hit, λ q h. rw (row q h) (or-true (q a)))) in
      elim (Bool-cases (p a)) [
        | inl hit ↦ rw hit ((hit, λ q h. rw h refl), rest)
        | inr miss ↦ rw miss rest
      ]

  pub All-also :
      (P : A → Type ℓ) (p : A → Bool) (xs : List A)
      → All P xs
      → All (λ a. (p a ≡ true) × P a) (select p xs)
  All-also P p [] h = tt
  All-also P p (a ∷ xs) (here, rest) = elim (Bool-cases (p a)) [
    | inl hit ↦ rw hit ((hit, here), All-also P p xs rest)
    | inr miss ↦ rw miss (All-also P p xs rest)
  ]

  pub All-append : (P : A → Type ℓ) (xs ys : List A) → All P xs → All P ys → All P (xs ++ ys)
  All-append P [] ys h k = k
  All-append P (a ∷ xs) ys (here, rest) k = (here, All-append P xs ys rest k)

  pub All-all : (p : A → Bool) (xs : List A) → all p xs ≡ true → All (λ a. p a ≡ true) xs
  All-all p [] h = tt
  All-all p (a ∷ xs) h = let (here, rest) = and-true (p a) _ h in (here, All-all p xs rest)

  pub all-All : (p : A → Bool) (xs : List A) → All (λ a. p a ≡ true) xs → all p xs ≡ true
  all-All p [] h = refl
  all-All p (a ∷ xs) (here, rest) = rw (here, all-All p xs rest) refl

  -- What a filtered query answers first passes the test.
  pub first-select :
      (p : A → Bool) (xs : List A) (a : A) → first (select p xs) ≡ some a → p a ≡ true
  first-select p xs a e = All-first (λ a. p a ≡ true) (select p xs) a (All-select p xs) e
