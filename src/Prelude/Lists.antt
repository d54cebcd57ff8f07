-- ===== src/Prelude/Lists.antt =====
-- Lists as the rows that a query reads: selection, update in place, counting and sums.
use Prim.Native.Nat.{ℕ, suc, ◌+◌}
use Prim.Native.String.{String}
use mathlib.Core.Path.{◌≡◌, refl, ap}
use mathlib.Core.Bool.{Bool, true, false, ◌&&◌, ◌||◌, not}
use mathlib.Core.Option.{Option, none, some}
use mathlib.Core.List.{List, [], ◌∷◌, ◌++◌, map}
use mathlib.Core.Logic.{inl, inr}
use native.Mathlib.Omega.{arith}
use text.Mathlib.Text.{◌==◌}
use full_shelf.Prelude.Tests.{if◌then◌else◌, Bool-cases}

module _ {ℓ} {A : Type ℓ} where
  abbrev pub length : List A → ℕ
  length [] = 0
  length (x ∷ xs) = suc (length xs)

  -- `next(iter(rows), None)`
  abbrev pub first : List A → Option A
  first [] = none
  first (x ∷ xs) = some x

  -- `SELECT … WHERE p`
  abbrev pub select : (A → Bool) → List A → List A
  select p [] = []
  select p (x ∷ xs) = if p x then x ∷ select p xs else select p xs

  -- `UPDATE … SET f WHERE p`, and the number of rows that it reports.
  abbrev pub update_where : (A → Bool) → (A → A) → List A → List A
  update_where p f [] = []
  update_where p f (x ∷ xs) = (if p x then f x else x) ∷ update_where p f xs

  abbrev pub count_where : (A → Bool) → List A → ℕ
  count_where p [] = 0
  count_where p (x ∷ xs) = (if p x then 1 else 0) + count_where p xs

  abbrev pub any : (A → Bool) → List A → Bool
  any p [] = false
  any p (x ∷ xs) = p x || any p xs

  abbrev pub all : (A → Bool) → List A → Bool
  all p [] = true
  all p (x ∷ xs) = p x && all p xs

  abbrev pub sum_by : (A → ℕ) → List A → ℕ
  sum_by f [] = 0
  sum_by f (x ∷ xs) = f x + sum_by f xs

  -- A predicate on every element.
  abbrev pub All {κ} : (A → Type κ) → List A → Type κ
  All P [] = Unit
  All P (x ∷ xs) = P x × All P xs

-- `x in xs`
abbrev pub contains : String → List String → Bool
contains a [] = false
contains a (x ∷ xs) = a == x || contains a xs

-- `len(xs) == len(set(xs))`
abbrev pub distinct : List String → Bool
distinct [] = true
distinct (x ∷ xs) = not (contains x xs) && distinct xs

module _ {ℓ} {A : Type ℓ} where
  pub length-append : (xs ys : List A) → length (xs ++ ys) ≡ length xs + length ys
  length-append [] ys = omega arith
  length-append (x ∷ xs) ys = omega (arith, length-append xs ys)

  pub sum_by-append : (f : A → ℕ) (xs ys : List A) → sum_by f (xs ++ ys) ≡ sum_by f xs + sum_by f ys
  sum_by-append f [] ys = omega arith
  sum_by-append f (x ∷ xs) ys = omega (arith, sum_by-append f xs ys)

  -- An update keeps the number of rows.
  pub length-update_where :
      (p : A → Bool) (f : A → A) (xs : List A) → length (update_where p f xs) ≡ length xs
  length-update_where p f [] = refl
  length-update_where p f (x ∷ xs) = ap suc (length-update_where p f xs)

  -- No row matches: nothing changes.
  pub update_where-none :
      (p : A → Bool) (f : A → A) (xs : List A) → any p xs ≡ false → update_where p f xs ≡ xs
  update_where-none p f [] h = refl
  update_where-none p f (x ∷ xs) h = ground (arith, update_where-none p f xs)

  pub any-count_where : (p : A → Bool) (xs : List A) → count_where p xs ≡ 0 → any p xs ≡ false
  any-count_where p [] h = refl
  any-count_where p (x ∷ xs) h = ground (arith, any-count_where p xs)

-- Rows that an update takes out of a predicate.
pub count-update {ℓ} :
    {A : Type ℓ} (p q : A → Bool) (f : A → A)
    → ((a : A) → q a ≡ true → (p a ≡ true) × (p (f a) ≡ false))
    → (xs : List A) → count_where p (update_where q f xs) + count_where q xs ≡ count_where p xs
count-update p q f h [] = refl
count-update p q f h (a ∷ xs) =
    let rest = count-update p q f h xs in
    elim (Bool-cases (q a)) [
      | inl hit ↦ rw (hit, (h a hit).0, (h a hit).1) omega arith
      | inr miss ↦ rw miss omega arith
    ]

-- Rows that an update brings into a predicate.
pub count-gain {ℓ} :
    {A : Type ℓ} (p q : A → Bool) (f : A → A)
    → ((a : A) → q a ≡ true → (p a ≡ false) × (p (f a) ≡ true))
    → (xs : List A) → count_where p (update_where q f xs) ≡ count_where p xs + count_where q xs
count-gain p q f h [] = refl
count-gain p q f h (a ∷ xs) =
    let rest = count-gain p q f h xs in
    elim (Bool-cases (q a)) [
      | inl hit ↦ rw (hit, (h a hit).0, (h a hit).1) omega arith
      | inr miss ↦ rw miss omega arith
    ]

-- A column that an update leaves alone.
pub map-update {ℓ κ} :
    {A : Type ℓ} {B : Type κ} (g : A → B) (p : A → Bool) (f : A → A)
    → ((a : A) → g (f a) ≡ g a)
    → (xs : List A) → map g (update_where p f xs) ≡ map g xs
map-update g p f h [] = refl
map-update g p f h (a ∷ xs) = elim (Bool-cases (p a)) [
  | inl hit ↦ rw (hit, h a, map-update g p f h xs) refl
  | inr miss ↦ rw (miss, map-update g p f h xs) refl
]
