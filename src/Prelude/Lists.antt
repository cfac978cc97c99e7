-- ===== src/Prelude/Lists.antt =====
-- Lists measured by native numbers, quantifiers over lists, and membership among byte strings.
use Prim.Native.Nat.{ℕ, suc, ◌+◌}
use mathlib.Core.Path.{◌≡◌, refl}
use mathlib.Core.Logic.{◌⊎◌, inl, inr}
use mathlib.Core.Bool.{Bool, true, false, ◌&&◌, ◌||◌}
use mathlib.Core.List.{List, [], ◌∷◌, ◌++◌}
use native.Mathlib.Omega.{arith}
use enbu.Prelude.Tests.{if◌then◌else◌, Bool-cases}
use enbu.Prelude.Strings.{Bytes, ◌==◌, eq_iff, ==_refl}

module _ {ℓ} {A : Type ℓ} where
  abbrev pub length : List A → ℕ
  length [] = 0
  length (x ∷ xs) = suc (length xs)

  pub length-append : (xs ys : List A) → length (xs ++ ys) ≡ length xs + length ys
  length-append [] ys = omega arith
  length-append (x ∷ xs) ys = omega (arith, length-append xs ys)

module _ {A : Type 0} where
  abbrev pub All : (A → Type 0) → List A → Type 0
  All P [] = Unit
  All P (x ∷ xs) = P x × All P xs

  abbrev pub Any : (A → Type 0) → List A → Type 0
  Any P [] = ⊥
  Any P (x ∷ xs) = P x ⊎ Any P xs

  pub All-map : {P Q : A → Type 0} → ((x : A) → P x → Q x) → (xs : List A) → All P xs → All Q xs
  All-map f [] h = tt
  All-map f (x ∷ xs) h = (f x h.0, All-map f xs h.1)

  pub All-append : (P : A → Type 0) (xs ys : List A) → All P xs → All P ys → All P (xs ++ ys)
  All-append P [] ys hx hy = hy
  All-append P (x ∷ xs) ys hx hy = (hx.0, All-append P xs ys hx.1 hy)

  abbrev pub all : (A → Bool) → List A → Bool
  all p [] = true
  all p (x ∷ xs) = p x && all p xs

  abbrev pub any : (A → Bool) → List A → Bool
  any p [] = false
  any p (x ∷ xs) = p x || any p xs

  -- The elements that pass a test, in order.
  abbrev pub select : (A → Bool) → List A → List A
  select p [] = []
  select p (x ∷ xs) = let rest = select p xs in if p x then x ∷ rest else rest

  pub all→All : (p : A → Bool) (xs : List A) → all p xs ≡ true → All (λ x. p x ≡ true) xs
  all→All p [] h = tt
  all→All p (x ∷ xs) h = ground (arith, all→All p xs)

  pub All→all : (p : A → Bool) (xs : List A) → All (λ x. p x ≡ true) xs → all p xs ≡ true
  All→all p [] h = refl
  All→all p (x ∷ xs) h = ground (arith, All→all p xs)

-- `d` is one of the strings `ds`.
unfoldable pub has : Bytes → List Bytes → Bool
has d [] = false
has d (x ∷ xs) = d == x || has d xs

pub has-append : (d : Bytes) (xs ys : List Bytes) → has d (xs ++ ys) ≡ (has d xs || has d ys)
unfolding has
has-append d [] ys = refl
has-append d (x ∷ xs) ys = ground (arith, has-append d xs ys)

pub All-has : (P : Bytes → Type 0) (d : Bytes) (xs : List Bytes) → All P xs → has d xs ≡ true → P d
unfolding has
All-has P d [] h m = absurd (cc)
All-has P d (x ∷ xs) h m = elim (Bool-cases (d == x)) [
  | inl e ↦ rw ((eq_iff d x).0 e) h.0
  | inr n ↦ All-has P d xs h.1 (rw n at m)
]

pub All-of_has :
    (P : Bytes → Type 0) (xs : List Bytes) → ((d : Bytes) → has d xs ≡ true → P d) → All P xs
unfolding has
All-of_has P [] f = tt
All-of_has P (x ∷ xs) f =
    (f x (ground (arith, ==_refl x)), All-of_has P xs (λ d m. f d (ground arith)))

pub has-cons_cases :
    (d x : Bytes) (xs : List Bytes) → has d (x ∷ xs) ≡ true → (d ≡ x) ⊎ (has d xs ≡ true)
unfolding has
has-cons_cases d x xs h = elim (Bool-cases (d == x)) [
  | inl e ↦ inl ((eq_iff d x).0 e)
  | inr n ↦ inr (rw n at h)
]

pub has_head : (d : Bytes) (xs : List Bytes) → has d (d ∷ xs) ≡ true
unfolding has
has_head d xs = rw (==_refl d)

pub has_tail : (d x : Bytes) (xs : List Bytes) → has d xs ≡ true → has d (x ∷ xs) ≡ true
unfolding has
has_tail d x xs h = ground arith

pub has-select :
    (p : Bytes → Bool) (d : Bytes) (xs : List Bytes) → has d (select p xs) ≡ (has d xs && p d)
unfolding has
has-select p d [] = refl
has-select p d (x ∷ xs) = elim (Bool-cases (d == x)) [
  | inl e ↦ let q = (eq_iff d x).0 e in rw (← q) (ground (arith, ==_refl d, has-select p d xs))
  | inr n ↦ ground (arith, n, has-select p d xs)
]

pub not-has-nil : (d : Bytes) → ¬ (has d [] ≡ true)
unfolding has
not-has-nil d h = cc
