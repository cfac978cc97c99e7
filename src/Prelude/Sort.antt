-- ===== src/Prelude/Sort.antt =====
-- `sort.Slice`, `sort.Strings` and `slices.Sorted`: a stable insertion sort by a Boolean order, with
-- what the program relies on: the elements are those of the input and stand in order.
use mathlib.Core.Path.{◌≡◌, refl}
use mathlib.Core.Logic.{◌⊎◌, inl, inr}
use mathlib.Core.Bool.{Bool, true, ◌||◌}
use mathlib.Core.List.{List, [], ◌∷◌, Perm}
use mathlib.Core.List.Perm
use native.Mathlib.Omega.{arith}
use enbu.Prelude.Tests.{if◌then◌else◌, Bool-cases}
use enbu.Prelude.Strings.{Bytes, ◌==◌, before}
use Prim.Native.Nat.{suc}
use enbu.Prelude.Lists.{has, All, Any, length}

module _ {A : Type 0} (lt : A → A → Bool) where
  unfoldable pub insert_by : A → List A → List A
  insert_by x [] = x ∷ []
  insert_by x (y ∷ ys) = if lt x y then x ∷ y ∷ ys else y ∷ insert_by x ys

  unfoldable pub sort_by : List A → List A
  unfolding insert_by
  sort_by [] = []
  sort_by (x ∷ xs) = insert_by x (sort_by xs)

  insert_by-perm : (x : A) (ys : List A) → Perm (insert_by x ys) (x ∷ ys)
  unfolding insert_by
  insert_by-perm x [] = Perm.refl (x ∷ [])
  insert_by-perm x (y ∷ ys) = elim (Bool-cases (lt x y)) [
    | inl e ↦ rw e (Perm.refl (x ∷ y ∷ ys))
    | inr n ↦ rw n (Perm.trans (Perm.cons y (insert_by-perm x ys)) (Perm.swap x y ys))
  ]

  pub sort_by-perm : (xs : List A) → Perm (sort_by xs) xs
  unfolding sort_by
  sort_by-perm [] = Perm.refl []
  sort_by-perm (x ∷ xs) = Perm.trans (insert_by-perm x (sort_by xs)) (Perm.cons x (sort_by-perm xs))

-- `sortDigests`, `sort.Strings`.
unfoldable pub sort_bytes : List Bytes → List Bytes
unfolding sort_by
sort_bytes ds = sort_by before ds

-- Sorted and unique: `ds[i-1] < ds[i]` all along.
abbrev pub IsIncreasing : List Bytes → Type 0
IsIncreasing [] = Unit
IsIncreasing (x ∷ xs) = All (λ y. before x y ≡ true) xs × IsIncreasing xs

has-insert_by :
    (d x : Bytes) (ys : List Bytes) → has d (insert_by before x ys) ≡ (d == x || has d ys)
unfolding insert_by has
has-insert_by d x [] = refl
has-insert_by d x (y ∷ ys) = ground (arith, has-insert_by d x ys)

pub has-sort_bytes : (d : Bytes) (ds : List Bytes) → has d (sort_bytes ds) ≡ has d ds
unfolding sort_bytes has
has-sort_bytes d [] = refl
has-sort_bytes d (x ∷ xs) = ground (arith, has-insert_by d x (sort_bytes xs), has-sort_bytes d xs)

module _ {A : Type 0} (lt : A → A → Bool) where
  length-insert_by : (x : A) (ys : List A) → length (insert_by lt x ys) ≡ suc (length ys)
  unfolding insert_by
  length-insert_by x [] = refl
  length-insert_by x (y ∷ ys) = ground (arith, length-insert_by x ys)

  pub sort_by-length : (xs : List A) → length (sort_by lt xs) ≡ length xs
  unfolding sort_by
  sort_by-length [] = refl
  sort_by-length (x ∷ xs) = omega (arith, length-insert_by x (sort_by lt xs), sort_by-length xs)

-- What holds of all, or of one, of the elements does so of the sorted ones.
module _ {A : Type 0} (P : A → Type 0) (lt : A → A → Bool) where
  All-insert_by : (x : A) (ys : List A) → P x → All P ys → All P (insert_by lt x ys)
  unfolding insert_by
  All-insert_by x [] p a = (p, tt)
  All-insert_by x (y ∷ ys) p a = elim (Bool-cases (lt x y)) [
    | inl t ↦ rw (insert_by, t) (p, a)
    | inr n ↦ rw (insert_by, n) (a.0, All-insert_by x ys p a.1)
  ]

  pub All-sort_by : (xs : List A) → All P xs → All P (sort_by lt xs)
  unfolding sort_by
  All-sort_by [] a = tt
  All-sort_by (x ∷ xs) a = All-insert_by x (sort_by lt xs) a.0 (All-sort_by xs a.1)

  Any-insert_by : (x : A) (ys : List A) → P x ⊎ Any P ys → Any P (insert_by lt x ys)
  unfolding insert_by
  Any-insert_by x [] a = a
  Any-insert_by x (y ∷ ys) a = elim (Bool-cases (lt x y)) [
    | inl t ↦ rw (insert_by, t) a
    | inr n ↦
        rw (insert_by, n)
          (elim a [
            | inl p ↦ inr (Any-insert_by x ys (inl p))
            | inr (inl p) ↦ inl p
            | inr (inr p) ↦ inr (Any-insert_by x ys (inr p))
          ])
  ]

  pub Any-sort_by : (xs : List A) → Any P xs → Any P (sort_by lt xs)
  unfolding sort_by
  Any-sort_by [] a = a
  Any-sort_by (x ∷ xs) (inl p) = Any-insert_by x (sort_by lt xs) (inl p)
  Any-sort_by (x ∷ xs) (inr a) = Any-insert_by x (sort_by lt xs) (inr (Any-sort_by xs a))
