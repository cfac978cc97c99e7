-- ===== src/Prelude/Slices.antt =====
-- Slices of a list by native positions: `xs[:n]`, `xs[n:]`, and `strings.HasPrefix`.
use Prim.Native.Nat.{ℕ, zero, suc, ◌+◌, ◌-◌, ◌≤◌}
use mathlib.Core.Path.{◌≡◌, refl, sym, ap, ◌∙◌, subst}
use mathlib.Core.Logic.{inl, inr}
use mathlib.Core.Bool.{Bool, true, false, ◌&&◌}
use mathlib.Core.List.{List, [], ◌∷◌, ◌++◌}
use native.Mathlib.Omega.{arith}
use enbu.Prelude.Tests.{eqb}
use enbu.Prelude.Strings.{Bytes}
use enbu.Prelude.Lists.{length, Any, All}

suc_add : (m n : ℕ) → suc m + n ≡ suc (m + n)
suc_add m n = omega arith

module _ {A : Type 0} where
  abbrev pub take : ℕ → List A → List A
  take zero xs = []
  take (suc n) [] = []
  take (suc n) (x ∷ xs) = x ∷ take n xs

  abbrev pub drop : ℕ → List A → List A
  drop zero xs = xs
  drop (suc n) [] = []
  drop (suc n) (x ∷ xs) = drop n xs

  pub take-append-drop : (n : ℕ) (xs : List A) → take n xs ++ drop n xs ≡ xs
  take-append-drop zero xs = refl
  take-append-drop (suc n) [] = refl
  take-append-drop (suc n) (x ∷ xs) = ap (λ ys. x ∷ ys) (take-append-drop n xs)

  pub length-drop : (n : ℕ) (xs : List A) → length (drop n xs) ≡ length xs - n
  length-drop zero xs = omega arith
  length-drop (suc n) [] = omega arith
  length-drop (suc n) (x ∷ xs) = omega (arith, length-drop n xs)

  drop-nil : (n : ℕ) → drop n [] ≡ []
  drop-nil zero = refl
  drop-nil (suc n) = refl

  take-nil : (n : ℕ) → take n [] ≡ []
  take-nil zero = refl
  take-nil (suc n) = refl

  pub drop-drop : (m n : ℕ) (xs : List A) → drop m (drop n xs) ≡ drop (n + m) xs
  drop-drop m zero xs = ap (λ k. drop k xs) (omega arith)
  drop-drop m (suc n) [] = drop-nil m ∙ sym (drop-nil (suc n + m))
  drop-drop m (suc n) (x ∷ xs) = drop-drop m n xs ∙ ap (λ k. drop k (x ∷ xs)) (sym (suc_add n m))

  pub drop-append : (n : ℕ) (xs ys : List A) → n ≤ length xs → drop n (xs ++ ys) ≡ drop n xs ++ ys
  drop-append zero xs ys h = refl
  drop-append (suc n) [] ys h = absurd (omega arith)
  drop-append (suc n) (x ∷ xs) ys h = drop-append n xs ys (omega arith)

  pub take-append : (n : ℕ) (xs ys : List A) → n ≤ length xs → take n (xs ++ ys) ≡ take n xs
  take-append zero xs ys h = refl
  take-append (suc n) [] ys h = absurd (omega arith)
  take-append (suc n) (x ∷ xs) ys h = ap (λ zs. x ∷ zs) (take-append n xs ys (omega arith))

  pub take-append-take : (m n : ℕ) (xs : List A) → take (m + n) xs ≡ take m xs ++ take n (drop m xs)
  take-append-take zero n xs = ap (λ k. take k xs) (omega arith)
  take-append-take (suc m) n [] = take-nil (suc m + n) ∙ sym (take-nil n)
  take-append-take (suc m) n (x ∷ xs) =
      ap (λ k. take k (x ∷ xs)) (suc_add m n) ∙ ap (λ ys. x ∷ ys) (take-append-take m n xs)

  -- `x` is an element.
  abbrev pub Among : A → List A → Type 0
  Among x xs = Any (λ y. y ≡ x) xs

  pub All-Among : (P : A → Type 0) (x : A) (xs : List A) → All P xs → Among x xs → P x
  All-Among P x [] a m = elim m [ ]
  All-Among P x (y ∷ ys) a (inl e) = subst P e a.0
  All-Among P x (y ∷ ys) a (inr m) = All-Among P x ys a.1 m

-- `strings.HasPrefix(b, v)`.
unfoldable pub starts : Bytes → Bytes → Bool
starts b [] = true
starts [] (c ∷ v) = false
starts (x ∷ b) (c ∷ v) = eqb x c && starts b v

-- What is a prefix of a text is one of what follows too, and the other way round if it is not longer.
pub starts-append : (a y v : Bytes) → starts a v ≡ true → starts (a ++ y) v ≡ true
unfolding starts
starts-append a y [] h = refl
starts-append [] y (c ∷ v) h = ground arith
starts-append (x ∷ a) y (c ∷ v) h = ground (arith, starts-append a y v)

pub starts-append_left :
    (a y v : Bytes) → length v ≤ length a → starts (a ++ y) v ≡ true → starts a v ≡ true
unfolding starts
starts-append_left a y [] l h = refl
starts-append_left [] y (c ∷ v) l h = absurd (omega arith)
starts-append_left (x ∷ a) y (c ∷ v) l h = ground (arith, starts-append_left a y v)

-- A value longer than `a` that begins `a ++ y` begins with `a`.
pub starts-append_right :
    (a y v : Bytes) → length a ≤ length v → starts (a ++ y) v ≡ true → starts v a ≡ true
unfolding starts
starts-append_right [] y v l h = refl
starts-append_right (x ∷ a) y [] l h = absurd (omega arith)
starts-append_right (x ∷ a) y (c ∷ v) l h = ground (arith, starts-append_right a y v)

pub starts-length : (b v : Bytes) → starts b v ≡ true → length v ≤ length b
unfolding starts
starts-length b [] h = omega arith
starts-length [] (c ∷ v) h = ground arith
starts-length (x ∷ b) (c ∷ v) h = ground (arith, starts-length b v)

pub starts_trans : (a b c : Bytes) → starts a b ≡ true → starts b c ≡ true → starts a c ≡ true
unfolding starts
starts_trans a b [] h k = refl
starts_trans a [] (z ∷ c) h k = ground arith
starts_trans [] (y ∷ b) (z ∷ c) h k = ground arith
starts_trans (x ∷ a) (y ∷ b) (z ∷ c) h k = ground (arith, starts_trans a b c)

pub starts-drop : (k : ℕ) (v a : Bytes) → starts v a ≡ true → starts (drop k v) (drop k a) ≡ true
unfolding starts
starts-drop zero v a h = h
starts-drop (suc k) v [] h = refl
starts-drop (suc k) [] (x ∷ a) h = ground arith
starts-drop (suc k) (y ∷ v) (x ∷ a) h = starts-drop k v a (ground arith)

pub starts_self : (p y : Bytes) → starts (p ++ y) p ≡ true
unfolding starts
starts_self [] y = refl
starts_self (x ∷ p) y = ground (arith, starts_self p y)

pub starts-split : (b p : Bytes) → starts b p ≡ true → b ≡ p ++ drop (length p) b
unfolding starts
starts-split b [] h = refl
starts-split [] (c ∷ p) h = absurd (cc)
starts-split (x ∷ b) (c ∷ p) h =
    let e : x ≡ c = ground arith in rw e (ap (λ r. c ∷ r) (starts-split b p (ground arith)))

pub drop-length : {A : Type 0} (xs ys : List A) → drop (length xs) (xs ++ ys) ≡ ys
drop-length [] ys = refl
drop-length (x ∷ xs) ys = drop-length xs ys

pub take-length : {A : Type 0} (xs ys : List A) → take (length xs) (xs ++ ys) ≡ xs
take-length [] ys = refl
take-length (x ∷ xs) ys = ap (λ r. x ∷ r) (take-length xs ys)
