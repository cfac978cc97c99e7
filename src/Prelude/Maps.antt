-- ===== src/Prelude/Maps.antt =====
-- Go's maps with string keys, as association lists. A missing key reads `none`.
use mathlib.Core.Path.{◌≡◌, refl, sym, ◌∙◌, subst}
use mathlib.Core.Logic.{◌⊎◌, inl, inr}
use mathlib.Core.Bool.{true, false, ◌||◌}
use mathlib.Core.Option.{Option, none, some}
use mathlib.Core.List.{List, [], ◌∷◌}
use native.Mathlib.Omega.{arith}
use enbu.Prelude.Tests.{if◌then◌else◌, Bool-cases, is_some}
use enbu.Prelude.Strings.{Bytes, ◌==◌, eq_iff, ==_refl}
use enbu.Prelude.Lists.{has}

abbrev pub Dict : Type 0 → Type 0
Dict V = List (Bytes × V)

module _ {V : Type 0} where
  -- `m[k]`.
  unfoldable pub lookup : Bytes → Dict V → Option V
  lookup k [] = none
  lookup k ((j, v) ∷ m) = if j == k then some v else lookup k m

  -- `m[k] = v`.
  unfoldable pub put : Bytes → V → Dict V → Dict V
  put k v [] = (k, v) ∷ []
  put k v ((j, w) ∷ m) = if j == k then (k, v) ∷ m else (j, w) ∷ put k v m

  -- The keys, in the order of the list.
  abbrev pub keys : Dict V → List Bytes
  keys [] = []
  keys ((k, v) ∷ m) = k ∷ keys m

  pub lookup-put :
      (k j : Bytes) (v : V) (m : Dict V)
      → lookup j (put k v m) ≡ (if k == j then some v else lookup j m)
  unfolding lookup put
  lookup-put k j v [] = refl
  lookup-put k j v ((i, w) ∷ m) =
      ground (arith, eq_iff k j, eq_iff i k, eq_iff i j, lookup-put k j v m)

  pub has-keys : (k : Bytes) (m : Dict V) → has k (keys m) ≡ is_some (lookup k m)
  unfolding has lookup
  has-keys k [] = refl
  has-keys k ((j, v) ∷ m) = ground (arith, has-keys k m, eq_iff k j, eq_iff j k)

-- No string stands twice.
abbrev pub Distinct : List Bytes → Type 0
Distinct [] = Unit
Distinct (d ∷ ds) = (has d ds ≡ false) × Distinct ds

module _ {V : Type 0} where
  -- `m` holds the entry `(k, v)`.
  abbrev pub Entry : Bytes → V → Dict V → Type 0
  Entry k v [] = ⊥
  Entry k v ((j, w) ∷ m) = ((j ≡ k) × (w ≡ v)) ⊎ Entry k v m

  pub Entry-has : (k : Bytes) (v : V) (m : Dict V) → Entry k v m → has k (keys m) ≡ true
  unfolding has
  Entry-has k v [] e = elim e [ ]
  Entry-has k v ((j, w) ∷ m) (inl e) = rw (e.0, ==_refl k) refl
  Entry-has k v ((j, w) ∷ m) (inr e) = let h = Entry-has k v m e in ground arith

  pub lookup-Entry : (k : Bytes) (v : V) (m : Dict V) → lookup k m ≡ some v → Entry k v m
  unfolding lookup
  lookup-Entry k v [] e = cc
  lookup-Entry k v ((j, w) ∷ m) e = elim (Bool-cases (j == k)) [
    | inl q ↦ inl ((eq_iff j k).0 q, cc (rw q at e))
    | inr n ↦ inr (lookup-Entry k v m (rw n at e))
  ]

  pub lookup-cons_ne :
      (k j : Bytes) (w : V) (m : Dict V)
      → has j (keys m) ≡ false
      → (v : V) → lookup k m ≡ some v
      → lookup k ((j, w) ∷ m) ≡ some v
  unfolding lookup
  lookup-cons_ne k j w m n v e = elim (Bool-cases (j == k)) [
    | inl q ↦
        let h = has-keys k m in
        absurd (cc (subst (λ x. has x (keys m) ≡ false) ((eq_iff j k).0 q) n, h, e))
    | inr d ↦ rw d e
  ]

  pub lookup-cons_self : (k : Bytes) (w : V) (m : Dict V) → lookup k ((k, w) ∷ m) ≡ some w
  unfolding lookup
  lookup-cons_self k w m = rw (==_refl k) refl

  pub has-keys-put :
      (x k : Bytes) (v : V) (m : Dict V) → has x (keys (put k v m)) ≡ (x == k || has x (keys m))
  has-keys-put x k v m =
      ground
        (arith, has-keys x (put k v m), has-keys x m, lookup-put k x v m, eq_iff k x, eq_iff x k)

  pub Entry-put :
      (d k : Bytes) (p v : V) (m : Dict V)
      → Entry d p (put k v m)
      → ((k ≡ d) × (v ≡ p)) ⊎ Entry d p m
  unfolding put
  Entry-put d k p v [] e = e
  Entry-put d k p v ((j, w) ∷ m) e = elim (Bool-cases (j == k)) [
    | inl q ↦ elim (rw (q, put) at e) [ inl s ↦ inl s | inr s ↦ inr (inr s) ]
    | inr n ↦ elim (rw (n, put) at e) [
      | inl s ↦ inr (inl s)
      | inr s ↦ elim (Entry-put d k p v m s) [ inl t ↦ inl t | inr t ↦ inr (inr t) ]
    ]
  ]

  pub keys-put-Distinct :
      (k : Bytes) (v : V) (m : Dict V) → Distinct (keys m) → Distinct (keys (put k v m))
  unfolding put has
  keys-put-Distinct k v [] d = (refl, tt)
  keys-put-Distinct k v ((j, w) ∷ m) d = elim (Bool-cases (j == k)) [
    | inl q ↦ rw (q, put) (subst (λ x. has x (keys m) ≡ false) ((eq_iff j k).0 q) d.0, d.1)
    | inr n ↦ rw (n, put) (rw (has-keys-put j k v m, n, d.0) refl, keys-put-Distinct k v m d.1)
  ]

  pub put-Entry_self : (k : Bytes) (v : V) (m : Dict V) → Entry k v (put k v m)
  unfolding put
  put-Entry_self k v [] = inl (refl, refl)
  put-Entry_self k v ((j, w) ∷ m) = elim (Bool-cases (j == k)) [
    | inl q ↦ rw (put, q) (inl (refl, refl))
    | inr n ↦ rw (put, n) (inr (put-Entry_self k v m))
  ]

  -- Another key keeps its entries.
  pub put-Entry_other :
      (d k : Bytes) (p v : V) (m : Dict V) → (d == k) ≡ false → Entry d p m → Entry d p (put k v m)
  unfolding put
  put-Entry_other d k p v [] n e = elim e [ ]
  put-Entry_other d k p v ((j, w) ∷ m) n e = elim (Bool-cases (j == k)) [
    | inl q ↦ elim e [
      | inl s ↦ absurd (cc ((eq_iff d k).1 (sym s.0 ∙ (eq_iff j k).0 q), n))
      | inr s ↦ rw (put, q) (inr s)
    ]
    | inr f ↦ elim e [
      | inl s ↦ rw (put, f) (inl s)
      | inr s ↦ rw (put, f) (inr (put-Entry_other d k p v m n s))
    ]
  ]
