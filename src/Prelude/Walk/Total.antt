-- ===== src/Prelude/Walk/Total.antt =====
-- Enough fuel for a walk: the entries that wait, and for every revision not seen yet the entries that
-- it adds.
use enbu.Prelude.{
  ℕ, zero, suc, ◌+◌, ◌≤◌, Bytes, ◌==◌, eq_iff, true, false, List, [], ◌∷◌, ◌≡◌, inl, inr, arith,
  has, length, Bool-cases, if◌then◌else◌,
}
use enbu.Prelude.Walk.{Look, expand, walk, spent, Look-cases}

module _ (cost : Bytes → ℕ) where
  -- The cost of the revisions that are not seen.
  abbrev pub remaining : List Bytes → List Bytes → ℕ
  remaining seen [] = 0
  remaining seen (u ∷ us) = (if has u seen then 0 else cost u) + remaining seen us

  remaining-seen : (c : Bytes) (seen us : List Bytes) → remaining (c ∷ seen) us ≤ remaining seen us
  unfolding has
  remaining-seen c seen [] = omega arith
  remaining-seen c seen (u ∷ us) = ground (arith, remaining-seen c seen us)

  remaining-expand :
      (c : Bytes) (seen us : List Bytes)
      → has c us ≡ true
      → has c seen ≡ false
      → cost c + remaining (c ∷ seen) us ≤ remaining seen us
  unfolding has
  remaining-expand c seen [] h n = absurd (cc)
  remaining-expand c seen (u ∷ us) h n = elim (Bool-cases (c == u)) [
    | inl e ↦
        let p = (eq_iff c u).0 e in
        rw (← p) (ground (arith, n, eq_iff c c, remaining-seen c seen us))
    | inr d ↦ ground (arith, d, remaining-expand c seen us)
  ]

  remaining_none : (us : List Bytes) → remaining [] us ≤ remaining [] us
  remaining_none us = omega arith

module _ (visit : Bytes → Look) (join : List Bytes → List Bytes → List Bytes)
    (length-join : (ns rest : List Bytes) → length (join ns rest) ≡ length ns + length rest)
    (cost : Bytes → ℕ) (all : List Bytes)
    (bounded : (x : Bytes) (ns : List Bytes)
      → visit x ≡ expand ns
      → (has x all ≡ true) × (length ns ≤ cost x)) where
  pub walk-ne-spent :
      (f : ℕ) (seen popped work : List Bytes)
      → length work + remaining cost seen all ≤ f
      → ¬ (walk visit join f seen popped work ≡ spent)
  unfolding walk
  walk-ne-spent zero seen popped [] h e = cc
  walk-ne-spent zero seen popped (c ∷ rest) h e = omega arith
  walk-ne-spent (suc f) seen popped [] h e = cc
  walk-ne-spent (suc f) seen popped (c ∷ rest) h e = elim (Bool-cases (has c seen)) [
    | inl m ↦ walk-ne-spent f seen (c ∷ popped) rest (omega arith) (rw (m, walk) at e)
    | inr n ↦ elim (Look-cases (visit c)) [
      | inl q ↦ walk-ne-spent f seen (c ∷ popped) rest (omega arith) (rw (n, q, walk) at e)
      | inr (inl q) ↦ cc (rw (n, q, walk) at e)
      | inr (inr (ns, q)) ↦
          let b = bounded c ns q in
          let r = remaining-expand cost c seen all b.0 n in
          walk-ne-spent f (c ∷ seen) (c ∷ popped) (join ns rest)
            (omega (arith, r, b.1, length-join ns rest)) (rw (n, q, walk) at e)
    ]
  ]
