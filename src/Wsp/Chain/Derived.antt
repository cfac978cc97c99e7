-- ===== src/Wsp/Chain/Derived.antt =====
-- The Controls that the genesis and the fetched objects derive: the least set that holds the genesis
-- and every fetched Control that verifies as a child of members of the set.
use enbu.Prelude.{
  Bytes, ◌==◌, eq_iff, true, none, some, List, [], ◌∷◌, ◌≡◌, ◌≢◌, ◌⊎◌, inl, inr, refl, sym, ap₂,
  ◌∙◌, subst, arith, map, has, Dict, lookup, keys, has-keys, All, Bool-cases, Option-cases, Entry,
}
use enbu.Outcome.{Result, ok, err}
use enbu.Graph.{Digest}
use enbu.Wsp.{Control, Protocol}
use enbu.Wsp.Members.{Verified, verify_child}
use enbu.Wsp.Chain.{PendingControl, verified_parents, ready_parents, accept_one}

module _ (P : Protocol) (fetched : Dict PendingControl) (genesis : Digest) (root : Verified) where
  mutual
    pub data Derived : Digest → Verified → Type 0 where
      genesis_control : {d : Digest} {v : Verified} → d ≡ genesis → v ≡ root → Derived d v
      child :
          {d : Digest} {v : Verified} (p : PendingControl) (vs : List Verified)
          → Entry d p fetched
          → p.c.parents ≢ []
          → AllDerived p.c.parents vs
          → verify_child P vs p.blob ≡ ok v
          → v.digest ≡ d
          → Derived d v

    pub data AllDerived : List Digest → List Verified → Type 0 where
      none_left : AllDerived [] []
      and_next :
          {d : Digest} {v : Verified} {ds : List Digest} {vs : List Verified}
          → Derived d v
          → AllDerived ds vs
          → AllDerived (d ∷ ds) (v ∷ vs)

  pub Derived-digest :
      root.digest ≡ genesis → (d : Digest) (v : Verified) → Derived d v → v.digest ≡ d
  Derived-digest r d v (genesis_control e f) = subst (λ x. x.digest ≡ d) (sym f) (r ∙ sym e)
  Derived-digest r d v (child p vs i n a e q) = q

  -- All that a table holds is derived.
  abbrev pub Sound : Dict Verified → Type 0
  Sound m = (d : Digest) (v : Verified) → lookup d m ≡ some v → Derived d v

  pub verified_parents-AllDerived :
      (m : Dict Verified) (ds : List Digest) (vs : List Verified)
      → Sound m
      → verified_parents P m ds ≡ some vs
      → AllDerived ds vs
  unfolding verified_parents
  verified_parents-AllDerived m [] [] s e = none_left
  verified_parents-AllDerived m [] (v ∷ vs) s e = cc
  verified_parents-AllDerived m (d ∷ ds) vs s e = elim (Option-cases (lookup d m)) [
    | inl q ↦ cc (rw (q, verified_parents) at e)
    | inr (v, q) ↦ elim (Option-cases (verified_parents P m ds)) [
      | inl r ↦ cc (rw (q, r, verified_parents) at e)
      | inr (ws, r) ↦
          subst (AllDerived (d ∷ ds)) (cc (rw (q, r, verified_parents) at e))
            (and_next (s d v q) (verified_parents-AllDerived m ds ws s r))
    ]
  ]

-- `m'` holds all that `m` holds.
abbrev pub Extends : Dict Verified → Dict Verified → Type 0
Extends m m' = (d : Digest) (v : Verified) → lookup d m ≡ some v → lookup d m' ≡ some v

module _ (P : Protocol) where
  pub verified_parents-Extends :
      (m m' : Dict Verified) (ds : List Digest) (vs : List Verified)
      → Extends m m'
      → verified_parents P m ds ≡ some vs
      → verified_parents P m' ds ≡ some vs
  unfolding verified_parents
  verified_parents-Extends m m' [] vs x e = e
  verified_parents-Extends m m' (d ∷ ds) vs x e = elim (Option-cases (lookup d m)) [
    | inl q ↦ cc (rw (q, verified_parents) at e)
    | inr (v, q) ↦ elim (Option-cases (verified_parents P m ds)) [
      | inl r ↦ cc (rw (q, r, verified_parents) at e)
      | inr (ws, r) ↦
          rw (x d v q, verified_parents-Extends m m' ds ws x r, verified_parents)
            (rw (q, r, verified_parents) at e)
    ]
  ]

  pub verified_parents-known :
      (m : Dict Verified) (ds : List Digest) (vs : List Verified)
      → ((d : Digest) (v : Verified) → lookup d m ≡ some v → v.digest ≡ d)
      → verified_parents P m ds ≡ some vs
      → (map (λ v. v.digest) vs ≡ ds) × All (λ d. has d (keys m) ≡ true) ds
  unfolding verified_parents
  verified_parents-known m [] [] g e = (refl, tt)
  verified_parents-known m [] (v ∷ vs) g e = cc
  verified_parents-known m (d ∷ ds) vs g e = elim (Option-cases (lookup d m)) [
    | inl q ↦ cc (rw (q, verified_parents) at e)
    | inr (v, q) ↦ elim (Option-cases (verified_parents P m ds)) [
      | inl r ↦ cc (rw (q, r, verified_parents) at e)
      | inr (ws, r) ↦
          let ih = verified_parents-known m ds ws g r in
          let same : v ∷ ws ≡ vs = cc (rw (q, r, verified_parents) at e) in
          (
            subst (λ (xs : List Verified). map (λ v. v.digest) xs ≡ d ∷ ds) same
                (ap₂ ◌∷◌ (g d v q) ih.0),
            (has-keys d m ∙ rw q refl, ih.1),
          )
    ]
  ]

  pub ready_parents-some :
      (m : Dict Verified) (c : Control) (vs : List Verified)
      → ready_parents P m c ≡ some vs
      → (c.parents ≢ []) × (verified_parents P m c.parents ≡ some vs)
  unfolding ready_parents
  ready_parents-some m c vs e = (λ n. cc (rw (n, ready_parents) at e), ground arith)

  pub ready_parents-none :
      (m : Dict Verified) (c : Control) (vs : List Verified)
      → ready_parents P m c ≡ none
      → c.parents ≢ []
      → ¬ (verified_parents P m c.parents ≡ some vs)
  unfolding ready_parents
  ready_parents-none m c vs e n q = ground arith

  pub accept_one-cases :
      (rev : Digest) (blob : Bytes) (vs : List Verified) (m : Dict Verified)
      → ((accept_one P rev blob vs m ≡ m)
          × ((v : Verified) → verify_child P vs blob ≡ ok v → ¬ (v.digest ≡ rev)))
        ⊎ ((v : Verified) × (verify_child P vs blob ≡ ok v)
            × (v.digest ≡ rev)
            × (accept_one P rev blob vs m ≡ (rev, v) ∷ m))
  unfolding accept_one
  accept_one-cases rev blob vs m = by_result (verify_child P vs blob) refl
    where
      by_result :
          (r : Result Verified)
          → verify_child P vs blob ≡ r
          → ((accept_one P rev blob vs m ≡ m)
              × ((v : Verified) → verify_child P vs blob ≡ ok v → ¬ (v.digest ≡ rev)))
            ⊎ ((v : Verified) × (verify_child P vs blob ≡ ok v)
                × (v.digest ≡ rev)
                × (accept_one P rev blob vs m ≡ (rev, v) ∷ m))
      by_result (err x) e = inl (rw (e, accept_one) refl, λ v q d. cc (e, q))
      by_result (ok w) e = elim (Bool-cases (w.digest == rev)) [
        | inl y ↦ inr (w, e, (eq_iff w.digest rev).0 y, rw (e, y, accept_one) refl)
        | inr n ↦ inl (
          rw (e, n, accept_one) refl,
          λ v q d.
              let same : w ≡ v = cc (e, q) in
              cc (n, (eq_iff w.digest rev).1 (subst (λ x. x.digest ≡ rev) (sym same) d)),
        )
      ]
