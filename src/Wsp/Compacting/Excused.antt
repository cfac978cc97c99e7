-- ===== src/Wsp/Compacting/Excused.antt =====
-- Which revisions `Compute` excuses.
use enbu.Prelude.{
  ℕ, zero, suc, ◌<◌, ◌≤◌, ◌==◌, eq_iff, true, false, not, ◌&&◌, ◌||◌, List, [], ◌∷◌, ◌++◌, ◌≡◌, ◌↔◌,
  ◌⊎◌, inl, inr, refl, sym, ap, subst, arith, Any, ltb, length, has, has-append, not-has-nil,
  Bool-cases, if◌then◌else◌,
}
use enbu.Graph.{Digest, Graph, has_rev}
use enbu.Wsp.Compacting.{
  VerifiedCompaction, floors_shown, excuse, apply_pass, apply_loop, compute_left, compute, excuses,
}

abbrev pub Listed : VerifiedCompaction → List VerifiedCompaction → Type 0
Listed r rs = Any (λ s. s ≡ r) rs

-- A record lists `d`, which the graph lacks, and the floor of the record is in the graph or excused.
pub data Excused (records : List VerifiedCompaction) (g : Graph) : Digest → Type 0 where
  by_shown :
      {d : Digest} (r : VerifiedCompaction)
      → Listed r records
      → has_rev g r.compaction.floor ≡ true
      → has d r.compaction.removed ≡ true
      → has_rev g d ≡ false
      → Excused records g d
  by_excused :
      {d : Digest} (r : VerifiedCompaction)
      → Listed r records
      → Excused records g r.compaction.floor
      → has d r.compaction.removed ≡ true
      → has_rev g d ≡ false
      → Excused records g d

has-excuse :
    (g : Graph) (d : Digest) (ds removed : List Digest)
    → has d (excuse g ds removed) ≡ (has d removed || (has d ds && not (has_rev g d)))
unfolding excuse has
has-excuse g d [] removed = ground arith
has-excuse g d (x ∷ ds) removed =
    let q : (d == x) ≡ true → has_rev g d ≡ has_rev g x = λ e. ap (has_rev g) ((eq_iff d x).0 e) in
    elim (Bool-cases (has_rev g x)) [
      | inl s ↦ let h = has-excuse g d ds removed in rw s (ground (arith, q))
      | inr s ↦ let h = has-excuse g d ds (x ∷ removed) in rw s (ground (arith, q))
    ]

has-floors_shown :
    (records : List VerifiedCompaction) (g : Graph) (out : List Digest)
    → ((d : Digest) → has d out ≡ true → has_rev g d ≡ true)
    → (d : Digest) → has d (floors_shown records g out) ≡ true
    → has_rev g d ≡ true
unfolding floors_shown has
has-floors_shown [] g out h d e = h d e
has-floors_shown (r ∷ rs) g out h d e =
    elim (Bool-cases (has_rev g r.compaction.floor && not (has r.compaction.floor out))) [
      | inl t ↦
          has-floors_shown rs g (out ++ (r.compaction.floor ∷ [])) (λ x k. grown x k (ground arith))
            d (rw (t, floors_shown) at e)
      | inr t ↦ has-floors_shown rs g out h d (rw (t, floors_shown) at e)
    ]
  where
    grown :
        (x : Digest)
        → has x (out ++ (r.compaction.floor ∷ [])) ≡ true
        → has_rev g r.compaction.floor ≡ true
        → has_rev g x ≡ true
    grown x k s = elim (Bool-cases (has x out)) [
      | inl m ↦ h x m
      | inr m ↦
          let a = has-append x out (r.compaction.floor ∷ []) in
          subst (λ y. has_rev g y ≡ true) (sym ((eq_iff x r.compaction.floor).0 (ground arith))) s
    ]

floors_shown_out :
    (records : List VerifiedCompaction) (g : Graph) (out : List Digest) (d : Digest)
    → has d out ≡ true
    → has d (floors_shown records g out) ≡ true
unfolding floors_shown
floors_shown_out [] g out d h = h
floors_shown_out (r ∷ rs) g out d h =
    elim (Bool-cases (has_rev g r.compaction.floor && not (has r.compaction.floor out))) [
      | inl t ↦
          let a = has-append d out (r.compaction.floor ∷ []) in
          rw (t, floors_shown)
            (floors_shown_out rs g (out ++ (r.compaction.floor ∷ [])) d (ground arith))
      | inr t ↦ rw (t, floors_shown) (floors_shown_out rs g out d h)
    ]

-- Every floor of a record that the graph holds is found.
floors_shown_all :
    (records : List VerifiedCompaction) (g : Graph) (out : List Digest) (r : VerifiedCompaction)
    → Listed r records
    → has_rev g r.compaction.floor ≡ true
    → has r.compaction.floor (floors_shown records g out) ≡ true
unfolding floors_shown has
floors_shown_all [] g out r l s = elim l [ ]
floors_shown_all (x ∷ rs) g out r (inr l) s = floors_shown_all rs g _ r l s
floors_shown_all (x ∷ rs) g out r (inl p) s =
    floors_shown_out rs g
      (if has_rev g x.compaction.floor && not (has x.compaction.floor out)
        then out ++ (x.compaction.floor ∷ [])
        else out)
      r.compaction.floor found
  where
    found :
        has r.compaction.floor (
          if has_rev g x.compaction.floor && not (has x.compaction.floor out)
          then out ++ (x.compaction.floor ∷ [])
          else out)
        ≡ true
    found =
        let e = (eq_iff r.compaction.floor r.compaction.floor).1 refl in
        rw p (ground (arith, e, s, has-append r.compaction.floor out (r.compaction.floor ∷ [])))

-- What is left of the records, and what is excused, while `Compute` runs.
module _ (records : List VerifiedCompaction) (g : Graph) where
  abbrev shown : List Digest
  shown = floors_shown records g []

  abbrev AllExcused : List Digest → Type 0
  AllExcused removed = (d : Digest) → has d removed ≡ true → Excused records g d

  -- A record was applied: what it lists is in the graph or excused.
  abbrev Applied : VerifiedCompaction → List Digest → Type 0
  Applied r removed =
      (d : Digest) → has d r.compaction.removed ≡ true → has_rev g d ≡ false → has d removed ≡ true

  shown_held : (d : Digest) → has d shown ≡ true → has_rev g d ≡ true
  shown_held d h = has-floors_shown records g [] (λ x k. absurd (not-has-nil x k)) d h

  ready_Excused :
      (r : VerifiedCompaction) (removed : List Digest)
      → Listed r records
      → AllExcused removed
      → (has r.compaction.floor shown || has r.compaction.floor removed) ≡ true
      → AllExcused (excuse g r.compaction.removed removed)
  ready_Excused r removed l a t d h =
      let e = has-excuse g d r.compaction.removed removed in
      elim (Bool-cases (has d removed)) [
        | inl m ↦ a d m
        | inr n ↦ elim (Bool-cases (has r.compaction.floor shown)) [
          | inl s ↦ by_shown r l (shown_held r.compaction.floor s) (ground arith) (ground arith)
          | inr s ↦
              by_excused r l (a r.compaction.floor (ground arith)) (ground arith) (ground arith)
        ]
      ]

  -- One pass keeps what is excused sound, forgets nothing, applies what it does not keep, and if it
  -- keeps all records, none was ready and nothing changed.
  record Passed (rs : List VerifiedCompaction) (removed : List Digest)
      (kept : List VerifiedCompaction) (removed' : List Digest) : Type 0 where
    sound : AllExcused removed'
    grows : (d : Digest) → has d removed ≡ true → has d removed' ≡ true
    within : (r : VerifiedCompaction) → Listed r kept → Listed r rs
    applied : (r : VerifiedCompaction) → Listed r rs → Listed r kept ⊎ Applied r removed'
    shorter : length kept ≤ length rs
    stuck :
        length rs ≤ length kept
        → (removed' ≡ removed)
          × ((r : VerifiedCompaction)
              → Listed r kept
              → (has r.compaction.floor shown || has r.compaction.floor removed) ≡ false)

  pass-Passed :
      (rs : List VerifiedCompaction) (removed : List Digest)
      → ((r : VerifiedCompaction) → Listed r rs → Listed r records)
      → AllExcused removed
      → let (kept, removed') = apply_pass g shown rs removed in Passed rs removed kept removed'
  unfolding apply_pass
  pass-Passed [] removed w a = record {
    sound = a;
    grows = λ d h. h;
    within = λ r l. l;
    applied = λ r l. inl l;
    shorter = omega arith;
    stuck = λ l. (refl, λ r m. elim m [ ]);
  }
  pass-Passed (r ∷ rs) removed w a =
      elim (Bool-cases (has r.compaction.floor shown || has r.compaction.floor removed)) [
        | inl t ↦
            let ds = excuse g r.compaction.removed removed in
            let i =
              pass-Passed rs ds (λ s l. w s (inr l))
                (ready_Excused r removed (w r (inl refl)) a t) in
            rw (t, apply_pass)
              (record {
                sound = i.sound;
                grows = λ d h.
                    i.grows d (let e = has-excuse g d r.compaction.removed removed in ground arith);
                within = λ s l. inr (i.within s l);
                applied = λ s l. elim l [
                  | inl p ↦ inr (λ d h n. i.grows d (
                      let e = has-excuse g d r.compaction.removed removed in
                      let h' = subst (λ y. has d y.compaction.removed ≡ true) (sym p) h in
                      ground arith))
                  | inr m ↦ i.applied s m
                ];
                shorter = omega (arith, i.shorter);
                stuck = λ l. absurd (omega (arith, i.shorter));
              })
        | inr t ↦
            let i = pass-Passed rs removed (λ s l. w s (inr l)) a in
            rw (t, apply_pass)
              (record {
                sound = i.sound;
                grows = i.grows;
                within = λ s l. elim l [ inl p ↦ inl p | inr m ↦ inr (i.within s m) ];
                applied = λ s l. elim l [
                  | inl p ↦ inl (inl p)
                  | inr m ↦ elim (i.applied s m) [ inl k ↦ inl (inr k) | inr k ↦ inr k ]
                ];
                shorter = omega (arith, i.shorter);
                stuck = λ l.
                    let (u, v) = i.stuck (omega arith) in
                    (
                      u,
                      λ s m. elim m [
                        | inl p ↦
                            subst
                              (λ y.
                                (has y.compaction.floor shown || has y.compaction.floor removed)
                                ≡ false)
                              p t
                        | inr k ↦ v s k
                      ],
                    );
              })
      ]

  -- The end of the loop: a record is applied, or its floor is neither shown nor excused.
  record Finished (removed : List Digest) : Type 0 where
    all_excused : AllExcused removed
    settled :
        (r : VerifiedCompaction)
        → Listed r records
        → Applied r removed
          ⊎ ((has r.compaction.floor shown || has r.compaction.floor removed) ≡ false)

  loop-Finished :
      (fuel : ℕ) (rs : List VerifiedCompaction) (removed : List Digest)
      → length rs < fuel
      → ((r : VerifiedCompaction) → Listed r rs → Listed r records)
      → ((r : VerifiedCompaction) → Listed r records → Listed r rs ⊎ Applied r removed)
      → AllExcused removed
      → Finished ((apply_loop g shown fuel rs removed).1)
  unfolding apply_loop
  loop-Finished zero rs removed f w s a = absurd (omega arith)
  loop-Finished (suc fuel) rs removed f w s a =
      let i = pass-Passed rs removed w a in
      let (kept, removed') = apply_pass g shown rs removed in
      elim (Bool-cases (ltb (length ((apply_pass g shown rs removed).0)) (length rs))) [
        | inl t ↦
            rw (t, apply_loop)
              (loop-Finished fuel ((apply_pass g shown rs removed).0)
                ((apply_pass g shown rs removed).1) (ground arith) (λ r l. w r (i.within r l))
                (λ r l. elim (s r l) [
                  | inl k ↦ i.applied r k
                  | inr k ↦ inr (λ d h n. i.grows d (k d h n))
                ])
                i.sound)
        | inr t ↦
            let (u, v) = i.stuck (ground arith) in
            rw (t, apply_loop)
              (record {
                all_excused = i.sound;
                settled = λ r l. elim (s r l) [
                  | inr k ↦ inl (λ d h n. i.grows d (k d h n))
                  | inl m ↦ elim (i.applied r m) [
                    | inr k ↦ inl k
                    | inl k ↦ inr (
                        subst
                          (λ y. (has r.compaction.floor shown || has r.compaction.floor y) ≡ false)
                          (sym u) (v r k))
                  ]
                ];
              })
      ]

  compute-Finished : Finished ((compute records g).removed)
  unfolding compute compute_left
  compute-Finished =
      loop-Finished (suc (length records)) records [] (omega arith) (λ r l. l) (λ r l. inl l)
        (λ d h. absurd (not-has-nil d h))

  Excused-complete : (d : Digest) → Excused records g d → has d (compute records g).removed ≡ true
  Excused-complete d (by_shown r l s h n) = elim (compute-Finished.settled r l) [
    | inl k ↦ k d h n
    | inr k ↦ let m = floors_shown_all records g [] r l s in absurd (ground arith)
  ]
  Excused-complete d (by_excused r l e h n) = elim (compute-Finished.settled r l) [
    | inl k ↦ k d h n
    | inr k ↦ let m = Excused-complete r.compaction.floor e in absurd (ground arith)
  ]

  -- `Compute` excuses exactly the revisions that the graph lacks and that a record lists whose floor
  -- the graph holds, or whose floor is itself excused, however the records are ordered.
  pub compute-Excused : (d : Digest) → (excuses (compute records g) d ≡ true) ↔ Excused records g d
  unfolding excuses
  compute-Excused d = (compute-Finished.all_excused d, Excused-complete d)
