-- ===== src/App/Heads/Standing.antt =====
-- `trustedHeads` against what it means: which revisions stand, and which of them others cover.
use enbu.Prelude.{
  ◌+◌, ◌≤◌, Bytes, ◌==◌, eq_iff, Bool, true, false, not, ◌&&◌, ◌||◌, some, List, [], ◌∷◌, ◌≡◌, ◌↔◌,
  ◌⊎◌, inl, inr, refl, sym, ap, ◌∙◌, subst, arith, any, has, has-append, has-select, has-sort_bytes,
  has-keys, has_head, has_tail, not-has-nil, has-cons_cases, keys, length, length-append, lookup,
  select, is_some, Bool-cases, Option-cases, &&-left, &&-right,
}
use enbu.Prelude.Walk.{
  stop, expand, walk, Walked, done, stopped, spent, Reach, from, next, walk-done, walk-stopped,
}
use enbu.Prelude.Walk.Total.{walk-ne-spent}
use enbu.Graph.{Digest, ancestors}
use enbu.Graph.Ancestors.{Ancestor, ancestors-Ancestor}
use enbu.Wsp.Membership.{enqueue}
use enbu.Wsp.Checkpoint.{StateAcceptance}
use enbu.Wsp.Revisions.{VerifiedState, StateView}
use enbu.App.Heads.{
  Session, digests, trusted, trusted_rev, stand_ins, consider, head_rounds, standing, covered,
  trusted_revs,
}

both_true : (a b : Bool) → a ≡ true → b ≡ true → (a && b) ≡ true
both_true a b h k = ground arith

-- A Boolean search of a list finds something.
any-has :
    (p : Bytes → Bool) (xs : List Bytes)
    → any p xs ≡ true
    → (x : Bytes) × (has x xs ≡ true) × (p x ≡ true)
any-has p [] e = absurd (cc)
any-has p (x ∷ xs) e = elim (Bool-cases (p x)) [
  | inl t ↦ (x, has_head x xs, t)
  | inr f ↦ let (y, m, t) = any-has p xs (ground arith) in (y, has_tail y x xs m, t)
]

has-any :
    (p : Bytes → Bool) (xs : List Bytes) (x : Bytes)
    → has x xs ≡ true
    → p x ≡ true
    → any p xs ≡ true
has-any p [] x m t = absurd (not-has-nil x m)
has-any p (y ∷ xs) x m t = elim (has-cons_cases x y xs m) [
  | inl e ↦ let q = subst (λ z. p z ≡ true) e t in ground arith
  | inr k ↦ let q = has-any p xs x k t in ground arith
]

module _ (s : Session) (sv : StateView) (accepted : StateAcceptance) where
  -- A head, or a parent of a revision that was set aside because it is not trusted.
  pub data Considered : Digest → Type 0 where
    head : {d : Digest} → has d (digests sv.heads) ≡ true → Considered d
    parent :
        {m d : Digest} {h : VerifiedState}
        → Considered m
        → lookup m sv.states ≡ some h
        → trusted s sv accepted h ≡ false
        → has d h.state.parents ≡ true
        → is_some (lookup d sv.states) ≡ true
        → Considered d

  -- A trusted revision that is considered.
  pub record Stands (d : Digest) : Type 0 where
    pub is_considered : Considered d
    pub revision : VerifiedState
    pub known : lookup d sv.states ≡ some revision
    pub is_trusted : trusted s sv accepted revision ≡ true

  has-enqueue :
      (x : Digest) (ns rest : List Digest) → has x (enqueue ns rest) ≡ (has x ns || has x rest)
  unfolding enqueue
  has-enqueue x ns rest = let e = has-append x rest ns in ground arith

  length-enqueue : (ns rest : List Digest) → length (enqueue ns rest) ≡ length ns + length rest
  unfolding enqueue
  length-enqueue ns rest = omega (arith, length-append rest ns)

  -- What a look at a revision expands it to.
  record IsLook (d : Digest) (ns : List Digest) : Type 0 where
    revision : VerifiedState
    known : lookup d sv.states ≡ some revision
    way :
        ((trusted s sv accepted revision ≡ true) × (ns ≡ []))
        ⊎ ((trusted s sv accepted revision ≡ false) × (ns ≡ stand_ins s sv accepted d))

  consider-IsLook :
      (d : Digest) (ns : List Digest) → consider s sv accepted d ≡ expand ns → IsLook d ns
  unfolding consider
  consider-IsLook d ns e = elim (Option-cases (lookup d sv.states)) [
    | inl q ↦ absurd (cc (rw (q, consider) at e))
    | inr (h, q) ↦ elim (Bool-cases (trusted s sv accepted h)) [
      | inl t ↦
          let k : expand [] ≡ expand ns = rw (q, t, consider) at e in
          record { revision = h; known = q; way = inl (t, cc) }
      | inr t ↦
          let k : expand (stand_ins s sv accepted d) ≡ expand ns = rw (q, t, consider) at e in
          record { revision = h; known = q; way = inr (t, cc) }
    ]
  ]

  consider_stop : (d : Digest) → ¬ (consider s sv accepted d ≡ stop)
  unfolding consider
  consider_stop d e = elim (Option-cases (lookup d sv.states)) [
    | inl q ↦ cc (rw (q, consider) at e)
    | inr (h, q) ↦ elim (Bool-cases (trusted s sv accepted h)) [
      | inl t ↦ cc (rw (q, t, consider) at e)
      | inr t ↦ cc (rw (q, t, consider) at e)
    ]
  ]

  stand_ins-has :
      (m d : Digest) (h : VerifiedState)
      → lookup m sv.states ≡ some h
      → has d (stand_ins s sv accepted m) ≡ (has d h.state.parents && is_some (lookup d sv.states))
  unfolding stand_ins
  stand_ins-has m d h q =
      rw (q, stand_ins) (has-select (λ p. is_some (lookup p sv.states)) d h.state.parents)

  Reach-Considered :
      (d : Digest) → Reach (consider s sv accepted) enqueue (digests sv.heads) d → Considered d
  unfolding has
  Reach-Considered d (from h) = head h
  Reach-Considered d (next {m = m} {ns = ns} r e k) =
      let l = consider-IsLook m ns e in
      elim l.way [
        | inl (t, q) ↦ absurd (cc (subst (λ x. has d x ≡ true) q k))
        | inr (t, q) ↦
            let both =
              sym (stand_ins-has m d l.revision l.known) ∙ subst (λ x. has d x ≡ true) q k in
            parent (Reach-Considered m r) l.known t (&&-left _ _ both) (&&-right _ _ both)
      ]

  Considered-Reach :
      (d : Digest) → Considered d → Reach (consider s sv accepted) enqueue (digests sv.heads) d
  unfolding consider
  Considered-Reach d (head h) = from h
  Considered-Reach d (parent {m = m} {h = h} c q t k i) =
      next (Considered-Reach m c) (rw (consider, q, t) refl)
        (stand_ins-has m d h q ∙ both_true _ _ k i)

  bounded :
      (d : Digest) (ns : List Digest)
      → consider s sv accepted d ≡ expand ns
      → (has d (keys sv.states) ≡ true) × (length ns ≤ length (stand_ins s sv accepted d))
  bounded d ns e =
      let l = consider-IsLook d ns e in
      (
        has-keys d sv.states ∙ ap is_some l.known,
        elim l.way [ inl (t, q) ↦ rw q (omega arith) | inr (t, q) ↦ rw q (omega arith) ],
      )

  abbrev run : Walked
  run = walk (consider s sv accepted) enqueue (head_rounds s sv accepted) [] [] (digests sv.heads)

  enough : ¬ (run ≡ spent)
  unfolding head_rounds
  enough =
      walk-ne-spent (consider s sv accepted) enqueue length-enqueue
        (λ d. length (stand_ins s sv accepted d)) (keys sv.states) bounded
        (head_rounds s sv accepted) [] [] (digests sv.heads) (omega arith)

  trusted_rev-Known :
      (d : Digest)
      → trusted_rev s sv accepted d ≡ true
      → (h : VerifiedState) × (lookup d sv.states ≡ some h) × (trusted s sv accepted h ≡ true)
  unfolding trusted_rev
  trusted_rev-Known d e = elim (Option-cases (lookup d sv.states)) [
    | inl q ↦ absurd (cc (rw (q, trusted_rev) at e))
    | inr (h, q) ↦ (h, q, rw (q, trusted_rev) at e)
  ]

  trusted_rev-of :
      (d : Digest) (h : VerifiedState)
      → lookup d sv.states ≡ some h
      → trusted s sv accepted h ≡ true
      → trusted_rev s sv accepted d ≡ true
  unfolding trusted_rev
  trusted_rev-of d h q t = rw (trusted_rev, q) t

  expands :
      (d : Digest) (h : VerifiedState)
      → lookup d sv.states ≡ some h
      → trusted s sv accepted h ≡ true
      → consider s sv accepted d ≡ expand []
  unfolding consider
  expands d h q t = rw (consider, q, t) refl

  collected : Walked → List Digest
  collected w = elim w [
    | done seen popped ↦ select (trusted_rev s sv accepted) seen
    | stopped ↦ []
    | spent ↦ []
  ]

  finished : (w : Walked) → run ≡ w → (d : Digest) → (has d (collected w) ≡ true) ↔ Stands d
  unfolding collected
  finished (done seen popped) e d =
      let r =
        walk-done (consider s sv accepted) enqueue has-enqueue (digests sv.heads)
          (head_rounds s sv accepted) e d in
      let split = has-select (trusted_rev s sv accepted) d seen in
      (
        λ h.
            let both = sym split ∙ h in
            let (x, q, t) = trusted_rev-Known d (&&-right _ _ both) in
            record {
              is_considered = Reach-Considered d (r.1.0 (&&-left _ _ both)).0;
              revision = x;
              known = q;
              is_trusted = t;
            },
        λ st.
            let look : consider s sv accepted d ≡ expand [] =
              expands d st.revision st.known st.is_trusted in
            let seen_d = r.1.1 (Considered-Reach d st.is_considered, ([], look)) in
            split ∙ both_true _ _ seen_d (trusted_rev-of d st.revision st.known st.is_trusted),
      )
  finished stopped e d =
      let (x, q, t) =
        walk-stopped (consider s sv accepted) enqueue has-enqueue (digests sv.heads)
          (head_rounds s sv accepted) e in
      absurd (consider_stop x t)
  finished spent e d = absurd (enough e)

  standing-Stands : (d : Digest) → (has d (standing s sv accepted) ≡ true) ↔ Stands d
  unfolding standing collected
  standing-Stands d = finished run refl d

  covered-Ancestor :
      (hs : List Digest) (d : Digest)
      → (covered s sv accepted hs d ≡ true)
        ↔ ((e : Digest) × (has e hs ≡ true) × ((e == d) ≡ false) × Ancestor sv.graph e d)
  unfolding covered
  covered-Ancestor hs d = (
    λ c.
        let (e, m, t) =
          any-has (λ other. not (other == d) && has d (ancestors sv.graph other)) hs c in
        (e, m, left_not _ _ t, (ancestors-Ancestor sv.graph e d).0 (&&-right _ _ t)),
    λ (e, m, n, a).
        has-any (λ other. not (other == d) && has d (ancestors sv.graph other)) hs e m
          (joins _ _ n ((ancestors-Ancestor sv.graph e d).1 a)),
  )
    where
      left_not : (a b : Bool) → (not a && b) ≡ true → a ≡ false
      left_not a b h = ground arith

      joins : (a b : Bool) → a ≡ false → b ≡ true → (not a && b) ≡ true
      joins a b h k = ground arith

  -- `trustedHeads` gives exactly the revisions that a device may read as current: trusted ones that are
  -- heads or stand in for heads that were set aside, of which no other such revision is a descendant.
  pub trusted_revs_iff :
      (d : Digest)
      → (has d (trusted_revs s sv accepted) ≡ true)
        ↔ (Stands d × ((e : Digest) → Stands e → Ancestor sv.graph e d → e ≡ d))
  unfolding trusted_revs
  trusted_revs_iff d =
      let hs = standing s sv accepted in
      let sorted = has-sort_bytes d (select (λ x. not (covered s sv accepted hs x)) hs) in
      let split = has-select (λ x. not (covered s sv accepted hs x)) d hs in
      (
        λ h.
            let both = sym (sorted ∙ split) ∙ h in
            (
              (standing-Stands d).0 (&&-left _ _ both),
              λ e st a. elim (Bool-cases (e == d)) [
                | inl q ↦ (eq_iff e d).0 q
                | inr n ↦
                    let c = (covered-Ancestor hs d).1 (e, (standing-Stands e).1 st, n, a) in
                    absurd (denied _ (&&-right _ _ both) c)
              ],
            ),
        λ (st, only).
            sorted
            ∙ split
            ∙ both_true _ _ ((standing-Stands d).1 st) (
                uncovered _ (λ c.
                  let (e, m, n, a) = (covered-Ancestor hs d).0 c in
                  let q = only e ((standing-Stands e).0 m) a in denied_eq e d n q)),
      )
    where
      denied : (b : Bool) → not b ≡ true → b ≡ true → ⊥
      denied b h k = ground arith

      uncovered : (b : Bool) → ¬ (b ≡ true) → not b ≡ true
      uncovered b h = elim (Bool-cases b) [ inl t ↦ absurd (h t) | inr f ↦ rw f refl ]

      denied_eq : (e d : Digest) → (e == d) ≡ false → e ≡ d → ⊥
      denied_eq e d n q = cc ((eq_iff e d).1 q, n)
