-- ===== src/Graph/Heads.antt =====
-- `Heads` and `Missing` against what they say of the graph, and the heads after a revision is added.
use enbu.Prelude.{
  eq_iff, Bool, true, false, not, ◌&&◌, ◌||◌, List, [], ◌∷◌, ◌++◌, ◌≡◌, ◌↔◌, ◌⊎◌, refl, ◌∙◌, arith,
  has-keys, Dict, lookup, put, keys, has, select, has-select, has-append, has-sort_bytes, is_some,
  All, Any, lookup-put, not-has-nil, sym, subst, ==_refl, ◌==◌, inl, inr, Bool-cases,
}
use enbu.Graph.{Graph, Digest, has_rev, heads, children, missing, missing_in, missing_loop, add}

-- No revision names `d` as a parent.
abbrev pub Unnamed : Digest → Dict (List Digest) → Type 0
Unnamed d m = All (λ e. has d e.1 ≡ false) m

-- Some revision does.
abbrev pub Named : Digest → Dict (List Digest) → Type 0
Named d m = Any (λ e. has d e.1 ≡ true) m

children-Unnamed :
    (d : Digest) (m : Dict (List Digest)) → (has d (children m) ≡ false) ↔ Unnamed d m
unfolding children has
children-Unnamed d [] = ground arith
children-Unnamed d ((c, ps) ∷ m) =
    ground (arith, has-append d ps (children m), children-Unnamed d m)

has-heads :
    (g : Graph) (d : Digest) → has d (heads g) ≡ (has_rev g d && not (has d (children g.parents)))
unfolding heads has_rev
has-heads g d =
    let p = λ (x : Digest). not (has x (children g.parents)) in
    has-sort_bytes d (select p (keys g.parents))
    ∙ has-select p d (keys g.parents)
    ∙ rw (has-keys d g.parents) refl

-- `Heads()` lists exactly the revisions of the graph that no revision names as a parent.
pub heads_iff :
    (g : Graph) (d : Digest)
    → (has d (heads g) ≡ true) ↔ ((has_rev g d ≡ true) × Unnamed d g.parents)
heads_iff g d =
    let c = children-Unnamed d g.parents in
    let e = has-heads g d in
    (λ h. (ground arith, c.0 (ground arith)), λ r. let u = c.1 r.1 in let k = r.0 in ground arith)

has-missing_in :
    (g : Graph) (p : Digest) (ps out : List Digest)
    → has p (missing_in g ps out) ≡ ((has p ps && not (has_rev g p)) || has p out)
unfolding missing_in has
has-missing_in g p [] out = refl
has-missing_in g p (q ∷ ps) out = ground (
  arith,
  has-missing_in g p ps (out ++ q ∷ []),
  has-missing_in g p ps out,
  has-append p out (q ∷ []),
  eq_iff p q,
)

Named-Bool : (p : Digest) (m : Dict (List Digest)) → Bool
Named-Bool p [] = false
Named-Bool p ((d, ps) ∷ m) = has p ps || Named-Bool p m

Named-Bool_iff : (p : Digest) (m : Dict (List Digest)) → (Named-Bool p m ≡ true) ↔ Named p m
unfolding Named-Bool
Named-Bool_iff p [] = ground arith
Named-Bool_iff p ((d, ps) ∷ m) = ground (arith, Named-Bool_iff p m)

has-missing_loop :
    (g : Graph) (p : Digest) (m : Dict (List Digest)) (out : List Digest)
    → has p (missing_loop g m out) ≡ ((Named-Bool p m && not (has_rev g p)) || has p out)
unfolding missing_loop Named-Bool
has-missing_loop g p [] out = refl
has-missing_loop g p ((d, ps) ∷ m) out =
    ground (arith, has-missing_loop g p m (missing_in g ps out), has-missing_in g p ps out)

-- `Missing()` lists exactly the parents that revisions name and the graph does not hold.
pub missing_iff :
    (g : Graph) (p : Digest)
    → (has p (missing g) ≡ true) ↔ ((has_rev g p ≡ false) × Named p g.parents)
unfolding missing
missing_iff g p =
    let e = has-sort_bytes p (missing_loop g g.parents []) ∙ has-missing_loop g p g.parents [] in
    let n = Named-Bool_iff p g.parents in
    let z = not-has-nil p in
    (λ h. (ground arith, n.0 (ground arith)), λ r. let u = n.1 r.1 in let k = r.0 in ground arith)

has-children-put :
    (x d : Digest) (ps : List Digest) (m : Dict (List Digest))
    → is_some (lookup d m) ≡ false
    → has x (children (put d ps m)) ≡ (has x ps || has x (children m))
unfolding children put lookup
has-children-put x d ps [] h = has-append x ps []
has-children-put x d ps ((c, qs) ∷ m) h = ground (
  arith,
  has-children-put x d ps m,
  has-append x qs (children (put d ps m)),
  has-append x qs (children m),
)

-- After a new revision, the heads are the old heads that it does not name, and the revision itself
-- unless it names itself or a revision of the graph names it already.
pub heads-add :
    (g : Graph) (d : Digest) (ps : List Digest)
    → has_rev g d ≡ false
    → (x : Digest)
    → (has x (heads (add g d ps)) ≡ true) ↔ (
        ((x ≡ d) × Unnamed d g.parents × (has d ps ≡ false))
        ⊎ ((has x (heads g) ≡ true) × (has x ps ≡ false)))
unfolding add has_rev
heads-add g d ps new x =
    let c = children-Unnamed d g.parents in
    let h = has-heads g x in
    let k = has-heads (add g d ps) x in
    let n = has-children-put x d ps g.parents new in
    let l = lookup-put d x ps g.parents in
    elim (Bool-cases (d == x)) [
      | inl t ↦
          let e = (eq_iff d x).0 t in
          let here : has x (heads (add g d ps)) ≡ not (has d ps || has d (children g.parents)) =
            subst (λ y. has y (heads (add g d ps)) ≡ not (has d ps || has d (children g.parents))) e
              (has-heads (add g d ps) d
                ∙ rw (has-children-put d d ps g.parents new, lookup-put d d ps g.parents, ==_refl d)
                    refl) in
          let old : has x (heads g) ≡ false =
            subst (λ y. has y (heads g) ≡ false) e (has-heads g d ∙ rw new refl) in
          (
            λ a. inl (sym e, c.0 (ground arith), ground arith),
            λ a. elim a [
              | inl (q, u, o) ↦ let v = c.1 u in ground arith
              | inr (q, o) ↦ absurd (cc (old, q))
            ],
          )
      | inr f ↦
          let there : has x (heads (add g d ps)) ≡ (has x (heads g) && not (has x ps)) =
            k ∙ rw (n, l, f) (ground arith) in
          (
            λ a. inr (ground arith, ground arith),
            λ a. elim a [
              | inl (q, u, o) ↦ absurd (cc ((eq_iff d x).1 (sym q), f))
              | inr (q, o) ↦ ground arith
            ],
          )
    ]
