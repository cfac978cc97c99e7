-- ===== src/App/Compacting/Kept.antt =====
-- `keptRevisions` against the relation that it computes.
use enbu.Prelude.{
  ◌≤◌, Bool, true, ◌&&◌, List, [], ◌∷◌, ◌≡◌, ◌↔◌, inl, inr, refl, sym, ◌∙◌, subst, arith,
  Bool-cases, &&-left, &&-right, has_head, has_tail, has-cons_cases, has-select, not-has-nil, has,
  length,
}
use enbu.Prelude.Walk.{
  stop, expand, walk, Walked, done, stopped, spent, Reach, from, next, walk-done, walk-stopped,
}
use enbu.Prelude.Walk.Total.{walk-ne-spent}
use enbu.Graph.{Graph, Digest, parents_of, push, ancestors}
use enbu.Graph.Ancestors.{Ancestor, ancestors-Ancestor, has-push, length-push}
use enbu.App.Compacting.{children_of, look_up, kept_rounds, kept_revisions}

-- A chain of revisions, all of them ancestors of the head, that begins at the floor.
pub data Above (g : Graph) (head floor : Digest) : Digest → Type 0 where
  base : {d : Digest} → d ≡ floor → Above g head floor d
  child :
      {m d : Digest}
      → Above g head floor m
      → has m (parents_of g d) ≡ true
      → Ancestor g head m
      → Ancestor g head d
      → Above g head floor d

module _ (g : Graph) (head floor : Digest) where
  abbrev anc : List Digest
  anc = ancestors g head

  children_of-has :
      (m d : Digest)
      → has m anc ≡ true
      → has d (children_of g anc m) ≡ (has d anc && has m (parents_of g d))
  unfolding children_of
  children_of-has m d h = rw (children_of, h) (has-select (λ x. has m (parents_of g x)) d anc)

  look_up-expand :
      (m : Digest) (ns : List Digest)
      → look_up g anc floor m ≡ expand ns
      → (has m (floor ∷ anc) ≡ true) × (children_of g anc m ≡ ns)
  unfolding look_up
  look_up-expand m ns e = elim (Bool-cases (has m (floor ∷ anc))) [
    | inl h ↦ (h, cc (rw (look_up, h) at e))
    | inr n ↦ absurd (cc (rw (look_up, n) at e))
  ]

  look_up-known :
      (m : Digest)
      → has m (floor ∷ anc) ≡ true
      → look_up g anc floor m ≡ expand (children_of g anc m)
  unfolding look_up
  look_up-known m h = rw (look_up, h) refl

  look_up_stop : (m : Digest) → ¬ (look_up g anc floor m ≡ stop)
  unfolding look_up
  look_up_stop m e = elim (Bool-cases (has m (floor ∷ anc))) [
    | inl h ↦ cc (rw (look_up, h) at e)
    | inr n ↦ cc (rw (look_up, n) at e)
  ]

  bounded :
      (x : Digest) (ns : List Digest)
      → look_up g anc floor x ≡ expand ns
      → (has x (floor ∷ anc) ≡ true) × (length ns ≤ length (children_of g anc x))
  bounded x ns e = let k = look_up-expand x ns e in (k.0, rw (k.1) (omega arith))

  children_of_known : (m d : Digest) → has d (children_of g anc m) ≡ true → has m anc ≡ true
  unfolding children_of
  children_of_known m d k = elim (Bool-cases (has m anc)) [
    | inl h ↦ h
    | inr n ↦ absurd (not-has-nil d (rw (children_of, n) at k))
  ]

  Reach-Above :
      (d : Digest) → Reach (look_up g anc floor) push (floor ∷ []) d → Above g head floor d
  Reach-Above d (from h) = elim (has-cons_cases d floor [] h) [
    | inl e ↦ base e
    | inr n ↦ absurd (not-has-nil d n)
  ]
  Reach-Above d (next {m = m} {ns = ns} r e k) =
      let (h, q) = look_up-expand m ns e in
      let c = subst (λ l. has d l ≡ true) (sym q) k in
      let m_in = children_of_known m d c in
      let both = sym (children_of-has m d m_in) ∙ c in
      child (Reach-Above m r) (&&-right (has d anc) _ both) ((ancestors-Ancestor g head m).0 m_in)
        ((ancestors-Ancestor g head d).0 (&&-left _ (has m (parents_of g d)) both))

  in_range : (d : Digest) → Above g head floor d → has d (floor ∷ anc) ≡ true
  in_range d (base e) = subst (λ x. has x (floor ∷ anc) ≡ true) (sym e) (has_head floor anc)
  in_range d (child r k a b) = has_tail d floor anc ((ancestors-Ancestor g head d).1 b)

  Above-Reach :
      (d : Digest) → Above g head floor d → Reach (look_up g anc floor) push (floor ∷ []) d
  Above-Reach d (base e) = from (subst (λ x. has x (floor ∷ []) ≡ true) (sym e) (has_head floor []))
  Above-Reach d (child {m = m} r k a b) = next (Above-Reach m r) (look_up-known m (in_range m r)) (
      children_of-has m d ((ancestors-Ancestor g head m).1 a)
      ∙ both_true ((ancestors-Ancestor g head d).1 b) k)
    where
      both_true : {a b : Bool} → a ≡ true → b ≡ true → (a && b) ≡ true
      both_true h k = ground arith

  enough : ¬ (walk (look_up g anc floor) push (kept_rounds g anc floor) [] [] (floor ∷ []) ≡ spent)
  unfolding kept_rounds
  enough =
      walk-ne-spent (look_up g anc floor) push length-push (λ d. length (children_of g anc d))
        (floor ∷ anc) bounded (kept_rounds g anc floor) [] [] (floor ∷ []) (omega arith)

  finished :
      (w : Walked)
      → walk (look_up g anc floor) push (kept_rounds g anc floor) [] [] (floor ∷ []) ≡ w
      → (d : Digest)
      → (has d (elim w [ done seen popped ↦ seen | stopped ↦ [] | spent ↦ [] ]) ≡ true)
        ↔ Above g head floor d
  finished (done seen popped) e d =
      let r =
        walk-done (look_up g anc floor) push has-push (floor ∷ []) (kept_rounds g anc floor) e d in
      (
        λ h. Reach-Above d (r.1.0 h).0,
        λ a. r.1.1 (Above-Reach d a, (children_of g anc d, look_up-known d (in_range d a))),
      )
  finished stopped e d =
      let (x, q, s) =
        walk-stopped (look_up g anc floor) push has-push (floor ∷ []) (kept_rounds g anc floor) e in
      absurd (look_up_stop x s)
  finished spent e d = absurd (enough e)

  -- A compaction keeps exactly the floor and the revisions that lie on a chain of children from the
  -- floor on which all are ancestors of the head; the fuel of its loop always suffices.
  pub kept_revisions_iff :
      (d : Digest) → (has d (kept_revisions g head floor) ≡ true) ↔ Above g head floor d
  unfolding kept_revisions
  kept_revisions_iff d = finished _ refl d
