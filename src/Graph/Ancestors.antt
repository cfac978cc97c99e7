-- ===== src/Graph/Ancestors.antt =====
-- `Ancestors` against the relation that it computes.
use enbu.Prelude.{
  ◌+◌, ◌≤◌, eq_iff, true, ◌||◌, List, [], ◌∷◌, ◌≡◌, ◌↔◌, inl, inr, refl, sym, ◌∙◌, subst, arith,
  Bool-cases, has-keys, has_head, keys, has, length,
}
use enbu.Prelude.Walk.{
  stop, expand, walk, Walked, done, stopped, spent, Reach, from, next, walk-done, walk-stopped,
}
use enbu.Prelude.Walk.Total.{walk-ne-spent}
use enbu.Graph.{Graph, Digest, has_rev, parents_of, look, push, rounds, ancestors}

-- `a` is `d`, or a parent of an ancestor of `d`, and the graph holds it.
pub data Ancestor (g : Graph) (d : Digest) : Digest → Type 0 where
  self : {a : Digest} → a ≡ d → has_rev g a ≡ true → Ancestor g d a
  parent :
      {m a : Digest}
      → Ancestor g d m
      → has a (parents_of g m) ≡ true
      → has_rev g a ≡ true
      → Ancestor g d a

pub Ancestor-has_rev : (g : Graph) (d a : Digest) → Ancestor g d a → has_rev g a ≡ true
Ancestor-has_rev g d a (self e h) = h
Ancestor-has_rev g d a (parent r k h) = h

pub has-push :
    (x : Digest) (ns rest : List Digest) → has x (push ns rest) ≡ (has x ns || has x rest)
unfolding push has
has-push x [] rest = refl
has-push x (n ∷ ns) rest = ground (arith, has-push x ns (n ∷ rest))

pub length-push : (ns rest : List Digest) → length (push ns rest) ≡ length ns + length rest
unfolding push
length-push [] rest = omega arith
length-push (n ∷ ns) rest = omega (arith, length-push ns (n ∷ rest))

module _ (g : Graph) where
  look_expand :
      (m : Digest) (ns : List Digest)
      → look g m ≡ expand ns
      → (has_rev g m ≡ true) × (parents_of g m ≡ ns)
  unfolding look
  look_expand m ns e = elim (Bool-cases (has_rev g m)) [
    | inl h ↦ (h, cc (rw h at e))
    | inr n ↦ cc (rw n at e)
  ]

  look_known : (m : Digest) → has_rev g m ≡ true → look g m ≡ expand (parents_of g m)
  unfolding look
  look_known m h = rw h

  look_bounded :
      (x : Digest) (ns : List Digest)
      → look g x ≡ expand ns
      → (has x (keys g.parents) ≡ true) × (length ns ≤ length (parents_of g x))
  unfolding has_rev
  look_bounded x ns e =
      let k = look_expand x ns e in (has-keys x g.parents ∙ k.0, rw (k.1) (omega arith))

  not_stop : (x : Digest) → ¬ (look g x ≡ stop)
  unfolding look
  not_stop x e = ground arith

  module _ (d : Digest) where
    Reach-Ancestor :
        (a : Digest) → Reach (look g) push (d ∷ []) a → has_rev g a ≡ true → Ancestor g d a
    unfolding has
    Reach-Ancestor a (from e) h = self ((eq_iff a d).0 (ground arith)) h
    Reach-Ancestor a (next {m = m} {ns = ns} r e k) h =
        let q = look_expand m ns e in
        parent (Reach-Ancestor m r q.0) (subst (λ l. has a l ≡ true) (sym q.1) k) h

    Ancestor-Reach : (a : Digest) → Ancestor g d a → Reach (look g) push (d ∷ []) a
    Ancestor-Reach a (self e h) = from (subst (λ x. has x (d ∷ []) ≡ true) (sym e) (has_head d []))
    Ancestor-Reach a (parent {m = m} r k h) =
        next (Ancestor-Reach m r) (look_known m (Ancestor-has_rev g d m r)) k

    enough : ¬ (walk (look g) push (rounds g) [] [] (d ∷ []) ≡ spent)
    unfolding rounds
    enough =
        walk-ne-spent (look g) push length-push (λ x. length (parents_of g x)) (keys g.parents)
          look_bounded (rounds g) [] [] (d ∷ []) (omega arith)

    finished :
        (w : Walked)
        → walk (look g) push (rounds g) [] [] (d ∷ []) ≡ w
        → (a : Digest)
        → (has a (elim w [ done seen popped ↦ seen | stopped ↦ [] | spent ↦ [] ]) ≡ true)
          ↔ Ancestor g d a
    finished (done seen popped) e a =
        let r = walk-done (look g) push has-push (d ∷ []) (rounds g) e a in
        (
          λ h. let (q, (ns, x)) = r.1.0 h in Reach-Ancestor a q (look_expand a ns x).0,
          λ h.
              r.1.1 (Ancestor-Reach a h, (parents_of g a, look_known a (Ancestor-has_rev g d a h))),
        )
    finished stopped e a =
        let (x, q, s) = walk-stopped (look g) push has-push (d ∷ []) (rounds g) e in
        absurd (not_stop x s)
    finished spent e a = absurd (enough e)

  -- `Ancestors(d)` holds exactly the revisions that lie on a chain of parents inside the graph that
  -- begins at `d`, `d` included if the graph has it; the fuel of the loop always suffices.
  pub ancestors-Ancestor : (d a : Digest) → (has a (ancestors g d) ≡ true) ↔ Ancestor g d a
  unfolding ancestors
  ancestors-Ancestor d a = finished d _ refl a
