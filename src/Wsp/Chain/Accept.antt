-- ===== src/Wsp/Chain/Accept.antt =====
-- What the loop of `LoadControl` that accepts Controls keeps, and the two steps it makes: a pending
-- Control is dropped or accepted.
use enbu.Prelude.{
  Bytes, ◌==◌, eq_iff, true, false, some, List, [], ◌∷◌, ◌≡◌, ◌≢◌, inl, inr, refl, sym, ◌∙◌, subst,
  map, has, has_head, has_tail, has-sort_bytes, Dict, lookup, keys, All, All-of_has, All-has,
  Bool-cases, Distinct, Entry, lookup-cons_ne,
}
use enbu.Outcome.{ok}
use enbu.Graph.{Digest}
use enbu.Wsp.{Control, Protocol}
use enbu.Wsp.Members.{Verified, verify_child}
use enbu.Wsp.Members.Child.{verify_child-IsChild}
use enbu.Wsp.Chain.{PendingControl, verified_parents}
use enbu.Wsp.Chain.Derived.{
  Derived, child, Derived-digest, Sound, verified_parents-AllDerived, Extends,
  verified_parents-Extends, verified_parents-known,
}

-- Newest first, every Control stands before its parents, and no digest stands twice.
abbrev pub Layered : Dict Verified → Type 0
Layered [] = Unit
Layered ((d, v) ∷ m) =
    (has d (keys m) ≡ false) × All (λ q. has q (keys m) ≡ true) v.control.parents × Layered m

module _ (P : Protocol) (fetched : Dict PendingControl) (genesis : Digest) (root : Verified)
    (root_digest : root.digest ≡ genesis) where
  pub record Inv (pending : Dict PendingControl) (m : Dict Verified) : Type 0 where
    pub derived : Sound P fetched genesis root m
    pub from_fetched : (d : Digest) (p : PendingControl) → Entry d p pending → Entry d p fetched
    pub fresh : (d : Digest) → has d (keys pending) ≡ true → has d (keys m) ≡ false
    pub distinct : Distinct (keys pending)
    pub layered : Layered m
    pub rooted : lookup genesis m ≡ some root

  -- The pending Control was looked at with all its parents verified.
  abbrev pub Settled : Digest → PendingControl → Dict Verified → Type 0
  Settled d p m =
      (vs : List Verified) × (verified_parents P m p.c.parents ≡ some vs)
      × ((v : Verified) → verify_child P vs p.blob ≡ ok v → v.digest ≡ d → lookup d m ≡ some v)

  pub Settled-Extends :
      (d : Digest) (p : PendingControl) (m m' : Dict Verified)
      → Extends m m'
      → Settled d p m
      → Settled d p m'
  Settled-Extends d p m m' x (vs, e, f) =
      (vs, verified_parents-Extends P m m' p.c.parents vs x e, λ v q r. x d v (f v q r))

  -- Taking the first pending Control away, rejected.
  pub drop_first :
      (d : Digest) (p : PendingControl) (pending : Dict PendingControl) (m : Dict Verified)
      → Inv ((d, p) ∷ pending) m
      → Inv pending m
  drop_first d p pending m i = record {
    derived = i.derived;
    from_fetched = λ e q h. i.from_fetched e q (inr h);
    fresh = λ e h. i.fresh e (has_tail e d (keys pending) h);
    distinct = i.distinct.1;
    layered = i.layered;
    rooted = i.rooted;
  }

  parents_known :
      (m : Dict Verified) (c : Control) (vs : List Verified) (blob : Bytes) (v : Verified)
      → Sound P fetched genesis root m
      → verified_parents P m c.parents ≡ some vs
      → verify_child P vs blob ≡ ok v
      → All (λ q. has q (keys m) ≡ true) v.control.parents
  parents_known m c vs blob v s e h =
      let known =
        verified_parents-known P m c.parents vs
          (λ d w q. Derived-digest P fetched genesis root root_digest d w (s d w q)) e in
      let is = verify_child-IsChild P vs blob v h in
      All-of_has (λ q. has q (keys m) ≡ true) v.control.parents
        (λ q k.
          All-has (λ x. has x (keys m) ≡ true) q c.parents known.1
            (subst (λ l. has q l ≡ true) known.0
              (sym (has-sort_bytes q (map (λ w. w.digest) vs))
                ∙ subst (λ l. has q l ≡ true) is.names_parents k)))

  -- Accepting it.
  pub accept_first :
      (d : Digest) (p : PendingControl) (pending : Dict PendingControl) (m : Dict Verified)
      (vs : List Verified) (v : Verified)
      → Inv ((d, p) ∷ pending) m
      → p.c.parents ≢ []
      → verified_parents P m p.c.parents ≡ some vs
      → verify_child P vs p.blob ≡ ok v
      → v.digest ≡ d
      → Inv pending ((d, v) ∷ m)
  unfolding has lookup
  accept_first d p pending m vs v i n e h q = record {
    derived = λ x w k. elim (Bool-cases (d == x)) [
      | inl s ↦
          let same : v ≡ w = cc (rw s at k) in
          let dx = (eq_iff d x).0 s in
          subst (λ y. Derived P fetched genesis root y w) dx
            (subst (Derived P fetched genesis root d) same (
              child p vs (i.from_fetched d p (inl (refl, refl))) n
                (verified_parents-AllDerived P fetched genesis root m p.c.parents vs i.derived e) h
                q))
      | inr s ↦ i.derived x w (rw s at k)
    ];
    from_fetched = λ x r k. i.from_fetched x r (inr k);
    fresh = λ x k. elim (Bool-cases (x == d)) [
      | inl s ↦
          absurd (cc (i.distinct.0, subst (λ y. has y (keys pending) ≡ true) ((eq_iff x d).0 s) k))
      | inr s ↦ let f = i.fresh x (has_tail x d (keys pending) k) in rw (s, f) refl
    ];
    distinct = i.distinct.1;
    layered = (
      i.fresh d (has_head d (keys pending)),
      parents_known m p.c vs p.blob v i.derived e h,
      i.layered,
    );
    rooted = lookup-cons_ne genesis d v m (i.fresh d (has_head d (keys pending))) root i.rooted;
  }
