-- ===== src/Wsp/Chain/Pass.antt =====
-- One pass of the loop over the pending Controls.
use enbu.Prelude.{
  ◌≤◌, true, false, ◌||◌, none, some, List, [], ◌∷◌, ◌≡◌, ◌⊎◌, inl, inr, refl, sym, ap, ◌∙◌, subst,
  arith, length, has, has-cons_cases, has_head, has_tail, Dict, lookup, keys, Bool-cases,
  Option-cases, Entry, lookup-cons_ne, lookup-cons_self,
}
use enbu.Outcome.{ok}
use enbu.Graph.{Digest}
use enbu.Wsp.{Protocol}
use enbu.Wsp.Members.{Verified, verify_child}
use enbu.Wsp.Chain.{PendingControl, verified_parents, ready_parents, accept_one, accept_pass}
use enbu.Wsp.Chain.Derived.{Extends, verified_parents-Extends, ready_parents-some, accept_one-cases}
use enbu.Wsp.Chain.Accept.{Inv, Settled, drop_first, accept_first}

module _ (P : Protocol) (fetched : Dict PendingControl) (genesis : Digest) (root : Verified)
    (root_digest : root.digest ≡ genesis) where
  -- What one pass does.
  pub record Pass (pending : Dict PendingControl) (m : Dict Verified) (kept : Dict PendingControl)
      (m' : Dict Verified) : Type 0 where
    pub inv : Inv P fetched genesis root root_digest kept m'
    pub extends : Extends m m'
    pub handled :
        (d : Digest) (p : PendingControl)
        → Entry d p pending
        → Entry d p kept ⊎ Settled P fetched genesis root root_digest d p m'
    pub shorter : length kept ≤ length pending
    pub kept_entries : (d : Digest) (p : PendingControl) → Entry d p kept → Entry d p pending
    pub kept_keys : (d : Digest) → has d (keys kept) ≡ true → has d (keys pending) ≡ true
    pub no_progress :
        length kept ≡ length pending
        → (m' ≡ m)
          × ((d : Digest) (p : PendingControl) → Entry d p pending → ready_parents P m p.c ≡ none)
    pub new_keys :
        (d : Digest) → has d (keys m') ≡ true → (has d (keys m) || has d (keys pending)) ≡ true

  accept_pass-waits :
      (rev : Digest) (p : PendingControl) (pending : Dict PendingControl) (m : Dict Verified)
      → ready_parents P m p.c ≡ none
      → accept_pass P ((rev, p) ∷ pending) m
        ≡ ((rev, p) ∷ (accept_pass P pending m).0, (accept_pass P pending m).1)
  unfolding accept_pass
  accept_pass-waits rev p pending m e = rw (e, accept_pass) refl

  accept_pass-accepts :
      (rev : Digest) (p : PendingControl) (pending : Dict PendingControl) (m : Dict Verified)
      (vs : List Verified)
      → ready_parents P m p.c ≡ some vs
      → accept_pass P ((rev, p) ∷ pending) m ≡ accept_pass P pending (accept_one P rev p.blob vs m)
  unfolding accept_pass
  accept_pass-accepts rev p pending m vs e = rw (e, accept_pass) refl

  abbrev pub Passes :
      Dict PendingControl → Dict Verified → Dict PendingControl × Dict Verified → Type 0
  Passes pending m r = Pass pending m r.0 r.1

  Pass-waits :
      (rev : Digest) (p : PendingControl) (pending kept : Dict PendingControl)
      (m m' : Dict Verified)
      → Inv P fetched genesis root root_digest ((rev, p) ∷ pending) m
      → ready_parents P m p.c ≡ none
      → Pass pending m kept m'
      → Pass ((rev, p) ∷ pending) m ((rev, p) ∷ kept) m'
  unfolding has
  Pass-waits rev p pending kept m m' i e ih = record {
    inv = record {
      derived = ih.inv.derived;
      from_fetched = λ d q k. elim k [
        | inl s ↦ i.from_fetched d q (inl s)
        | inr s ↦ ih.inv.from_fetched d q s
      ];
      fresh = λ d k. elim (has-cons_cases d rev (keys kept) k) [
        | inl s ↦ subst (λ x. has x (keys m') ≡ false) (sym s) rev_fresh
        | inr s ↦ ih.inv.fresh d s
      ];
      distinct = (rev_kept, ih.inv.distinct);
      layered = ih.inv.layered;
      rooted = ih.inv.rooted;
    };
    extends = ih.extends;
    handled = λ d q k. elim k [
      | inl s ↦ inl (inl s)
      | inr s ↦ elim (ih.handled d q s) [ inl t ↦ inl (inr t) | inr t ↦ inr t ]
    ];
    shorter = let h = ih.shorter in omega arith;
    kept_entries = λ d q k. elim k [ inl s ↦ inl s | inr s ↦ inr (ih.kept_entries d q s) ];
    kept_keys = λ d k. elim (has-cons_cases d rev (keys kept) k) [
      | inl s ↦ subst (λ x. has x (rev ∷ keys pending) ≡ true) (sym s) (has_head rev (keys pending))
      | inr s ↦ has_tail d rev (keys pending) (ih.kept_keys d s)
    ];
    no_progress = λ l.
        let r = ih.no_progress (omega arith) in
        (
          r.0,
          λ d q k. elim k [
            | inl s ↦ subst (λ x. ready_parents P m x.c ≡ none) s.1 e
            | inr s ↦ r.1 d q s
          ],
        );
    new_keys = λ d k. let h = ih.new_keys d k in ground arith;
  }
    where
      rev_kept : has rev (keys kept) ≡ false
      rev_kept = elim (Bool-cases (has rev (keys kept))) [
        | inl s ↦ absurd (cc (ih.kept_keys rev s, i.distinct.0))
        | inr s ↦ s
      ]

      rev_fresh : has rev (keys m') ≡ false
      rev_fresh = elim (Bool-cases (has rev (keys m'))) [
        | inl s ↦
            let h = ih.new_keys rev s in
            let f = i.fresh rev (has_head rev (keys pending)) in
            let g = i.distinct.0 in absurd (ground arith)
        | inr s ↦ s
      ]

  Pass-rejects :
      (rev : Digest) (p : PendingControl) (pending kept : Dict PendingControl)
      (m m' : Dict Verified) (vs : List Verified)
      → verified_parents P m p.c.parents ≡ some vs
      → ((v : Verified) → verify_child P vs p.blob ≡ ok v → ¬ (v.digest ≡ rev))
      → Pass pending m kept m'
      → Pass ((rev, p) ∷ pending) m kept m'
  unfolding has
  Pass-rejects rev p pending kept m m' vs e n ih = record {
    inv = ih.inv;
    extends = ih.extends;
    handled = λ d q k. elim k [
      | inl s ↦ inr (
          subst (λ x. Settled P fetched genesis root root_digest x q m') s.0
            (subst (λ x. Settled P fetched genesis root root_digest rev x m') s.1
              (
                vs,
                verified_parents-Extends P m m' p.c.parents vs ih.extends e,
                λ v h d'. absurd (n v h d'),
              )))
      | inr s ↦ ih.handled d q s
    ];
    shorter = let h = ih.shorter in omega arith;
    kept_entries = λ d q k. inr (ih.kept_entries d q k);
    kept_keys = λ d k. has_tail d rev (keys pending) (ih.kept_keys d k);
    no_progress = λ l. let h = ih.shorter in absurd (omega arith);
    new_keys = λ d k. let h = ih.new_keys d k in ground arith;
  }

  Pass-accepts :
      (rev : Digest) (p : PendingControl) (pending kept : Dict PendingControl)
      (m m' : Dict Verified) (vs : List Verified) (v : Verified)
      → Inv P fetched genesis root root_digest ((rev, p) ∷ pending) m
      → verified_parents P m p.c.parents ≡ some vs
      → verify_child P vs p.blob ≡ ok v
      → Pass pending ((rev, v) ∷ m) kept m'
      → Pass ((rev, p) ∷ pending) m kept m'
  unfolding has
  Pass-accepts rev p pending kept m m' vs v i e h ih = record {
    inv = ih.inv;
    extends = grown;
    handled = λ d q k. elim k [
      | inl s ↦ inr (
          subst (λ x. Settled P fetched genesis root root_digest x q m') s.0
            (subst (λ x. Settled P fetched genesis root root_digest rev x m') s.1
              (
                vs,
                verified_parents-Extends P m m' p.c.parents vs grown e,
                λ w g d'. ih.extends rev w (
                    subst (λ x. lookup rev ((rev, v) ∷ m) ≡ some x) (cc (h, g))
                      (lookup-cons_self rev v m)),
              )))
      | inr s ↦ ih.handled d q s
    ];
    shorter = let l = ih.shorter in omega arith;
    kept_entries = λ d q k. inr (ih.kept_entries d q k);
    kept_keys = λ d k. has_tail d rev (keys pending) (ih.kept_keys d k);
    no_progress = λ l. let s = ih.shorter in absurd (omega arith);
    new_keys = λ d k. let n = ih.new_keys d k in ground arith;
  }
    where
      grown : Extends m m'
      grown d w k =
          ih.extends d w (lookup-cons_ne d rev v m (i.fresh rev (has_head rev (keys pending))) w k)

  pub pass :
      (pending : Dict PendingControl) (m : Dict Verified)
      → Inv P fetched genesis root root_digest pending m
      → Passes pending m (accept_pass P pending m)
  unfolding accept_pass
  pass [] m i = record {
    inv = i;
    extends = λ d v e. e;
    handled = λ d p e. elim e [ ];
    shorter = omega arith;
    kept_entries = λ d p e. e;
    kept_keys = λ d e. e;
    no_progress = λ l. (refl, λ d p e. elim e [ ]);
    new_keys = λ d e. rw e refl;
  }
  pass ((rev, p) ∷ pending) m i = elim (Option-cases (ready_parents P m p.c)) [
    | inl e ↦ subst (Passes ((rev, p) ∷ pending) m) (sym (accept_pass-waits rev p pending m e)) (
        Pass-waits rev p pending _ m _ i e
          (pass pending m (drop_first P fetched genesis root root_digest rev p pending m i)))
    | inr (vs, e) ↦
        let r = ready_parents-some P m p.c vs e in
        elim (accept_one-cases P rev p.blob vs m) [
          | inl (same, n) ↦
              subst (Passes ((rev, p) ∷ pending) m)
                (sym (accept_pass-accepts rev p pending m vs e ∙ ap (accept_pass P pending) same))
                (Pass-rejects rev p pending _ m _ vs r.1 n (
                  pass pending m (drop_first P fetched genesis root root_digest rev p pending m i)))
          | inr (v, h, q, new) ↦
              subst (Passes ((rev, p) ∷ pending) m)
                (sym (accept_pass-accepts rev p pending m vs e ∙ ap (accept_pass P pending) new))
                (Pass-accepts rev p pending _ m _ vs v i r.1 h (
                  pass pending ((rev, v) ∷ m) (
                    accept_first P fetched genesis root root_digest rev p pending m vs v i r.0 r.1 h
                      q)))
        ]
  ]
