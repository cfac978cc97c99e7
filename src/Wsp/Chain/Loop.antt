-- ===== src/Wsp/Chain/Loop.antt =====
-- The whole loop over the pending Controls.
use enbu.Prelude.{
  ℕ, zero, suc, ◌<◌, none, ◌≡◌, ◌⊎◌, inl, inr, refl, sym, subst, arith, length, ltb, Dict,
  if◌then◌else◌, Bool-cases, Entry,
}
use enbu.Graph.{Digest}
use enbu.Wsp.{Protocol}
use enbu.Wsp.Members.{Verified}
use enbu.Wsp.Chain.{PendingControl, ready_parents, accept_pass, accept_loop}
use enbu.Wsp.Chain.Derived.{Extends}
use enbu.Wsp.Chain.Accept.{Inv, Settled, Settled-Extends}
use enbu.Wsp.Chain.Pass.{Passes, pass}

module _ (P : Protocol) (fetched : Dict PendingControl) (genesis : Digest) (root : Verified)
    (root_digest : root.digest ≡ genesis) where
  -- What the whole loop does.
  pub record Accepted (pending : Dict PendingControl) (r : Dict PendingControl × Dict Verified)
      : Type 0 where
    pub inv : Inv P fetched genesis root root_digest r.0 r.1
    pub handled :
        (d : Digest) (p : PendingControl)
        → Entry d p pending
        → Entry d p r.0 ⊎ Settled P fetched genesis root root_digest d p r.1
    pub stuck : (d : Digest) (p : PendingControl) → Entry d p r.0 → ready_parents P r.1 p.c ≡ none

  accept_loop-step :
      (fuel : ℕ) (pending : Dict PendingControl) (m : Dict Verified)
      → accept_loop P (suc fuel) pending m ≡ (
          if ltb (length (accept_pass P pending m).0) (length pending)
          then accept_loop P fuel (accept_pass P pending m).0 (accept_pass P pending m).1
          else accept_pass P pending m)
  unfolding accept_loop
  accept_loop-step fuel pending m = refl

  pub accept_loop-Accepted :
      (fuel : ℕ) (pending : Dict PendingControl) (m : Dict Verified)
      → length pending < fuel
      → Inv P fetched genesis root root_digest pending m
      → Accepted pending (accept_loop P fuel pending m) × Extends m (accept_loop P fuel pending m).1
  accept_loop-Accepted zero pending m l i = absurd (omega arith)
  accept_loop-Accepted (suc fuel) pending m l i =
      let one : Passes P fetched genesis root root_digest pending m (accept_pass P pending m) =
        pass P fetched genesis root root_digest pending m i in
      elim (Bool-cases (ltb (length (accept_pass P pending m).0) (length pending))) [
        | inl less ↦
            let (ih, x) =
              accept_loop-Accepted fuel (accept_pass P pending m).0 (accept_pass P pending m).1
                (ground arith) one.inv in
            rw (accept_loop-step fuel pending m, less)
              (
                record {
                  inv = ih.inv;
                  handled = λ d p e. elim (one.handled d p e) [
                    | inl k ↦ ih.handled d p k
                    | inr s ↦ inr (Settled-Extends P fetched genesis root root_digest d p _ _ x s)
                  ];
                  stuck = ih.stuck;
                },
                λ d v e. x d v (one.extends d v e),
              )
        | inr same ↦
            let n = one.no_progress (let s = one.shorter in ground arith) in
            rw (accept_loop-step fuel pending m, same)
              (
                record {
                  inv = one.inv;
                  handled = one.handled;
                  stuck = λ d p e.
                      subst (λ x. ready_parents P x p.c ≡ none) (sym n.0)
                        (n.1 d p (one.kept_entries d p e));
                },
                one.extends,
              )
      ]
