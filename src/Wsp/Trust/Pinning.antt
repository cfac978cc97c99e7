-- ===== src/Wsp/Trust/Pinning.antt =====
-- What a pin holds after `pin_root`, and which roots it refuses.
use enbu.Prelude.{
  Bytes, eq_iff, ==_refl, Bool, true, false, not, ◌||◌, Option, none, some, ◌≡◌, ◌⊎◌, inl, inr,
  refl, sym, ap, ap₂, subst, ◌∙◌, arith, Bool-cases, Option-cases,
}
use enbu.Outcome.{Result, Error, ok, err, ◌>>=◌, >>=-eq-ok, guard->>, ok_injective, Result-cases}
use enbu.Wsp.{Codec, Protocol, or_err, is_empty}
use enbu.Wsp.Checkpoint.{Disk, contents}
use enbu.Wsp.Trust.{
  Root, TrustRootFile, no_root, same_root, pinned, old_pin, pin_root, pin_over, trust_root_version,
}

eq_of_same_root : (a b : Root) → same_root a b ≡ true → a ≡ b
unfolding same_root
eq_of_same_root a b e =
    let p = (eq_iff a.workspace b.workspace).0 (ground arith) in
    let q = (eq_iff a.genesis b.genesis).0 (ground arith) in
    ap₂ (λ (w g : Bytes). record { workspace = w; genesis = g }) p q

same_root_refl : (a : Root) → same_root a a ≡ true
unfolding same_root
same_root_refl a = rw (==_refl a.workspace, ==_refl a.genesis) refl

module _ (P : Protocol) (codec : Codec TrustRootFile) where
  -- If a pin succeeds, the file holds the new root, and the root before was the new one, none, or one
  -- that the caller may replace. A file that cannot be read counts as none, if it is to be replaced.
  pub record IsPinned (disk : Disk) (root : Root) (replace : Bool) (expected : Option Root)
      (old : Root) (disk' : Disk) : Type 0 where
    pub now_pinned : pinned P codec disk' ≡ ok root
    pub before_pin :
        (pinned P codec disk ≡ ok old)
        ⊎ ((e : Error) × (pinned P codec disk ≡ err e)
            × (replace ≡ true)
            × (expected ≡ none)
            × (old ≡ no_root))
    pub allowed :
        (old ≡ root)
        ⊎ (((old ≡ no_root) ⊎ (replace ≡ true)) × ((x : Root) → expected ≡ some x → old ≡ x))

module _ (P : Protocol) (codec : Codec TrustRootFile)
    (reads_back : (f : TrustRootFile) (b : Bytes)
      → codec.marshal f ≡ some b
      → codec.unmarshal b ≡ some f) where
  -- A root that was written reads back.
  written-pinned :
      (root : Root) (b : Bytes)
      → is_empty root.workspace ≡ false
      → P.digest_valid root.genesis ≡ true
      → codec.marshal (record { version = trust_root_version; root = root }) ≡ some b
      → pinned P codec (contents b) ≡ ok root
  unfolding pinned
  written-pinned root b w g m =
      rw (reads_back (record { version = trust_root_version; root = root }) b m, w, g, pinned) refl

  -- What was pinned before is read off the file; only a caller that replaces whatever is there may pass
  -- over a file that cannot be read.
  old_pin-cases :
      (disk : Disk) (replace : Bool) (expected : Option Root) (old : Root)
      → old_pin P codec disk replace expected ≡ ok old
      → (pinned P codec disk ≡ ok old)
        ⊎ ((e : Error) × (pinned P codec disk ≡ err e)
            × (replace ≡ true)
            × (expected ≡ none)
            × (old ≡ no_root))
  unfolding old_pin
  old_pin-cases disk replace expected old e = elim (Result-cases (pinned P codec disk)) [
    | inr (r, q) ↦ inl (q ∙ rw (q, old_pin) at e)
    | inl (x, q) ↦ elim (Option-cases expected) [
      | inr (y, s) ↦ absurd (cc (rw (q, s, old_pin) at e))
      | inl s ↦ elim (Bool-cases replace) [
        | inr n ↦ absurd (cc (rw (q, s, n, old_pin) at e))
        | inl t ↦ inr (x, q, t, s, sym (ok_injective (rw (q, s, t, old_pin) at e)))
      ]
    ]
  ]

  old_pin_same :
      (disk : Disk) (replace : Bool) (expected : Option Root) (root : Root)
      → is_empty root.workspace ≡ false
      → old_pin P codec disk replace expected ≡ ok root
      → pinned P codec disk ≡ ok root
  old_pin_same disk replace expected root w e = elim (old_pin-cases disk replace expected root e) [
    | inl q ↦ q
    | inr (x, _, _, _, z) ↦ absurd (cc (subst (λ (k : Root). is_empty k.workspace ≡ false) z w))
  ]

  -- `pin_root` once the old pin is known.
  IsPinned-then :
      (disk disk' : Disk) (root old old' : Root) (replace : Bool) (expected : Option Root)
      → is_empty root.workspace ≡ false
      → P.digest_valid root.genesis ≡ true
      → old_pin P codec disk replace expected ≡ ok old
      → pin_over P codec disk root replace expected old ≡ ok (old', disk')
      → IsPinned P codec disk root replace expected old' disk'
  unfolding pin_over
  IsPinned-then disk disk' root old old' replace expected w g o e =
      elim (Bool-cases (same_root old root)) [
        | inl t ↦
            let p = eq_of_same_root old root t in
            let q = ok_injective (rw (t, pin_over) at e) in
            let r : old ≡ old' = ap (λ (x : Root × Disk). x.0) q in
            let d : disk ≡ disk' = ap (λ (x : Root × Disk). x.1) q in
            record {
              now_pinned =
                  subst (λ (x : Disk). pinned P codec x ≡ ok root) d
                    (old_pin_same disk replace expected root w (o ∙ ap ok p));
              before_pin = old_pin-cases disk replace expected old' (o ∙ ap ok r);
              allowed = inl (sym r ∙ p);
            }
        | inr n ↦
            let (a, e1) = guard->> _ _ _ (rw (n, pin_over) at e) in
            let (b, e2) = guard->> _ _ _ e1 in written a b e2
      ]
    where
      result : Bytes → Result (Root × Disk)
      result b = ok (old, contents b)

      written :
          elim expected [ none ↦ true | some x ↦ same_root old x ] ≡ true
          → (same_root old no_root || replace) ≡ true
          → (or_err (codec.marshal (record { version = trust_root_version; root = root }))
              >>= result)
            ≡ ok (old', disk')
          → IsPinned P codec disk root replace expected old' disk'
      written a b e =
          elim (Option-cases
            (codec.marshal (record { version = trust_root_version; root = root }))) [
              | inl m ↦ absurd (cc (rw m at e))
              | inr (bs, m) ↦
                  let q = ok_injective (rw m at e) in
                  let r : old ≡ old' = ap (λ (x : Root × Disk). x.0) q in
                  let d : contents bs ≡ disk' = ap (λ (x : Root × Disk). x.1) q in
                  record {
                    now_pinned =
                        subst (λ (x : Disk). pinned P codec x ≡ ok root) d
                          (written-pinned root bs w g m);
                    before_pin = old_pin-cases disk replace expected old' (o ∙ ap ok r);
                    allowed = inr (
                      subst (λ (x : Root). (x ≡ no_root) ⊎ (replace ≡ true)) r
                          (elim (Bool-cases (same_root old no_root)) [
                            | inl t ↦ inl (eq_of_same_root old no_root t)
                            | inr n ↦ inr (ground arith)
                          ]),
                      λ x s. sym r ∙ eq_of_same_root old x (rw s at a),
                    );
                  }
            ]

  -- If `pin` succeeds, the file holds the new root afterwards; and the root that was pinned before was
  -- the new one or, when it differs, none unless `replace` is set, and the expected one if the caller
  -- names it. A pin that cannot be read is overwritten only if `replace` is set and no root expected.
  -- JSON is assumed to read back what it wrote.
  pub pin_root-IsPinned :
      (disk disk' : Disk) (root old : Root) (replace : Bool) (expected : Option Root)
      → pin_root P codec disk root replace expected ≡ ok (old, disk')
      → IsPinned P codec disk root replace expected old disk'
  unfolding pin_root
  pin_root-IsPinned disk disk' root old replace expected e =
      let (w, e1) = guard->> (not (is_empty root.workspace)) _ _ e in
      let (g, e2) = guard->> (P.digest_valid root.genesis) _ _ e1 in
      let (o, q, e3) = >>=-eq-ok (old_pin P codec disk replace expected) _ e2 in
      IsPinned-then disk disk' root o old replace expected (ground arith) g q e3
