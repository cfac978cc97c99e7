-- ===== src/App/Members/Common.antt =====
-- When the protocol accepts what `ResolveControlFork` keeps.
use enbu.Prelude.{
  ◌==◌, Bool, true, false, not, ◌&&◌, ◌||◌, Option, some, List, [], ◌∷◌, ◌≡◌, ◌↔◌, inl, inr, refl,
  sym, ◌∙◌, subst, arith, All, all, is_some, &&-left, &&-right, Bool-cases, Option-cases,
}
use enbu.Outcome.{ok, refused, guard->>, ok_injective}
use enbu.Signing.{DeviceId, device_id}
use enbu.Wsp.{Principal, Control, Protocol}
use enbu.Wsp.Members.{
  Verified, principal, is_admin_of, resolution_scan, resolution_keeps, check_resolution,
}
use enbu.App.Members.{has_admin, in_all, admin_in_all, common, keep_common}

module _ (P : Protocol) where
  -- A head that lists the principal's id does so under the same key and the same recipient.
  abbrev pub Same : Principal → Verified → Type 0
  Same p h =
      (old : Principal)
      → principal h.control p.id ≡ some old
      → ((device_id P.crypto old.signing == device_id P.crypto p.signing) ≡ true)
        × ((old.recipient == p.recipient) ≡ true)

  -- What a scan finds: a principal that was listed or an admin before stays so.
  record IsFound (found : Option (Bool × Bool)) (listed was_admin : Bool) : Type 0 where
    l : Bool
    a : Bool
    is : found ≡ some (l, a)
    stays_listed : listed ≡ true → l ≡ true
    stays_admin : was_admin ≡ true → a ≡ true

  scan_step :
      (p : Principal) (h : Verified) (heads : List Verified) (listed was_admin : Bool)
      (old : Principal)
      → principal h.control p.id ≡ some old
      → Same p h
      → resolution_scan P p (h ∷ heads) listed was_admin
        ≡ resolution_scan P p heads true (was_admin || old.admin)
  unfolding resolution_scan
  scan_step p h heads listed was_admin old q s =
      let (k, r) = s old q in rw (resolution_scan, q, k, r) refl

  in_all-cons :
      (h : Verified) (heads : List Verified) (id : DeviceId)
      → in_all (h ∷ heads) id ≡ true
      → ((old : Principal) × (principal h.control id ≡ some old)) × (in_all heads id ≡ true)
  unfolding in_all
  in_all-cons h heads id i = elim (Option-cases (principal h.control id)) [
    | inl q ↦ absurd (cc (rw q at i))
    | inr (old, q) ↦ ((old, q), &&-right (is_some (principal h.control id)) (in_all heads id) i)
  ]

  -- A scan over heads that all list the principal, and agree on it, finds it.
  scan-IsFound :
      (p : Principal) (heads : List Verified) (listed was_admin : Bool)
      → in_all heads p.id ≡ true
      → All (Same p) heads
      → IsFound (resolution_scan P p heads listed was_admin) listed was_admin
  unfolding resolution_scan
  scan-IsFound p [] listed was_admin i s = record {
    l = listed;
    a = was_admin;
    is = refl;
    stays_listed = λ e. e;
    stays_admin = λ e. e;
  }
  scan-IsFound p (h ∷ heads) listed was_admin i s =
      let ((old, q), i') = in_all-cons h heads p.id i in
      let f = scan-IsFound p heads true (was_admin || old.admin) i' s.1 in
      record {
        l = f.l;
        a = f.a;
        is = scan_step p h heads listed was_admin old q s.0 ∙ f.is;
        stays_listed = λ t. f.stays_listed refl;
        stays_admin = λ t. f.stays_admin (ground arith);
      }

  keeps_scan :
      (p : Principal) (heads : List Verified) (l a : Bool)
      → resolution_scan P p heads false false ≡ some (l, a)
      → resolution_keeps P p heads ≡ (l && (not p.admin || a))
  unfolding resolution_keeps
  keeps_scan p heads l a e = rw (resolution_keeps, e) refl

  admin_in_all-cons :
      (h : Verified) (heads : List Verified) (id : DeviceId) (old : Principal)
      → principal h.control id ≡ some old
      → admin_in_all (h ∷ heads) id ≡ true
      → old.admin ≡ true
  unfolding admin_in_all is_admin_of
  admin_in_all-cons h heads id old q t = &&-left old.admin (admin_in_all heads id) (rw q at t)

  -- A principal that the heads agree on is kept, with the flag that all of them give it.
  keeps-Same :
      (p : Principal) (h : Verified) (heads : List Verified)
      → in_all (h ∷ heads) p.id ≡ true
      → p.admin ≡ admin_in_all (h ∷ heads) p.id
      → All (Same p) (h ∷ heads)
      → resolution_keeps P p (h ∷ heads) ≡ true
  keeps-Same p h heads i f s =
      let ((old, q), i') = in_all-cons h heads p.id i in
      let found = scan-IsFound p heads true old.admin i' s.1 in
      keeps_scan p (h ∷ heads) found.l found.a
        (scan_step p h heads false false old q s.0 ∙ found.is)
      ∙ kept found.l found.a p.admin (found.stays_listed refl)
          (λ t. found.stays_admin (admin_in_all-cons h heads p.id old q (sym f ∙ t)))
    where
      kept :
          (l a admin : Bool) → l ≡ true → (admin ≡ true → a ≡ true) → (l && (not admin || a)) ≡ true
      kept l a true e f = let q = f refl in ground arith
      kept l a false e f = ground arith

  -- Conversely a scan that ends met no head that lists the principal otherwise.
  scan-All :
      (p : Principal) (heads : List Verified) (listed was_admin : Bool) (x : Bool × Bool)
      → resolution_scan P p heads listed was_admin ≡ some x
      → All (Same p) heads
  unfolding resolution_scan
  scan-All p [] listed was_admin x e = tt
  scan-All p (h ∷ heads) listed was_admin x e = elim (Option-cases (principal h.control p.id)) [
    | inl q ↦ (
      λ old q'. absurd (cc (q, q')),
      scan-All p heads listed was_admin x (rw (q, resolution_scan) at e),
    )
    | inr (old, q) ↦ elim (Bool-cases (differs old p)) [
      | inl t ↦ absurd (cc (rw (q, resolution_scan, t) at e))
      | inr t ↦ (
        λ old' q'.
            let w : old ≡ old' = cc (q, q') in
            subst
              (λ (y : Principal).
                ((device_id P.crypto y.signing == device_id P.crypto p.signing) ≡ true)
                × ((y.recipient == p.recipient) ≡ true))
              w (agrees _ _ t),
        scan-All p heads true (was_admin || old.admin) x (rw (q, resolution_scan, t) at e),
      )
    ]
  ]
    where
      differs : Principal → Principal → Bool
      differs old p =
          not (device_id P.crypto old.signing == device_id P.crypto p.signing)
          || not (old.recipient == p.recipient)

      agrees : (a b : Bool) → (not a || not b) ≡ false → (a ≡ true) × (b ≡ true)
      agrees a b h = (ground arith, ground arith)

  keeps-All_heads :
      (p : Principal) (heads : List Verified)
      → resolution_keeps P p heads ≡ true
      → All (Same p) heads
  unfolding resolution_keeps
  keeps-All_heads p heads e = elim (Option-cases (resolution_scan P p heads false false)) [
    | inl q ↦ absurd (cc (rw (q, resolution_keeps) at e))
    | inr (x, q) ↦ scan-All p heads false false x q
  ]

  -- A principal that the resolution keeps.
  Kept : List Verified → Principal → Type 0
  Kept heads p = (in_all heads p.id ≡ true) × (p.admin ≡ admin_in_all heads p.id)

  common-Kept : (heads : List Verified) (ps : List Principal) → All (Kept heads) (common heads ps)
  unfolding common Kept
  common-Kept heads [] = tt
  common-Kept heads (p ∷ ps) = elim (Bool-cases (in_all heads p.id)) [
    | inl t ↦ rw t ((t, refl), common-Kept heads ps)
    | inr n ↦ rw n (common-Kept heads ps)
  ]

  -- The check of each principal, against what it stands for.
  keeps-All :
      (h : Verified) (heads : List Verified) (ps : List Principal)
      → All (Kept (h ∷ heads)) ps
      → (all (λ p. resolution_keeps P p (h ∷ heads)) ps ≡ true)
        ↔ All (λ p. All (Same p) (h ∷ heads)) ps
  unfolding Kept
  keeps-All h heads [] k = (λ e. tt, λ e. refl)
  keeps-All h heads (p ∷ ps) k =
      let rest = keeps-All h heads ps k.1 in
      (
        λ e. (
          keeps-All_heads p (h ∷ heads)
              (&&-left _ (all (λ p. resolution_keeps P p (h ∷ heads)) ps) e),
          rest.0 (&&-right (resolution_keeps P p (h ∷ heads)) _ e),
        ),
        λ s. both (keeps-Same p h heads k.0.0 k.0.1 s.0) (rest.1 s.1),
      )
    where
      both : {a b : Bool} → a ≡ true → b ≡ true → (a && b) ≡ true
      both h k = ground arith

  keep_common-Kept :
      (heads : List Verified) (c c' : Control)
      → keep_common heads c ≡ ok c'
      → (has_admin c'.principals ≡ true) × (common heads c.principals ≡ c'.principals)
  unfolding keep_common
  keep_common-Kept heads c c' h =
      let (a, h1) = guard->> (has_admin (common heads c.principals)) refused _ h in
      let q : record c { principals = common heads c.principals } ≡ c' = ok_injective h1 in
      rw (← q) (a, refl)

  -- The protocol accepts the principals that `ResolveControlFork` keeps exactly if every head lists each
  -- of them under the same key and with the same recipient.
  pub keep_common-check_resolution :
      (h : Verified) (heads : List Verified) (c c' : Control)
      → keep_common (h ∷ heads) c ≡ ok c'
      → (check_resolution P (h ∷ heads) c' ≡ true)
        ↔ All (λ p. All (Same p) (h ∷ heads)) c'.principals
  unfolding check_resolution
  keep_common-check_resolution h heads c c' e =
      let (a, q) = keep_common-Kept (h ∷ heads) c c' e in
      keeps-All h heads c'.principals
        (subst (λ ps. All (Kept (h ∷ heads)) ps) q (common-Kept (h ∷ heads) c.principals))
