-- ===== src/Wsp/Members/WellFormed.antt =====
-- What `Control.Validate` accepts.
use enbu.Prelude.{
  ℕ, ◌≤◌, ◌<◌, Bytes, ◌==◌, eq_iff, ==_refl, before, before_trans, before_irrefl, true, not, ◌&&◌,
  Option, none, some, List, [], ◌∷◌, ◌≡◌, ◌≢◌, ◌↔◌, inl, inr, refl, sym, subst, arith, leb, eqb,
  length, any, if◌then◌else◌, All, Any, All-map, IsIncreasing, Bool-cases, &&-left, &&-right,
}
use enbu.Outcome.{ok, guard->>, guard-eq-ok}
use enbu.Graph.{Digest}
use enbu.Signing.{DeviceId, valid_key, valid_device_id, device_id}
use enbu.Wsp.{Principal, Control, Protocol}
use enbu.Wsp.Members.{
  max_principals, is_none_list, find_principal, valid_parents, valid_principals, valid_principal,
  validate,
}

abbrev pub ids : List Principal → List DeviceId
ids [] = []
ids (p ∷ ps) = p.id ∷ ids ps

module _ (P : Protocol) where
  -- A principal names the device of its own key, and its recipient can be encrypted for.
  pub record IsBound (p : Principal) : Type 0 where
    pub key_valid : valid_key P.crypto p.signing ≡ true
    pub id_eq : p.id ≡ device_id P.crypto p.signing
    pub recipient_ok : P.recipient_valid p.recipient ≡ true

  pub record IsWellFormed (c : Control) : Type 0 where
    pub named : c.workspace ≢ []
    pub genesis_height : (c.parents ≡ []) ↔ (c.height ≡ 0)
    pub few_parents : length c.parents ≤ max_principals
    pub parents_valid : All (λ d. P.digest_valid d ≡ true) c.parents
    pub parents_rise : IsIncreasing c.parents
    pub author_valid : valid_device_id c.author ≡ true
    pub some_principal : 0 < length c.principals
    pub few_principals : length c.principals ≤ max_principals
    pub bound : All IsBound c.principals
    pub ids_rise : IsIncreasing (ids c.principals)
    pub has_admin : Any (λ p. p.admin ≡ true) c.principals

  AfterAll : Option Bytes → List Bytes → Type 0
  AfterAll none ds = Unit
  AfterAll (some q) ds = All (λ d. before q d ≡ true) ds

  after_next :
      (prev : Option Bytes) (d : Bytes) (ds : List Bytes)
      → (AfterAll prev (d ∷ []) × AfterAll (some d) ds)
      → AfterAll prev (d ∷ ds)
  unfolding AfterAll
  after_next none d ds h = tt
  after_next (some q) d ds h = (h.0.0, All-map (λ x k. before_trans q d x h.0.0 k) ds h.1)

  valid_parents_iff :
      (prev : Option Digest) (ds : List Digest)
      → (valid_parents P prev ds ≡ true)
        ↔ (AfterAll prev ds × All (λ d. P.digest_valid d ≡ true) ds × IsIncreasing ds)
  unfolding valid_parents AfterAll
  valid_parents_iff none [] = (λ h. (tt, tt, tt), λ r. refl)
  valid_parents_iff (some q) [] = (λ h. (tt, tt, tt), λ r. refl)
  valid_parents_iff none (d ∷ ds) =
      let ih = valid_parents_iff (some d) ds in
      (
        λ h. let r = ih.0 (&&-right _ _ h) in (tt, (&&-left _ _ h, r.1), (r.0, r.2)),
        λ r. rw (r.1.0) (ih.1 (r.2.0, r.1.1, r.2.1)),
      )
  valid_parents_iff (some q) (d ∷ ds) =
      let ih = valid_parents_iff (some d) ds in
      (
        λ h.
            let r = ih.0 (&&-right _ _ h) in
            let qd = &&-right _ _ (&&-left _ _ h) in
            (
              after_next (some q) d ds ((qd, tt), r.0),
              (&&-left _ _ (&&-left _ _ h), r.1),
              (r.0, r.2),
            ),
        λ r. rw (r.1.0, r.0.0) (ih.1 (r.2.0, r.1.1, r.2.1)),
      )

  IsBound-iff : (p : Principal) → (valid_principal P p ≡ true) ↔ IsBound p
  unfolding valid_principal
  IsBound-iff p = (
    λ h. record {
      key_valid = &&-left _ _ (&&-left _ _ h);
      id_eq = (eq_iff p.id (device_id P.crypto p.signing)).0 (&&-right _ _ (&&-left _ _ h));
      recipient_ok = &&-right _ _ h;
    },
    λ b.
        let e = (eq_iff p.id (device_id P.crypto p.signing)).1 b.id_eq in
        rw (b.key_valid, e, b.recipient_ok) refl,
  )

  valid_principals_iff :
      (prev : Option DeviceId) (ps : List Principal)
      → (valid_principals P prev ps ≡ true)
        ↔ (AfterAll prev (ids ps) × All IsBound ps × IsIncreasing (ids ps))
  unfolding valid_principals AfterAll
  valid_principals_iff none [] = (λ h. (tt, tt, tt), λ r. refl)
  valid_principals_iff (some q) [] = (λ h. (tt, tt, tt), λ r. refl)
  valid_principals_iff none (p ∷ ps) =
      let ih = valid_principals_iff (some p.id) ps in
      let b = IsBound-iff p in
      (
        λ h. let r = ih.0 (&&-right _ _ h) in (tt, (b.0 (&&-left _ _ h), r.1), (r.0, r.2)),
        λ r. rw (b.1 r.1.0) (ih.1 (r.2.0, r.1.1, r.2.1)),
      )
  valid_principals_iff (some q) (p ∷ ps) =
      let ih = valid_principals_iff (some p.id) ps in
      let b = IsBound-iff p in
      (
        λ h.
            let r = ih.0 (&&-right _ _ h) in
            let qd = &&-left _ _ (&&-left _ _ h) in
            (
              after_next (some q) p.id (ids ps) ((qd, tt), r.0),
              (b.0 (&&-right _ _ (&&-left _ _ h)), r.1),
              (r.0, r.2),
            ),
        λ r. rw (r.0.0, b.1 r.1.0) (ih.1 (r.2.0, r.1.1, r.2.1)),
      )

  genesis_iff :
      (ds : List Digest) (h : ℕ)
      → ((if is_none_list ds then eqb h 0 else not (eqb h 0)) ≡ true) ↔ ((ds ≡ []) ↔ (h ≡ 0))
  genesis_iff [] h = (λ e. (λ q. ground arith, λ q. refl), λ r. let e = r.0 refl in ground arith)
  genesis_iff (d ∷ ds) h = (
    λ e. (λ q. cc, λ q. ground arith),
    λ r. elim (Bool-cases (eqb h 0)) [
      | inl e ↦ let q = r.1 (ground arith) in cc
      | inr n ↦ rw n refl
    ],
  )

  some_principal_iff :
      (ps : List Principal)
      → ((not (is_none_list ps) && leb (length ps) max_principals) ≡ true)
        ↔ ((0 < length ps) × (length ps ≤ max_principals))
  some_principal_iff [] = (λ h. absurd (cc), λ r. absurd (omega arith))
  some_principal_iff (p ∷ ps) = (λ h. (omega arith, ground arith), λ r. let k = r.1 in ground arith)

  any_admin_iff :
      (ps : List Principal)
      → (any (λ (p : Principal). p.admin) ps ≡ true) ↔ Any (λ p. p.admin ≡ true) ps
  any_admin_iff [] = (λ h. absurd (cc), λ r. elim r [ ])
  any_admin_iff (p ∷ ps) = ground (arith, any_admin_iff ps)

  few_iff : (n m : ℕ) → (leb n m ≡ true) ↔ (n ≤ m)
  few_iff n m = ground arith

  named_iff : (w : Bytes) → (not (w == []) ≡ true) ↔ (w ≢ [])
  named_iff w = (
    λ h e. let q = (eq_iff w []).1 e in cc (rw q at h),
    λ n. elim (Bool-cases (w == [])) [ inl e ↦ absurd (n ((eq_iff w []).0 e)) | inr e ↦ rw e refl ],
  )

  validate_sound : (c : Control) → validate P c ≡ ok tt → IsWellFormed c
  unfolding validate
  validate_sound c h =
      let (a1, h1) = guard->> _ _ _ h in
      let (a2, h2) = guard->> _ _ _ h1 in
      let (a3, h3) = guard->> _ _ _ h2 in
      let (a4, h4) = guard->> _ _ _ h3 in
      let (a5, h5) = guard->> _ _ _ h4 in
      let (a6, h6) = guard->> _ _ _ h5 in
      let (a7, h7) = guard->> _ _ _ h6 in
      let ps = (valid_parents_iff none c.parents).0 a4 in
      let qs = (valid_principals_iff none c.principals).0 a7 in
      let n = (some_principal_iff c.principals).0 a6 in
      record {
        named = (named_iff c.workspace).0 a1;
        genesis_height = (genesis_iff c.parents c.height).0 a2;
        few_parents = (few_iff _ _).0 a3;
        parents_valid = ps.1;
        parents_rise = ps.2;
        author_valid = a5;
        some_principal = n.0;
        few_principals = n.1;
        bound = qs.1;
        ids_rise = qs.2;
        has_admin = (any_admin_iff c.principals).0 (guard-eq-ok _ _ h7);
      }

  validate_complete : (c : Control) → IsWellFormed c → validate P c ≡ ok tt
  unfolding validate AfterAll
  validate_complete c w =
      let n = (some_principal_iff c.principals).1 (w.some_principal, w.few_principals) in
      rw
        (
          (named_iff c.workspace).1 w.named,
          (genesis_iff c.parents c.height).1 w.genesis_height,
          (few_iff (length c.parents) max_principals).1 w.few_parents,
          (valid_parents_iff none c.parents).1 (tt, w.parents_valid, w.parents_rise),
          w.author_valid,
          n,
          (valid_principals_iff none c.principals).1 (tt, w.bound, w.ids_rise),
        )
        (rw ((any_admin_iff c.principals).1 w.has_admin) refl)

  -- `Control.Validate` accepts exactly the well-formed Controls: a named workspace, height 0 only at
  -- a genesis, sorted unique valid parents, 1 to 1024 principals sorted by unique device id, each
  -- with its own key's device id and a usable recipient, and at least one admin.
  pub validate-IsWellFormed : (c : Control) → (validate P c ≡ ok tt) ↔ IsWellFormed c
  validate-IsWellFormed c = (validate_sound c, validate_complete c)

later_found :
    (p : Principal) (qs rs : List Principal)
    → All (λ d. before p.id d ≡ true) (ids rs)
    → All (λ q. find_principal qs q.id ≡ some q) rs
    → All (λ q. find_principal (p ∷ qs) q.id ≡ some q) rs
unfolding find_principal
later_found p qs [] b h = tt
later_found p qs (r ∷ rs) b h = (
  elim (Bool-cases (p.id == r.id)) [
    | inl e ↦
        let same = subst (λ x. before p.id x ≡ true) (sym ((eq_iff p.id r.id).0 e)) b.0 in
        absurd (cc (same, before_irrefl p.id))
    | inr n ↦ rw n h.0
  ],
  later_found p qs rs b.1 h.1,
)

-- With sorted device ids every principal of the list is the one that is found under its id.
pub find_principal_self :
    (ps : List Principal) → IsIncreasing (ids ps) → All (λ p. find_principal ps p.id ≡ some p) ps
unfolding find_principal
find_principal_self [] h = tt
find_principal_self (p ∷ ps) h =
    (rw (==_refl p.id) refl, later_found p ps ps h.0 (find_principal_self ps h.1))

pub find_principal-id :
    (ps : List Principal) (id : DeviceId) (p : Principal)
    → find_principal ps id ≡ some p
    → (p.id ≡ id) × Any (λ q. q ≡ p) ps
unfolding find_principal
find_principal-id [] id p h = absurd (cc)
find_principal-id (q ∷ qs) id p h = elim (Bool-cases (q.id == id)) [
  | inl e ↦
      let same : q ≡ p = cc (rw e at h) in
      (subst (λ x. x.id ≡ id) same ((eq_iff q.id id).0 e), inl same)
  | inr n ↦ let r = find_principal-id qs id p (rw n at h) in (r.0, inr r.1)
]
