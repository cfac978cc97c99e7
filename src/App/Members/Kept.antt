-- ===== src/App/Members/Kept.antt =====
-- What `ResolveControlFork` keeps.
use enbu.Prelude.{
  ◌==◌, eq_iff, Bool, true, false, Option, none, some, List, [], ◌∷◌, ◌≡◌, ◌↔◌, inl, inr, refl, ap,
  ◌∙◌, subst, arith, All, Any, &&-left, &&-right, Bool-cases, Option-cases, if◌then◌else◌,
}
use enbu.Outcome.{ok, refused, guard->>, ok_injective}
use enbu.Signing.{DeviceId}
use enbu.Wsp.{Principal, Control}
use enbu.Wsp.Members.{Verified, principal, is_admin_of, find_principal}
use enbu.App.Members.{has_admin, in_all, admin_in_all, common, keep_common}

-- A head lists the device; a head lists it as an admin.
abbrev pub Lists : DeviceId → Verified → Type 0
Lists id h = (q : Principal) × (principal h.control id ≡ some q)

abbrev pub ListsAdmin : DeviceId → Verified → Type 0
ListsAdmin id h = (q : Principal) × (principal h.control id ≡ some q) × (q.admin ≡ true)

-- What the resolution of a fork keeps.
pub record IsCommon (heads : List Verified) (c c' : Control) : Type 0 where
  pub dropped :
      (id : DeviceId)
      → Any (λ (h : Verified). principal h.control id ≡ none) heads
      → principal c' id ≡ none
  pub unknown : (id : DeviceId) → principal c id ≡ none → principal c' id ≡ none
  pub kept :
      (id : DeviceId) (p : Principal)
      → All (Lists id) heads
      → principal c id ≡ some p
      → (admin : Bool) × (principal c' id ≡ some (record p { admin = admin }))
        × ((admin ≡ true) ↔ All (ListsAdmin id) heads)
  pub some_admin : Any (λ (p : Principal). p.admin ≡ true) c'.principals

in_all-Any :
    (id : DeviceId) (heads : List Verified)
    → Any (λ (h : Verified). principal h.control id ≡ none) heads
    → in_all heads id ≡ false
unfolding in_all
in_all-Any id [] a = absurd a
in_all-Any id (h ∷ heads) (inl q) = rw q refl
in_all-Any id (h ∷ heads) (inr a) = let n = in_all-Any id heads a in ground arith

in_all-All : (id : DeviceId) (heads : List Verified) → All (Lists id) heads → in_all heads id ≡ true
unfolding in_all
in_all-All id [] a = refl
in_all-All id (h ∷ heads) ((q, e), a) = rw (e, in_all-All id heads a) refl

admin_in_all-All :
    (id : DeviceId) (heads : List Verified)
    → (admin_in_all heads id ≡ true) ↔ All (ListsAdmin id) heads
unfolding admin_in_all is_admin_of
admin_in_all-All id [] = (λ e. tt, λ a. refl)
admin_in_all-All id (h ∷ heads) = (
  λ e. elim (Option-cases (principal h.control id)) [
    | inl q ↦ absurd (cc (rw q at e))
    | inr (p, q) ↦ (
      (p, q, &&-left p.admin (admin_in_all heads id) (rw q at e)),
      (admin_in_all-All id heads).0 (&&-right p.admin (admin_in_all heads id) (rw q at e)),
    )
  ],
  λ a. rw (a.0.1, a.0.2, (admin_in_all-All id heads).1 a.1) refl,
)

has_admin-Any :
    (ps : List Principal) → has_admin ps ≡ true → Any (λ (p : Principal). p.admin ≡ true) ps
unfolding has_admin
has_admin-Any [] e = absurd (cc e)
has_admin-Any (p ∷ ps) e = elim (Bool-cases p.admin) [
  | inl t ↦ inl t
  | inr n ↦ inr (has_admin-Any ps (rw n at e))
]

find-common :
    (heads : List Verified) (id : DeviceId) (ps : List Principal)
    → find_principal (common heads ps) id ≡ elim (find_principal ps id) as (λ o. Option Principal) [
      | none ↦ none
      | some p ↦ if in_all heads id then some (record p { admin = admin_in_all heads id }) else none
    ]
unfolding common find_principal
find-common heads id [] = refl
find-common heads id (p ∷ ps) = elim (Bool-cases (p.id == id)) [
  | inl e ↦
      let q = (eq_iff p.id id).0 e in
      elim (Bool-cases (in_all heads p.id)) [
        | inl t ↦
            let t' : in_all heads id ≡ true = subst (λ x. in_all heads x ≡ true) q t in
            let a : admin_in_all heads p.id ≡ admin_in_all heads id = ap (admin_in_all heads) q in
            rw (t, e, t', a) refl
        | inr n ↦
            let n' : in_all heads id ≡ false = subst (λ x. in_all heads x ≡ false) q n in
            rw (n, e, n')
              (find-common heads id ps ∙ elim (Option-cases (find_principal ps id)) [
                | inl f ↦ rw f refl
                | inr (x, f) ↦ rw (f, n') refl
              ])
      ]
  | inr e ↦ elim (Bool-cases (in_all heads p.id)) [
    | inl t ↦ rw (t, e) (find-common heads id ps)
    | inr n ↦ rw (n, e) (find-common heads id ps)
  ]
]

-- The resolution keeps exactly the principals that all heads list, as admins exactly those whom every
-- head lists as an admin, changes nothing else of them, and succeeds only if an admin remains.
pub keep_common-IsCommon :
    (heads : List Verified) (c c' : Control) → keep_common heads c ≡ ok c' → IsCommon heads c c'
unfolding keep_common principal
keep_common-IsCommon heads c c' h =
    let (a, h1) = guard->> (has_admin (common heads c.principals)) refused _ h in
    let q : record c { principals = common heads c.principals } ≡ c' = ok_injective h1 in
    rw (← q) (record {
      dropped = λ id m.
          find-common heads id c.principals ∙ elim (Option-cases (find_principal c.principals id)) [
            | inl e ↦ rw e refl
            | inr (p, e) ↦ rw (e, in_all-Any id heads m) refl
          ];
      unknown = λ id e. find-common heads id c.principals ∙ rw e refl;
      kept = λ id p l e. (
        admin_in_all heads id,
        find-common heads id c.principals ∙ rw (e, in_all-All id heads l) refl,
        admin_in_all-All id heads,
      );
      some_admin = has_admin-Any (common heads c.principals) a;
    })
