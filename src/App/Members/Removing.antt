-- ===== src/App/Members/Removing.antt =====
-- What removing a member changes, and what it leaves.
use enbu.Prelude.{
  ℕ, eqb, length, ◌==◌, eq_iff, ==_refl, true, false, not, none, List, [], ◌∷◌, ◌≡◌, inl, inr, refl,
  ap, ◌∙◌, subst, arith, is_some, Bool-cases, Option-cases, if◌then◌else◌,
}
use enbu.Outcome.{ok, refused, guard->>, ok_injective}
use enbu.Signing.{DeviceId}
use enbu.Wsp.{Principal, Control}
use enbu.Wsp.Members.{principal, find_principal}
use enbu.App.Members.{has_admin, without, remove}

-- A principal without the device is found as before.
find-without :
    (device id : DeviceId) (ps : List Principal)
    → find_principal (without device ps) id ≡ (if id == device then none else find_principal ps id)
unfolding find_principal without
find-without device id [] = elim (Bool-cases (id == device)) [
  | inl e ↦ rw e refl
  | inr e ↦ rw e refl
]
find-without device id (p ∷ ps) = elim (Bool-cases (p.id == device)) [
  | inl d ↦ elim (Bool-cases (p.id == id)) [
    | inl e ↦
        let q = (eq_iff p.id id).0 e in
        let same : (id == device) ≡ true = subst (λ x. (x == device) ≡ true) q d in
        rw (d, same) (find-without device id ps ∙ rw same refl)
    | inr e ↦ rw (d, e) (find-without device id ps)
  ]
  | inr d ↦ elim (Bool-cases (p.id == id)) [
    | inl e ↦
        let q = (eq_iff p.id id).0 e in
        let same : (id == device) ≡ false = subst (λ x. (x == device) ≡ false) q d in
        rw (d, same, e) refl
    | inr e ↦ rw (d, e) (find-without device id ps)
  ]
]

-- What a change leaves: the other principals as they were.
pub record IsRemoved (device : DeviceId) (c c' : Control) : Type 0 where
  pub removed : principal c' device ≡ none
  pub was_member : is_some (principal c device) ≡ true
  pub others : (id : DeviceId) → (id == device) ≡ false → principal c' id ≡ principal c id
  pub some_admin : has_admin c'.principals ≡ true
  pub same_workspace : c'.workspace ≡ c.workspace

-- Something was removed only if the device was listed.
without_all :
    (device : DeviceId) (ps : List Principal)
    → find_principal ps device ≡ none
    → without device ps ≡ ps
unfolding find_principal without
without_all device [] e = refl
without_all device (p ∷ ps) e = elim (Bool-cases (p.id == device)) [
  | inl d ↦ absurd (cc (rw d at e))
  | inr d ↦ rw d (ap (λ r. p ∷ r) (without_all device ps (rw d at e)))
]

-- A removal that succeeds takes exactly the device off the members, and an admin remains.
pub remove-IsRemoved :
    (device : DeviceId) (c c' : Control) → remove device c ≡ ok c' → IsRemoved device c c'
unfolding remove principal
remove-IsRemoved device c c' h =
    let kept = without device c.principals in
    let (g, h1) = guard->> (not (eqb (length kept) (length c.principals))) refused _ h in
    let (a, h2) = guard->> (has_admin kept) refused _ h1 in
    let q : record c { principals = kept } ≡ c' = ok_injective h2 in
    rw (← q) (record {
      removed = rw (find-without device device c.principals, ==_refl device) refl;
      was_member = elim (Option-cases (find_principal c.principals device)) [
        | inl e ↦ absurd (unchanged _ _ g (ap length (without_all device c.principals e)))
        | inr (p, e) ↦ rw e refl
      ];
      others = λ id n. rw (find-without device id c.principals, n) refl;
      some_admin = a;
      same_workspace = refl;
    })
  where
    unchanged : (m n : ℕ) → not (eqb m n) ≡ true → m ≡ n → ⊥
    unchanged m n g e = ground arith
