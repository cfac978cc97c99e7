-- ===== src/Tests/Devices.antt =====
-- Runs of the Control DAG, of revisions, of checkpoints and of trust roots (pkg/wsp).
use enbu.Prelude.{
  bytes, ◌==◌, Option, none, some, [], ◌∷◌, ◌≡◌, ◌↔◌, ◌⊎◌, ◌<◌, inl, inr, refl, length, has,
  Bool-cases, ap, sym, lookup, before, sort_bytes, insert_by, sort_by, put,
}
use enbu.Outcome.{ok, err, forked, ok_injective}
use enbu.Prelude.Walk.{walk}
use enbu.Signing
use enbu.Wsp
use enbu.Wsp.{Control}
use enbu.Wsp.Members.{Verified, validate, verify_genesis, verify_child, principal}
use enbu.Wsp.Members
use enbu.Wsp.Members.WellFormed.{IsWellFormed, validate-IsWellFormed}
use enbu.Wsp.Members.Child.{IsChild, IsGenesis, verify_child-IsChild, verify_genesis-IsGenesis}
use enbu.Wsp.Chain
use enbu.Wsp.Chain.{ControlView, load_control, get, head, digests_of}
use enbu.Wsp.Chain.Authority.{KeptByAdmins, load_control-Good, head_lem}
use enbu.Wsp.Membership
use enbu.Wsp.Membership.{membership_unbroken}
use enbu.Wsp.Membership.Unbroken.{IsUnbroken, membership_unbroken-IsUnbroken}
use enbu.Wsp.Revisions.{VerifiedState, verify_revision}
use enbu.Wsp.Revisions.Valid.{IsRevision, verify_revision_iff}
use enbu.Tests.Protocols.{toy, root, next, root_blob, child_blob, store, id, state, state_blob}

abbrev root_verified : Verified
root_verified = record { control = root; digest = root_blob }

abbrev next_verified : Verified
next_verified = record { control = next; digest = child_blob }

validate-IsWellFormed_example : (validate toy root ≡ ok tt) ↔ IsWellFormed toy root
validate-IsWellFormed_example = validate-IsWellFormed toy root

verify_genesis-IsGenesis_example : IsGenesis toy (bytes "w") root_blob root_blob root_verified
unfolding verify_genesis Wsp.decode_signed Wsp.decode_canonical Members.decode_control
    Members.validate Members.valid_parents Members.valid_principals Members.principal
    Members.find_principal Members.is_admin_of Signing.verify Signing.valid_key
    Signing.valid_device_id Signing.device_id Signing.valid_domain ◌==◌ before
verify_genesis-IsGenesis_example =
    verify_genesis-IsGenesis toy (bytes "w") root_blob root_blob root_verified refl

verify_child-IsChild_example : IsChild toy (root_verified ∷ []) child_blob next_verified
unfolding verify_child Wsp.decode_signed Wsp.decode_canonical Members.decode_control
    Members.validate Members.valid_parents Members.valid_principals Members.principal
    Members.find_principal Members.is_admin_of Members.author_key Members.max_height Signing.verify
    Signing.valid_key Signing.valid_device_id Signing.device_id Signing.valid_domain ◌==◌ before
    sort_bytes sort_by insert_by
verify_child-IsChild_example =
    verify_child-IsChild toy (root_verified ∷ []) child_blob next_verified refl

abbrev view : ControlView
view = record {
  workspace = bytes "w";
  genesis = root_blob;
  heads = next_verified ∷ [];
  verified = (child_blob, next_verified) ∷ (root_blob, root_verified) ∷ [];
}

loaded : load_control toy store (bytes "w") root_blob (root_blob ∷ []) ≡ ok view
unfolding load_control Chain.fetch_loop Chain.accept_loop Chain.accept_pass Chain.accept_one
    Chain.ready_parents Chain.verified_parents Chain.heads_of Chain.child_of Chain.unnamed
    Chain.readable Chain.is_damaged verify_genesis verify_child Wsp.decode_signed
    Wsp.decode_canonical Members.decode_control Members.validate Members.valid_parents
    Members.valid_principals Members.principal Members.find_principal Members.is_admin_of
    Members.author_key Members.max_height Signing.verify Signing.valid_key Signing.valid_device_id
    Signing.device_id Signing.valid_domain ◌==◌ before sort_bytes sort_by insert_by lookup put has
loaded = refl

head_lem_example :
    ((v : Verified) × (view.heads ≡ v ∷ []) × (head view ≡ ok v))
    ⊎ ((1 < length view.heads) × (head view ≡ err (forked (digests_of view.heads))))
head_lem_example = head_lem toy store (bytes "w") root_blob (root_blob ∷ []) view loaded

-- Every Control that decodes here is of the workspace.
abbrev OfWorkspace : Control → Type 0
OfWorkspace c = c.workspace ≡ bytes "w"

kept_by_admins : KeptByAdmins toy OfWorkspace
unfolding Wsp.decode_canonical
kept_by_admins v a c s g l ad d k = elim (Bool-cases (s.body == root_blob)) [
  | inl t ↦
      ap (λ (x : Control). x.workspace)
        (sym (ok_injective (let e = rw (t, Wsp.decode_canonical) at d in rw t at e)))
  | inr n ↦ elim (Bool-cases (s.body == child_blob)) [
    | inl t ↦
        ap (λ (x : Control). x.workspace)
          (sym (ok_injective (let e = rw (n, t, Wsp.decode_canonical) at d in rw t at e)))
    | inr m ↦ absurd (cc (rw (n, m, Wsp.decode_canonical) at d))
  ]
]

root-OfWorkspace : (r : Verified) → get view root_blob ≡ some r → OfWorkspace r.control
unfolding get lookup ◌==◌
root-OfWorkspace r e =
    ap (λ (o : Option Verified). elim o [ none ↦ [] | some x ↦ x.control.workspace ]) (sym e)

load_control-Good_example : OfWorkspace next
unfolding get lookup ◌==◌
load_control-Good_example =
    load_control-Good toy OfWorkspace store (bytes "w") root_blob (root_blob ∷ []) view
      kept_by_admins root-OfWorkspace loaded child_blob next_verified refl

membership_unbroken-IsUnbroken_example : IsUnbroken view child_blob root_blob id
unfolding membership_unbroken Membership.unbroken_since Membership.look_older Membership.look_newer
    Membership.was_present Membership.parents_in Membership.control_rounds Membership.enqueue walk
    get lookup has principal Members.find_principal ◌==◌
membership_unbroken-IsUnbroken_example =
    membership_unbroken-IsUnbroken view child_blob root_blob id refl

abbrev state_verified : VerifiedState
state_verified = record { state = state; digest = state_blob }

verify_revision_iff_example :
    (verify_revision toy view (bytes "w") (bytes "secrets/prod") state_blob state_blob
      ≡ ok state_verified)
    ↔ IsRevision toy view (bytes "w") (bytes "secrets/prod") state_blob state_blob state_verified
verify_revision_iff_example =
    verify_revision_iff toy view (bytes "w") (bytes "secrets/prod") state_blob state_blob
      state_verified
