-- ===== src/Wsp/Publishing.antt =====
-- pkg/wsp/chain.go: how a Control is made and published.
pub mod Published
use enbu.Prelude.{
  ◌+◌, Bytes, Bool, true, not, ◌||◌, none, some, List, [], ◌∷◌, all, sort_bytes, Dict, lookup, put,
}
use enbu.Outcome.{Result, ok, err, forked, refused, guard, ◌>>=◌, ◌>>◌}
use enbu.Graph.{Digest}
use enbu.Storage
use enbu.Storage.{Store, Object}
use enbu.Signing.{DeviceId, device_id}
use enbu.Wsp.{Principal, Control, Protocol, Signer}
use enbu.Wsp.Members.{
  Verified, principal, is_admin_of, sign_control, verify_genesis, verify_child, u64, max_height,
}
use enbu.Wsp.Chain.{ControlView, is_forked, head, digests_of, load_control}

-- A storage location that one update writes to: what it answers to a publication, and what it shows
-- after it.
pub record Location : Type 0 where
  pub publish : Object → Result (Unit {0})
  pub after : Store

-- The result of an update, and the objects it published.
abbrev pub Update : Type 0 → Type 0
Update A = Result A × List Object

abbrev pub values : {V : Type 0} → Dict V → List V
values [] = []
values ((k, v) ∷ m) = v ∷ values m

-- `h` is admin of every head.
unfoldable pub admin_of_all : DeviceId → List Verified → Bool
unfolding principal is_admin_of
admin_of_all author hs = all (λ (h : Verified). is_admin_of (principal h.control author)) hs

-- `for _, p := range h.Principals`: a principal listed before stays admin if it was one.
unfoldable pub join_principals : List Principal → Dict Principal → Dict Principal
join_principals [] union = union
join_principals (p ∷ ps) union =
    let next = λ (q : Principal). join_principals ps (put p.id q union) in
    elim (lookup p.id union) [
      | none ↦ next p
      | some cur ↦ next (record p { admin = p.admin || cur.admin })
    ]

-- The principals of all heads.
unfoldable pub union_of : List Verified → Dict Principal → Dict Principal
unfolding join_principals
union_of [] union = union
union_of (h ∷ hs) union = union_of hs (join_principals h.control.principals union)

module _ (P : Protocol) where
  -- `NewGenesis(workspace, founder, signer)`.
  unfoldable pub new_genesis : Bytes → Principal → Signer → Result (Bytes × Digest)
  unfolding sign_control verify_genesis
  new_genesis workspace founder signer = do
    blob ←
        sign_control P
          (record {
            workspace = workspace;
            parents = [];
            height = 0;
            principals = record founder { admin = true } ∷ [];
            author = founder.id;
          })
          signer
    v ← verify_genesis P workspace blob (P.digest_of blob)
    ok (blob, P.digest_of blob)

  -- The object of `publishControl(ctx, store, blob)`.
  unfoldable pub control_object : Bytes → Object
  control_object blob = record {
    kind = Storage.control;
    scope = [];
    rev = P.digest_of blob;
    head = blob;
    blobs = [];
  }

  module _ (at : Location) where
    -- `publishControl`, and then the rest of the update.
    unfoldable pub publish_then : {A : Type 0} → Bytes → Result A → Update A
    unfolding control_object
    publish_then blob rest = (at.publish (control_object blob) >> rest, control_object blob ∷ [])

    -- `CreateControl(ctx, store, workspace, founder, signer)`.
    unfoldable pub create_control : Bytes → Principal → Signer → Update Verified
    unfolding new_genesis verify_genesis publish_then
    create_control workspace founder signer = elim (new_genesis workspace founder signer) [
      | err e ↦ (err e, [])
      | ok b ↦ elim (verify_genesis P workspace b.0 b.1) [
        | err e ↦ (err e, [])
        | ok v ↦ publish_then b.0 (ok v)
      ]
    ]

    -- What `publishChild` does once its Control is published.
    unfoldable pub settle : ControlView → Verified → Result Verified
    unfolding load_control is_forked
    settle view v = do
      after ← load_control P at.after view.workspace view.genesis (v.digest ∷ [])
      guard (not (is_forked after)) (forked (digests_of after.heads))
      ok v

    -- `publishChild(ctx, store, view, parents, next, signer)`.
    unfoldable pub publish_child : ControlView → List Verified → Control → Signer → Update Verified
    unfolding sign_control verify_child publish_then settle
    publish_child view parents next signer = elim (sign_control P next signer) [
      | err e ↦ (err e, [])
      | ok blob ↦ elim (verify_child P parents blob) [
        | err e ↦ (err e, [])
        | ok v ↦ publish_then blob (settle view v)
      ]
    ]

    -- The Control that `UpdateControl` hands to `publishChild`.
    unfoldable pub successor : Verified → Signer → (Control → Result Control) → Result Control
    unfolding principal is_admin_of
    successor h signer mutate = do
      let author = device_id P.crypto signer.public
      let next = record h.control {
        parents = h.digest ∷ [];
        height = u64 (h.control.height + 1);
        author = author;
      }
      guard (is_admin_of (principal h.control author)) refused
      mutate next

    -- `UpdateControl(ctx, store, view, signer, mutate)`.
    unfoldable pub update_control :
        ControlView → Signer → (Control → Result Control) → Update Verified
    unfolding head successor publish_child
    update_control view signer mutate = elim (head view) [
      | err e ↦ (err e, [])
      | ok h ↦ elim (successor h signer mutate) [
        | err e ↦ (err e, [])
        | ok next ↦ publish_child view (h ∷ []) next signer
      ]
    ]

    -- The Control that `ResolveFork` hands to `publishChild`. Go ranges over the map of principals in
    -- any order; signing sorts them.
    unfoldable pub resolution : ControlView → Signer → (Control → Result Control) → Result Control
    unfolding is_forked admin_of_all union_of max_height sort_bytes
    resolution view signer mutate = do
      let author = device_id P.crypto signer.public
      guard (is_forked view) refused
      guard (admin_of_all author view.heads) refused
      mutate (record {
        workspace = view.workspace;
        parents = sort_bytes (digests_of view.heads);
        height = u64 (max_height view.heads + 1);
        principals = values (union_of view.heads []);
        author = author;
      })

    -- `ResolveFork(ctx, store, view, signer, mutate)`.
    unfoldable pub resolve_fork :
        ControlView → Signer → (Control → Result Control) → Update Verified
    unfolding resolution publish_child
    resolve_fork view signer mutate = elim (resolution view signer mutate) [
      | err e ↦ (err e, [])
      | ok next ↦ publish_child view view.heads next signer
    ]
