-- ===== src/App/Members.antt =====
-- app/members.go: the pending requests, and the changes that an admin makes to the members.
pub mod Approving
pub mod Removing
pub mod Common
pub mod Kept
use enbu.Prelude.{
  Bytes, ◌==◌, Bool, true, false, not, ◌&&◌, ◌||◌, Option, none, some, List, [], ◌∷◌, ◌++◌, all,
  any, eqb, length, select, is_some, if◌then◌else◌,
}
use enbu.Outcome.{Result, ok, err, refused, guard, ◌>>=◌, ◌>>◌}
use enbu.Storage.{Store}
use enbu.Signing.{DeviceId, valid_device_id}
use enbu.Wsp.{Principal, Control, Protocol, Signer, is_empty}
use enbu.Wsp.Members.{Verified, principal, is_admin_of}
use enbu.Wsp.Chain.{ControlView, is_forked}
use enbu.Wsp.Joining.{PendingRequest, request_device, list_join_requests}
use enbu.Wsp.Publishing.{Location, Update, update_control, admin_of_all, resolve_fork}
use enbu.Wsp.Chain

-- `requireAdmin(c)`: whether it returns nil.
unfoldable pub has_admin : List Principal → Bool
has_admin ps = any (λ (p : Principal). p.admin) ps

-- `RemoveMember`: the principals that are kept.
unfoldable pub without : DeviceId → List Principal → List Principal
without device ps = select (λ (p : Principal). not (p.id == device)) ps

-- The function that `RemoveMember` hands to `changeMembers`.
unfoldable pub remove : DeviceId → Control → Result Control
unfolding has_admin without ◌==◌
remove device c = do
  guard (not (eqb (length (without device c.principals)) (length c.principals))) refused
  guard (has_admin (without device c.principals)) refused
  ok (record c { principals = without device c.principals })

-- `c.Principals[i].Admin = admin` of the first principal with the id; `none` if there is none.
unfoldable pub grant : DeviceId → Bool → List Principal → Option (List Principal)
unfolding ◌==◌
grant device admin [] = none
grant device admin (p ∷ ps) =
    let later = elim (grant device admin ps) as (λ o. Option (List Principal)) [
      | none ↦ none
      | some qs ↦ some (p ∷ qs)
    ] in
    if p.id == device then some (record p { admin = admin } ∷ ps) else later

-- The function that `SetAdmin` hands to `changeMembers`.
unfoldable pub set_admin : DeviceId → Bool → Control → Result Control
unfolding grant has_admin
set_admin device admin c = elim (grant device admin c.principals) [
  | none ↦ err refused
  | some ps ↦ guard (has_admin ps) refused >> ok (record c { principals = ps })
]

-- `c.Principals[i].Recipient = req.Recipient` of every principal with the id.
unfoldable pub rekey : DeviceId → Bytes → List Principal → List Principal
unfolding ◌==◌
rekey device recipient [] = []
rekey device recipient (p ∷ ps) =
    (if p.id == device then record p { recipient = recipient } else p) ∷ rekey device recipient ps

-- The inner loop of `ResolveControlFork`: `inAll` and `adminInAll`.
unfoldable pub in_all : List Verified → DeviceId → Bool
unfolding principal
in_all heads id = all (λ (h : Verified). is_some (principal h.control id)) heads

unfoldable pub admin_in_all : List Verified → DeviceId → Bool
unfolding principal is_admin_of
admin_in_all heads id = all (λ (h : Verified). is_admin_of (principal h.control id)) heads

-- The loop over the principals.
unfoldable pub common : List Verified → List Principal → List Principal
unfolding in_all admin_in_all
common heads [] = []
common heads (p ∷ ps) =
    let rest = common heads ps in
    if in_all heads p.id then record p { admin = admin_in_all heads p.id } ∷ rest else rest

-- The function that `ResolveControlFork` hands to `ResolveFork`.
unfoldable pub keep_common : List Verified → Control → Result Control
unfolding common has_admin
keep_common heads c = do
  guard (has_admin (common heads c.principals)) refused
  ok (record c { principals = common heads c.principals })

module _ (P : Protocol) where
  -- Whether `pendingRequests` passes a request over: an old request of a member, or a key update that
  -- replaces another recipient than the present one.
  unfoldable pub is_stale : Control → PendingRequest → Bool
  unfolding principal ◌==◌
  is_stale head p = elim (principal head (request_device P p.request)) [
    | none ↦ not (is_empty p.request.replaces)
    | some current ↦ is_empty p.request.replaces || not (p.request.replaces == current.recipient)
  ]

  -- `seen[k]`, among the requests that were taken.
  unfoldable pub same_request : PendingRequest → PendingRequest → Bool
  unfolding ◌==◌
  same_request p q =
      request_device P p.request == request_device P q.request
      && p.request.recipient == q.request.recipient

  -- The loop of `pendingRequests`.
  unfoldable pub pending_loop :
      Control → List PendingRequest → List PendingRequest → List PendingRequest
  unfolding is_stale same_request
  pending_loop head out [] = out
  pending_loop head out (p ∷ ps) =
      if is_stale head p || any (same_request p) out
      then pending_loop head out ps
      else pending_loop head (out ++ (p ∷ [])) ps

  -- `pendingRequests(ctx)`.
  unfoldable pub pending_requests : Store → Bytes → Control → Result (List PendingRequest)
  unfolding list_join_requests pending_loop
  pending_requests store workspace head = do
    all ← list_join_requests P store workspace
    ok (pending_loop head [] all)

  -- `requestFor(ctx, device)`; `none` is `errNoRequest`.
  unfoldable pub request_for : Store → Bytes → Control → DeviceId → Result (Option PendingRequest)
  unfolding pending_requests ◌==◌
  request_for store workspace head device = do
    pending ← pending_requests store workspace head
    elim (select (λ (p : PendingRequest). request_device P p.request == device) pending) [
      | [] ↦ ok none
      | p ∷ found ↦ elim found [ [] ↦ ok (some p) | q ∷ more ↦ err refused ]
    ]

  -- What the function of `ApproveMember` does with the request.
  unfoldable pub admit : DeviceId → PendingRequest → Control → Control
  unfolding principal rekey
  admit device p c =
      if is_some (principal c device)
      then record c { principals = rekey device p.request.recipient c.principals }
      else record c {
        principals =
            c.principals
            ++ (record {
              id = device;
              signing = p.request.signing;
              recipient = p.request.recipient;
              admin = false;
            }
                ∷ []);
      }

  -- The function that `ApproveMember` hands to `changeMembers`; without a request it fails, for a
  -- member with another text.
  unfoldable pub approve : Store → Bytes → Control → DeviceId → Control → Result Control
  unfolding request_for admit
  approve store workspace head device c = do
    found ← request_for store workspace head device
    elim found [ none ↦ err refused | some p ↦ ok (admit device p c) ]

  module _ (at : Location) where
    -- `changeMembers`, up to the publication; `head` is the Control of the session and `self` its device.
    unfoldable pub change_members :
        ControlView → Verified → DeviceId → Signer → (Control → Result Control) → Update Verified
    unfolding principal is_admin_of update_control
    change_members view head self signer mutate =
        if is_admin_of (principal head.control self)
        then update_control P at view signer mutate
        else (err refused, [])

    -- `ApproveMember(ctx, deviceID)`, up to the publication; `store` answers the listing of requests.
    unfoldable pub approve_member :
        Store → ControlView → Verified → DeviceId → Signer → DeviceId → Update Verified
    unfolding valid_device_id change_members approve
    approve_member store view head self signer device =
        if valid_device_id device
        then change_members view head self signer (approve store view.workspace head.control device)
        else (err refused, [])

    -- `ResolveControlFork`, up to the publication.
    unfoldable pub resolve_control_fork : ControlView → DeviceId → Signer → Update Verified
    unfolding is_forked admin_of_all keep_common resolve_fork
    resolve_control_fork view author signer =
        if is_forked view && admin_of_all author view.heads
        then resolve_fork P at view signer (keep_common view.heads)
        else (err refused, [])
