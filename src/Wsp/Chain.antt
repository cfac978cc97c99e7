-- ===== src/Wsp/Chain.antt =====
-- pkg/wsp/chain.go: the verified DAG of Controls, and how it is extended.
pub mod Derived
pub mod Fetch
pub mod Accept
pub mod Pass
pub mod Loop
pub mod Unnamed
pub mod Complete
pub mod Load
pub mod Authority
use enbu.Prelude.{
  ℕ, zero, suc, ◌+◌, ◌-◌, ◌%◌, max, Bytes, ◌==◌, before, Bool, true, false, not, ◌&&◌, ◌||◌, Option,
  none, some, List, [], ◌∷◌, ◌++◌, ltb, leb, length, all, any, map, select, has, sort_by,
  sort_bytes, Dict, lookup, put, keys, is_some, if◌then◌else◌,
}
use enbu.Outcome.{
  Result, ok, err, Error, invalid, rollback, not_found, corrupt, forked, refused, guard, ◌>>=◌,
  ◌>>◌,
}
use enbu.Graph.{Digest}
use enbu.Storage
use enbu.Storage.{Store}
use enbu.Signing.{DeviceId, device_id}
use enbu.Wsp.{Principal, Control, Protocol, Signer, decode_signed}
use enbu.Wsp.Members.{
  Verified, is_none_list, principal, is_admin_of, decode_control, verify_genesis, verify_child,
  sign_control, u64, max_height,
}

-- `var maxControls`, `var maxControlBytes`.
abbrev pub max_controls : ℕ
max_controls = 10000

abbrev pub max_control_bytes : ℕ
max_control_bytes = 33554432

pub record PendingControl : Type 0 where
  pub blob : Bytes
  pub c : Control

-- `ControlView`; the memo table `membership` only saves work and is left out.
pub record ControlView : Type 0 where
  pub workspace : Bytes
  pub genesis : Digest
  pub heads : List Verified
  pub verified : Dict Verified

-- `ControlView.Get(d)`.
unfoldable pub get : ControlView → Digest → Option Verified
get v d = lookup d v.verified

abbrev pub digests_of : List Verified → List Digest
digests_of [] = []
digests_of (v ∷ vs) = v.digest ∷ digests_of vs

-- `Digests()`.
unfoldable pub view_digests : ControlView → List Digest
view_digests v = sort_bytes (keys v.verified)

-- `Forked()`.
unfoldable pub is_forked : ControlView → Bool
is_forked v = ltb 1 (length v.heads)

first_head : List Verified → Result Verified
first_head [] = err not_found
first_head (h ∷ hs) = ok h

-- `Head()`. `v.Heads[0]` of an empty list would panic; here it is the error `not_found`.
unfoldable pub head : ControlView → Result Verified
unfolding is_forked first_head
head v = if is_forked v then err (forked (digests_of v.heads)) else first_head v.heads

-- What the first loop of `LoadControl` keeps.
pub record Fetched : Type 0 where
  pub tried : List Digest
  pub total : ℕ
  pub pending : Dict PendingControl

-- `errors.Is(err, ErrNotFound), errors.Is(err, ErrCorrupt)`.
unfoldable pub is_damaged : Error → Bool
is_damaged not_found = true
is_damaged corrupt = true
is_damaged _ = false

-- All the parents that verified Controls name: the set `childOf`.
unfoldable pub child_of : Dict Verified → List Digest
child_of [] = []
child_of ((d, v) ∷ m) = v.control.parents ++ child_of m

unfoldable pub unnamed : List Digest → Dict Verified → List Verified
unnamed children [] = []
unnamed children ((d, v) ∷ m) =
    let rest = unnamed children m in if has d children then rest else v ∷ rest

-- The heads, sorted by digest (`sortVerified`).
unfoldable pub heads_of : Dict Verified → List Verified
unfolding child_of unnamed sort_by
heads_of m = sort_by (λ (v w : Verified). before v.digest w.digest) (unnamed (child_of m) m)

module _ (P : Protocol) where
  -- `DecodeSigned` and `decodeControl` of a fetched blob, for a Control of this workspace.
  unfoldable pub readable : Bytes → Bytes → Option Control
  unfolding decode_signed decode_control
  readable workspace blob = elim (decode_signed P blob >>= λ s. decode_control P s.body) [
    | err e ↦ none
    | ok c ↦ if c.workspace == workspace then some c else none
  ]

  module _ (fetch : Digest → Result Bytes) (workspace : Bytes) where
    -- The loop `for len(queue) > 0`. `left` is `maxControls - len(tried)`.
    unfoldable pub fetch_loop : ℕ → List Digest → Fetched → Result Fetched
    unfolding readable is_damaged
    fetch_loop left [] st = ok st
    fetch_loop zero (rev ∷ queue) st =
        let skipped = fetch_loop zero queue st in if has rev st.tried then skipped else err invalid
    fetch_loop (suc left) (rev ∷ queue) st =
        let skipped = fetch_loop (suc left) queue st in
        let next =
          λ (parents : List Digest) (st' : Fetched). fetch_loop left (queue ++ parents) st' in
        let tried = record st { tried = rev ∷ st.tried } in
        if has rev st.tried then skipped else elim (fetch rev) [
          | err e ↦ if is_damaged e then next [] tried else err e
          | ok blob ↦
              if ltb (max_control_bytes - st.total) (length blob)
              then err invalid
              else let read = record tried { total = st.total + length blob } in
                elim (readable workspace blob) [
                  | none ↦ next [] read
                  | some c ↦
                      next c.parents (record read {
                        pending = put rev (record { blob = blob; c = c }) st.pending;
                      })
                ]
        ]

  -- The verified parents of a pending Control, if all are verified.
  unfoldable pub verified_parents : Dict Verified → List Digest → Option (List Verified)
  verified_parents verified [] = some []
  verified_parents verified (d ∷ ds) =
      let rest = verified_parents verified ds in
      elim (lookup d verified) [
        | none ↦ none
        | some v ↦ elim rest [ none ↦ none | some vs ↦ some (v ∷ vs) ]
      ]

  -- `ready` and the parents: none while a parent is not verified, or if there is no parent.
  unfoldable pub ready_parents : Dict Verified → Control → Option (List Verified)
  unfolding verified_parents
  ready_parents verified c =
      if is_none_list c.parents then none else verified_parents verified c.parents

  -- `if v, err := VerifyChild(parents, p.blob); err == nil && v.Digest == rev { verified[rev] = v }`.
  unfoldable pub accept_one : Digest → Bytes → List Verified → Dict Verified → Dict Verified
  unfolding verify_child
  accept_one rev blob parents verified = elim (verify_child P parents blob) [
    | err e ↦ verified
    | ok v ↦ if v.digest == rev then (rev, v) ∷ verified else verified
  ]

  -- One pass of `for rev, p := range pending`: what stays pending, and what is verified then. Go
  -- ranges over a map in any order; here it is the order of the list.
  unfoldable pub accept_pass :
      Dict PendingControl → Dict Verified → Dict PendingControl × Dict Verified
  unfolding accept_one ready_parents
  accept_pass [] verified = ([], verified)
  accept_pass ((rev, p) ∷ pending) verified =
      let waits = accept_pass pending verified in
      let accepts =
        λ (vs : List Verified). accept_pass pending (accept_one rev p.blob vs verified) in
      elim (ready_parents verified p.c) [
        | none ↦ let (kept, verified') = waits in ((rev, p) ∷ kept, verified')
        | some vs ↦ accepts vs
      ]

  -- `for progress := true; progress;`: progress is a pending Control fewer. Every pass but the last
  -- takes one away, so one pass more than there are pending Controls is enough.
  unfoldable pub accept_loop :
      ℕ → Dict PendingControl → Dict Verified → Dict PendingControl × Dict Verified
  unfolding accept_pass
  accept_loop zero pending verified = (pending, verified)
  accept_loop (suc fuel) pending verified =
      let (pending', verified') = accept_pass pending verified in
      let again = accept_loop fuel pending' verified' in
      if ltb (length pending') (length pending) then again else (pending', verified')

  -- `LoadControl(ctx, store, workspace, genesis, cp)`; `cp` is empty for nil.
  unfoldable pub load_control : Store → Bytes → Digest → List Digest → Result ControlView
  unfolding fetch_loop accept_loop heads_of verify_genesis
  load_control store workspace genesis cp = do
    guard (P.digest_valid genesis) invalid
    revs ← store.discover Storage.control []
    guard (leb (length revs) max_controls) invalid
    blob ← store.fetch_head Storage.control [] genesis
    guard (leb (length blob) max_control_bytes) invalid
    root ← verify_genesis P workspace blob genesis
    fetched ←
        fetch_loop (store.fetch_head Storage.control []) workspace (max_controls - 1)
          (sort_bytes revs) (record { tried = genesis ∷ []; total = length blob; pending = [] })
    let verified =
        (accept_loop (suc (length fetched.pending)) fetched.pending ((genesis, root) ∷ [])).1
    guard (all (λ d. is_some (lookup d verified)) cp) rollback
    ok (record {
      workspace = workspace;
      genesis = genesis;
      heads = heads_of verified;
      verified = verified;
    })
