-- ===== src/Wsp/Joining.antt =====
-- pkg/wsp/join.go: the requests of devices to join, or to replace a recipient.
use enbu.Prelude.{ℕ, ◌+◌, Bytes, ◌==◌, not, ◌||◌, List, [], ◌∷◌, ltb, leb, length, if◌then◌else◌}
use enbu.Outcome.{discovery_limit, Result, ok, err, invalid, guard, ◌>>=◌, ◌>>◌}
use enbu.Graph.{Digest}
use enbu.Storage
use enbu.Storage.{Store}
use enbu.Signing.{DeviceId, valid_key, device_id, verify, domain_join}
use enbu.Wsp.{
  JoinRequest, Protocol, Signer, or_err, decode_canonical, encode_signed, decode_signed, is_empty,
}
use enbu.Wsp.Chain.{is_damaged}

-- `storage.MaxRequestRefs`, `maxJoinRequestBytes`.
abbrev pub max_join_request_refs : ℕ
max_join_request_refs = 10000

abbrev pub max_join_request_bytes : ℕ
max_join_request_bytes = 33554432

-- `PendingRequest`.
pub record PendingRequest : Type 0 where
  pub request : JoinRequest
  pub rev : Digest

-- A listing beyond the budget of references is invalid: `fmt.Errorf("%w: %w", ErrInvalid, err)`.
unfoldable pub within_budget : Result (List Digest) → Result (List Digest)
within_budget (ok revs) = ok revs
within_budget (err discovery_limit) = err invalid
within_budget (err e) = err e

module _ (P : Protocol) where
  -- `JoinRequest.DeviceID()`.
  abbrev pub request_device : JoinRequest → DeviceId
  request_device r = device_id P.crypto r.signing

  -- `newRequest(r, signer)`.
  unfoldable pub new_request : JoinRequest → Signer → Result Bytes
  unfolding encode_signed
  new_request r signer = do
    body ← or_err (P.join_codec.marshal r)
    sig ← or_err (signer.sign domain_join body)
    encode_signed P (record { body = body; signature = sig })

  -- `NewJoinRequest(workspace, recipient, now, signer)`.
  unfoldable pub new_join_request : Bytes → Bytes → ℕ → Signer → Result Bytes
  unfolding new_request
  new_join_request workspace recipient now signer =
      new_request
        (record {
          workspace = workspace;
          signing = signer.public;
          recipient = recipient;
          created_at = now;
          replaces = [];
        })
        signer

  -- `NewKeyUpdateRequest(workspace, recipient, replaces, now, signer)`.
  unfoldable pub new_key_update_request : Bytes → Bytes → Bytes → ℕ → Signer → Result Bytes
  unfolding new_request
  new_key_update_request workspace recipient replaces now signer = do
    guard (not (is_empty replaces || replaces == recipient)) invalid
    new_request
        (record {
          workspace = workspace;
          signing = signer.public;
          recipient = recipient;
          created_at = now;
          replaces = replaces;
        })
        signer

  -- `VerifyJoinRequest(workspace, blob)`.
  unfoldable pub verify_join_request : Bytes → Bytes → Result JoinRequest
  unfolding decode_signed decode_canonical
  verify_join_request workspace blob = do
    s ← decode_signed P blob
    r ← decode_canonical P.join_codec s.body
    guard (r.workspace == workspace) invalid
    guard (valid_key P.crypto r.signing) invalid
    guard (P.recipient_valid r.recipient) invalid
    guard (is_empty r.replaces || not (r.replaces == r.recipient)) invalid
    guard (is_empty r.replaces || P.recipient_valid r.replaces) invalid
    guard (verify P.crypto r.signing domain_join s.body s.signature) invalid
    ok r

  -- The loop of `ListJoinRequests`; `total` is the sum of the bytes read.
  unfoldable pub requests_loop :
      (Digest → Result Bytes) → Bytes → ℕ → List Digest → Result (List PendingRequest)
  unfolding verify_join_request is_damaged
  requests_loop fetch workspace total [] = ok []
  requests_loop fetch workspace total (rev ∷ revs) =
      let next = λ (n : ℕ). requests_loop fetch workspace n revs in
      elim (fetch rev) [
        | err e ↦ if is_damaged e then next total else err e
        | ok blob ↦
            if ltb max_join_request_bytes (total + length blob)
            then err invalid
            else elim (verify_join_request workspace blob) [
              | err e ↦ next (total + length blob)
              | ok r ↦ do
                rest ← next (total + length blob)
                ok (record { request = r; rev = rev } ∷ rest)
            ]
      ]

  -- `ListJoinRequests(ctx, store, workspace)`.
  unfoldable pub list_join_requests : Store → Bytes → Result (List PendingRequest)
  unfolding requests_loop within_budget
  list_join_requests store workspace = do
    revs ← within_budget (store.discover Storage.request [])
    guard (leb (length revs) max_join_request_refs) invalid
    requests_loop (store.fetch_head Storage.request []) workspace 0 revs
