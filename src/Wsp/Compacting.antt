-- ===== src/Wsp/Compacting.antt =====
-- pkg/wsp/compaction.go: records of removed revisions, and what they excuse.
pub mod Excused
use enbu.Prelude.{
  ℕ, zero, suc, Bytes, ◌==◌, before, Bool, true, false, not, ◌&&◌, ◌||◌, Option, none, some, List,
  [], ◌∷◌, ◌++◌, ltb, leb, length, has, all, select, sort_bytes, if◌then◌else◌,
}
use enbu.Outcome.{Result, ok, err, Error, invalid, rollback, not_found, corrupt, guard, ◌>>=◌, ◌>>◌}
use enbu.Graph.{Digest, Graph, has_rev, ancestors}
use enbu.Storage
use enbu.Storage.{Store}
use enbu.Signing.{DeviceId, valid_device_id, device_id, verify, domain_compact}
use enbu.Wsp.{
  Compaction, Principal, Protocol, Signer, or_err, decode_canonical, encode_signed, decode_signed,
  state_scope,
}
use enbu.Wsp.Members.{is_none_list, principal}
use enbu.Wsp.Chain.{ControlView, get, is_damaged}

abbrev pub max_compaction_removed : ℕ
max_compaction_removed = 4000

-- `var maxCompactions`.
abbrev pub max_compactions : ℕ
max_compactions = 1000

pub record VerifiedCompaction : Type 0 where
  pub compaction : Compaction
  pub digest : Digest

-- `Compacted`.
pub record Compacted : Type 0 where
  pub removed : List Digest
  pub floors : List Digest

abbrev pub no_compaction : Compacted
no_compaction = record { removed = []; floors = [] }

-- The first loop of `Compute`: the floors that the graph holds, each once.
unfoldable pub floors_shown : List VerifiedCompaction → Graph → List Digest → List Digest
floors_shown [] g out = out
floors_shown (r ∷ rs) g out = floors_shown rs g (
    if has_rev g r.compaction.floor && not (has r.compaction.floor out)
    then out ++ (r.compaction.floor ∷ [])
    else out)

-- `for _, d := range r.Removed { if !g.Has(d) { out.Removed[d] = true } }`.
unfoldable pub excuse : Graph → List Digest → List Digest → List Digest
excuse g [] removed = removed
excuse g (d ∷ ds) removed = excuse g ds (if has_rev g d then removed else d ∷ removed)

-- One pass over the records that are not applied: those that stay so, and what is excused then.
unfoldable pub apply_pass :
    Graph
    → List Digest
    → List VerifiedCompaction
    → List Digest
    → List VerifiedCompaction × List Digest
unfolding excuse
apply_pass g shown [] removed = ([], removed)
apply_pass g shown (r ∷ rs) removed =
    let floor = r.compaction.floor in
    let waits = apply_pass g shown rs removed in
    let applies = λ (ds : List Digest). apply_pass g shown rs ds in
    if has floor shown || has floor removed
    then applies (excuse g r.compaction.removed removed)
    else let (kept, removed') = waits in (r ∷ kept, removed')

-- `for progress := true; progress;`: every pass but the last applies a record, so one pass more than
-- there are records is enough.
unfoldable pub apply_loop :
    Graph
    → List Digest
    → ℕ
    → List VerifiedCompaction
    → List Digest
    → List VerifiedCompaction × List Digest
unfolding apply_pass
apply_loop g shown zero rs removed = (rs, removed)
apply_loop g shown (suc fuel) rs removed =
    let (rs', removed') = apply_pass g shown rs removed in
    let again = apply_loop g shown fuel rs' removed' in
    if ltb (length rs') (length rs) then again else (rs', removed')

-- `Compute(records, g)`. The records that stay unapplied are kept beside the result for the proofs.
unfoldable pub compute_left :
    List VerifiedCompaction → Graph → List VerifiedCompaction × List Digest
unfolding apply_loop floors_shown
compute_left records g = apply_loop g (floors_shown records g []) (suc (length records)) records []

unfoldable pub compute : List VerifiedCompaction → Graph → Compacted
unfolding compute_left floors_shown
compute records g = record {
  removed = (compute_left records g).1;
  floors = sort_bytes (floors_shown records g []);
}

-- `Compacted.Excuses(d)`.
unfoldable pub excuses : Compacted → Digest → Bool
excuses c d = has d c.removed

-- `Compacted.AboveFloors(g, d)`.
unfoldable pub above_floors : Compacted → Graph → Digest → Bool
unfolding ancestors
above_floors c g d = is_none_list c.floors || all (λ f. has f (ancestors g d)) c.floors

module _ (P : Protocol) where
  -- The loop over `Removed`: valid digests in strictly rising order, none of them the floor.
  unfoldable pub valid_removed : Digest → Option Digest → List Digest → Bool
  valid_removed floor prev [] = true
  valid_removed floor none (d ∷ ds) =
      P.digest_valid d && not (d == floor) && valid_removed floor (some d) ds
  valid_removed floor (some q) (d ∷ ds) =
      P.digest_valid d && before q d && not (d == floor) && valid_removed floor (some d) ds

  -- `Compaction.validate()`.
  unfoldable pub validate_compaction : Compaction → Result (Unit {0})
  unfolding valid_removed
  validate_compaction c = do
    guard (not (c.workspace == [] || c.resource == [])) invalid
    guard (P.digest_valid c.floor) invalid
    guard (not (is_none_list c.removed || ltb max_compaction_removed (length c.removed))) invalid
    guard (valid_removed c.floor none c.removed) invalid
    guard (P.digest_valid c.control) invalid
    guard (valid_device_id c.author) invalid

  -- `SignCompaction(c, signer)`.
  unfoldable pub sign_compaction : Compaction → Signer → Result Bytes
  unfolding validate_compaction encode_signed
  sign_compaction c signer = do
    let sorted = record c { removed = sort_bytes c.removed }
    validate_compaction sorted
    guard (device_id P.crypto signer.public == c.author) invalid
    body ← or_err (P.compaction_codec.marshal sorted)
    sig ← or_err (signer.sign domain_compact body)
    encode_signed P (record { body = body; signature = sig })

  -- `VerifyCompaction(view, workspace, resource, rev, blob)`.
  unfoldable pub verify_compaction :
      ControlView → Bytes → Bytes → Digest → Bytes → Result VerifiedCompaction
  unfolding decode_signed decode_canonical validate_compaction
  verify_compaction view workspace resource rev blob = do
    guard (P.digest_of blob == rev) invalid
    signed ← decode_signed P blob
    c ← decode_canonical P.compaction_codec signed.body
    validate_compaction c
    guard (c.workspace == workspace && c.resource == resource) invalid
    written ← elim (get view c.control) [ none ↦ err rollback | some w ↦ ok w ]
    author ← elim (principal written.control c.author) [ none ↦ err invalid | some a ↦ ok a ]
    guard author.admin invalid
    guard (verify P.crypto author.signing domain_compact signed.body signed.signature) invalid
    ok (record { compaction = c; digest = rev })

  -- The loop of `LoadCompactions`.
  unfoldable pub compactions_loop :
      (Digest → Result Bytes)
      → ControlView
      → Bytes
      → Bytes
      → List Digest
      → Result (List VerifiedCompaction)
  unfolding verify_compaction is_damaged
  compactions_loop fetch view workspace resource [] = ok []
  compactions_loop fetch view workspace resource (rev ∷ revs) =
      let rest = compactions_loop fetch view workspace resource revs in
      elim (fetch rev) [
        | err e ↦ if is_damaged e then rest else err e
        | ok head ↦ elim (verify_compaction view workspace resource rev head) [
          | err rollback ↦ err rollback
          | err _ ↦ rest
          | ok c ↦ rest >>= λ cs. ok (c ∷ cs)
        ]
      ]

  -- `LoadCompactions(ctx, store, view, workspace, resource)`.
  unfoldable pub load_compactions :
      Store → ControlView → Bytes → Bytes → Result (List VerifiedCompaction)
  unfolding compactions_loop state_scope
  load_compactions store view workspace resource = do
    let scope = state_scope P workspace resource
    revs ← store.discover Storage.compaction scope
    guard (leb (length revs) max_compactions) invalid
    compactions_loop (store.fetch_head Storage.compaction scope) view workspace resource revs
