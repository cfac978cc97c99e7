-- ===== src/App/Compacting.antt =====
-- app/compact.go: which revisions of a resource a compaction keeps, and the order in which it publishes
-- its records and deletes.
pub mod Kept
pub mod Recorded
pub mod History
use enbu.Prelude.{
  ℕ, zero, suc, ◌+◌, ◌-◌, ltb, Bytes, ◌==◌, Bool, true, false, not, ◌&&◌, ◌||◌, Option, none, some,
  List, [], ◌∷◌, ◌++◌, has, keys, length, select, sort_bytes, take, drop, Dict, if◌then◌else◌,
}
use enbu.Prelude.Walk.{Look, skip, expand, walk, done, stopped, spent}
use enbu.Prelude.Walk.Total.{remaining}
use enbu.Outcome.{Result, Error, not_found, rollback, refused, ok, err, ◌>>=◌, ◌>>◌}
use enbu.Graph.{Digest, Graph, ancestors, parents_of, has_rev, push}
use enbu.Storage
use enbu.Storage.{Store, Object}
use enbu.Wsp.{Protocol, Signer, Compaction, state_scope}
use enbu.Wsp.Chain.{is_damaged}
use enbu.Wsp.Compacting.{max_compaction_removed, sign_compaction, verify_compaction}
use enbu.Wsp.Revisions.{StateView, verify_revision}
use enbu.App.Heads.{Session}

-- `children[cur]` of `keptRevisions`: both ends of an edge are ancestors of the head.
unfoldable pub children_of : Graph → List Digest → Digest → List Digest
unfolding parents_of has
children_of g anc cur = if has cur anc then select (λ d. has cur (parents_of g d)) anc else []

-- The body of its loop. Only the floor and ancestors of the head come onto the stack.
unfoldable pub look_up : Graph → List Digest → Digest → Digest → Look
unfolding children_of has
look_up g anc floor cur = if has cur (floor ∷ anc) then expand (children_of g anc cur) else skip

-- Enough rounds: the floor, and every edge once.
unfoldable pub kept_rounds : Graph → List Digest → Digest → ℕ
unfolding children_of
kept_rounds g anc floor = suc (remaining (λ d. length (children_of g anc d)) [] (floor ∷ anc))

-- `keptRevisions(g, head, floor)`.
unfoldable pub kept_revisions : Graph → Digest → Digest → List Digest
unfolding look_up kept_rounds walk push ancestors
kept_revisions g head floor =
    let anc = ancestors g head in
    elim (walk (look_up g anc floor) push (kept_rounds g anc floor) [] [] (floor ∷ [])) [
      | done seen popped ↦ seen
      | stopped ↦ []
      | spent ↦ []
    ]

-- The first parent that the graph holds.
unfoldable pub first_parent : Graph → List Digest → Option Digest
unfolding has_rev
first_parent g [] = none
first_parent g (p ∷ ps) = if has_rev g p then some p else first_parent g ps

-- The loop of `compactionFloor` over the steps that are left.
unfoldable pub walk_back : Graph → ℕ → Digest → Digest
unfolding first_parent parents_of
walk_back g zero floor = floor
walk_back g (suc steps) floor = elim (first_parent g (parents_of g floor)) [
  | none ↦ floor
  | some next ↦ walk_back g steps next
]

-- `removed`: the revisions of `States` that are not kept, sorted.
unfoldable pub removed_revisions : List Digest → List Digest → List Digest
unfolding has sort_bytes
removed_revisions states kept = sort_bytes (select (λ d. not (has d kept)) states)

-- What a compaction does to a storage location.
pub data Action : Type 0 where
  published : Object → Action
  deleted : Digest → Action

-- The lists of the records: `removed[start:end]`. A list takes a digest off each time, so a round for
-- each digest is enough.
unfoldable pub chunks : ℕ → List Digest → List (List Digest)
chunks zero removed = []
chunks (suc fuel) [] = []
chunks (suc fuel) (d ∷ removed) =
    take max_compaction_removed (d ∷ removed)
    ∷ chunks fuel (drop max_compaction_removed (d ∷ removed))

-- `!errorsIsNotFound(err)` of a failed deletion.
abbrev pub is_gone : Error → Bool
is_gone not_found = true
is_gone e = false

abbrev pub deletions : List Digest → List Action
deletions [] = []
deletions (d ∷ ds) = deleted d ∷ deletions ds

abbrev pub publications : List Object → List Action
publications [] = []
publications (o ∷ os) = published o ∷ publications os

-- The loop of `CompactHistory` over what it deletes: its result, and what it tried to delete.
unfoldable pub delete_all :
    (Digest → Result (Unit {0})) → List Digest → Result (Unit {0}) × List Digest
delete_all delete [] = (ok tt, [])
delete_all delete (d ∷ ds) =
    let rest = delete_all delete ds in
    elim (delete d) as (λ r. Result (Unit {0}) × List Digest) [
      | ok u ↦ (rest.0, d ∷ rest.1)
      | err e ↦ if is_gone e then (rest.0, d ∷ rest.1) else (err e, d ∷ [])
    ]

-- `CompactResult`.
pub record CompactResult : Type 0 where
  pub kept : ℕ
  pub removed : ℕ

-- What `CompactHistory` returns: its result, nil if it failed before it deletes, and its error.
abbrev pub Answer : Type 0
Answer = Option CompactResult × Result (Unit {0})

-- `result.Removed`: every deletion that was tried, but for one that failed, which is the last.
unfoldable pub removed_count : Result (Unit {0}) × List Digest → ℕ
removed_count (ok u, gone) = length gone
removed_count (err e, gone) = length gone - 1

module _ (P : Protocol) (s : Session) (signer : Signer) (now : ℕ) (resource : Bytes)
    (floor : Digest) where
  -- The body of the loop of `publishCompaction` up to the publication.
  unfoldable pub record_object : List Digest → Result Object
  unfolding sign_compaction verify_compaction state_scope
  record_object removed = do
    blob ←
        sign_compaction P
          (record {
            workspace = s.view.workspace;
            resource = resource;
            floor = floor;
            removed = removed;
            control = s.head.digest;
            author = s.self;
            created_at = now;
          })
          signer
    v ← verify_compaction P s.view s.view.workspace resource (P.digest_of blob) blob
    ok (record {
      kind = Storage.compaction;
      scope = state_scope P s.view.workspace resource;
      rev = P.digest_of blob;
      head = blob;
      blobs = [];
    })

  -- The loop of `publishCompaction`: its result, and what it published.
  unfoldable pub publish_records :
      (Object → Result (Unit {0})) → List (List Digest) → Result (Unit {0}) × List Object
  unfolding record_object
  publish_records publish [] = (ok tt, [])
  publish_records publish (c ∷ cs) =
      let rest = publish_records publish cs in
      elim (record_object c) as (λ r. Result (Unit {0}) × List Object) [
        | err e ↦ (err e, [])
        | ok o ↦ elim (publish o) as (λ r. Result (Unit {0}) × List Object) [
          | err e ↦ (err e, o ∷ [])
          | ok u ↦ (rest.0, o ∷ rest.1)
        ]
      ]

  -- `CompactHistory` from the choice of what to remove on: the result, and what it did in order.
  unfoldable pub compact :
      (Object → Result (Unit {0}))
      → (Digest → Result (Unit {0}))
      → List Digest
      → List Digest
      → List Digest
      → Answer × List Action
  unfolding publish_records chunks delete_all removed_count sort_bytes
  compact publish delete kept removed junk =
      let records = publish_records publish (chunks (length removed) (sort_bytes removed)) in
      let gone = delete_all delete (sort_bytes removed ++ junk) in
      let result : CompactResult = record { kept = length kept; removed = removed_count gone } in
      elim records.0 as (λ r. Answer × List Action) [
        | err e ↦ ((none, err e), publications records.1)
        | ok u ↦ ((some result, gone.0), publications records.1 ++ deletions gone.1)
      ]

  -- `unverifiable(ctx, resource, scope, rev)`.
  unfoldable pub unverifiable : Store → Digest → Result Bool
  unfolding verify_revision is_damaged state_scope
  unverifiable store rev =
      elim (store.fetch_head Storage.state (state_scope P s.view.workspace resource) rev) [
        | err e ↦ if is_damaged e then ok false else err e
        | ok head ↦ elim (verify_revision P s.view s.view.workspace resource rev head) [
          | ok st ↦ ok false
          | err rollback ↦ ok false
          | err e ↦ ok true
        ]
      ]

  -- The loop over what is listed: `junk`.
  unfoldable pub junk_loop : Store → List Digest → List Digest → List Digest → Result (List Digest)
  unfolding unverifiable has
  junk_loop store states kept [] = ok []
  junk_loop store states kept (d ∷ listed) =
      let rest = junk_loop store states kept listed in
      if has d states || has d kept
      then rest
      else unverifiable store d >>= λ bad. rest >>= λ junk. ok (if bad then d ∷ junk else junk)

-- `CompactHistory` of a resource with one head, from its view on.
unfoldable pub compact_history :
    Protocol
    → Session
    → Signer
    → ℕ
    → Bytes
    → Store
    → (Object → Result (Unit {0}))
    → (Digest → Result (Unit {0}))
    → StateView
    → Digest
    → ℕ
    → Answer × List Action
unfolding kept_revisions walk_back removed_revisions junk_loop compact state_scope
compact_history P s signer now resource store publish delete sv head keep =
    let floor = walk_back sv.graph (keep - 1) head in
    let kept = kept_revisions sv.graph head floor in
    let removed = removed_revisions (keys sv.states) kept in
    let junk = store.discover Storage.state (state_scope P s.view.workspace resource) >>= λ listed.
    junk_loop P s signer now resource floor store (keys sv.states) kept listed in
    if ltb keep 1 then ((none, err refused), []) else elim junk as (λ r. Answer × List Action) [
      | err e ↦ ((none, err e), [])
      | ok junk ↦ compact P s signer now resource floor publish delete kept removed junk
    ]
