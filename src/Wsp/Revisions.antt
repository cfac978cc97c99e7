-- ===== src/Wsp/Revisions.antt =====
-- pkg/wsp/state.go: the signed revisions of a resource, and the DAG of them that storage shows.
pub mod Valid
pub mod Loaded
use enbu.Prelude.{
  ℕ, zero, suc, ◌+◌, ◌-◌, Bytes, ◌==◌, Bool, true, false, not, ◌&&◌, ◌||◌, Option, none, some, List,
  [], ◌∷◌, ◌++◌, ltb, leb, length, has, select, sort_bytes, Dict, lookup, put, if◌then◌else◌,
}
use enbu.Outcome.{Result, ok, err, Error, invalid, rollback, corrupt, failed, guard, ◌>>=◌, ◌>>◌}
use enbu.Graph.{Digest, Graph, new_graph, add, heads, missing}
use enbu.Storage
use enbu.Storage.{Store, read_blob, max_payload_bytes}
use enbu.Signing.{DeviceId, valid_device_id, device_id, verify, domain_state}
use enbu.Wsp.{
  State, Principal, Protocol, Signer, or_err, decode_canonical, encode_signed, decode_signed,
  state_scope,
}
use enbu.Wsp.Members.{Verified, principal, valid_parents}
use enbu.Wsp.Chain.{ControlView, get, is_damaged}
use enbu.Wsp.Membership.{membership_unbroken}
use enbu.Wsp.Compacting.{Compacted, no_compaction, excuses}

abbrev pub max_parents : ℕ
max_parents = 64

-- `var maxRevisions`, `var maxStateBytes`, `headFetches`.
abbrev pub max_revisions : ℕ
max_revisions = 20000

abbrev pub max_state_bytes : ℕ
max_state_bytes = 33554432

abbrev pub head_fetches : ℕ
head_fetches = 8

pub record VerifiedState : Type 0 where
  pub state : State
  pub digest : Digest

pub record StateView : Type 0 where
  pub graph : Graph
  pub states : Dict VerifiedState
  pub heads : List VerifiedState
  pub skipped : ℕ
  pub compacted : Compacted

-- `StateView.MissingParents()`.
unfoldable pub missing_parents : StateView → List Digest
unfolding missing excuses
missing_parents sv = select (λ d. not (excuses sv.compacted d)) (missing sv.graph)

-- `sv.States[d]` of every head. Every revision of a graph is in `States`.
unfoldable pub states_of : Dict VerifiedState → List Digest → List VerifiedState
states_of states [] = []
states_of states (d ∷ ds) =
    let rest = states_of states ds in elim (lookup d states) [ none ↦ rest | some st ↦ st ∷ rest ]

-- `AuthorIsCurrent(view, head, st)`.
unfoldable pub author_is_current : ControlView → Verified → VerifiedState → Result (Unit {0})
unfolding principal membership_unbroken
author_is_current view head st = do
  elim (principal head.control st.state.author) [ none ↦ err invalid | some p ↦ ok tt ]
  guard (membership_unbroken view head.digest st.state.control st.state.author) invalid

-- `With(st)`; `none` for a nil receiver.
unfoldable pub with_state : Option StateView → VerifiedState → StateView
unfolding states_of heads add
with_state none st =
    let states = put st.digest st [] in
    let graph = add new_graph st.digest st.state.parents in
    record {
      graph = graph;
      states = states;
      heads = states_of states (heads graph);
      skipped = 0;
      compacted = no_compaction;
    }
with_state (some sv) st =
    let states = put st.digest st sv.states in
    let graph = add sv.graph st.digest st.state.parents in
    record {
      graph = graph;
      states = states;
      heads = states_of states (heads graph);
      skipped = sv.skipped;
      compacted = sv.compacted;
    }

-- `prefetchHeads` of one batch: the heads, or a terminal error. Of several, which the source reports
-- depends on the timing of the parallel requests; here it is the first of the batch.
unfoldable pub prefetch_heads : (Digest → Result Bytes) → List Digest → Result (Dict (Result Bytes))
unfolding is_damaged
prefetch_heads fetch [] = ok []
prefetch_heads fetch (rev ∷ revs) =
    let rest = prefetch_heads fetch revs in
    let entry = λ (r : Result Bytes). rest >>= λ m. ok (put rev r m) in
    elim (fetch rev) [
      | err e ↦ if is_damaged e then entry (err e) else err e
      | ok head ↦ entry (ok head)
    ]

-- The queue, the revisions tried, and what was loaded.
pub record Loading : Type 0 where
  pub queue : List Digest
  pub tried : List Digest
  pub total : ℕ
  pub graph : Graph
  pub states : Dict VerifiedState
  pub skipped : ℕ

-- The inner loop: up to `room` revisions that were not tried, taken off the queue. `seen` is `tried`
-- and `left` is `maxRevisions - len(tried)`.
unfoldable pub take_batch :
    ℕ → ℕ → List Digest → List Digest → Result (List Digest × (List Digest × List Digest))
take_batch room left [] seen = ok ([], ([], seen))
take_batch zero left (rev ∷ queue) seen = ok ([], (rev ∷ queue, seen))
take_batch (suc room) zero (rev ∷ queue) seen =
    let next = take_batch (suc room) zero queue seen in if has rev seen then next else err invalid
take_batch (suc room) (suc left) (rev ∷ queue) seen =
    let next = take_batch (suc room) (suc left) queue seen in
    let taken = take_batch room left queue (rev ∷ seen) in
    if has rev seen
    then next
    else taken >>= λ (b : List Digest × (List Digest × List Digest)). ok (rev ∷ b.0, b.1)

-- `fetched[rev]`.
abbrev pub fetched_head : Dict (Result Bytes) → Digest → Result Bytes
fetched_head fetched rev = elim (lookup rev fetched) [ none ↦ ok [] | some r ↦ r ]

module _ (P : Protocol) where
  -- `State.validate()`.
  unfoldable pub validate_state : State → Result (Unit {0})
  unfolding valid_parents
  validate_state s = do
    guard (not (s.workspace == [] || s.resource == [])) invalid
    guard (leb (length s.parents) max_parents) invalid
    guard (valid_parents P none s.parents) invalid
    guard (P.digest_valid s.control) invalid
    guard (P.digest_valid s.ciphertext) invalid
    guard (valid_device_id s.author) invalid

  -- `SignState(s, signer)`.
  unfoldable pub sign_state : State → Signer → Result Bytes
  unfolding validate_state encode_signed
  sign_state s signer = do
    let sorted = record s { parents = sort_bytes s.parents }
    validate_state sorted
    guard (device_id P.crypto signer.public == s.author) invalid
    body ← or_err (P.state_codec.marshal sorted)
    sig ← or_err (signer.sign domain_state body)
    encode_signed P (record { body = body; signature = sig })

  -- `VerifyRevision(view, workspace, resource, rev, blob)`.
  unfoldable pub verify_revision :
      ControlView → Bytes → Bytes → Digest → Bytes → Result VerifiedState
  unfolding decode_signed decode_canonical validate_state
  verify_revision view workspace resource rev blob = do
    guard (P.digest_of blob == rev) invalid
    signed ← decode_signed P blob
    s ← decode_canonical P.state_codec signed.body
    validate_state s
    guard (s.workspace == workspace && s.resource == resource) invalid
    written ← elim (get view s.control) [ none ↦ err rollback | some w ↦ ok w ]
    author ← elim (principal written.control s.author) [ none ↦ err invalid | some a ↦ ok a ]
    guard (verify P.crypto author.signing domain_state signed.body signed.signature) invalid
    ok (record { state = s; digest = rev })

  -- `StateResource(blob)`.
  unfoldable pub state_resource : Bytes → Result (Bytes × Bytes)
  unfolding decode_signed decode_canonical validate_state
  state_resource blob = do
    signed ← decode_signed P blob
    s ← decode_canonical P.state_codec signed.body
    validate_state s
    ok (s.workspace, s.resource)

  -- `ReadCiphertext(ctx, store, st)`.
  unfoldable pub read_ciphertext : Store → VerifiedState → Result Bytes
  unfolding state_scope read_blob
  read_ciphertext store st = do
    content ←
        read_blob store Storage.state (state_scope P st.state.workspace st.state.resource) st.digest
          max_payload_bytes
    guard (P.digest_of content == st.state.ciphertext) corrupt
    ok content

  module _ (view : ControlView) (workspace resource : Bytes) where
    skip_one : Loading → Loading
    skip_one l = record l { skipped = suc l.skipped }

    -- `sv.States[rev] = st`, `sv.Graph.Add(rev, st.Parents)` and the parents joining the queue.
    unfoldable pub add_state : Digest → VerifiedState → Loading → Loading
    unfolding add
    add_state rev st l = record l {
      states = put rev st l.states;
      graph = add l.graph rev st.state.parents;
      queue = l.queue ++ st.state.parents;
    }

    -- The body of `for _, rev := range batch` for a head that was read.
    unfoldable pub load_one : Digest → Bytes → Loading → Result Loading
    unfolding verify_revision add_state skip_one
    load_one rev head l =
        if ltb (max_state_bytes - l.total) (length head)
        then err invalid
        else let read = record l { total = l.total + length head } in
          elim (verify_revision view workspace resource rev head) [
            | err rollback ↦ err rollback
            | err _ ↦ ok (skip_one read)
            | ok st ↦ ok (add_state rev st read)
          ]

    -- `for _, rev := range batch`. A missing entry of the map `fetched` is an empty head.
    unfoldable pub load_batch : Dict (Result Bytes) → List Digest → Loading → Result Loading
    unfolding load_one skip_one is_damaged
    load_batch fetched [] l = ok l
    load_batch fetched (rev ∷ revs) l =
        let next = λ (l' : Loading). load_batch fetched revs l' in
        elim (fetched_head fetched rev) [
          | err e ↦ if is_damaged e then next (skip_one l) else load_one rev [] l >>= next
          | ok head ↦ load_one rev head l >>= next
        ]

    -- One round of `for len(queue) > 0`.
    unfoldable pub load_round : (Digest → Result Bytes) → Loading → Result Loading
    unfolding take_batch prefetch_heads load_batch
    load_round fetch l = do
      b ← take_batch head_fetches (max_revisions - length l.tried) l.queue l.tried
      fetched ← prefetch_heads fetch b.0
      load_batch fetched b.0 (record l { queue = b.1.0; tried = b.1.1 })

    -- The loop. A round tries a revision or empties the queue, so two rounds more than `maxRevisions`
    -- are enough; a loop that runs out of rounds is `none`.
    unfoldable pub load_rounds : (Digest → Result Bytes) → ℕ → Loading → Option (Result Loading)
    unfolding load_round
    load_rounds fetch zero l = none
    load_rounds fetch (suc fuel) l =
        let again = λ (l' : Loading). load_rounds fetch fuel l' in
        elim l.queue [
          | [] ↦ some (ok l)
          | x ∷ xs ↦ elim (load_round fetch l) [ err e ↦ some (err e) | ok l' ↦ again l' ]
        ]

    finish : Loading → StateView
    unfolding states_of heads
    finish l = record {
      graph = l.graph;
      states = l.states;
      heads = states_of l.states (heads l.graph);
      skipped = l.skipped;
      compacted = no_compaction;
    }

    -- `LoadStates(ctx, store, view, workspace, resource, also...)`.
    unfoldable pub load_states : Store → List Digest → Result StateView
    unfolding load_rounds finish state_scope
    load_states store also = do
      let scope = state_scope P workspace resource
      revs ← store.discover Storage.state scope
      guard (leb (length revs) max_revisions) invalid
      l ←
          elim (load_rounds (store.fetch_head Storage.state scope) (max_revisions + 2) (record {
            queue = revs ++ also;
            tried = [];
            total = 0;
            graph = new_graph;
            states = [];
            skipped = 0;
          })) [ none ↦ err failed | some r ↦ r ]
      ok (finish l)
