-- ===== src/Tests/Compactions.antt =====
-- Runs of the compaction of a history (app/compact.go).
use enbu.Prelude.{bytes, some, [], ◌∷◌, refl, ◌==◌, lookup}
use enbu.Outcome.{ok, err, not_found}
use enbu.Graph.{Digest, Graph, has_rev}
use enbu.Storage.{Store}
use enbu.Wsp.Chain.{ControlView}
use enbu.Wsp.Compacting.{no_compaction}
use enbu.Wsp.Revisions.{VerifiedState, StateView}
use enbu.Wsp.{Signer}
use enbu.App.Heads.{Session}
use enbu.App.Compacting.{compact_history}
use enbu.App.Compacting.History.{IsCompacted, compact_history-IsCompacted}
use enbu.Tests.Protocols.{toy, root, root_blob, id, key, sig, state, state_blob}

abbrev old : Digest
old = bytes "o"

-- A history of two revisions.
abbrev history : Graph
history = record { parents = (state_blob, old ∷ []) ∷ (old, []) ∷ [] }

abbrev view : ControlView
view = record {
  workspace = bytes "w";
  genesis = root_blob;
  heads = record { control = root; digest = root_blob } ∷ [];
  verified = (root_blob, record { control = root; digest = root_blob }) ∷ [];
}

abbrev session : Session
session = record { view = view; head = record { control = root; digest = root_blob }; self = id }

abbrev revision : VerifiedState
revision = record { state = state; digest = state_blob }

abbrev states : StateView
states = record {
  graph = history;
  states = (state_blob, revision) ∷ (old, record { state = state; digest = old }) ∷ [];
  heads = revision ∷ [];
  skipped = 0;
  compacted = no_compaction;
}

abbrev store : Store
store = record {
  discover = λ kind scope. ok (state_blob ∷ old ∷ []);
  fetch_head = λ kind scope rev. ok state_blob;
  open_blob = λ kind scope rev. err not_found;
}

abbrev signer : Signer
signer = record { public = key; sign = λ domain body. some sig }

compact_history-IsCompacted_example :
    IsCompacted toy session signer 0
      (bytes "secrets/prod")
      (λ o. ok tt)
      states
      state_blob
      1
      (compact_history toy session signer 0
        (bytes "secrets/prod")
        store
        (λ o. ok tt)
        (λ d. ok tt)
        states
        state_blob
        1).1
unfolding has_rev lookup ◌==◌
compact_history-IsCompacted_example =
    compact_history-IsCompacted toy session signer 0 (bytes "secrets/prod") store (λ o. ok tt)
      (λ d. ok tt) states state_blob 1 refl
