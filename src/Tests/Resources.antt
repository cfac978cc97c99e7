-- ===== src/Tests/Resources.antt =====
-- Runs of the load of a resource (pkg/wsp/state.go, app/workspace.go).
use enbu.Prelude.{
  ℕ, ◌≤◌, Bytes, bytes, ◌==◌, some, none, [], ◌∷◌, refl, has, lookup, put, before, sort_bytes,
  sort_by, insert_by,
}
use enbu.Outcome.{ok, err, not_found}
use enbu.Graph
use enbu.Storage.{Store}
use enbu.Signing
use enbu.Wsp
use enbu.Wsp.Members
use enbu.Wsp.Members.{Verified}
use enbu.Wsp.Chain
use enbu.Wsp.Chain.{ControlView}
use enbu.Wsp.Compacting.{no_compaction}
use enbu.Wsp.Revisions
use enbu.Wsp.Revisions.{VerifiedState, StateView, load_states}
use enbu.Wsp.Revisions.Loaded.{IsLoadedView, load_states-IsLoadedView}
use enbu.Wsp.Checkpoint
use enbu.Wsp.Checkpoint.{CheckpointFile, Json, contents}
use enbu.App.Heads.{Session}
use enbu.App.Reading
use enbu.App.Reading.{Answers, load_resource, accepted_retries}
use enbu.App.Reading.Guarded.{IsGuarded, load_resource-IsGuarded}
use enbu.App.Heads
use enbu.App.Merging
use enbu.App.Merging.{Opening, opened, ResourceRead, merge_resource}
use enbu.App.Merging.Merged.{IsMerged, merge_resource-IsMerged}
use enbu.Storage
use enbu.Prelude.Walk
use enbu.Wsp.Membership
use enbu.Wsp.Compacting
use enbu.Tests.Protocols.{toy, root, root_blob, id, state, state_blob}

abbrev founded : ControlView
founded = record {
  workspace = bytes "w";
  genesis = root_blob;
  heads = record { control = root; digest = root_blob } ∷ [];
  verified = (root_blob, record { control = root; digest = root_blob }) ∷ [];
}

abbrev one_state : Store
one_state = record {
  discover = λ kind scope. ok (state_blob ∷ []);
  fetch_head = λ kind scope rev. ok state_blob;
  open_blob = λ kind scope rev. err not_found;
}

abbrev revision : VerifiedState
revision = record { state = state; digest = state_blob }

abbrev loaded_view : StateView
loaded_view = record {
  graph = record { parents = (state_blob, []) ∷ [] };
  states = (state_blob, revision) ∷ [];
  heads = revision ∷ [];
  skipped = 0;
  compacted = no_compaction;
}

load_states-IsLoadedView_example :
    IsLoadedView toy founded (bytes "w") (bytes "secrets/prod") loaded_view
unfolding load_states Revisions.load_rounds Revisions.load_round Revisions.load_batch
    Revisions.load_one Revisions.add_state Revisions.take_batch Revisions.prefetch_heads
    Revisions.states_of Revisions.verify_revision Revisions.validate_state Wsp.state_scope
    Wsp.scope_text Wsp.decimal Wsp.decode_signed Wsp.decode_canonical Members.valid_parents
    Members.principal Members.find_principal Chain.get Chain.is_damaged Graph.add Graph.heads
    Graph.has_rev Signing.verify Signing.valid_key Signing.valid_device_id Signing.device_id
    Signing.valid_domain Signing.split ◌==◌ before sort_bytes sort_by insert_by lookup put has
load_states-IsLoadedView_example =
    load_states-IsLoadedView toy founded (bytes "w") (bytes "secrets/prod") one_state [] loaded_view
      refl

-- The device accepted this revision before.
abbrev pub accepted_before : CheckpointFile
accepted_before = record {
  version = 3;
  control = [];
  states = (bytes "secrets/prod", record { heads = state_blob ∷ []; control = root_blob }) ∷ [];
}

abbrev json : Json CheckpointFile
json = record {
  version_of = λ b. some 3;
  codec = record { marshal = λ f. none; unmarshal = λ b. some accepted_before };
}

abbrev pub session : Session
session = record { view = founded; head = record { control = root; digest = root_blob }; self = id }

abbrev pub answers : ℕ → Answers
answers i = record {
  store = one_state;
  first = contents (bytes "{}");
  disk = contents (bytes "{}");
  later = contents (bytes "{}");
}

load_resource-IsGuarded_example :
    (i : ℕ) × (i ≤ accepted_retries)
    × IsGuarded toy json session (bytes "secrets/prod") [] (answers i) loaded_view
unfolding load_resource Reading.load_attempts Reading.load_attempt Reading.load_view
    Reading.load_compacted Reading.load_checked Checkpoint.check_states Checkpoint.accepted_state
    Checkpoint.accepted Checkpoint.read Checkpoint.accepted_in Checkpoint.missing_from
    Checkpoint.shown_or_excused Graph.missing Graph.len load_states Revisions.load_rounds
    Revisions.load_round Revisions.load_batch Revisions.load_one Revisions.add_state
    Revisions.take_batch Revisions.prefetch_heads Revisions.states_of Revisions.verify_revision
    Revisions.validate_state Wsp.state_scope Wsp.scope_text Wsp.decimal Wsp.decode_signed
    Wsp.decode_canonical Members.valid_parents Members.principal Members.find_principal Chain.get
    Chain.is_damaged Graph.add Graph.heads Graph.has_rev Signing.verify Signing.valid_key
    Signing.valid_device_id Signing.device_id Signing.valid_domain Signing.split ◌==◌ before
    sort_bytes sort_by insert_by lookup put has
load_resource-IsGuarded_example =
    load_resource-IsGuarded toy json session (bytes "secrets/prod") answers [] loaded_view refl

-- The ciphertext is there, and its content is empty.
abbrev with_blob : Store
with_blob = record one_state { open_blob = λ kind scope rev. ok (bytes "c") }

abbrev open_secrets : Bytes → Opening
open_secrets b = opened []

abbrev content : ResourceRead
content = record { view = loaded_view; heads = revision ∷ []; secrets = []; conflicts = [] }

merge_resource-IsMerged_example :
    IsMerged toy with_blob open_secrets json session
      (bytes "secrets/prod")
      (contents (bytes "{}"))
      loaded_view
      []
      content
unfolding merge_resource Merging.merge_heads Merging.merge_maps Merging.decrypt_all Merging.decrypt
    Revisions.read_ciphertext Storage.read_blob Checkpoint.accepted Checkpoint.read
    Checkpoint.accepted_in Revisions.states_of Members.principal Members.find_principal
    Graph.has_rev ◌==◌ before sort_bytes sort_by insert_by lookup has Heads.trusted_heads
    Heads.trusted_revs Heads.standing Heads.covered Heads.consider Heads.head_rounds Heads.stand_ins
    Heads.trusted Heads.trusted_rev Walk.walk Compacting.above_floors Revisions.author_is_current
    Membership.membership_unbroken Membership.enqueue Graph.ancestors Wsp.state_scope Wsp.scope_text
    Wsp.decimal Chain.get
merge_resource-IsMerged_example =
    merge_resource-IsMerged toy with_blob open_secrets json session (bytes "secrets/prod")
      (contents (bytes "{}")) loaded_view [] content refl
