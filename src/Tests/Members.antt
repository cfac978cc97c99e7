-- ===== src/Tests/Members.antt =====
-- Runs of the changes to the members (app/members.go) and of the heads of a resource (app/workspace.go).
use enbu.Prelude.{Bytes, bytes, ◌==◌, true, false, some, [], ◌∷◌, ◌≡◌, ◌↔◌, refl, All, has}
use enbu.Outcome.{ok, err, not_found}
use enbu.Storage.{Store}
use enbu.Signing
use enbu.Wsp
use enbu.Wsp.{Principal, Control, Protocol, JoinRequest}
use enbu.Wsp.Members
use enbu.Wsp.Members.{Verified, principal, check_resolution}
use enbu.Wsp.Joining
use enbu.Wsp.Chain.{ControlView}
use enbu.Wsp.Checkpoint.{StateAcceptance}
use enbu.Wsp.Compacting.{no_compaction}
use enbu.Wsp.Revisions.{VerifiedState, StateView}
use enbu.Graph.Ancestors.{Ancestor}
use enbu.App.Heads.{Session, trusted_revs}
use enbu.App.Heads.Standing.{Stands, trusted_revs_iff}
use enbu.App.Members as Changes
use enbu.App.Members.{keep_common}
use enbu.App.Members.Kept.{IsCommon, keep_common-IsCommon}
use enbu.App.Members.Common.{Same, keep_common-check_resolution}
use enbu.Wsp.{Signer}
use enbu.Wsp.Publishing.{Location}
use enbu.App.Writing.{Sealing}
use enbu.Tests.Protocols.{
  toy, root, root_blob, store, founder, id, key, sig, eight, state, state_blob,
}

abbrev other : Bytes
other = eight (bytes "0123abcd")

abbrev guest : Principal
guest = record { id = other; signing = key; recipient = bytes "age2"; admin = false }

abbrev pair : Control
pair = record root { principals = founder ∷ guest ∷ [] }

-- Two heads: one with the guest, one without.
abbrev first : Verified
first = record { control = pair; digest = bytes "1" }

abbrev second : Verified
second = record { control = root; digest = bytes "2" }

keep_common-IsCommon_example : IsCommon (first ∷ second ∷ []) pair root
unfolding keep_common Changes.common Changes.has_admin Changes.in_all Changes.admin_in_all
    Members.principal Members.find_principal Members.is_admin_of ◌==◌
keep_common-IsCommon_example = keep_common-IsCommon (first ∷ second ∷ []) pair root refl

keep_common-check_resolution_example :
    (check_resolution toy (first ∷ second ∷ []) root ≡ true)
    ↔ All (λ p. All (Same toy p) (first ∷ second ∷ [])) (founder ∷ [])
unfolding keep_common Changes.common Changes.has_admin Changes.in_all Changes.admin_in_all
    Members.principal Members.find_principal Members.is_admin_of ◌==◌
keep_common-check_resolution_example =
    keep_common-check_resolution toy first (second ∷ []) pair root refl

-- A recipient that one head replaced: the resolution keeps the guest and is refused.
abbrev moved : Principal
moved = record guest { recipient = bytes "age3" }

abbrev updated : Verified
updated = record { control = record root { principals = founder ∷ moved ∷ [] }; digest = bytes "2" }

fork_with_key_update : keep_common (first ∷ updated ∷ []) updated.control ≡ ok updated.control
unfolding keep_common Changes.common Changes.has_admin Changes.in_all Changes.admin_in_all
    Members.principal Members.find_principal Members.is_admin_of ◌==◌
fork_with_key_update = refl

refused_with_key_update : check_resolution toy (first ∷ updated ∷ []) updated.control ≡ false
unfolding check_resolution Members.resolution_keeps Members.resolution_scan Members.principal
    Members.find_principal Signing.device_id ◌==◌
refused_with_key_update = refl

abbrev view : ControlView
view = record {
  workspace = bytes "w";
  genesis = root_blob;
  heads = second ∷ [];
  verified = (root_blob, second) ∷ [];
}

abbrev session : Session
session = record { view = view; head = second; self = id }

abbrev revision : VerifiedState
revision = record { state = state; digest = state_blob }

abbrev states : StateView
states = record {
  graph = record { parents = (state_blob, []) ∷ [] };
  states = (state_blob, revision) ∷ [];
  heads = revision ∷ [];
  skipped = 0;
  compacted = no_compaction;
}

abbrev accepted : StateAcceptance
accepted = record { heads = []; control = root_blob }

trusted_revs_iff_example : (has state_blob (trusted_revs session states accepted) ≡ true) ↔ (
    Stands session states accepted state_blob
    × ((e : Bytes)
        → Stands session states accepted e
        → Ancestor states.graph e state_blob
        → e ≡ state_blob))
trusted_revs_iff_example = trusted_revs_iff session states accepted state_blob

-- A device that asked to join the workspace of the guest.
abbrev request : JoinRequest
request = record {
  workspace = bytes "w";
  signing = key;
  recipient = bytes "age1";
  created_at = 0;
  replaces = [];
}

abbrev request_blob : Bytes
request_blob = bytes "j"

abbrev asking : Protocol
asking = record toy {
  join_codec = record { marshal = λ r. some request_blob; unmarshal = λ b. some request };
}

abbrev requests : Store
requests = record {
  discover = λ kind scope. ok (request_blob ∷ []);
  fetch_head = λ kind scope rev. ok request_blob;
  open_blob = λ kind scope rev. err not_found;
}

abbrev before_join : Control
before_join = record root { principals = guest ∷ [] }

abbrev after_join : Control
after_join = record root { principals = guest ∷ record founder { admin = false } ∷ [] }

abbrev sealing : Sealing
sealing = record { json = λ m. bytes "json"; encrypt = λ plain rs. ok (bytes "c") }

abbrev signer : Signer
signer = record { public = key; sign = λ domain body. some sig }

abbrev location : Location
location = record { publish = λ o. ok tt; after = store }
