-- ===== src/Tests/Updates.antt =====
-- Runs of an update of the Control (pkg/wsp/chain.go).
use enbu.Prelude.{bytes, some, [], ◌∷◌, All}
use enbu.Outcome.{ok}
use enbu.Signing
use enbu.Wsp
use enbu.Wsp.{Control, Signer}
use enbu.Wsp.Members
use enbu.Wsp.Members.{Verified}
use enbu.Wsp.Chain
use enbu.Wsp.Chain.{ControlView}
use enbu.Wsp.Publishing
use enbu.Wsp.Publishing.{Location, update_control}
use enbu.Wsp.Publishing.Published.{IsNext, update_control-IsNext}
use enbu.Tests.Protocols.{toy, root, root_blob, store, key, sig}

abbrev founded : ControlView
founded = record {
  workspace = bytes "w";
  genesis = root_blob;
  heads = record { control = root; digest = root_blob } ∷ [];
  verified = (root_blob, record { control = root; digest = root_blob }) ∷ [];
}

abbrev device : Signer
device = record { public = key; sign = λ domain body. some sig }

abbrev location : Location
location = record { publish = λ o. ok tt; after = store }

update_control-IsNext_example :
    All
      (IsNext toy location founded device)
      (update_control toy location founded device (λ c. ok c)).1
update_control-IsNext_example = update_control-IsNext toy location founded device (λ c. ok c)
