-- ===== src/App/Writing/Written.antt =====
-- What `writeState` publishes.
use enbu.Prelude.{ℕ, Bytes, true, false, List, [], ◌∷◌, ◌≡◌, Dict}
use enbu.Outcome.{ok}
use enbu.Graph.{Digest}
use enbu.Storage.{Store, Object}
use enbu.Wsp.{Protocol, Signer}
use enbu.Wsp.Members.{recipients}
use enbu.Wsp.Chain.{ControlView, load_control, is_forked}
use enbu.Wsp.Revisions.{VerifiedState, sign_state}
use enbu.Wsp.Revisions.Valid.{IsRevision}
use enbu.App.Heads.{Session}
use enbu.App.Writing.{Sealing, is_first, next_state}

module _ (P : Protocol) (s : Session) where
  -- A load shows the Control of the session as the only head.
  pub record IsUnchanged (store : Store) : Type 0 where
    pub view : ControlView
    pub loads : load_control P store s.view.workspace s.view.genesis [] ≡ ok view
    pub single : is_forked view ≡ false
    pub same_head : is_first s.head.digest view.heads ≡ true

  module _ (sealing : Sealing) (signer : Signer) (now : ℕ) (resource : Bytes) (before : Store)
      (secrets : Dict Bytes) (parents : List Digest) where
    -- An object that holds a revision of the session's device.
    pub record IsWritten (o : Object) : Type 0 where
      pub ciphertext : Bytes
      pub sealed :
          sealing.encrypt (sealing.json secrets) (recipients s.head.control) ≡ ok ciphertext
      pub attached : o.blobs ≡ ciphertext ∷ []
      pub signs :
          sign_state P (next_state P s sealing signer now resource ciphertext parents) signer
          ≡ ok o.head
      pub st : VerifiedState
      pub is_revision : IsRevision P s.view s.view.workspace resource o.rev o.head st
      pub unchanged : IsUnchanged before
