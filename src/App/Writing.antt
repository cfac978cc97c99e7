-- ===== src/App/Writing.antt =====
-- app/workspace.go, `controlUnchanged` and `writeState`: publishing a revision of a resource. JSON and
-- the encryption for recipients are parameters.
pub mod Written
use enbu.Prelude.{
  ℕ, Bytes, ◌==◌, Bool, false, not, ◌&&◌, Option, none, some, List, [], ◌∷◌, Dict, any,
  if◌then◌else◌,
}
use enbu.Outcome.{Result, ok, err, refused, guard, ◌>>=◌, ◌>>◌}
use enbu.Graph.{Digest}
use enbu.Storage
use enbu.Storage.{Store, Object}
use enbu.Wsp.{Protocol, Signer, State, state_scope}
use enbu.Wsp.Members.{Verified, recipients}
use enbu.Wsp.Chain.{load_control, is_forked}
use enbu.Wsp.Publishing.{Location}
use enbu.Wsp.Revisions.{VerifiedState, sign_state, verify_revision}
use enbu.App.Heads.{Session}

-- `json.Marshal` of a map of secrets, and `a.encrypt(plaintext, recipients)`.
pub record Sealing : Type 0 where
  pub json : Dict Bytes → Bytes
  pub encrypt : Bytes → List Bytes → Result Bytes

-- What a write answers, the revision that it returns with it, and the objects that it published.
pub record Writing : Type 0 where
  pub outcome : Result (Unit {0})
  pub revision : Option VerifiedState
  pub published : List Object

-- `view.Heads[0].Digest != s.head.Digest`.
abbrev pub is_first : Digest → List Verified → Bool
is_first d [] = false
is_first d (h ∷ hs) = h.digest == d

module _ (P : Protocol) (s : Session) where
  -- `controlUnchanged(ctx)`, on what a store shows; `refused` is `errControlMoved`.
  unfoldable pub control_unchanged : Store → Result (Unit {0})
  unfolding load_control is_forked ◌==◌
  control_unchanged store = do
    view ← load_control P store s.view.workspace s.view.genesis []
    guard (not (is_forked view) && is_first s.head.digest view.heads) refused
    ok tt

  module _ (sealing : Sealing) (signer : Signer) (now : ℕ) (resource : Bytes) where
    -- The State that `writeState` signs.
    abbrev pub next_state : Bytes → List Digest → State
    next_state ciphertext parents = record {
      workspace = s.view.workspace;
      resource = resource;
      parents = parents;
      control = s.head.digest;
      ciphertext = P.digest_of ciphertext;
      author = s.self;
      created_at = now;
    }

    -- `writeState` up to the publication: the revision, and the object to publish.
    unfoldable pub prepare_state :
        Store → Dict Bytes → List Digest → Result (VerifiedState × Object)
    unfolding control_unchanged recipients sign_state verify_revision state_scope
    prepare_state before secrets parents = do
      ciphertext ← sealing.encrypt (sealing.json secrets) (recipients s.head.control)
      control_unchanged before
      blob ← sign_state P (next_state ciphertext parents) signer
      st ← verify_revision P s.view s.view.workspace resource (P.digest_of blob) blob
      ok (
        st,
        record {
          kind = Storage.state;
          scope = state_scope P s.view.workspace resource;
          rev = P.digest_of blob;
          head = blob;
          blobs = ciphertext ∷ [];
        },
      )

    -- `writeState(ctx, resource, secrets, parents)`. A revision that was published is returned with the
    -- error if the Control moved meanwhile.
    unfoldable pub write_state : Location → Store → Dict Bytes → List Digest → Writing
    unfolding prepare_state control_unchanged
    write_state at before secrets parents = elim (prepare_state before secrets parents) [
      | err e ↦ record { outcome = err e; revision = none; published = [] }
      | ok w ↦ elim (at.publish w.1) [
        | err e ↦ record { outcome = err e; revision = none; published = w.1 ∷ [] }
        | ok u ↦ record {
          outcome = control_unchanged at.after;
          revision = some w.0;
          published = w.1 ∷ [];
        }
      ]
    ]
