-- ===== src/App/Merging.antt =====
-- app/workspace.go, `decrypt` and `mergeResource`: the content of a resource, merged from its trusted
-- heads. Decryption and what it reads out of the plaintext are a parameter.
pub mod Merged
use enbu.Prelude.{Bytes, none, some, List, [], ◌∷◌, ◌++◌, Dict, lookup}
use enbu.Outcome.{Result, Error, ok, err, rollback, invalid, not_found, ◌>>=◌}
use enbu.Graph.{Digest, merge_bases}
use enbu.Storage.{Store}
use enbu.Wsp.{Protocol}
use enbu.Wsp.Checkpoint.{Json, Disk, CheckpointFile, accepted}
use enbu.Wsp.Revisions.{VerifiedState, StateView, missing_parents, read_ciphertext}
use enbu.Merge.{SecretMap, Choice, Conflict, merge}
use enbu.App.Heads.{Session, digests, trusted_heads}

-- What decrypting answers; `no_match` is `NoIdentityMatchError`.
pub data Opening : Type 0 where
  opened : SecretMap → Opening
  no_match : Error → Opening
  unopened : Error → Opening

-- An error of the read of a ciphertext: a missing blob is lost data.
abbrev pub lost : Error → Error
lost not_found = rollback
lost e = e

pub record ResourceRead : Type 0 where
  pub view : StateView
  pub heads : List VerifiedState
  pub secrets : SecretMap
  pub conflicts : List Conflict

module _ (P : Protocol) (store : Store) (open_secrets : Bytes → Opening) where
  -- `decrypt(ctx, st)`.
  unfoldable pub decrypt : VerifiedState → Opening
  unfolding read_ciphertext
  decrypt st = elim (read_ciphertext P store st) [
    | err e ↦ unopened (lost e)
    | ok ciphertext ↦ open_secrets ciphertext
  ]

  -- The loop over the heads.
  unfoldable pub decrypt_all : List VerifiedState → Result (List SecretMap)
  unfolding decrypt
  decrypt_all [] = ok []
  decrypt_all (h ∷ hs) =
      let rest = decrypt_all hs in
      elim (decrypt h) [
        | opened m ↦ rest >>= λ ms. ok (m ∷ ms)
        | no_match e ↦ err e
        | unopened e ↦ err e
      ]

  -- The loop over the merge bases: every head stands in for a base that the device cannot decrypt. A base
  -- that `States` lacks does not occur.
  unfoldable pub base_maps : StateView → List SecretMap → List Digest → Result (List SecretMap)
  unfolding decrypt
  base_maps sv maps [] = ok []
  base_maps sv maps (b ∷ bs) =
      let rest = base_maps sv maps bs in
      elim (lookup b sv.states) [
        | none ↦ rest
        | some st ↦ elim (decrypt st) [
          | opened m ↦ rest >>= λ ms. ok (m ∷ ms)
          | no_match e ↦ rest >>= λ ms. ok (maps ++ ms)
          | unopened e ↦ err e
        ]
      ]

  -- The secrets and the conflicts of the heads' maps.
  unfoldable pub merge_maps :
      StateView
      → List VerifiedState
      → Dict Choice
      → List SecretMap
      → Result (SecretMap × List Conflict)
  unfolding missing_parents merge_bases base_maps merge
  merge_maps sv heads choices (m ∷ []) = ok (m, [])
  merge_maps sv heads choices maps = elim (missing_parents sv) [
    | d ∷ ds ↦ err rollback
    | [] ↦ base_maps sv maps (merge_bases sv.graph (digests heads)) >>= λ bases.
        ok (merge bases maps choices)
  ]

  -- `mergeResource` of the trusted heads.
  unfoldable pub merge_heads : StateView → Dict Choice → List VerifiedState → Result ResourceRead
  unfolding decrypt_all merge_maps
  merge_heads sv choices [] = err invalid
  merge_heads sv choices (h ∷ hs) = do
    maps ← decrypt_all (h ∷ hs)
    merged ← merge_maps sv (h ∷ hs) choices maps
    ok (record { view = sv; heads = h ∷ hs; secrets = merged.0; conflicts = merged.1 })

  module _ (json : Json CheckpointFile) (s : Session) (resource : Bytes) where
    -- `mergeResource(ctx, resource, sv, choices)`.
    unfoldable pub merge_resource : Disk → StateView → Dict Choice → Result ResourceRead
    unfolding accepted trusted_heads merge_heads
    merge_resource disk sv choices =
        accepted json disk resource >>= λ a. merge_heads sv choices (trusted_heads s sv a)
