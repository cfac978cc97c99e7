-- ===== src/Wsp.antt =====
-- pkg/wsp: the signed objects of the workspace protocol and their encoding (codec.go). The CBOR
-- library, the digests and the recipients' format are parameters, gathered in `Protocol`.
pub mod Members
pub mod Chain
pub mod Membership
pub mod Compacting
pub mod Revisions
pub mod Checkpoint
pub mod Trust
pub mod Joining
pub mod Publishing
use enbu.Prelude.{
  ℕ, Bytes, ◌==◌, before, Bool, true, false, not, ◌&&◌, ◌||◌, Option, none, some, List, [], ◌∷◌,
  ltb, length, zero, suc, ◌+◌, ◌/◌, ◌%◌, ◌++◌, bytes, if◌then◌else◌,
}
use enbu.Outcome.{Result, ok, err, invalid, failed, guard, ◌>>=◌, ◌>>◌}
use enbu.Graph.{Digest}
use enbu.Signing.{Crypto, PublicKey, DeviceId, split}

-- control.go.
pub record Principal : Type 0 where
  pub id : DeviceId
  pub signing : PublicKey
  pub recipient : Bytes
  pub admin : Bool

pub record Control : Type 0 where
  pub workspace : Bytes
  pub parents : List Digest
  pub height : ℕ
  pub principals : List Principal
  pub author : DeviceId

-- state.go. The creation time is shown only; it is a number of seconds.
pub record State : Type 0 where
  pub workspace : Bytes
  pub resource : Bytes
  pub parents : List Digest
  pub control : Digest
  pub ciphertext : Digest
  pub author : DeviceId
  pub created_at : ℕ

-- compaction.go.
pub record Compaction : Type 0 where
  pub workspace : Bytes
  pub resource : Bytes
  pub floor : Digest
  pub removed : List Digest
  pub control : Digest
  pub author : DeviceId
  pub created_at : ℕ

-- join.go. `replaces` is empty for a device asking to join.
pub record JoinRequest : Type 0 where
  pub workspace : Bytes
  pub signing : PublicKey
  pub recipient : Bytes
  pub created_at : ℕ
  pub replaces : Bytes

-- codec.go.
pub record Signed : Type 0 where
  pub body : Bytes
  pub signature : Bytes

-- `encMode.Marshal` and `decMode.Unmarshal` of the CBOR library at one type.
pub record Codec (A : Type 0) : Type 0 where
  pub marshal : A → Option Bytes
  pub unmarshal : Bytes → Option A

-- What the protocol calls of other libraries: cryptography, `digest.FromBytes`, the test
-- `d.Validate() == nil && d.Algorithm() == digest.SHA256`, `age.ParseRecipient` and CBOR.
pub record Protocol : Type 0 where
  pub crypto : Crypto
  pub digest_of : Bytes → Digest
  pub digest_valid : Digest → Bool
  pub recipient_valid : Bytes → Bool
  pub signed_codec : Codec Signed
  pub control_codec : Codec Control
  pub state_codec : Codec State
  pub join_codec : Codec JoinRequest
  pub compaction_codec : Codec Compaction

-- `signing.Signer`: a key with its public half; hardware may refuse to sign.
pub record Signer : Type 0 where
  pub public : PublicKey
  pub sign : Bytes → Bytes → Option Bytes

abbrev pub max_signed_bytes : ℕ
max_signed_bytes = 1048576

-- `err` for a call of a library that failed.
abbrev pub or_err : {A : Type 0} → Option A → Result A
or_err none = err failed
or_err (some a) = ok a

-- `decodeCanonical`: the bytes decode, and encoding the result again gives the same bytes.
unfoldable pub decode_canonical : {A : Type 0} → Codec A → Bytes → Result A
decode_canonical codec data_bytes = elim (codec.unmarshal data_bytes) [
  | none ↦ err invalid
  | some v ↦ elim (codec.marshal v) [
    | none ↦ err invalid
    | some again ↦ if data_bytes == again then ok v else err invalid
  ]
]

-- The decimal digits of a number, as `%d` prints it; `fuel` digits are enough if `n < 10 ^ fuel`.
unfoldable pub decimal : ℕ → ℕ → Bytes
decimal zero n = []
decimal (suc fuel) n =
    if ltb n 10 then (b'0' + n) ∷ [] else decimal fuel (n / 10) ++ ((b'0' + n % 10) ∷ [])

-- The text that `storage.StateScope(workspace, resource)` hashes.
unfoldable pub scope_text : Bytes → Bytes → Bytes
unfolding decimal
scope_text workspace resource =
    bytes "enbu.state-scope.v1"
    ++ (0 ∷ decimal (suc (length workspace)) (length workspace)
        ++ (b':' ∷ workspace
            ++ (decimal (suc (length resource)) (length resource) ++ (b':' ∷ resource))))

abbrev pub scope_hex_len : ℕ
scope_hex_len = 32

abbrev pub is_empty : Bytes → Bool
is_empty [] = true
is_empty (b ∷ bs) = false

module _ (P : Protocol) where
  -- `storage.StateScope(workspace, resource)`.
  unfoldable pub state_scope : Bytes → Bytes → Bytes
  unfolding scope_text split
  state_scope workspace resource =
      (split scope_hex_len (P.crypto.sha256_hex (scope_text workspace resource))).0

  -- `Signed.Encode`.
  unfoldable pub encode_signed : Signed → Result Bytes
  encode_signed s = or_err (P.signed_codec.marshal s)

  -- `DecodeSigned`.
  unfoldable pub decode_signed : Bytes → Result Signed
  unfolding decode_canonical
  decode_signed blob = do
    guard (not (ltb max_signed_bytes (length blob))) invalid
    s ← decode_canonical P.signed_codec blob
    guard (not (is_empty s.body || is_empty s.signature)) invalid
    ok s
