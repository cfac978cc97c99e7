-- ===== src/Signing.antt =====
-- pkg/signing/signing.go: public keys, device ids and the check of a signature. The hash, the curve
-- and the signature algorithms are Go's crypto packages: parameters.
pub mod Laws
use enbu.Prelude.{
  ℕ, ◌+◌, ◌*◌, ◌/◌, Bytes, bytes, ◌==◌, Bool, true, false, not, ◌&&◌, ◌||◌, Option, none, some,
  List, [], ◌∷◌, ◌++◌, ltb, leb, eqb, length, all, if◌then◌else◌,
}
use enbu.Outcome.{Result, ok, err, failed, guard, ◌>>=◌, ◌>>◌}

-- What the code calls of crypto/sha256, crypto/elliptic, crypto/ecdsa and crypto/ed25519.
pub record Crypto : Type 0 where
  -- The digest of a byte string, in lower-case hexadecimal.
  pub sha256_hex : Bytes → Bytes
  -- `elliptic.UnmarshalCompressed` finds a point and `ecdsa.ParseUncompressedPublicKey` accepts it.
  pub on_curve : Bytes → Bool
  pub ed25519_verify : Bytes → Bytes → Bytes → Bool
  -- `ecdsa.Verify(key, sha256(message), r, s)`.
  pub ecdsa_verify : Bytes → Bytes → ℕ → ℕ → Bool
  -- The order N of P-256.
  pub curve_order : ℕ

pub record PublicKey : Type 0 where
  pub alg : Bytes
  pub key : Bytes

abbrev pub DeviceId : Type 0
DeviceId = Bytes

abbrev pub p256 : Bytes
p256 = bytes "p256"

abbrev pub ed25519 : Bytes
ed25519 = bytes "ed25519"

abbrev pub domain_control : Bytes
domain_control = bytes "enbu.workspace-control.v1"

abbrev pub domain_state : Bytes
domain_state = bytes "enbu.workspace-state.v1"

abbrev pub domain_join : Bytes
domain_join = bytes "enbu.join-request.v1"

abbrev pub domain_compact : Bytes
domain_compact = bytes "enbu.workspace-compaction.v1"

abbrev device_id_domain : Bytes
device_id_domain = bytes "enbu.device-id.v1" ++ (0 ∷ [])

abbrev pub p256_sig_size : ℕ
p256_sig_size = 64

-- `big.Int.SetBytes`: big-endian.
unfoldable pub set_bytes : ℕ → Bytes → ℕ
set_bytes n [] = n
set_bytes n (b ∷ bs) = set_bytes (n * 256 + b) bs

unfoldable pub split : ℕ → Bytes → Bytes × Bytes
split n [] = ([], [])
split ℕ.zero (b ∷ bs) = ([], b ∷ bs)
split (ℕ.suc n) (b ∷ bs) = let (l, r) = split n bs in (b ∷ l, r)

-- `ValidateDomain`: not empty, no separator byte.
unfoldable pub valid_domain : Bytes → Bool
valid_domain [] = false
valid_domain (b ∷ bs) = all (λ c. not (eqb c 0)) (b ∷ bs)

-- `Message(domain, body)`.
unfoldable pub message : Bytes → Bytes → Bytes
message domain body = domain ++ (0 ∷ body)

-- Lower-case hexadecimal digits.
abbrev pub is_hex : ℕ → Bool
is_hex c = (leb b'0' c && leb c b'9') || (leb b'a' c && leb c b'f')

-- `DeviceID.Validate`: 32 bytes in lower-case hexadecimal.
unfoldable pub valid_device_id : DeviceId → Bool
valid_device_id id = eqb (length id) 64 && all is_hex id

module _ (c : Crypto) where
  -- `PublicKey.Validate`.
  unfoldable pub valid_key : PublicKey → Bool
  valid_key k =
      if k.alg == p256
      then eqb (length k.key) 33 && c.on_curve k.key
      else if k.alg == ed25519
      then eqb (length k.key) 32
      else false

  -- `PublicKey.DeviceID`.
  unfoldable pub device_id : PublicKey → DeviceId
  device_id k = c.sha256_hex (device_id_domain ++ (k.alg ++ (0 ∷ k.key)))

  abbrev pub half_order : ℕ
  half_order = c.curve_order / 2

  verify_ed25519 : PublicKey → Bytes → Bytes → Bool
  verify_ed25519 k msg sig = eqb (length sig) 64 && c.ed25519_verify k.key msg sig

  verify_p256 : PublicKey → Bytes → Bytes → Bool
  unfolding split set_bytes
  verify_p256 k msg sig =
      let (l, h) = split 32 sig in
      let r = set_bytes 0 l in
      let s = set_bytes 0 h in
      eqb (length sig) p256_sig_size && not (ltb half_order s) && c.ecdsa_verify k.key msg r s

  -- `Verify(pk, domain, body, sig)`: whether it returns nil. A key that is valid is of one of the two
  -- algorithms.
  unfoldable pub verify : PublicKey → Bytes → Bytes → Bytes → Bool
  unfolding verify_ed25519 verify_p256
  verify k domain body sig =
      valid_key k
      && valid_domain domain
      && (if k.alg == ed25519
          then verify_ed25519 k (message domain body) sig
          else verify_p256 k (message domain body) sig)
