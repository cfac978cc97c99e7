-- ===== src/Wsp/Members.antt =====
-- pkg/wsp/control.go: who is trusted, and which Controls are accepted.
pub mod WellFormed
pub mod Child
use enbu.Prelude.{
  ℕ, ◌+◌, ◌%◌, ◌^◌, max, Bytes, ◌==◌, before, Bool, true, false, not, ◌&&◌, ◌||◌, Option, none,
  some, List, [], ◌∷◌, ltb, leb, eqb, length, all, any, map, sort_by, sort_bytes, if◌then◌else◌,
  is_some,
}
use enbu.Outcome.{Result, ok, err, invalid, failed, guard, ◌>>=◌, ◌>>◌}
use enbu.Graph.{Digest}
use enbu.Signing.{
  DeviceId, PublicKey, valid_key, valid_device_id, device_id, verify, domain_control,
}
use enbu.Wsp.{
  Principal, Control, Signed, Protocol, Signer, or_err, decode_canonical, encode_signed,
  decode_signed,
}

abbrev pub max_principals : ℕ
max_principals = 1024

-- `Verified`: a Control whose chain was checked, with the digest of its stored bytes.
pub record Verified : Type 0 where
  pub control : Control
  pub digest : Digest

-- The loop of `Control.Principal(id)`.
unfoldable pub find_principal : List Principal → DeviceId → Option Principal
find_principal [] id = none
find_principal (p ∷ ps) id = if p.id == id then some p else find_principal ps id

-- `Control.Principal(id)`.
unfoldable pub principal : Control → DeviceId → Option Principal
unfolding find_principal
principal c id = find_principal c.principals id

-- `Control.Recipients()`.
unfoldable pub recipients : Control → List Bytes
recipients c = map (λ (p : Principal). p.recipient) c.principals

-- `ok && p.Admin` of the pair that `Principal` returns.
unfoldable pub is_admin_of : Option Principal → Bool
is_admin_of none = false
is_admin_of (some p) = p.admin

abbrev pub is_none_list : {A : Type 0} → List A → Bool
is_none_list [] = true
is_none_list (x ∷ xs) = false

-- `canonical()`: the principals sorted by device id.
unfoldable pub canonical : Control → Control
unfolding sort_by
canonical c = record c { principals = sort_by (λ (p q : Principal). before p.id q.id) c.principals }

-- The largest height of the parents.
unfoldable pub max_height : List Verified → ℕ
max_height [] = 0
max_height (p ∷ ps) = max p.control.height (max_height ps)

abbrev pub same_digests : List Digest → List Digest → Bool
same_digests [] [] = true
same_digests [] (y ∷ ys) = false
same_digests (x ∷ xs) [] = false
same_digests (x ∷ xs) (y ∷ ys) = x == y && same_digests xs ys

-- The author must be an admin of every parent; the key is the one that the last parent lists.
unfoldable pub author_key : DeviceId → List Verified → PublicKey → Option PublicKey
unfolding principal
author_key author [] key = some key
author_key author (p ∷ ps) key =
    let rest = λ (k : PublicKey). author_key author ps k in
    elim (principal p.control author) [
      | none ↦ none
      | some a ↦ if a.admin then rest a.signing else none
    ]

abbrev pub no_key : PublicKey
no_key = record { alg = []; key = [] }

-- `uint64` addition.
abbrev pub u64 : ℕ → ℕ
u64 n = n % 2 ^ 64

module _ (P : Protocol) where
  -- The loop over the parents: valid digests in strictly rising order. `prev` is the one before.
  unfoldable pub valid_parents : Option Digest → List Digest → Bool
  valid_parents prev [] = true
  valid_parents none (p ∷ ps) = P.digest_valid p && valid_parents (some p) ps
  valid_parents (some q) (p ∷ ps) = P.digest_valid p && before q p && valid_parents (some p) ps

  valid_principal : Principal → Bool
  valid_principal p =
      valid_key P.crypto p.signing
      && p.id == device_id P.crypto p.signing
      && P.recipient_valid p.recipient

  -- The loop over the principals.
  unfoldable pub valid_principals : Option DeviceId → List Principal → Bool
  unfolding valid_principal
  valid_principals prev [] = true
  valid_principals none (p ∷ ps) = valid_principal p && valid_principals (some p.id) ps
  valid_principals (some q) (p ∷ ps) =
      before q p.id && valid_principal p && valid_principals (some p.id) ps

  -- `Control.Validate()`.
  unfoldable pub validate : Control → Result (Unit {0})
  unfolding valid_parents valid_principals
  validate c = do
    guard (not (c.workspace == [])) invalid
    guard (if is_none_list c.parents then eqb c.height 0 else not (eqb c.height 0)) invalid
    guard (leb (length c.parents) max_principals) invalid
    guard (valid_parents none c.parents) invalid
    guard (valid_device_id c.author) invalid
    guard (not (is_none_list c.principals) && leb (length c.principals) max_principals) invalid
    guard (valid_principals none c.principals) invalid
    guard (any (λ (p : Principal). p.admin) c.principals) invalid

  -- `SignControl(c, signer)`.
  unfoldable pub sign_control : Control → Signer → Result Bytes
  unfolding canonical validate encode_signed
  sign_control c signer = do
    validate (canonical c)
    guard (device_id P.crypto signer.public == (canonical c).author) invalid
    body ← or_err (P.control_codec.marshal (canonical c))
    sig ← or_err (signer.sign domain_control body)
    encode_signed P (record { body = body; signature = sig })

  -- `decodeControl(body)`.
  unfoldable pub decode_control : Bytes → Result Control
  unfolding decode_canonical validate
  decode_control body = do c ← decode_canonical P.control_codec body; validate c; ok c

  -- `VerifyGenesis(workspace, blob, trusted)`.
  unfoldable pub verify_genesis : Bytes → Bytes → Digest → Result Verified
  unfolding decode_signed decode_control principal is_admin_of
  verify_genesis workspace blob trusted = do
    guard (P.digest_of blob == trusted) invalid
    s ← decode_signed P blob
    c ← decode_control s.body
    guard (is_none_list c.parents && c.workspace == workspace) invalid
    guard (is_admin_of (principal c c.author)) invalid
    elim (principal c c.author) [
      | none ↦ err invalid
      | some author ↦ do
        guard (verify P.crypto author.signing domain_control s.body s.signature) invalid
        ok (record { control = c; digest = trusted })
    ]

  -- What `checkResolution` gathers about one principal over the parents: `none` if a parent lists it
  -- under another key or recipient, else whether it was listed, and as an admin.
  unfoldable pub resolution_scan : Principal → List Verified → Bool → Bool → Option (Bool × Bool)
  unfolding principal
  resolution_scan p [] listed was_admin = some (listed, was_admin)
  resolution_scan p (parent ∷ parents) listed was_admin =
      let absent = resolution_scan p parents listed was_admin in
      let found = λ (a : Bool). resolution_scan p parents true a in
      elim (principal parent.control p.id) [
        | none ↦ absent
        | some old ↦
            if not (device_id P.crypto old.signing == device_id P.crypto p.signing)
              || not (old.recipient == p.recipient)
            then none
            else found (was_admin || old.admin)
      ]

  unfoldable pub resolution_keeps : Principal → List Verified → Bool
  unfolding resolution_scan
  resolution_keeps p parents = elim (resolution_scan p parents false false) [
    | none ↦ false
    | some (listed, was_admin) ↦ listed && (not p.admin || was_admin)
  ]

  -- `checkResolution(parents, c)`: whether it returns nil.
  unfoldable pub check_resolution : List Verified → Control → Bool
  unfolding resolution_keeps
  check_resolution parents c = all (λ p. resolution_keeps p parents) c.principals

  -- `VerifyChild(parents, blob)`.
  unfoldable pub verify_child : List Verified → Bytes → Result Verified
  unfolding decode_signed decode_control author_key check_resolution max_height sort_bytes
  verify_child parents blob = do
    guard (not (is_none_list parents)) invalid
    s ← decode_signed P blob
    c ← decode_control s.body
    guard (all (λ (p : Verified). c.workspace == p.control.workspace) parents) invalid
    guard (same_digests c.parents (sort_bytes (map (λ (p : Verified). p.digest) parents))) invalid
    guard (eqb c.height (u64 (max_height parents + 1))) invalid
    key ← elim (author_key c.author parents no_key) [ none ↦ err invalid | some k ↦ ok k ]
    guard (verify P.crypto key domain_control s.body s.signature) invalid
    guard (not (ltb 1 (length parents)) || check_resolution parents c) invalid
    ok (record { control = c; digest = P.digest_of blob })
