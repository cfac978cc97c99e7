-- ===== src/Storage/Naming.antt =====
-- pkg/storage/storage.go: the names of objects in a storage location, and what is read back from a
-- listed name. Digests are github.com/opencontainers/go-digest: a parameter.
pub mod RoundTrip
pub mod Listed
pub mod Distinct
pub mod Keys
use enbu.Prelude.{
  ℕ, zero, suc, ◌+◌, Bytes, bytes, ◌==◌, Bool, true, false, not, ◌&&◌, ◌||◌, Option, none, some,
  List, [], ◌∷◌, ◌++◌, ltb, leb, eqb, length, all, has, take, drop, starts, sort_bytes, is_some,
  if◌then◌else◌,
}
use enbu.Outcome.{Result, ok, err, failed, guard, ◌>>=◌, ◌>>◌}
use enbu.Graph.{Digest}
use enbu.Signing.{is_hex}
use enbu.Storage.{Kind, state, control, request, compaction, unknown}

-- What the code calls of go-digest.
pub record DigestLibrary : Type 0 where
  -- `digest.FromBytes`.
  pub of_bytes : Bytes → Digest
  -- `d.Validate() == nil`.
  pub validate : Digest → Bool
  -- `d.Algorithm() == digest.SHA256`.
  pub is_sha256 : Digest → Bool
  -- `d.Encoded()`.
  pub encoded : Digest → Bytes
  -- `digest.NewDigestFromEncoded(digest.SHA256, h)`.
  pub from_encoded : Bytes → Digest

abbrev pub scope_hex_len : ℕ
scope_hex_len = 32

-- `scoped()`.
unfoldable pub scoped : Kind → Bool
scoped state = true
scoped compaction = true
scoped control = false
scoped request = false
scoped (unknown k) = false

-- `letter()`.
unfoldable pub letter : Kind → Option Bytes
letter state = some (bytes "s")
letter control = some (bytes "c")
letter request = some (bytes "r")
letter compaction = some (bytes "k")
letter (unknown k) = none

-- `validScope(kind, scope)`.
unfoldable pub valid_scope : Kind → Bytes → Result (Unit {0})
unfolding scoped ◌==◌
valid_scope kind scope =
    if not (scoped kind)
    then guard (scope == []) failed
    else (guard (eqb (length scope) scope_hex_len) failed >> guard (all is_hex scope) failed)

-- The name of a kind's objects up to the revision.
abbrev pub prefix_of : Kind → Bytes → Bytes → Bytes
prefix_of kind l scope =
    if scoped kind then l ++ (bytes "-" ++ (scope ++ bytes "-")) else l ++ bytes "-"

-- `l, _ := kind.letter()`.
abbrev pub letter_of : Option Bytes → Bytes
letter_of none = []
letter_of (some l) = l

-- `namePrefix(kind, scope)`.
unfoldable pub name_prefix : Kind → Bytes → Result Bytes
unfolding letter valid_scope scoped
name_prefix kind scope = elim (letter kind) [
  | none ↦ err failed
  | some l ↦ valid_scope kind scope >> ok (prefix_of kind l scope)
]

-- A character of an OCI tag.
abbrev pub is_key_char : ℕ → Bool
is_key_char c =
    (leb b'a' c && leb c b'z')
    || (leb b'A' c && leb c b'Z')
    || (leb b'0' c && leb c b'9')
    || eqb c b'-'
    || eqb c b'_'
    || eqb c b'.'

-- `ValidateKey(key)`.
unfoldable pub validate_key : Bytes → Result (Unit {0})
unfolding ◌==◌
validate_key key = do
  guard (not (key == [] || ltb 128 (length key) || key == bytes "." || key == bytes "..")) failed
  guard (all is_key_char key) failed

module _ (D : DigestLibrary) where
  -- `ValidateDigest(d)`.
  unfoldable pub validate_digest : Digest → Result (Unit {0})
  validate_digest d = guard (D.validate d) failed >> guard (D.is_sha256 d) failed

  -- `validateRef(kind, scope, rev)`.
  unfoldable pub validate_ref : Kind → Bytes → Digest → Result (Unit {0})
  unfolding letter valid_scope validate_digest
  validate_ref kind scope rev = do
    guard (is_some (letter kind)) failed
    valid_scope kind scope
    validate_digest rev

  abbrev pub name_text : Kind → Bytes → Digest → Result Bytes
  name_text kind scope rev =
      let l = letter_of (letter kind) in
      ok (
        if scoped kind
        then l ++ (bytes "-" ++ (scope ++ (bytes "-" ++ D.encoded rev)))
        else l ++ (bytes "-" ++ D.encoded rev))

  -- `Name(kind, scope, rev)`.
  unfoldable pub name : Kind → Bytes → Digest → Result Bytes
  unfolding letter scoped validate_ref
  name kind scope rev = validate_ref kind scope rev >> name_text kind scope rev

  -- `revFromName(prefix, name)`.
  unfoldable pub rev_from_name : Bytes → Bytes → Option Digest
  unfolding starts
  rev_from_name prefix listed =
      let h = drop (length prefix) listed in
      if not (starts listed prefix)
      then none
      else if not (eqb (length h) 64)
      then none
      else if not (D.validate (D.from_encoded h))
      then none
      else some (D.from_encoded h)

  -- What `scopeFromName` does with the `rest` after `s-`; `scope` is `rest[:scopeHexLen]`.
  unfoldable pub scope_in : Bytes → Bytes → Bytes → Option Bytes
  unfolding starts valid_scope rev_from_name
  scope_in listed rest scope =
      if leb (length rest) scope_hex_len || not (starts (drop scope_hex_len rest) (bytes "-"))
      then none
      else elim (valid_scope state scope) [
        | err e ↦ none
        | ok done ↦ elim (rev_from_name (bytes "s-" ++ (scope ++ bytes "-")) listed) [
          | none ↦ none
          | some rev ↦ some scope
        ]
      ]

  -- `scopeFromName(name)`; `strings.CutPrefix` takes off the first two bytes.
  unfoldable pub scope_from_name : Bytes → Option Bytes
  unfolding starts scope_in
  scope_from_name listed =
      let rest = drop 2 listed in
      if not (starts listed (bytes "s-"))
      then none
      else scope_in listed rest (take scope_hex_len rest)

  -- The loop of `sortedScopes`; `seen` holds what `out` does.
  unfoldable pub scopes_loop : List Bytes → List Bytes → List Bytes
  unfolding scope_from_name has
  scopes_loop out [] = out
  scopes_loop out (n ∷ names) = elim (scope_from_name n) [
    | none ↦ scopes_loop out names
    | some scope ↦ scopes_loop (if not (has scope out) then out ++ (scope ∷ []) else out) names
  ]

  -- `sortedScopes(names)`.
  unfoldable pub sorted_scopes : List Bytes → List Bytes
  unfolding scopes_loop sort_bytes
  sorted_scopes names = sort_bytes (scopes_loop [] names)
