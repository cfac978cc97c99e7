-- ===== src/Wsp/Trust.antt =====
-- pkg/wsp/trust.go: the trust root that a device pinned, one file for each pin. As for checkpoints,
-- the lock is not modelled and a write does not fail.
pub mod Pinning
use enbu.Prelude.{
  ℕ, Bytes, ◌==◌, Bool, true, false, not, ◌&&◌, ◌||◌, Option, none, some, List, [], ◌∷◌, eqb,
  if◌then◌else◌,
}
use enbu.Outcome.{Result, ok, err, Error, invalid, root_changed, failed, guard, ◌>>=◌, ◌>>◌}
use enbu.Graph.{Digest}
use enbu.Wsp.{Codec, Protocol, or_err, is_empty}
use enbu.Wsp.Checkpoint.{Disk, absent, unreadable, contents}

abbrev pub trust_root_version : ℕ
trust_root_version = 1

pub record Root : Type 0 where
  pub workspace : Bytes
  pub genesis : Digest

pub record TrustRootFile : Type 0 where
  pub version : ℕ
  pub root : Root

-- `Root{}`.
abbrev pub no_root : Root
no_root = record { workspace = []; genesis = [] }

-- `a == b` of roots.
unfoldable pub same_root : Root → Root → Bool
same_root a b = a.workspace == b.workspace && a.genesis == b.genesis

module _ (P : Protocol) (codec : Codec TrustRootFile) where
  -- `Pinned()`.
  unfoldable pub pinned : Disk → Result Root
  pinned absent = ok no_root
  pinned unreadable = err failed
  pinned (contents b) = elim (codec.unmarshal b) [
    | none ↦ err failed
    | some f ↦
        if not (eqb f.version trust_root_version)
          || is_empty f.root.workspace
          || not (P.digest_valid f.root.genesis)
        then err failed
        else ok f.root
  ]

  -- `Check(root)`.
  unfoldable pub check : Disk → Root → Result (Unit {0})
  unfolding pinned same_root
  check disk root = do
    old ← pinned disk
    guard (same_root old no_root || same_root old root) root_changed

  -- `pinned, err := t.Pinned()` of `pin`: an unreadable pin counts as none when it is replaced.
  unfoldable pub old_pin : Disk → Bool → Option Root → Result Root
  unfolding pinned
  old_pin disk replace expected = elim (pinned disk) [
    | ok old ↦ ok old
    | err e ↦ elim expected [ some x ↦ err e | none ↦ if replace then ok no_root else err e ]
  ]

  -- The rest of `pin`, where `old` is the root pinned before.
  unfoldable pub pin_over : Disk → Root → Bool → Option Root → Root → Result (Root × Disk)
  unfolding same_root
  pin_over disk root replace expected old = if same_root old root then ok (old, disk) else do
    guard (elim expected [ none ↦ true | some x ↦ same_root old x ]) root_changed
    guard (same_root old no_root || replace) root_changed
    b ← or_err (codec.marshal (record { version = trust_root_version; root = root }))
    ok (old, contents b)

  -- `pin(root, replace, expected)`: the root pinned before, and the file then. `none` for nil.
  unfoldable pub pin_root : Disk → Root → Bool → Option Root → Result (Root × Disk)
  unfolding old_pin pin_over
  pin_root disk root replace expected = do
    guard (not (is_empty root.workspace)) invalid
    guard (P.digest_valid root.genesis) invalid
    old ← old_pin disk replace expected
    pin_over disk root replace expected old

  -- `Pin(root, replace)`.
  unfoldable pub pin : Disk → Root → Bool → Result (Root × Disk)
  unfolding pin_root
  pin disk root replace = pin_root disk root replace none

  -- `PinReplacing(root, expected)`.
  unfoldable pub pin_replacing : Disk → Root → Root → Result (Root × Disk)
  unfolding pin_root
  pin_replacing disk root expected = pin_root disk root true (some expected)
