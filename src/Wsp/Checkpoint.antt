-- ===== src/Wsp/Checkpoint.antt =====
-- pkg/wsp/checkpoint.go: the heads that a device accepted, kept on its disk. An update runs alone,
-- under a lock; the lock and the atomic rename are not modelled, and a write does not fail.
pub mod Accepting
pub mod Accepted
use enbu.Prelude.{
  ℕ, Bytes, ◌==◌, Bool, true, false, not, ◌&&◌, ◌||◌, Option, none, some, List, [], ◌∷◌, map, ltb,
  eqb, all, sort_bytes, Dict, lookup, put, is_some, if◌then◌else◌,
}
use enbu.Outcome.{Result, ok, err, rollback, failed, guard, ◌>>=◌, ◌>>◌}
use enbu.Graph.{Digest, Graph, has_rev}
use enbu.Wsp.{Codec, or_err}
use enbu.Wsp.Members.{Verified, same_digests}
use enbu.Wsp.Chain.{ControlView, get, digests_of}

abbrev pub checkpoint_version : ℕ
checkpoint_version = 3

-- `StateAcceptance`.
pub record StateAcceptance : Type 0 where
  pub heads : List Digest
  pub control : Digest

pub record CheckpointFile : Type 0 where
  pub version : ℕ
  pub control : List Digest
  pub states : Dict StateAcceptance

-- A file as `os.ReadFile` finds it.
pub data Disk : Type 0 where
  absent unreadable : Disk
  contents : Bytes → Disk

-- `json.Unmarshal` of the field `version` alone, where a negative number reads as 0, and
-- `json.MarshalIndent` and `json.Unmarshal` of a whole file.
pub record Json (A : Type 0) : Type 0 where
  pub version_of : Bytes → Option ℕ
  pub codec : Codec A

abbrev pub fresh : CheckpointFile
fresh = record { version = checkpoint_version; control = []; states = [] }

-- `f.States[resource]`.
unfoldable pub accepted_in : CheckpointFile → Bytes → StateAcceptance
accepted_in f resource = elim (lookup resource f.states) [
  | none ↦ record { heads = []; control = [] }
  | some a ↦ a
]

-- `missingFrom(accepted, has)`.
unfoldable pub missing_from : List Digest → (Digest → Bool) → Option Digest
missing_from [] shows = none
missing_from (d ∷ ds) shows = if not (shows d) then some d else missing_from ds shows

-- `shownOrExcused(g, excused)`; `none` for a nil function.
unfoldable pub shown_or_excused : Graph → Option (Digest → Bool) → Digest → Bool
shown_or_excused g excused d = has_rev g d || elim excused [ none ↦ false | some f ↦ f d ]

module _ (json : Json CheckpointFile) where
  -- `read()`.
  unfoldable pub read : Disk → Result CheckpointFile
  read absent = ok fresh
  read unreadable = err failed
  read (contents b) = elim (json.version_of b) [
    | none ↦ err failed
    | some v ↦
        if ltb v 1 || ltb checkpoint_version v
        then err failed
        else if ltb v checkpoint_version
        then ok fresh
        else or_err (json.codec.unmarshal b)
  ]

  -- `write(f)`.
  unfoldable pub write : CheckpointFile → Result Disk
  write f = or_err (json.codec.marshal f) >>= λ b. ok (contents b)

  -- `update(fn)`; `none` if `fn` reports no change.
  unfoldable pub update : Disk → (CheckpointFile → Result (Option CheckpointFile)) → Result Disk
  unfolding read write
  update disk fn = do f ← read disk; r ← fn f; elim r [ none ↦ ok disk | some f' ↦ write f' ]

  -- `Control()`.
  unfoldable pub accepted_control : Disk → Result (List Digest)
  unfolding read
  accepted_control disk = read disk >>= λ f. ok f.control

  -- `Accepted(resource)`.
  unfoldable pub accepted : Disk → Bytes → Result StateAcceptance
  unfolding read accepted_in
  accepted disk resource = read disk >>= λ f. ok (accepted_in f resource)

  -- `State(resource)`.
  unfoldable pub accepted_state : Disk → Bytes → Result (List Digest)
  unfolding accepted
  accepted_state disk resource = accepted disk resource >>= λ a. ok a.heads

  -- The function that `AcceptControl` runs under the lock.
  unfoldable pub accept_control_fn : ControlView → CheckpointFile → Result (Option CheckpointFile)
  unfolding missing_from
  accept_control_fn view f = elim (missing_from f.control (λ d. is_some (get view d))) [
    | some d ↦ err rollback
    | none ↦
        if same_digests f.control (digests_of view.heads)
        then ok none
        else ok (some (record f { control = digests_of view.heads }))
  ]

  -- `AcceptControl(view)`.
  unfoldable pub accept_control : Disk → ControlView → Result Disk
  unfolding update accept_control_fn
  accept_control disk view = update disk (accept_control_fn view)

  -- `CheckStates(resource, g, excused)`.
  unfoldable pub check_states : Disk → Bytes → Graph → Option (Digest → Bool) → Result (Unit {0})
  unfolding accepted_state missing_from shown_or_excused
  check_states disk resource g excused = do
    heads ← accepted_state disk resource
    elim (missing_from heads (shown_or_excused g excused)) [ some d ↦ err rollback | none ↦ ok tt ]

  -- The function that `AcceptStates` runs under the lock; `heads` are sorted.
  unfoldable pub accept_states_fn :
      Bytes
      → Graph
      → Option (Digest → Bool)
      → List Digest
      → Digest
      → CheckpointFile
      → Result (Option CheckpointFile)
  unfolding missing_from shown_or_excused accepted_in
  accept_states_fn resource g excused heads control f =
      let old = accepted_in f resource in
      elim (missing_from old.heads (shown_or_excused g excused)) [
        | some d ↦ err rollback
        | none ↦
            if same_digests old.heads heads && old.control == control
            then ok none
            else ok (
                some (record f {
                  states = put resource (record { heads = heads; control = control }) f.states;
                }))
      ]

  -- `AcceptStates(resource, g, excused, heads, control)`.
  unfoldable pub accept_states :
      Disk → Bytes → Graph → Option (Digest → Bool) → List Digest → Digest → Result Disk
  unfolding update accept_states_fn
  accept_states disk resource g excused heads control =
      update disk (accept_states_fn resource g excused (sort_bytes heads) control)
