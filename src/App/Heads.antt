-- ===== src/App/Heads.antt =====
-- app/workspace.go, `trustedHeads`: the heads of a resource that a device may read as current. The loop
-- runs over digests in place of pointers to revisions; a revision's digest is its key in `States`.
pub mod Standing
use enbu.Prelude.{
  ℕ, suc, ◌+◌, Bytes, ◌==◌, Bool, true, false, not, ◌&&◌, ◌||◌, none, some, List, [], ◌∷◌, ◌++◌,
  any, has, keys, length, lookup, select, is_some, sort_bytes, if◌then◌else◌,
}
use enbu.Prelude.Walk.{Look, skip, expand, walk, Walked, done, stopped, spent}
use enbu.Prelude.Walk.Total.{remaining}
use enbu.Outcome.{is_ok}
use enbu.Graph.{Digest, ancestors}
use enbu.Signing.{DeviceId}
use enbu.Wsp.Members.{Verified}
use enbu.Wsp.Chain.{ControlView}
use enbu.Wsp.Membership.{membership_unbroken, enqueue}
use enbu.Wsp.Compacting.{above_floors}
use enbu.Wsp.Checkpoint.{StateAcceptance}
use enbu.Wsp.Revisions.{VerifiedState, StateView, author_is_current, states_of}

abbrev pub digests : List VerifiedState → List Digest
digests [] = []
digests (h ∷ hs) = h.digest ∷ digests hs

-- `s.view`, `s.head` and `s.self()` of the session.
pub record Session : Type 0 where
  pub view : ControlView
  pub head : Verified
  pub self : DeviceId

module _ (s : Session) (sv : StateView) (accepted : StateAcceptance) where
  -- The closure `trusted`.
  unfoldable pub trusted : VerifiedState → Bool
  unfolding above_floors author_is_current membership_unbroken has
  trusted h =
      if not (above_floors sv.compacted sv.graph h.digest)
      then false
      else is_ok (author_is_current s.view s.head h)
        || (has h.digest accepted.heads
            && membership_unbroken s.view s.head.digest accepted.control s.self)

  -- Whether the revision with this digest is trusted.
  unfoldable pub trusted_rev : Digest → Bool
  unfolding trusted
  trusted_rev d = elim (lookup d sv.states) [ none ↦ false | some h ↦ trusted h ]

  -- The parents that stand in for a revision: those that `States` holds.
  unfoldable pub stand_ins : Digest → List Digest
  stand_ins d = elim (lookup d sv.states) [
    | none ↦ []
    | some h ↦ select (λ p. is_some (lookup p sv.states)) h.state.parents
  ]

  -- The body of the loop over the queue. A head that `States` lacks does not occur.
  unfoldable pub consider : Digest → Look
  unfolding trusted stand_ins
  consider d = elim (lookup d sv.states) [
    | none ↦ skip
    | some h ↦ if trusted h then expand [] else expand (stand_ins d)
  ]

  -- Enough rounds: one for each head, and for every parent that stands in once.
  unfoldable pub head_rounds : ℕ
  unfolding stand_ins
  head_rounds =
      length (digests sv.heads) + remaining (λ d. length (stand_ins d)) [] (keys sv.states)

  -- What the loop collects, in another order; the result is sorted.
  unfoldable pub standing : List Digest
  unfolding consider head_rounds enqueue walk trusted_rev
  standing = elim (walk consider enqueue head_rounds [] [] (digests sv.heads)) [
    | done seen popped ↦ select trusted_rev seen
    | stopped ↦ []
    | spent ↦ []
  ]

  -- The inner loop over `heads`.
  unfoldable pub covered : List Digest → Digest → Bool
  unfolding ancestors has
  covered hs d = any (λ other. not (other == d) && has d (ancestors sv.graph other)) hs

  -- The digests of `trustedHeads(sv, accepted)`.
  unfoldable pub trusted_revs : List Digest
  unfolding standing covered sort_bytes
  trusted_revs = sort_bytes (select (λ d. not (covered standing d)) standing)

  -- `trustedHeads(sv, accepted)`.
  unfoldable pub trusted_heads : List VerifiedState
  unfolding trusted_revs states_of
  trusted_heads = states_of sv.states trusted_revs
