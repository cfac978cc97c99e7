-- ===== src/App/Accepting.antt =====
-- app/workspace.go, `acceptView` and `acceptPublished`: advancing the checkpoint after a write.
pub mod Remembered
use enbu.Prelude.{ℕ, zero, suc, Bytes, some, List, [], ◌∷◌, if◌then◌else◌}
use enbu.Outcome.{Result, Error, ok, err, ◌>>=◌}
use enbu.Graph.{Digest}
use enbu.Wsp.{Protocol}
use enbu.Wsp.Compacting.{excuses}
use enbu.Wsp.Checkpoint.{Json, Disk, CheckpointFile, StateAcceptance, accepted, accept_states}
use enbu.Wsp.Revisions.{StateView}
use enbu.App.Heads.{Session, digests, trusted_heads}
use enbu.App.Reading.{Answers, accepted_retries, is_rollback, load_resource}

-- What an attempt is answered: by the loads in it, and the checkpoint's file when `acceptView` first
-- reads it and when it holds the lock.
pub record Moment : Type 0 where
  pub answers : ℕ → Answers
  pub before : Disk
  pub locked : Disk

-- The end of one attempt of `acceptPublished`, where `again` is what the next one returns.
unfoldable pub accept_or_retry : Result Disk → Result Disk → Result Disk
accept_or_retry again (ok disk) = ok disk
accept_or_retry again (err e) = if is_rollback e then again else err e

module _ (P : Protocol) (json : Json CheckpointFile) (s : Session) (resource : Bytes) where
  -- `acceptView(resource, sv)`.
  unfoldable pub accept_view : Moment → StateView → Result Disk
  unfolding accepted accept_states excuses trusted_heads
  accept_view m sv = do
    remembered ← accepted json m.before resource
    accept_states json m.locked resource sv.graph (some (excuses sv.compacted))
        (digests (trusted_heads s sv remembered)) s.head.digest

  -- The loop, over the attempts that are left after this one.
  unfoldable pub accept_attempts : (ℕ → Moment) → ℕ → Digest → Result Disk
  unfolding load_resource accept_view accept_or_retry
  accept_attempts moments zero rev =
      load_resource P json s resource ((moments zero).answers) (rev ∷ []) >>= λ sv.
      accept_view (moments zero) sv
  accept_attempts moments (suc left) rev =
      let again = accept_attempts moments left rev in
      load_resource P json s resource ((moments (suc left)).answers) (rev ∷ []) >>= λ sv.
      accept_or_retry again (accept_view (moments (suc left)) sv)

  -- `acceptPublished(ctx, resource, st)` of the revision `st.Digest`.
  unfoldable pub accept_published : (ℕ → Moment) → Digest → Result Disk
  unfolding accept_attempts
  accept_published moments rev = accept_attempts moments accepted_retries rev
