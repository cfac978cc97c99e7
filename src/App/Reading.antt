-- ===== src/App/Reading.antt =====
-- app/workspace.go, `loadResource`: the verified revisions of a resource, held against what the device
-- accepted before.
pub mod Guarded
use enbu.Prelude.{
  ℕ, zero, suc, Bytes, Bool, true, false, not, ◌||◌, Option, none, some, List, [], ◌∷◌, ◌++◌, eqb,
  if◌then◌else◌,
}
use enbu.Outcome.{Result, Error, ok, err, rollback, not_found, is_ok, ◌>>=◌, ◌>>◌}
use enbu.Graph.{Digest, len, missing}
use enbu.Storage.{Store}
use enbu.Wsp.{Protocol}
use enbu.Wsp.Members.{is_none_list}
use enbu.Wsp.Compacting.{Compacted, no_compaction, compute, excuses, load_compactions}
use enbu.Wsp.Checkpoint.{Json, Disk, CheckpointFile, accepted_state, check_states}
use enbu.Wsp.Revisions.{StateView, load_states}
use enbu.App.Heads.{Session}

-- `acceptedRetries`.
abbrev pub accepted_retries : ℕ
accepted_retries = 2

abbrev pub is_rollback : Error → Bool
is_rollback rollback = true
is_rollback e = false

-- What storage answers in one attempt, and the checkpoint's file each time that it reads it, since
-- other processes may change it: first, when it checks the view with its deletion records, and after that
-- check refused the view.
pub record Answers : Type 0 where
  pub store : Store
  pub first : Disk
  pub disk : Disk
  pub later : Disk

module _ (P : Protocol) (json : Json CheckpointFile) (s : Session) (resource : Bytes) where
  -- `sv.Compacted`: the deletion records are loaded only if something is missing.
  unfoldable pub load_compacted : Answers → StateView → Result Compacted
  unfolding missing check_states load_compactions compute
  load_compacted a sv =
      let loaded = load_compactions P a.store s.view s.view.workspace resource >>= λ records.
      ok (compute records sv.graph) in
      let unshown = not (is_ok (check_states json a.first resource sv.graph none)) in
      if not (is_none_list (missing sv.graph)) || unshown then loaded else ok no_compaction

  -- Storage shows no revision at all; `retry` is the next attempt, `none` after the last.
  unfoldable pub load_nothing :
      Option (List Digest → Result StateView) → List Digest → List Digest → Result StateView
  load_nothing retry also [] = err not_found
  load_nothing none also (d ∷ ds) = err rollback
  load_nothing (some again) also (d ∷ ds) = again (also ++ (d ∷ ds))

  -- `CheckStates` refused the view with an error.
  unfoldable pub load_refused :
      Answers → Option (List Digest → Result StateView) → List Digest → Error → Result StateView
  unfolding accepted_state
  load_refused a none also e = err e
  load_refused a (some again) also e =
      let next = accepted_state json a.later resource >>= λ accepted. again (also ++ accepted) in
      if not (is_rollback e) then err e else next

  -- `CheckStates` with the deletion records, and what follows.
  unfoldable pub load_checked :
      Answers
      → Option (List Digest → Result StateView)
      → List Digest
      → StateView
      → Compacted
      → Result StateView
  unfolding check_states excuses load_refused
  load_checked a retry also sv c =
      elim (check_states json a.disk resource sv.graph (some (excuses c))) [
        | ok u ↦ ok (record sv { compacted = c })
        | err e ↦ load_refused a retry also e
      ]

  -- What an attempt does with the view that it loaded.
  unfoldable pub load_view :
      Answers → Option (List Digest → Result StateView) → List Digest → StateView → Result StateView
  unfolding len accepted_state load_nothing load_compacted load_checked
  load_view a retry also sv =
      let nothing =
        accepted_state json a.first resource >>= λ accepted. load_nothing retry also accepted in
      let something = load_compacted a sv >>= λ c. load_checked a retry also sv c in
      if eqb (len sv.graph) 0 then nothing else something

  -- One attempt of `loadResource`.
  unfoldable pub load_attempt :
      Answers → Option (List Digest → Result StateView) → List Digest → Result StateView
  unfolding load_states load_view
  load_attempt a retry also = load_states P s.view s.view.workspace resource a.store also >>= λ sv.
      load_view a retry also sv

  -- The loop, over the attempts that are left after this one; `answers` are those of each attempt.
  unfoldable pub load_attempts : (ℕ → Answers) → ℕ → List Digest → Result StateView
  unfolding load_attempt
  load_attempts answers zero also = load_attempt (answers zero) none also
  load_attempts answers (suc left) also =
      load_attempt (answers (suc left)) (some (λ more. load_attempts answers left more)) also

  -- `loadResource(ctx, resource, also...)`.
  unfoldable pub load_resource : (ℕ → Answers) → List Digest → Result StateView
  unfolding load_attempts
  load_resource answers also = load_attempts answers accepted_retries also
