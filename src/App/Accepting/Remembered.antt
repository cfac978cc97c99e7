-- ===== src/App/Accepting/Remembered.antt =====
-- What the checkpoint holds after `acceptPublished`.
use enbu.Prelude.{
  ℕ, zero, suc, ◌≤◌, arith, Bytes, true, some, List, [], ◌∷◌, ◌≡◌, ◌⊎◌, inl, inr, All, sort_bytes,
  Bool-cases,
}
use enbu.Outcome.{Result, ok, err, >>=-eq-ok, Result-cases}
use enbu.Graph.{Digest}
use enbu.Wsp.{Protocol}
use enbu.Wsp.Compacting.{excuses}
use enbu.Wsp.Checkpoint.{
  Json, Disk, CheckpointFile, StateAcceptance, read, update, accepted, accepted_in, accept_states,
  shown_or_excused,
}
use enbu.Wsp.Checkpoint.Accepting.{JsonLaws}
use enbu.Wsp.Checkpoint.Accepted.{StatesAccepted, accept_states-StatesAccepted}
use enbu.Wsp.Revisions.{StateView}
use enbu.App.Heads.{Session, digests, trusted_heads}
use enbu.App.Reading.{is_rollback, accepted_retries, load_resource}
use enbu.App.Reading.Guarded.{IsGuarded, load_resource-IsGuarded}
use enbu.App.Accepting.{Moment, accept_view, accept_or_retry, accept_attempts, accept_published}

module _ (P : Protocol) (json : Json CheckpointFile) (laws : JsonLaws json) (s : Session)
    (resource : Bytes) where
  -- The checkpoint's file `disk` after a view was accepted at a moment: the view is guarded, every head
  -- accepted until then is shown or excused in it, and what is accepted now are its heads that are trusted
  -- after what the file had first.
  pub record IsRemembered (rev : Digest) (m : Moment) (disk : Disk) : Type 0 where
    pub view : StateView
    pub attempt : ℕ
    pub in_time : attempt ≤ accepted_retries
    pub guarded : IsGuarded P json s resource (rev ∷ []) (m.answers attempt) view
    pub remembered : StateAcceptance
    pub reads_remembered : accepted json m.before resource ≡ ok remembered
    pub old : CheckpointFile
    pub reads_old : read json m.locked ≡ ok old
    pub shown :
        All
          (λ d. shown_or_excused view.graph (some (excuses view.compacted)) d ≡ true)
          (accepted_in old resource).heads
    pub new : CheckpointFile
    pub reads_new : read json disk ≡ ok new
    pub changed :
        StatesAccepted resource
          (sort_bytes (digests (trusted_heads s view remembered)))
          s.head.digest
          old
          new

  accept_states-read :
      (disk : Disk) (sv : StateView) (heads : List Digest) {disk' : Disk}
      → accept_states json disk resource sv.graph (some (excuses sv.compacted)) heads s.head.digest
        ≡ ok disk'
      → (old : CheckpointFile) × (read json disk ≡ ok old)
  unfolding accept_states update
  accept_states-read disk sv heads h = elim (Result-cases (read json disk)) [
    | inl (e, q) ↦ absurd (cc (rw (q, accept_states, update) at h))
    | inr (old, q) ↦ (old, q)
  ]

  accept_view-IsRemembered :
      (m : Moment) (sv : StateView) (rev : Digest) (disk : Disk)
      → load_resource P json s resource m.answers (rev ∷ []) ≡ ok sv
      → accept_view P json s resource m sv ≡ ok disk
      → IsRemembered rev m disk
  unfolding accept_view
  accept_view-IsRemembered m sv rev disk l h =
      let excused = some (excuses sv.compacted) in
      let (remembered, ra, a) =
        >>=-eq-ok (accepted json m.before resource)
          (λ r.
            accept_states json m.locked resource sv.graph excused (digests (trusted_heads s sv r))
              s.head.digest)
          h in
      let heads = digests (trusted_heads s sv remembered) in
      let (old, reads) = accept_states-read m.locked sv heads a in
      let (shown, w) =
        accept_states-StatesAccepted json laws m.locked disk old reads resource sv.graph excused
          heads s.head.digest a in
      let (new, written, changed) = w in
      let (i, b, g) = load_resource-IsGuarded P json s resource m.answers (rev ∷ []) sv l in
      record {
        view = sv;
        attempt = i;
        in_time = b;
        guarded = g;
        remembered = remembered;
        reads_remembered = ra;
        old = old;
        reads_old = reads;
        shown = shown;
        new = new;
        reads_new = written;
        changed = changed;
      }

  accept_or_retry-cases :
      (again result : Result Disk) (disk : Disk)
      → accept_or_retry again result ≡ ok disk
      → (result ≡ ok disk) ⊎ (again ≡ ok disk)
  unfolding accept_or_retry
  accept_or_retry-cases again (ok d) disk h = inl h
  accept_or_retry-cases again (err e) disk h = elim (Bool-cases (is_rollback e)) [
    | inl q ↦ inr (rw (q, accept_or_retry) at h)
    | inr q ↦ absurd (cc (rw (q, accept_or_retry) at h))
  ]

  accept_attempts-IsRemembered :
      (moments : ℕ → Moment) (left : ℕ) (rev : Digest) (disk : Disk)
      → accept_attempts P json s resource moments left rev ≡ ok disk
      → (i : ℕ) × (i ≤ left) × IsRemembered rev (moments i) disk
  unfolding accept_attempts
  accept_attempts-IsRemembered moments zero rev disk h =
      let m = moments zero in
      let (sv, l, a) =
        >>=-eq-ok (load_resource P json s resource m.answers (rev ∷ []))
          (λ sv. accept_view P json s resource m sv) h in
      (0, omega arith, accept_view-IsRemembered m sv rev disk l a)
  accept_attempts-IsRemembered moments (suc left) rev disk h =
      let m = moments (suc left) in
      let again = accept_attempts P json s resource moments left rev in
      let (sv, l, a) =
        >>=-eq-ok (load_resource P json s resource m.answers (rev ∷ []))
          (λ sv. accept_or_retry again (accept_view P json s resource m sv)) h in
      elim (accept_or_retry-cases again (accept_view P json s resource m sv) disk a) [
        | inl r ↦ (suc left, omega arith, accept_view-IsRemembered m sv rev disk l r)
        | inr r ↦
            let (i, b, k) = accept_attempts-IsRemembered moments left rev disk r in
            (i, omega arith, k)
      ]

  -- If acceptPublished succeeds, then in one of its attempts, if what JSON writes reads back: the
  -- resource was loaded again, with the revision asked for by name, in a view that loadResource guards, every head accepted until the lock
  -- was taken is shown or excused in it, and the checkpoint's file then holds its trusted heads and the
  -- current Control for the resource, and says of Controls and other resources what it did.
  pub accept_published-IsRemembered :
      (moments : ℕ → Moment) (rev : Digest) (disk : Disk)
      → accept_published P json s resource moments rev ≡ ok disk
      → (i : ℕ) × (i ≤ accepted_retries) × IsRemembered rev (moments i) disk
  unfolding accept_published
  accept_published-IsRemembered moments rev disk h =
      accept_attempts-IsRemembered moments accepted_retries rev disk h
