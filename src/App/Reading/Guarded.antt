-- ===== src/App/Reading/Guarded.antt =====
-- What a view that `loadResource` returns is held against.
use mathlib.Core.List.{append-nil, append_assoc}
use enbu.Prelude.{
  ℕ, zero, suc, ◌≤◌, arith, Bytes, true, false, Option, none, some, List, [], ◌∷◌, ◌++◌, ◌≡◌, ◌⊎◌,
  inl, inr, refl, sym, subst, eqb, not, ◌||◌, All, Bool-cases, Option-cases,
}
use enbu.Outcome.{Result, Error, ok, err, rollback, >>=-eq-ok, is_ok, ok_injective, Result-cases}
use enbu.Graph.{Digest, len, missing}
use enbu.Wsp.{Protocol}
use enbu.Wsp.Members.{is_none_list}
use enbu.Wsp.Compacting.{
  Compacted, VerifiedCompaction, no_compaction, compute, excuses, load_compactions,
}
use enbu.Wsp.Checkpoint.{
  Json, CheckpointFile, accepted_state, check_states, missing_from, shown_or_excused,
}
use enbu.Wsp.Checkpoint.Accepting.{missing_from-none}
use enbu.Wsp.Revisions.{StateView, load_states}
use enbu.Wsp.Revisions.Loaded.{IsLoadedView, load_states-IsLoadedView}
use enbu.App.Heads.{Session}
use enbu.App.Reading.{
  Answers, accepted_retries, is_rollback, load_compacted, load_nothing, load_refused, load_checked,
  load_view, load_attempt, load_attempts, load_resource,
}

module _ (P : Protocol) (json : Json CheckpointFile) (s : Session) (resource : Bytes) where
  -- No parent is missing, and all accepted heads are shown.
  abbrev pub AllShown : Answers → StateView → Type 0
  AllShown a loaded =
      (missing loaded.graph ≡ []) × (check_states json a.first resource loaded.graph none ≡ ok tt)

  -- The deletion records of a view: none if no parent is missing and all accepted heads are shown, or
  -- what the records that the store shows come to.
  abbrev pub IsExcusedBy : Answers → StateView → Compacted → Type 0
  IsExcusedBy a loaded c =
      (AllShown a loaded × (c ≡ no_compaction))
      ⊎ ((records : List VerifiedCompaction) × ¬ (AllShown a loaded)
          × (load_compactions P a.store s.view s.view.workspace resource ≡ ok records)
          × (c ≡ compute records loaded.graph))

  is_none_list_nil : {A : Type 0} (xs : List A) → is_none_list xs ≡ true → xs ≡ []
  is_none_list_nil [] e = refl
  is_none_list_nil (x ∷ xs) e = absurd (cc e)

  is_ok-ok : (r : Result (Unit {0})) → is_ok r ≡ true → r ≡ ok tt
  is_ok-ok (ok u) e = refl
  is_ok-ok (err x) e = absurd (cc e)

  -- The answers of one attempt stand behind the view: it is what `LoadStates` gives of what its store
  -- answers, asked for `also` by name and perhaps for more; it is not empty; its deletion records are
  -- none if nothing is missing, and otherwise computed from those that the store shows; and every head
  -- accepted before is shown or excused.
  pub record IsGuarded (also : List Digest) (a : Answers) (sv : StateView) : Type 0 where
    pub more : List Digest
    pub loaded : StateView
    pub loads : load_states P s.view s.view.workspace resource a.store (also ++ more) ≡ ok loaded
    pub is_loaded : IsLoadedView P s.view s.view.workspace resource loaded
    pub some_revision : eqb (len loaded.graph) 0 ≡ false
    pub compacted : Compacted
    pub excused_by : IsExcusedBy a loaded compacted
    pub same : record loaded { compacted = compacted } ≡ sv
    pub accepted : List Digest
    pub reads_accepted : accepted_state json a.disk resource ≡ ok accepted
    pub shown : All (λ d. shown_or_excused sv.graph (some (excuses sv.compacted)) d ≡ true) accepted

  load_compacted-IsExcusedBy :
      (a : Answers) (loaded : StateView) (c : Compacted)
      → load_compacted P json s resource a loaded ≡ ok c
      → IsExcusedBy a loaded c
  unfolding load_compacted
  load_compacted-IsExcusedBy a loaded c e =
      let shown = is_ok (check_states json a.first resource loaded.graph none) in
      elim (Bool-cases (not (is_none_list (missing loaded.graph)) || not shown)) [
        | inl t ↦
            let (rs, r, w) =
              >>=-eq-ok (load_compactions P a.store s.view s.view.workspace resource)
                (λ rs. ok (compute rs loaded.graph)) (rw (t, load_compacted) at e) in
            inr (rs, λ (m, k). absurd (cc (rw (m, k) at t)), r, sym (ok_injective w))
        | inr n ↦ inl (
          (
            is_none_list_nil (missing loaded.graph) (ground arith),
            is_ok-ok (check_states json a.first resource loaded.graph none) (ground arith),
          ),
          sym (ok_injective (rw (n, load_compacted) at e)),
        )
      ]

  check_states-All :
      (a : Answers) (sv : StateView) (c : Compacted)
      → check_states json a.disk resource sv.graph (some (excuses c)) ≡ ok tt
      → (heads : List Digest) × (accepted_state json a.disk resource ≡ ok heads)
        × All (λ d. shown_or_excused sv.graph (some (excuses c)) d ≡ true) heads
  unfolding check_states
  check_states-All a sv c h =
      let test = shown_or_excused sv.graph (some (excuses c)) in
      let (heads, q, e) =
        >>=-eq-ok (accepted_state json a.disk resource)
          (λ heads. elim (missing_from heads test) as (λ o. Result (Unit {0})) [
            | some d ↦ err rollback
            | none ↦ ok tt
          ])
          h in
      elim (Option-cases (missing_from heads test)) [
        | inl m ↦ (heads, q, missing_from-none test heads m)
        | inr (d, m) ↦ absurd (cc (rw m at e))
      ]

  -- An attempt returns a guarded view, or what a later attempt returns.
  Attempt : Option (List Digest → Result StateView) → List Digest → Answers → StateView → Type 0
  Attempt none also a sv = IsGuarded also a sv
  Attempt (some again) also a sv =
      IsGuarded also a sv ⊎ ((more : List Digest) × (again (also ++ more) ≡ ok sv))

  load_nothing-Attempt :
      (retry : Option (List Digest → Result StateView))
      → (a : Answers) (sv : StateView) (also accepted : List Digest)
      → load_nothing P json s resource retry also accepted ≡ ok sv
      → Attempt retry also a sv
  unfolding load_nothing Attempt
  load_nothing-Attempt none a sv also [] h = absurd (cc h)
  load_nothing-Attempt (some again) a sv also [] h = absurd (cc h)
  load_nothing-Attempt none a sv also (d ∷ ds) h = absurd (cc h)
  load_nothing-Attempt (some again) a sv also (d ∷ ds) h = inr (d ∷ ds, h)

  load_refused-Attempt :
      (retry : Option (List Digest → Result StateView))
      → (a : Answers) (sv : StateView) (also : List Digest) (e : Error)
      → load_refused P json s resource a retry also e ≡ ok sv
      → Attempt retry also a sv
  unfolding load_refused Attempt
  load_refused-Attempt none a sv also e h = absurd (cc h)
  load_refused-Attempt (some again) a sv also e h = elim (Bool-cases (is_rollback e)) [
    | inr q ↦ absurd (cc (rw q at h))
    | inl q ↦
        let (accepted, _, r) =
          >>=-eq-ok (accepted_state json a.later resource) (λ accepted. again (also ++ accepted))
            (rw q at h) in
        inr (accepted, r)
  ]

  -- A guarded view is what an attempt may return, whatever attempts are left.
  guarded-Attempt :
      (retry : Option (List Digest → Result StateView))
      → (also : List Digest) (a : Answers) (sv : StateView) → IsGuarded also a sv
      → Attempt retry also a sv
  unfolding Attempt
  guarded-Attempt none also a sv g = g
  guarded-Attempt (some again) also a sv g = inl g

  load_checked-Attempt :
      (retry : Option (List Digest → Result StateView))
      → (a : Answers) (sv loaded : StateView) (also : List Digest) (c : Compacted)
      → load_states P s.view s.view.workspace resource a.store also ≡ ok loaded
      → (eqb (len loaded.graph) 0 ≡ false)
      → (load_compacted P json s resource a loaded ≡ ok c)
      → load_checked P json s resource a retry also loaded c ≡ ok sv
      → Attempt retry also a sv
  unfolding load_checked
  load_checked-Attempt retry a sv loaded also c l n q h =
      elim (Result-cases (check_states json a.disk resource loaded.graph (some (excuses c)))) [
        | inl (e, r) ↦ load_refused-Attempt retry a sv also e (rw (r, load_checked) at h)
        | inr (u, r) ↦
            let same = ok_injective (rw (r, load_checked) at h) in
            let (accepted, reads, all) = check_states-All a loaded c r in
            guarded-Attempt retry also a sv (
              subst (λ v. IsGuarded also a v) same
                (record {
                  more = [];
                  loaded = loaded;
                  loads =
                      subst
                        (λ x. load_states P s.view s.view.workspace resource a.store x ≡ ok loaded)
                        (sym (append-nil also)) l;
                  is_loaded =
                      load_states-IsLoadedView P s.view s.view.workspace resource a.store also
                        loaded l;
                  some_revision = n;
                  compacted = c;
                  excused_by = load_compacted-IsExcusedBy a loaded c q;
                  same = refl;
                  accepted = accepted;
                  reads_accepted = reads;
                  shown = all;
                }))
      ]

  load_view-Attempt :
      (retry : Option (List Digest → Result StateView))
      → (a : Answers) (sv loaded : StateView) (also : List Digest)
      → load_states P s.view s.view.workspace resource a.store also ≡ ok loaded
      → load_view P json s resource a retry also loaded ≡ ok sv
      → Attempt retry also a sv
  unfolding load_view
  load_view-Attempt retry a sv loaded also l h = elim (Bool-cases (eqb (len loaded.graph) 0)) [
    | inl q ↦
        let (accepted, _, r) =
          >>=-eq-ok (accepted_state json a.first resource)
            (λ accepted. load_nothing P json s resource retry also accepted) (rw q at h) in
        load_nothing-Attempt retry a sv also accepted r
    | inr q ↦
        let (c, w, r) =
          >>=-eq-ok (load_compacted P json s resource a loaded)
            (λ c. load_checked P json s resource a retry also loaded c) (rw q at h) in
        load_checked-Attempt retry a sv loaded also c l q w r
  ]

  load_attempt-Attempt :
      (retry : Option (List Digest → Result StateView))
      → (a : Answers) (sv : StateView) (also : List Digest)
      → load_attempt P json s resource a retry also ≡ ok sv
      → Attempt retry also a sv
  unfolding load_attempt
  load_attempt-Attempt retry a sv also h =
      let (loaded, w, r) =
        >>=-eq-ok (load_states P s.view s.view.workspace resource a.store also)
          (λ sv. load_view P json s resource a retry also sv) h in
      load_view-Attempt retry a sv loaded also w r

  -- What was asked for in a later attempt was asked for in this one, and more.
  asked_less :
      (also more : List Digest) (a : Answers) (sv : StateView)
      → IsGuarded (also ++ more) a sv
      → IsGuarded also a sv
  asked_less also more a sv g = record {
    more = more ++ g.more;
    loaded = g.loaded;
    loads =
        subst (λ x. load_states P s.view s.view.workspace resource a.store x ≡ ok g.loaded)
          (append_assoc also more g.more) g.loads;
    is_loaded = g.is_loaded;
    some_revision = g.some_revision;
    compacted = g.compacted;
    excused_by = g.excused_by;
    same = g.same;
    accepted = g.accepted;
    reads_accepted = g.reads_accepted;
    shown = g.shown;
  }

  load_attempts-IsGuarded :
      (answers : ℕ → Answers) (left : ℕ) (also : List Digest) (sv : StateView)
      → load_attempts P json s resource answers left also ≡ ok sv
      → (i : ℕ) × (i ≤ left) × IsGuarded also (answers i) sv
  unfolding load_attempts Attempt
  load_attempts-IsGuarded answers zero also sv h =
      (0, omega arith, load_attempt-Attempt none (answers zero) sv also h)
  load_attempts-IsGuarded answers (suc left) also sv h =
      let again : List Digest → Result StateView =
        λ more. load_attempts P json s resource answers left more in
      elim (load_attempt-Attempt (some again) (answers (suc left)) sv also h) [
        | inl g ↦ (suc left, omega arith, g)
        | inr (more, r) ↦
            let (i, b, g) = load_attempts-IsGuarded answers left (also ++ more) sv r in
            (i, omega arith, asked_less also more (answers i) sv g)
      ]

  -- A view that `loadResource` returns is the one that `LoadStates` gives of what the store answered in
  -- one of its attempts, asked for `also` at least; it shows a revision; its deletion records are none if
  -- neither a parent nor an accepted head is missing, and otherwise what the records of that store come
  -- to; and every head that the checkpoint's file then holds for the resource is shown or excused by them.
  pub load_resource-IsGuarded :
      (answers : ℕ → Answers) (also : List Digest) (sv : StateView)
      → load_resource P json s resource answers also ≡ ok sv
      → (i : ℕ) × (i ≤ accepted_retries) × IsGuarded also (answers i) sv
  unfolding load_resource
  load_resource-IsGuarded answers also sv h =
      load_attempts-IsGuarded answers accepted_retries also sv h
