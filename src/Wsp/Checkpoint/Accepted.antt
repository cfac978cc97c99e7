-- ===== src/Wsp/Checkpoint/Accepted.antt =====
-- What a device that accepts heads remembers, and which views it refuses.
use enbu.Prelude.{
  Bytes, ◌==◌, eq_iff, ==_refl, Bool, true, false, ◌&&◌, Option, none, some, List, ◌≡◌, ◌⊎◌, inl,
  inr, refl, sym, ap, subst, ◌∙◌, arith, All, sort_bytes, lookup, put, lookup-put, is_some,
  Bool-cases, Option-cases, if◌then◌else◌,
}
use enbu.Outcome.{ok, ok_injective}
use enbu.Graph.{Digest, Graph}
use enbu.Wsp.Members.{same_digests}
use enbu.Wsp.Chain.{ControlView, get, digests_of}
use enbu.Wsp.Checkpoint.{
  StateAcceptance, CheckpointFile, Disk, Json, accepted_in, missing_from, shown_or_excused, read,
  accept_control_fn, accept_control, accept_states_fn, accept_states,
}
use enbu.Wsp.Checkpoint.Accepting.{
  SameFile, JsonLaws, missing_from-none, equal_of_same_digests, update-read,
}

-- How a file `after` an acceptance of `heads` under `control` for `resource` differs from `before`.
pub record StatesAccepted (resource : Bytes) (heads : List Digest) (control : Digest)
    (before after : CheckpointFile) : Type 0 where
  pub now_accepted : accepted_in after resource ≡ record { heads = heads; control = control }
  pub others : (r : Bytes) → (resource == r) ≡ false → accepted_in after r ≡ accepted_in before r
  pub control_kept : after.control ≡ before.control

module _ (json : Json CheckpointFile) (laws : JsonLaws json) (disk disk' : Disk)
    (f : CheckpointFile) (now : read json disk ≡ ok f) where
  module _ (resource : Bytes) (g : Graph) (excused : Option (Digest → Bool)) where
    -- The function run under the lock: nothing accepted is missing, and it makes the new file.
    fn-cases :
        (heads : List Digest) (control : Digest) (x : Option CheckpointFile)
        → accept_states_fn json resource g excused heads control f ≡ ok x
        → All (λ d. shown_or_excused g excused d ≡ true) (accepted_in f resource).heads
          × (((x ≡ none) × (accepted_in f resource ≡ record { heads = heads; control = control }))
              ⊎ (x
                  ≡ some (record f {
                    states = put resource (record { heads = heads; control = control }) f.states;
                  })))
    unfolding accept_states_fn
    fn-cases heads control x e =
        elim (Option-cases
          (missing_from (accepted_in f resource).heads (shown_or_excused g excused))) [
            | inr (d, q) ↦ absurd (cc (rw (q, accept_states_fn) at e))
            | inl q ↦
                elim (Bool-cases (
                  same_digests (accepted_in f resource).heads heads
                  && (accepted_in f resource).control == control)) [
                    | inl t ↦
                        let a =
                          equal_of_same_digests (accepted_in f resource).heads heads
                            (ground arith) in
                        let b =
                          (eq_iff (accepted_in f resource).control control).0 (ground arith) in
                        (
                          missing_from-none (shown_or_excused g excused)
                              (accepted_in f resource).heads q,
                          inl (sym (ok_injective (rw (q, t, accept_states_fn) at e)), same a b),
                        )
                    | inr n ↦ (
                      missing_from-none (shown_or_excused g excused) (accepted_in f resource).heads
                          q,
                      inr (sym (ok_injective (rw (q, n, accept_states_fn) at e))),
                    )
                  ]
          ]
      where
        same :
            {a : StateAcceptance} {hs : List Digest} {c : Digest}
            → a.heads ≡ hs
            → a.control ≡ c
            → a ≡ record { heads = hs; control = c }
        same p q = rw (← p, ← q) refl

    keeps :
        (heads : List Digest) (control : Digest) (f' : CheckpointFile)
        → accept_states_fn json resource g excused heads control f ≡ ok (some f')
        → f'.version ≡ f.version
    keeps heads control f' e = elim (fn-cases heads control (some f') e).1 [
      | inl (u, v) ↦ absurd (cc)
      | inr u ↦ version_of_eq u
    ]
      where
        version_of_eq : {x y : CheckpointFile} → some x ≡ some y → x.version ≡ y.version
        version_of_eq p =
            ap (λ (o : Option CheckpointFile). elim o [ none ↦ 0 | some z ↦ z.version ]) p

    -- The file with the new entry, read back.
    changed :
        (heads : List Digest) (control : Digest) (f1 f' : CheckpointFile)
        → f1 ≡ record f {
          states = put resource (record { heads = heads; control = control }) f.states;
        }
        → SameFile f' f1
        → StatesAccepted resource heads control f f'
    unfolding accepted_in
    changed heads control f1 f' e k = record {
      now_accepted = rw (entry resource, ==_refl resource, accepted_in) refl;
      others = λ r n. rw (entry r, n, accepted_in) refl;
      control_kept = k.same_control ∙ ap (λ (x : CheckpointFile). x.control) e;
    }
      where
        new : StateAcceptance
        new = record { heads = heads; control = control }

        entry :
            (r : Bytes)
            → lookup r f'.states ≡ (if resource == r then some new else lookup r f.states)
        entry r =
            k.same_states r
            ∙ ap (λ (x : CheckpointFile). lookup r x.states) e
            ∙ lookup-put resource r new f.states

    -- JSON is assumed to read back what it wrote, and the file to be readable before.
    -- If `AcceptStates` succeeds, every head that the device had accepted for the resource is in the
    -- graph or excused, and the file then holds the sorted `heads` and `control` for the resource and
    -- says of Controls and of other resources what it did.
    pub accept_states-StatesAccepted :
        (heads : List Digest) (control : Digest)
        → accept_states json disk resource g excused heads control ≡ ok disk'
        → All (λ d. shown_or_excused g excused d ≡ true) (accepted_in f resource).heads
          × ((f' : CheckpointFile) × (read json disk' ≡ ok f')
              × StatesAccepted resource (sort_bytes heads) control f f')
    unfolding accept_states accepted_in
    accept_states-StatesAccepted heads control e =
        let fn = accept_states_fn json resource g excused (sort_bytes heads) control in
        let (f', r, c) =
          update-read json laws disk disk' fn f (keeps (sort_bytes heads) control) now e in
        elim c [
          | inl (s, p) ↦
              let (a, b) = fn-cases (sort_bytes heads) control none s in
              (
                a,
                (
                  f',
                  r,
                  elim b [
                    | inl (u, v) ↦
                        subst (StatesAccepted resource (sort_bytes heads) control f) (sym p)
                          (record { now_accepted = v; others = λ x n. refl; control_kept = refl })
                    | inr u ↦ absurd (cc)
                  ],
                ),
              )
          | inr (f1, s, k) ↦
              let (a, b) = fn-cases (sort_bytes heads) control (some f1) s in
              (
                a,
                (
                  f',
                  r,
                  elim b [
                    | inl (u, v) ↦ absurd (cc)
                    | inr u ↦ changed (sort_bytes heads) control f1 f' (some_injective u) k
                  ],
                ),
              )
        ]
      where
        some_injective : {A : Type 0} {x y : A} → some x ≡ some y → x ≡ y
        some_injective p = cc

  module _ (view : ControlView) where
    control_cases :
        (x : Option CheckpointFile)
        → accept_control_fn json view f ≡ ok x
        → All (λ d. is_some (get view d) ≡ true) f.control
          × (((x ≡ none) × (f.control ≡ digests_of view.heads))
              ⊎ (x ≡ some (record f { control = digests_of view.heads })))
    unfolding accept_control_fn
    control_cases x e = elim (Option-cases (missing_from f.control (λ d. is_some (get view d)))) [
      | inr (d, q) ↦ absurd (cc (rw (q, accept_control_fn) at e))
      | inl q ↦ elim (Bool-cases (same_digests f.control (digests_of view.heads))) [
        | inl t ↦ (
          missing_from-none (λ d. is_some (get view d)) f.control q,
          inl (
            sym (ok_injective (rw (q, t, accept_control_fn) at e)),
            equal_of_same_digests f.control (digests_of view.heads) t,
          ),
        )
        | inr n ↦ (
          missing_from-none (λ d. is_some (get view d)) f.control q,
          inr (sym (ok_injective (rw (q, n, accept_control_fn) at e))),
        )
      ]
    ]

    control_version :
        (f' : CheckpointFile)
        → accept_control_fn json view f ≡ ok (some f')
        → f'.version ≡ f.version
    control_version f' e = elim (control_cases (some f') e).1 [
      | inl (u, v) ↦ absurd (cc)
      | inr u ↦ ap (λ (o : Option CheckpointFile). elim o [ none ↦ 0 | some z ↦ z.version ]) u
    ]

    other_states :
        (f1 f' : CheckpointFile) (resource : Bytes)
        → f1 ≡ record f { control = digests_of view.heads }
        → SameFile f' f1
        → accepted_in f' resource ≡ accepted_in f resource
    unfolding accepted_in
    other_states f1 f' resource e k =
        let p = k.same_states resource ∙ ap (λ (x : CheckpointFile). lookup resource x.states) e in
        rw (p, accepted_in) refl

  -- JSON is assumed to read back what it wrote, and the file to be readable before.
  -- If `AcceptControl` succeeds, the view holds every Control head that the device had accepted, and
  -- the file then holds the heads of the view and says of resources what it did.
  pub accept_control-holds :
      (view : ControlView)
      → accept_control json disk view ≡ ok disk'
      → All (λ d. is_some (get view d) ≡ true) f.control
        × ((f' : CheckpointFile) × (read json disk' ≡ ok f')
            × (f'.control ≡ digests_of view.heads)
            × ((resource : Bytes) → accepted_in f' resource ≡ accepted_in f resource))
  unfolding accept_control
  accept_control-holds view e =
      let (f', r, c) =
        update-read json laws disk disk' (accept_control_fn json view) f (control_version view) now
          e in
      elim c [
        | inl (s, p) ↦
            let (a, b) = control_cases view none s in
            (
              a,
              (
                f',
                r,
                elim b [
                  | inl (u, v) ↦ ap (λ (x : CheckpointFile). x.control) p ∙ v
                  | inr u ↦ absurd (cc)
                ],
                λ resource. ap (λ (x : CheckpointFile). accepted_in x resource) p,
              ),
            )
        | inr (f1, s, k) ↦
            let (a, b) = control_cases view (some f1) s in
            elim b [
              | inl (u, v) ↦ absurd (cc)
              | inr u ↦
                  let q = ap (λ (o : Option CheckpointFile). elim o [ none ↦ f | some z ↦ z ]) u in
                  (
                    a,
                    (
                      f',
                      r,
                      k.same_control ∙ ap (λ (x : CheckpointFile). x.control) q,
                      λ resource. other_states view f1 f' resource q k,
                    ),
                  )
            ]
      ]
