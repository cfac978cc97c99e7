-- ===== src/Tests/Files.antt =====
-- Runs of the checkpoints and of the trust roots (pkg/wsp), and of accepting a write (app/workspace.go).
use enbu.Prelude.{
  ℕ, ◌≤◌, has, Bytes, bytes, ◌==◌, Bool, true, false, Option, none, some, List, [], ◌∷◌, ◌≡◌, inl,
  inr, refl, All, ap, sym, lookup, put, before, sort_bytes, sort_by, insert_by, if◌then◌else◌,
  Bool-cases, eq_iff, is_some, Dict, ◌&&◌, eqb, ap₂, arith,
}
use enbu.Outcome.{ok}
use enbu.Graph.{Digest, Graph}
use enbu.Wsp.{Codec}
use enbu.Wsp.Members.{same_digests}
use enbu.Wsp.Chain.{ControlView, get, digests_of}
use enbu.Wsp.Checkpoint
use enbu.Wsp.Checkpoint.{
  CheckpointFile, StateAcceptance, Disk, absent, contents, Json, fresh, read, accepted_in,
  accept_states, accept_control, shown_or_excused, checkpoint_version,
}
use enbu.Wsp.Checkpoint.Accepting.{JsonLaws, SameFile, equal_of_same_digests}
use enbu.Wsp.Checkpoint.Accepted.{
  StatesAccepted, accept_states-StatesAccepted, accept_control-holds,
}
use enbu.Wsp.Trust
use enbu.Wsp.Trust.{Root, TrustRootFile, no_root, pin_root, trust_root_version}
use enbu.Wsp.Trust.Pinning.{IsPinned, pin_root-IsPinned}
use enbu.Graph
use enbu.Signing
use enbu.Wsp
use enbu.Wsp.Members
use enbu.Wsp.Chain
use enbu.Wsp.Revisions
use enbu.Wsp.Compacting
use enbu.Wsp.Membership
use enbu.Prelude.Walk
use enbu.App.Heads
use enbu.App.Reading
use enbu.App.Reading.{accepted_retries}
use enbu.App.Accepting
use enbu.App.Accepting.{Moment}
use enbu.App.Accepting.Remembered.{IsRemembered, accept_published-IsRemembered}
use enbu.Tests.Resources.{accepted_before, session, answers}
use enbu.Tests.Protocols.{toy, root, root_blob, state_blob}

-- The file that the tests write; JSON here has this one text.
abbrev two_heads : List Digest
two_heads = bytes "a" ∷ bytes "b" ∷ []

abbrev resource : Bytes
resource = bytes "secrets/prod"

abbrev text : Bytes
text = bytes "{}"

-- Whether two files are the same.
same_states : Dict StateAcceptance → Dict StateAcceptance → Bool
same_states [] [] = true
same_states [] ((k, x) ∷ m) = false
same_states ((k, x) ∷ m) [] = false
same_states ((k, x) ∷ m) ((j, y) ∷ n) =
    k == j && same_digests x.heads y.heads && x.control == y.control && same_states m n

abbrev same_file : CheckpointFile → CheckpointFile → Bool
same_file f g =
    eqb f.version g.version && same_digests f.control g.control && same_states f.states g.states

same_acceptance : (x y : StateAcceptance) → x.heads ≡ y.heads → x.control ≡ y.control → x ≡ y
same_acceptance x y p q =
    ap₂ (λ (h : List Digest) (c : Digest). record { heads = h; control = c }) p q

same_states-lookup :
    (m n : Dict StateAcceptance) (r : Bytes) → same_states m n ≡ true → lookup r m ≡ lookup r n
unfolding same_states lookup
same_states-lookup [] [] r e = refl
same_states-lookup [] ((k, x) ∷ m) r e = cc
same_states-lookup ((k, x) ∷ m) [] r e = cc
same_states-lookup ((k, x) ∷ m) ((j, y) ∷ n) r e =
    let p = (eq_iff k j).0 (ground arith) in
    let h = equal_of_same_digests x.heads y.heads (ground arith) in
    let c = (eq_iff x.control y.control).0 (ground arith) in
    let s = same_acceptance x y h c in
    let i = same_states-lookup m n r (ground arith) in
    rw (p, s) (ap (λ (o : Option StateAcceptance). if j == r then some y else o) i)

-- JSON with one text, for the file `written`.
abbrev one_file : CheckpointFile → Json CheckpointFile
one_file written = record {
  version_of = λ b. if b == text then some written.version else none;
  codec = record {
    marshal = λ f. if same_file f written then some text else none;
    unmarshal = λ b. if b == text then some written else none;
  };
}

one_file-JsonLaws : (written : CheckpointFile) → JsonLaws (one_file written)
one_file-JsonLaws written = record {
  reads_back = λ f b e. back f b e;
  version_first = λ b f e. elim (Bool-cases (b == text)) [
    | inl t ↦
        let p : written ≡ f = some_injective (rw t at e) in
        rw t (ap (λ (x : CheckpointFile). some x.version) p)
    | inr n ↦ absurd (cc (rw n at e))
  ];
}
  where
    some_injective : {A : Type 0} {x y : A} → some x ≡ some y → x ≡ y
    some_injective p = cc

    back :
        (f : CheckpointFile) (b : Bytes)
        → (if same_file f written then some text else none) ≡ some b
        → ((if b == text then some written.version else none) ≡ some f.version)
          × ((g : CheckpointFile) × ((if b == text then some written else none) ≡ some g)
              × SameFile g f)
    back f b e = elim (Bool-cases (same_file f written)) [
      | inr n ↦ absurd (cc (rw n at e))
      | inl t ↦
          let p : text ≡ b = some_injective (rw t at e) in
          let q = (eq_iff b text).1 (sym p) in
          let v : written.version ≡ f.version = ground arith in
          (
            rw q (ap some v),
            (
              written,
              rw q refl,
              record {
                same_version = v;
                same_control = sym (equal_of_same_digests f.control written.control (ground arith));
                same_states =
                    λ r. sym (same_states-lookup f.states written.states r (ground arith));
              },
            ),
          )
    ]

abbrev shown : Graph
shown = record { parents = (bytes "a", []) ∷ (bytes "b", []) ∷ [] }

abbrev states_file : CheckpointFile
states_file = record {
  version = 3;
  control = [];
  states = (resource, record { heads = two_heads; control = root_blob }) ∷ [];
}

accept_states-StatesAccepted_example :
    All (λ d. shown_or_excused shown none d ≡ true) (accepted_in fresh resource).heads
    × ((f : CheckpointFile) × (read (one_file states_file) (contents text) ≡ ok f)
        × StatesAccepted resource (sort_bytes (bytes "b" ∷ bytes "a" ∷ [])) root_blob fresh f)
unfolding accept_states Checkpoint.update Checkpoint.accept_states_fn Checkpoint.missing_from read
    Checkpoint.write accepted_in same_states lookup put ◌==◌ sort_bytes sort_by insert_by before
accept_states-StatesAccepted_example =
    accept_states-StatesAccepted (one_file states_file) (one_file-JsonLaws states_file) absent
      (contents text) fresh refl resource shown none (bytes "b" ∷ bytes "a" ∷ []) root_blob refl

abbrev view : ControlView
view = record {
  workspace = bytes "w";
  genesis = root_blob;
  heads = record { control = root; digest = root_blob } ∷ [];
  verified = (root_blob, record { control = root; digest = root_blob }) ∷ [];
}

abbrev control_file : CheckpointFile
control_file = record { version = 3; control = root_blob ∷ []; states = [] }

accept_control-holds_example :
    All (λ d. is_some (get view d) ≡ true) []
    × ((f : CheckpointFile) × (read (one_file control_file) (contents text) ≡ ok f)
        × (f.control ≡ digests_of view.heads)
        × ((r : Bytes) → accepted_in f r ≡ accepted_in fresh r))
unfolding accept_control Checkpoint.update Checkpoint.accept_control_fn Checkpoint.missing_from read
    Checkpoint.write accepted_in same_states lookup ◌==◌
accept_control-holds_example =
    accept_control-holds (one_file control_file) (one_file-JsonLaws control_file) absent
      (contents text) fresh refl view refl

abbrev trusted : Root
trusted = record { workspace = bytes "w"; genesis = root_blob }

abbrev pin_codec : Codec TrustRootFile
pin_codec = record {
  marshal = λ f. if eqb f.version 1 && Trust.same_root f.root trusted then some text else none;
  unmarshal = λ b. if b == text then some (record { version = 1; root = trusted }) else none;
}

pin_reads_back :
    (f : TrustRootFile) (b : Bytes) → pin_codec.marshal f ≡ some b → pin_codec.unmarshal b ≡ some f
unfolding Trust.same_root
pin_reads_back f b e = elim (Bool-cases (eqb f.version 1 && Trust.same_root f.root trusted)) [
  | inr n ↦ absurd (cc (rw (n, Trust.same_root) at e))
  | inl t ↦
      let p : text ≡ b = some_eq (rw (t, Trust.same_root) at e) in
      let q = (eq_iff b text).1 (sym p) in
      let v : f.version ≡ 1 = ground arith in
      let w = (eq_iff f.root.workspace (bytes "w")).0 (ground arith) in
      let g = (eq_iff f.root.genesis root_blob).0 (ground arith) in
      rw q (ap some (sym (same v w g)))
]
  where
    some_eq : {A : Type 0} {x y : A} → some x ≡ some y → x ≡ y
    some_eq p = cc

    same :
        f.version ≡ 1
        → f.root.workspace ≡ bytes "w"
        → f.root.genesis ≡ root_blob
        → f ≡ record { version = 1; root = trusted }
    same v w g =
        ap₂ (λ (n : ℕ) (r : Root). record { version = n; root = r }) v
          (ap₂ (λ (x y : Bytes). record { workspace = x; genesis = y }) w g)

pin_root-IsPinned_example : IsPinned toy pin_codec absent trusted false none no_root (contents text)
unfolding pin_root Trust.pin_over Trust.old_pin Trust.pinned Trust.same_root ◌==◌
pin_root-IsPinned_example =
    pin_root-IsPinned toy pin_codec pin_reads_back absent (contents text) trusted no_root false none
      refl

-- The file is gone when a device accepts what it wrote, and is written again.
abbrev moments : ℕ → Moment
moments i = record { answers = answers; before = absent; locked = absent }

accept_published-IsRemembered_example :
    (i : ℕ) × (i ≤ accepted_retries)
    × IsRemembered toy
        (one_file accepted_before)
        (one_file-JsonLaws accepted_before)
        session
        resource
        state_blob
        (moments i)
        (contents text)
unfolding Accepting.accept_published Accepting.accept_attempts Accepting.accept_view
    Accepting.accept_or_retry Reading.load_resource Reading.load_attempts Reading.load_attempt
    Reading.load_view Reading.load_compacted Reading.load_checked Checkpoint.check_states
    Checkpoint.accepted_state Checkpoint.accepted read accepted_in Checkpoint.missing_from
    accept_states Checkpoint.update Checkpoint.accept_states_fn Checkpoint.write same_states
    shown_or_excused Graph.missing Graph.len Revisions.load_states Revisions.load_rounds
    Revisions.load_round Revisions.load_batch Revisions.load_one Revisions.add_state
    Revisions.take_batch Revisions.prefetch_heads Revisions.states_of Revisions.verify_revision
    Revisions.validate_state Wsp.state_scope Wsp.scope_text Wsp.decimal Wsp.decode_signed
    Wsp.decode_canonical Members.valid_parents Members.principal Members.find_principal Chain.get
    Chain.is_damaged Graph.add Graph.heads Graph.has_rev Signing.verify Signing.valid_key
    Signing.valid_device_id Signing.device_id Signing.valid_domain Signing.split ◌==◌ before
    sort_bytes sort_by insert_by lookup put has Heads.trusted_heads Heads.trusted_revs
    Heads.standing Heads.covered Heads.consider Heads.head_rounds Heads.stand_ins Heads.trusted
    Heads.trusted_rev Walk.walk Compacting.above_floors Revisions.author_is_current
    Membership.membership_unbroken Membership.enqueue Graph.ancestors
accept_published-IsRemembered_example =
    accept_published-IsRemembered toy (one_file accepted_before) (one_file-JsonLaws accepted_before)
      session resource moments state_blob (contents text) refl
