-- ===== src/App/Compacting/History.antt =====
-- What `CompactHistory` deletes of a history, and what it leaves.
use enbu.Prelude.{
  ℕ, zero, suc, ◌-◌, ltb, Bytes, Bool, true, false, not, ◌&&◌, ◌||◌, some, List, [], ◌∷◌, ◌++◌, ◌≡◌,
  inl, inr, refl, sym, ◌∙◌, subst, arith, Any, has, select, has-select, has-sort_bytes,
  has-cons_cases, has_head, has_tail, not-has-nil, &&-right, keys, Bool-cases, Option-cases,
  if◌then◌else◌,
}
use enbu.Outcome.{Result, ok, Result-cases, >>=-eq-ok, ok_injective, ◌>>=◌}
use enbu.Graph.{Digest, Graph, parents_of, has_rev}
use enbu.Graph.Ancestors.{Ancestor, self, parent}
use enbu.Storage
use enbu.Storage.{Store, Object}
use enbu.Wsp.{Protocol, Signer, state_scope}
use enbu.Wsp.Revisions.{StateView}
use enbu.App.Heads.{Session}
use enbu.App.Compacting.{
  Action, publications, deletions, first_parent, walk_back, kept_revisions, removed_revisions,
  unverifiable, junk_loop, compact, compact_history,
}
use enbu.App.Compacting.Kept.{Above, base, child, kept_revisions_iff}
use enbu.App.Compacting.Recorded.{IsRecordOf, compact-IsOrdered}

first_parent-has :
    (g : Graph) (ps : List Digest) (p : Digest)
    → first_parent g ps ≡ some p
    → (has p ps ≡ true) × (has_rev g p ≡ true)
unfolding first_parent
first_parent-has g [] p e = absurd (cc)
first_parent-has g (q ∷ ps) p e = elim (Bool-cases (has_rev g q)) [
  | inl h ↦
      let k : q ≡ p = some_injective (rw h at e) in
      (subst (λ x. has x (q ∷ ps) ≡ true) k (has_head q ps), subst (λ x. has_rev g x ≡ true) k h)
  | inr n ↦ let (a, b) = first_parent-has g ps p (rw n at e) in (has_tail p q ps a, b)
]
  where
    some_injective : {x y : Digest} → some x ≡ some y → x ≡ y
    some_injective e = cc

module _ (g : Graph) (head : Digest) where
  -- A chain from a revision down to the floor, seen from its upper end.
  walk_back-Above :
      (steps : ℕ) (d : Digest)
      → Ancestor g head d
      → (x : Digest) → Above g head d x
      → Above g head (walk_back g steps d) x
  unfolding walk_back
  walk_back-Above zero d a x above = above
  walk_back-Above (suc steps) d a x above = elim (Option-cases (first_parent g (parents_of g d))) [
    | inl q ↦ rw (walk_back, q) above
    | inr (p, q) ↦
        let (m, h) = first_parent-has g (parents_of g d) p q in
        let b = parent a m h in
        rw (walk_back, q) (walk_back-Above steps p b x (lower p d x b a m above))
  ]
    where
      lower :
          (p d x : Digest)
          → Ancestor g head p
          → Ancestor g head d
          → has p (parents_of g d) ≡ true
          → Above g head d x
          → Above g head p x
      lower p d x b a m (base e) = subst (λ y. Above g head p y) (sym e) (child (base refl) m b a)
      lower p d x b a m (child r k u v) = child (lower p d _ b a m r) k u v

removed_revisions-has :
    (d : Digest) (states kept : List Digest)
    → has d (removed_revisions states kept) ≡ (has d states && not (has d kept))
unfolding removed_revisions
removed_revisions-has d states kept =
    has-sort_bytes d (select (λ x. not (has x kept)) states)
    ∙ has-select (λ x. not (has x kept)) d states

opposite : (b : Bool) → b ≡ false → b ≡ true → ⊥
opposite b h k = cc

not-true : (b : Bool) → not b ≡ true → b ≡ false
not-true b h = ground arith

module _ (P : Protocol) (s : Session) (signer : Signer) (now : ℕ) (resource : Bytes) where
  junk_loop-not :
      (floor : Digest) (store : Store) (states kept listed junk : List Digest)
      → junk_loop P s signer now resource floor store states kept listed ≡ ok junk
      → (d : Digest) → has d junk ≡ true
      → (has d states ≡ false) × (has d kept ≡ false)
  unfolding junk_loop
  junk_loop-not floor store states kept [] junk e d h =
      let q : [] ≡ junk = ok_injective e in
      absurd (not-has-nil d (subst (λ l. has d l ≡ true) (sym q) h))
  junk_loop-not floor store states kept (x ∷ listed) junk e d h =
      let rest = junk_loop P s signer now resource floor store states kept listed in
      elim (Bool-cases (has x states || has x kept)) [
        | inl t ↦ junk_loop-not floor store states kept listed junk (rw (t, junk_loop) at e) d h
        | inr n ↦
            let pick = λ (bad : Bool) (later : List Digest). if bad then x ∷ later else later in
            let (bad, u, e1) =
              >>=-eq-ok (unverifiable P s signer now resource floor store x)
                (λ bad. rest >>= λ later. ok (pick bad later)) (rw (n, junk_loop) at e) in
            let (later, r, e2) = >>=-eq-ok rest (λ later. ok (pick bad later)) e1 in
            let q : pick bad later ≡ junk = ok_injective e2 in
            let again = junk_loop-not floor store states kept listed later r d in
            picked bad x later (subst (λ l. has d l ≡ true) (sym q) h) (neither _ _ n) again
      ]
    where
      neither : (a b : Bool) → (a || b) ≡ false → (a ≡ false) × (b ≡ false)
      neither a b h = (ground arith, ground arith)

      picked :
          (bad : Bool) (x : Digest) (later : List Digest)
          → has d (if bad then x ∷ later else later) ≡ true
          → (has x states ≡ false) × (has x kept ≡ false)
          → (has d later ≡ true → (has d states ≡ false) × (has d kept ≡ false))
          → (has d states ≡ false) × (has d kept ≡ false)
      picked false x later h n again = again h
      picked true x later h n again = elim (has-cons_cases d x later h) [
        | inl e ↦ subst (λ y. (has y states ≡ false) × (has y kept ≡ false)) (sym e) n
        | inr m ↦ again m
      ]

  -- What a compaction did, in order: records, then deletions of what is not kept.
  pub record IsCompacted (publish : Object → Result (Unit {0})) (sv : StateView) (head : Digest)
      (keep : ℕ) (actions : List Action) : Type 0 where
    pub objects : List Object
    pub gone : List Digest
    pub in_order : actions ≡ publications objects ++ deletions gone
    pub unkept :
        (d : Digest)
        → has d gone ≡ true
        → ¬ (Above sv.graph head (walk_back sv.graph (keep - 1) head) d)
    pub recorded :
        (d : Digest)
        → has d gone ≡ true
        → has d (keys sv.states) ≡ true
        → Any
            (λ o.
              IsRecordOf P s signer now resource (walk_back sv.graph (keep - 1) head) d o
              × (publish o ≡ ok tt))
            objects
    pub head_stays : ¬ (has head gone ≡ true)

  module _ (store : Store) (publish : Object → Result (Unit {0}))
      (delete : Digest → Result (Unit {0})) (sv : StateView) (head : Digest) (keep : ℕ) where
    abbrev floor : Digest
    floor = walk_back sv.graph (keep - 1) head

    abbrev kept : List Digest
    kept = kept_revisions sv.graph head floor

    abbrev removed : List Digest
    removed = removed_revisions (keys sv.states) kept

    head-Above : has_rev sv.graph head ≡ true → Above sv.graph head floor head
    head-Above h = walk_back-Above sv.graph head (keep - 1) head (self refl h) head (base refl)

    nothing : has_rev sv.graph head ≡ true → IsCompacted publish sv head keep []
    nothing h = record {
      objects = [];
      gone = [];
      in_order = refl;
      unkept = λ d m. absurd (not-has-nil d m);
      recorded = λ d m k. absurd (not-has-nil d m);
      head_stays = not-has-nil head;
    }

    -- What is deleted is not kept, for one reason or the other.
    dropped :
        (listed junk : List Digest)
        → junk_loop P s signer now resource floor store (keys sv.states) kept listed ≡ ok junk
        → (d : Digest) → (has d removed || has d junk) ≡ true
        → (has d kept ≡ false) × (has d (keys sv.states) ≡ true → has d removed ≡ true)
    dropped listed junk e d h = elim (Bool-cases (has d removed)) [
      | inl t ↦
          let both = sym (removed_revisions-has d (keys sv.states) kept) ∙ t in
          (not-true _ (&&-right (has d (keys sv.states)) _ both), λ k. t)
      | inr n ↦
          let (a, b) =
            junk_loop-not floor store (keys sv.states) kept listed junk e d (rw n at h) in
          (b, λ k. absurd (cc (a, k)))
    ]

    compacted :
        (listed junk : List Digest)
        → has_rev sv.graph head ≡ true
        → junk_loop P s signer now resource floor store (keys sv.states) kept listed ≡ ok junk
        → IsCompacted publish sv head keep
            (compact P s signer now resource floor publish delete kept removed junk).1
    compacted listed junk h e =
        let o = compact-IsOrdered P s signer now resource floor publish delete kept removed junk in
        let unkept = λ (d : Digest) (m : has d o.gone ≡ true) (a : Above sv.graph head floor d).
          opposite _ (dropped listed junk e d (o.only d m)).0
            ((kept_revisions_iff sv.graph head floor d).1 a) in
        record {
          objects = o.objects;
          gone = o.gone;
          in_order = o.in_order;
          unkept = unkept;
          recorded = λ d m k. o.recorded d m ((dropped listed junk e d (o.only d m)).1 k);
          head_stays = λ m. unkept head m (head-Above h);
        }

    chosen : Result (List Digest)
    unfolding junk_loop state_scope
    chosen = store.discover Storage.state (state_scope P s.view.workspace resource) >>= λ listed.
        junk_loop P s signer now resource floor store (keys sv.states) kept listed

    chosen-listed :
        (junk : List Digest)
        → chosen ≡ ok junk
        → (listed : List Digest) × (junk_loop P s signer now resource floor store
              (keys sv.states)
              kept
              listed
            ≡ ok junk)
    unfolding chosen
    chosen-listed junk q =
        let (listed, a, b) =
          >>=-eq-ok (store.discover Storage.state (state_scope P s.view.workspace resource))
            (λ listed. junk_loop P s signer now resource floor store (keys sv.states) kept listed)
            q in
        (listed, b)

    -- Whatever storage answers, if the graph holds the head, a compaction first publishes and then
    -- deletes. It deletes no revision that lies on a chain of ancestors of the head above the floor, and
    -- so never the head. For every verified revision that it deletes, storage took before a record that
    -- is verified, and whose signed body encodes a Compaction of the resource under the floor and the
    -- current Control that lists the revision.
    pub compact_history-IsCompacted :
        has_rev sv.graph head ≡ true
        → IsCompacted publish sv head keep
            (compact_history P s signer now resource store publish delete sv head keep).1
    unfolding compact_history chosen
    compact_history-IsCompacted h = elim (Bool-cases (ltb keep 1)) [
      | inl t ↦ rw (compact_history, t) (nothing h)
      | inr n ↦ elim (Result-cases chosen) [
        | inl (e, q) ↦ rw (compact_history, n, q) (nothing h)
        | inr (junk, q) ↦
            let (listed, e) = chosen-listed junk q in
            rw (compact_history, n, q) (compacted listed junk h e)
      ]
    ]
