-- ===== src/Wsp/Revisions/Loaded.antt =====
-- What a loaded view of a resource holds.
use enbu.Prelude.{
  ℕ, zero, suc, ◌+◌, ◌-◌, Bytes, ◌==◌, eq_iff, true, Option, none, some, List, [], ◌∷◌, ◌++◌, ◌≡◌,
  ◌⊎◌, inl, inr, refl, ap, ap₂, subst, ltb, length, has, has_head, has_tail, Dict, lookup, put,
  lookup-put, map, leb, Bool-cases, Option-cases,
}
use enbu.Outcome.{
  Result, ok, err, rollback, invalid, not_found, corrupt, root_changed, discovery_limit, forked,
  refused, failed, ◌>>=◌, >>=-eq-ok, guard->>, Result-cases, ok_injective,
}
use enbu.Graph.{Digest, Graph, new_graph, add, heads, has_rev}
use enbu.Graph.Heads.{heads_iff}
use enbu.Storage
use enbu.Storage.{Store}
use enbu.Wsp.{Protocol, state_scope}
use enbu.Wsp.Chain.{ControlView, is_damaged}
use enbu.Wsp.Revisions.{
  VerifiedState, StateView, Loading, states_of, fetched_head, verify_revision, add_state, skip_one,
  load_one, load_batch, load_round, load_rounds, finish, load_states, take_batch, prefetch_heads,
  max_revisions, max_state_bytes, head_fetches,
}
use enbu.Wsp.Revisions.Valid.{IsRevision, verify_revision_iff}

module _ (P : Protocol) (view : ControlView) (workspace resource : Bytes) where
  -- Every revision held was verified, and the graph has the same revisions with their parents.
  pub record IsConsistent (states : Dict VerifiedState) (graph : Graph) : Type 0 where
    pub each_verified :
        (d : Digest) (st : VerifiedState)
        → lookup d states ≡ some st
        → (blob : Bytes) × IsRevision P view workspace resource d blob st
    pub graph_of :
        (d : Digest)
        → lookup d graph.parents
          ≡ elim (lookup d states) [ none ↦ none | some st ↦ some st.state.parents ]

  add-IsConsistent :
      (states : Dict VerifiedState) (graph : Graph) (rev blob : Bytes) (st : VerifiedState)
      → IsConsistent states graph
      → IsRevision P view workspace resource rev blob st
      → IsConsistent (put rev st states) (add graph rev st.state.parents)
  unfolding add
  add-IsConsistent states graph rev blob st i r = record {
    each_verified = λ d s e. elim (Bool-cases (rev == d)) [
      | inl t ↦
          let p : st ≡ s = some_injective (rw (lookup-put rev d st states, t) at e) in
          let q = (eq_iff rev d).0 t in
          (
            blob,
            subst (λ (x : VerifiedState). IsRevision P view workspace resource d blob x) p
                (subst (λ (x : Bytes). IsRevision P view workspace resource x blob st) q r),
          )
      | inr n ↦ i.each_verified d s (rw (lookup-put rev d st states, n) at e)
    ];
    graph_of = λ d. elim (Bool-cases (rev == d)) [
      | inl t ↦
          rw (lookup-put rev d st states, lookup-put rev d st.state.parents graph.parents, t) refl
      | inr n ↦
          rw (lookup-put rev d st states, lookup-put rev d st.state.parents graph.parents, n)
            (i.graph_of d)
    ];
  }
    where
      some_injective : {A : Type 0} {x y : A} → some x ≡ some y → x ≡ y
      some_injective p = cc

  abbrev Consistent : Loading → Type 0
  Consistent l = IsConsistent l.states l.graph

  load_one-Consistent :
      (rev head : Bytes) (l l' : Loading)
      → Consistent l
      → load_one P view workspace resource rev head l ≡ ok l'
      → Consistent l'
  unfolding load_one add_state skip_one
  load_one-Consistent rev head l l' i e =
      elim (Bool-cases (ltb (max_state_bytes - l.total) (length head))) [
        | inl t ↦ absurd (cc (rw (t, load_one) at e))
        | inr n ↦
            verified_then (verify_revision P view workspace resource rev head) refl
              (rw (n, load_one) at e)
      ]
    where
      read : Loading
      read = record l { total = l.total + length head }

      verified_then :
          (r : Result VerifiedState)
          → verify_revision P view workspace resource rev head ≡ r
          → elim r [
            | err rollback ↦ err rollback
            | err _ ↦ ok (skip_one P view workspace resource read)
            | ok st ↦ ok (add_state P view workspace resource rev st read)
          ]
            ≡ ok l'
          → Consistent l'
      verified_then (err rollback) v h = absurd (cc)
      verified_then (err invalid) v h = subst Consistent (ok_injective h) i
      verified_then (err not_found) v h = subst Consistent (ok_injective h) i
      verified_then (err corrupt) v h = subst Consistent (ok_injective h) i
      verified_then (err discovery_limit) v h = subst Consistent (ok_injective h) i
      verified_then (err root_changed) v h = subst Consistent (ok_injective h) i
      verified_then (err (forked ds)) v h = subst Consistent (ok_injective h) i
      verified_then (err refused) v h = subst Consistent (ok_injective h) i
      verified_then (err failed) v h = subst Consistent (ok_injective h) i
      verified_then (ok st) v h = subst Consistent (ok_injective h) (
          add-IsConsistent l.states l.graph rev head st i
            ((verify_revision_iff P view workspace resource rev head st).0 v))

  load_batch-Consistent :
      (fetched : Dict (Result Bytes)) (revs : List Digest) (l l' : Loading)
      → Consistent l
      → load_batch P view workspace resource fetched revs l ≡ ok l'
      → Consistent l'
  unfolding load_batch skip_one
  load_batch-Consistent fetched [] l l' i e = subst Consistent (ok_injective e) i
  load_batch-Consistent fetched (rev ∷ revs) l l' i e =
      elim (Result-cases (fetched_head fetched rev)) [
        | inl (x, q) ↦ elim (Bool-cases (is_damaged x)) [
          | inl t ↦
              load_batch-Consistent fetched revs (skip_one P view workspace resource l) l' i
                (rw (q, t, load_batch) at e)
          | inr n ↦
              one [] (rw (q, n, load_batch) at e)
                (λ m j k. load_batch-Consistent fetched revs m l' j k)
        ]
        | inr (head, q) ↦
            one head (rw (q, load_batch) at e)
              (λ m j k. load_batch-Consistent fetched revs m l' j k)
      ]
    where
      one :
          (head : Bytes)
          → (load_one P view workspace resource rev head l >>= λ m.
              load_batch P view workspace resource fetched revs m)
            ≡ ok l'
          → ((m : Loading)
              → Consistent m
              → load_batch P view workspace resource fetched revs m ≡ ok l'
              → Consistent l')
          → Consistent l'
      one head h rest =
          let (m, a, b) = >>=-eq-ok (load_one P view workspace resource rev head l) _ h in
          rest m (load_one-Consistent rev head l m i a) b

  load_round-Consistent :
      (fetch : Digest → Result Bytes) (l l' : Loading)
      → Consistent l
      → load_round P view workspace resource fetch l ≡ ok l'
      → Consistent l'
  unfolding load_round
  load_round-Consistent fetch l l' i e =
      let (b, q, e1) =
        >>=-eq-ok (take_batch head_fetches (max_revisions - length l.tried) l.queue l.tried) _ e in
      let (m, r, e2) = >>=-eq-ok (prefetch_heads fetch b.0) _ e1 in
      load_batch-Consistent m b.0 (record l { queue = b.1.0; tried = b.1.1 }) l' i e2

  load_rounds-Consistent :
      (fetch : Digest → Result Bytes) (fuel : ℕ) (l l' : Loading)
      → Consistent l
      → load_rounds P view workspace resource fetch fuel l ≡ some (ok l')
      → Consistent l'
  unfolding load_rounds
  load_rounds-Consistent fetch zero l l' i e = absurd (cc)
  load_rounds-Consistent fetch (suc fuel) l l' i e = elim (queue_cases l.queue) [
    | inl q ↦ subst Consistent (ok_injective (some_injective (rw (q, load_rounds) at e))) i
    | inr (x, xs, q) ↦ elim (Result-cases (load_round P view workspace resource fetch l)) [
      | inl (y, r) ↦ absurd (cc (rw (q, r, load_rounds) at e))
      | inr (m, r) ↦
          load_rounds-Consistent fetch fuel m l' (load_round-Consistent fetch l m i r)
            (rw (q, r, load_rounds) at e)
    ]
  ]
    where
      some_injective : {A : Type 0} {x y : A} → some x ≡ some y → x ≡ y
      some_injective p = cc

      queue_cases :
          (ds : List Digest) → (ds ≡ []) ⊎ ((x : Digest) × (xs : List Digest) × (ds ≡ x ∷ xs))
      queue_cases [] = inl refl
      queue_cases (x ∷ xs) = inr (x, xs, refl)

  -- A revision of the graph is held under its own digest.
  held :
      (states : Dict VerifiedState) (graph : Graph) (d : Digest)
      → IsConsistent states graph
      → has_rev graph d ≡ true
      → (st : VerifiedState) × (lookup d states ≡ some st) × (st.digest ≡ d)
  unfolding has_rev
  held states graph d i h = elim (Option-cases (lookup d states)) [
    | inl q ↦ let g = i.graph_of d in absurd (cc (rw q at g))
    | inr (st, q) ↦ let (blob, r) = i.each_verified d st q in (st, q, r.digest_eq.1)
  ]

  digests_of_states :
      (states : Dict VerifiedState) (graph : Graph) (ds : List Digest)
      → IsConsistent states graph
      → ((d : Digest) → has d ds ≡ true → has_rev graph d ≡ true)
      → map (λ (st : VerifiedState). st.digest) (states_of states ds) ≡ ds
  unfolding states_of
  digests_of_states states graph [] i h = refl
  digests_of_states states graph (d ∷ ds) i h =
      let (st, q, e) = held states graph d i (h d (has_head d ds)) in
      rw (q, states_of)
        (ap₂ ◌∷◌ e (digests_of_states states graph ds i (λ x k. h x (has_tail x d ds k))))

  -- A view that `LoadStates` returns: its revisions are verified, its graph is theirs, and its heads
  -- are the heads of the graph.
  pub record IsLoadedView (sv : StateView) : Type 0 where
    pub consistent : IsConsistent sv.states sv.graph
    pub heads_eq : map (λ (st : VerifiedState). st.digest) sv.heads ≡ heads sv.graph

  -- Whatever storage answers, every revision of a view that `LoadStates` returns was verified against
  -- the Control that it names, the graph holds just these revisions with the parents that they name,
  -- and the heads of the view are those of the graph.
  pub load_states-IsLoadedView :
      (store : Store) (also : List Digest) (sv : StateView)
      → load_states P view workspace resource store also ≡ ok sv
      → IsLoadedView sv
  unfolding load_states finish lookup
  load_states-IsLoadedView store also sv e =
      let (revs, a, e1) =
        >>=-eq-ok (store.discover Storage.state (state_scope P workspace resource)) _ e in
      let (g, e2) = guard->> (leb (length revs) max_revisions) _ _ e1 in
      let fetch = store.fetch_head Storage.state (state_scope P workspace resource) in
      let (l, b, e3) =
        >>=-eq-ok
          (elim (load_rounds P view workspace resource fetch (max_revisions + 2) (opening revs)) [
            | none ↦ err failed
            | some r ↦ r
          ])
          (λ l. ok (finish P view workspace resource l)) e2 in
      let i = load_rounds-Consistent fetch (max_revisions + 2) (opening revs) l empty (
        finished (load_rounds P view workspace resource fetch (max_revisions + 2) (opening revs))
          b) in
      subst IsLoadedView (ok_injective e3) (record {
        consistent = i;
        heads_eq =
            digests_of_states l.states l.graph (heads l.graph) i
              (λ d h. ((heads_iff l.graph d).0 h).0);
      })
    where
      opening : List Digest → Loading
      opening revs = record {
        queue = revs ++ also;
        tried = [];
        total = 0;
        graph = new_graph;
        states = [];
        skipped = 0;
      }

      empty : IsConsistent [] new_graph
      empty = record { each_verified = λ d st h. absurd (cc); graph_of = λ d. refl }

      finished :
          {l : Loading} (o : Option (Result Loading))
          → elim o [ none ↦ err failed | some r ↦ r ] ≡ ok l
          → o ≡ some (ok l)
      finished none h = absurd (cc)
      finished (some r) h = ap some h
