-- ===== src/Wsp/Chain/Load.antt =====
-- `LoadControl` as a whole: the view it returns holds the derived Controls and no other.
use enbu.Prelude.{
  ℕ, suc, ◌-◌, ◌<◌, Bytes, ◌==◌, eq_iff, true, false, some, List, [], ◌∷◌, ◌≡◌, ◌≢◌, ◌↔◌, inl, inr,
  refl, sym, subst, arith, length, leb, has, has_head, Dict, lookup, keys, all, all→All, is_some,
  Bool-cases, Entry, lookup-cons_self, sort_bytes, has-sort_bytes, All, Any, not-has-nil,
}
use enbu.Outcome.{ok, invalid, rollback, guard->>, >>=-eq-ok, ok_injective}
use enbu.Graph.{Digest}
use enbu.Storage
use enbu.Storage.{Store}
use enbu.Wsp.{Protocol}
use enbu.Wsp.Members.{Verified, verify_child, verify_genesis}
use enbu.Wsp.Members.Child.{verify_genesis-IsGenesis}
use enbu.Wsp.Chain.{
  PendingControl, ControlView, Fetched, fetch_loop, max_control_bytes, max_controls,
  verified_parents, accept_loop, heads_of, load_control, get,
}
use enbu.Wsp.Chain.Derived.{
  Derived, AllDerived, genesis_control, child, none_left, and_next, ready_parents-none,
}
use enbu.Wsp.Chain.Accept.{Inv, Layered}
use enbu.Wsp.Chain.Loop.{Accepted, accept_loop-Accepted}
use enbu.Wsp.Chain.Complete.{IsReadable, readable_iff, Reached, fetch_loop-gathers}
use enbu.Wsp.Chain.Unnamed.{IsHead, heads_of-IsHead, IsHead-heads_of}
use enbu.Wsp.Chain.Fetch.{Collected, FetchInv, fetch_loop-FetchInv}

module _ (P : Protocol) (fetched : Dict PendingControl) (genesis : Digest) (root : Verified)
    (root_digest : root.digest ≡ genesis) (kept : Dict PendingControl) (m : Dict Verified)
    (a : Accepted P fetched genesis root root_digest fetched (kept, m)) where
  rooted_at : (d : Digest) (v : Verified) → d ≡ genesis → v ≡ root → lookup d m ≡ some v
  rooted_at d v e f =
      subst (λ x. lookup x m ≡ some v) (sym e)
        (subst (λ x. lookup genesis m ≡ some x) (sym f) (a.inv.rooted))

  settled_at :
      (d : Digest) (v : Verified) (p : PendingControl) (vs : List Verified)
      → Entry d p fetched
      → p.c.parents ≢ []
      → verify_child P vs p.blob ≡ ok v
      → v.digest ≡ d
      → verified_parents P m p.c.parents ≡ some vs
      → lookup d m ≡ some v
  settled_at d v p vs en n h q e = elim (a.handled d p en) [
    | inl k ↦ absurd (ready_parents-none P m p.c vs (a.stuck d p k) n e)
    | inr (ws, f, g) ↦
        let same : ws ≡ vs = cc (e, f) in
        g v (subst (λ x. verify_child P x p.blob ≡ ok v) (sym same) h) q
  ]

  parents_step :
      (d : Digest) (ds : List Digest) (v : Verified) (vs : List Verified)
      → lookup d m ≡ some v
      → verified_parents P m ds ≡ some vs
      → verified_parents P m (d ∷ ds) ≡ some (v ∷ vs)
  unfolding verified_parents
  parents_step d ds v vs e f = rw (e, f, verified_parents) refl

  mutual
    unfolding verified_parents

    complete :
        (d : Digest) (v : Verified) → Derived P fetched genesis root d v → lookup d m ≡ some v
    complete d v (genesis_control e f) = rooted_at d v e f
    complete d v (child p vs en n al h q) =
        settled_at d v p vs en n h q (complete_all p.c.parents vs al)

    complete_all :
        (ds : List Digest) (vs : List Verified)
        → AllDerived P fetched genesis root ds vs
        → verified_parents P m ds ≡ some vs
    complete_all ds vs none_left = refl
    complete_all ds vs (and_next {d = d} {v = v} {ds = es} {vs = ws} r rs) =
        parents_step d es v ws (complete d v r) (complete_all es ws rs)

  Derived-iff :
      (d : Digest) (v : Verified) → (lookup d m ≡ some v) ↔ Derived P fetched genesis root d v
  Derived-iff d v = (a.inv.derived d v, complete d v)

-- Storage returns the Control under the digest, and it reads as one of the workspace.
abbrev pub IsReturned : Protocol → Store → Bytes → Digest → PendingControl → Type 0
IsReturned P store workspace d p =
    (store.fetch_head Storage.control [] d ≡ ok p.blob) × IsReadable P workspace p.blob p.c

-- What a view stands for. `fetched` are all the Controls that storage returns of those that it lists
-- or that one of them names, and only these; the heads are the held Controls that no other one names.
pub record IsLoaded (P : Protocol) (store : Store) (workspace : Bytes) (genesis : Digest)
    (cp : List Digest) (view : ControlView) : Type 0 where
  pub root : Verified
  pub blob : Bytes
  pub root_fetched : store.fetch_head Storage.control [] genesis ≡ ok blob
  pub root_verified : verify_genesis P workspace blob genesis ≡ ok root
  pub revs : List Digest
  pub lists : store.discover Storage.control [] ≡ ok revs
  pub fetched : Dict PendingControl
  pub collected :
      (d : Digest) (p : PendingControl) → Entry d p fetched → IsReturned P store workspace d p
  pub gathered :
      (d : Digest)
      → Reached revs fetched d
      → (d == genesis) ≡ false
      → (p : PendingControl) → IsReturned P store workspace d p
      → Entry d p fetched
  pub holds :
      (d : Digest) (v : Verified) → (get view d ≡ some v) ↔ Derived P fetched genesis root d v
  pub layered : Layered view.verified
  pub heads_eq : view.heads ≡ heads_of view.verified
  pub heads_held : All (IsHead view.verified) view.heads
  pub all_heads : (h : Verified) → IsHead view.verified h → Any (λ v. v ≡ h) view.heads
  pub anchored : All (λ d. is_some (get view d) ≡ true) cp
  pub about : (view.workspace ≡ workspace) × (view.genesis ≡ genesis)

module _ (P : Protocol) (store : Store) (workspace : Bytes) (genesis : Digest)
    (cp : List Digest) where
  start-Inv :
      (f : Fetched) (root : Verified) (r : root.digest ≡ genesis)
      → root.control.parents ≡ []
      → FetchInv P (store.fetch_head Storage.control []) workspace genesis f
      → Inv P f.pending genesis root r f.pending ((genesis, root) ∷ [])
  unfolding has lookup
  start-Inv f root r np i = record {
    derived = λ d v e. elim (Bool-cases (genesis == d)) [
      | inl s ↦ genesis_control (sym ((eq_iff genesis d).0 s)) (cc (rw s at e))
      | inr n ↦ cc (rw n at e)
    ];
    from_fetched = λ d p e. e;
    fresh = λ d h. elim (Bool-cases (d == genesis)) [
      | inl s ↦
          absurd (
            cc
              (i.no_genesis, subst (λ x. has x (keys f.pending) ≡ true) ((eq_iff d genesis).0 s) h))
      | inr n ↦ rw n refl
    ];
    distinct = i.distinct;
    layered = (refl, rw np tt, tt);
    rooted = lookup-cons_self genesis root [];
  }

  first_inv :
      (blob : Bytes)
      → leb (length blob) max_control_bytes ≡ true
      → FetchInv P
          (store.fetch_head Storage.control [])
          workspace
          genesis
          (record { tried = genesis ∷ []; total = length blob; pending = [] })
  first_inv blob l = record {
    genesis_tried = has_head genesis [];
    pending_tried = λ d h. absurd (not-has-nil d h);
    no_genesis = nothing genesis;
    distinct = tt;
    collected = λ d p e. elim e [ ];
    budget = ground arith;
  }
    where
      nothing : (d : Digest) → has d [] ≡ false
      nothing d = elim (Bool-cases (has d [])) [ inl h ↦ absurd (not-has-nil d h) | inr n ↦ n ]

  below_suc : (n : ℕ) → n < suc n
  below_suc n = omega arith

  -- The pending Controls after the loop, and the verified ones.
  settle : Dict PendingControl → Verified → Dict PendingControl × Dict Verified
  settle pending root = accept_loop P (suc (length pending)) pending ((genesis, root) ∷ [])

  settle-Accepted :
      (f : Fetched) (root : Verified) (r : root.digest ≡ genesis)
      → Inv P f.pending genesis root r f.pending ((genesis, root) ∷ [])
      → Accepted P f.pending genesis root r f.pending (settle f.pending root)
  unfolding settle
  settle-Accepted f root r i =
      (accept_loop-Accepted P f.pending genesis root r (suc (length f.pending)) f.pending
        ((genesis, root) ∷ []) (below_suc (length f.pending)) i).0

  view-IsLoaded :
      (blob : Bytes) (root : Verified) (f : Fetched) (revs : List Digest)
      → store.discover Storage.control [] ≡ ok revs
      → ((d : Digest)
          → Reached revs f.pending d
          → (d == genesis) ≡ false
          → (p : PendingControl)
          → Collected P (store.fetch_head Storage.control []) workspace genesis d p
          → Entry d p f.pending)
      → store.fetch_head Storage.control [] genesis ≡ ok blob
      → verify_genesis P workspace blob genesis ≡ ok root
      → FetchInv P (store.fetch_head Storage.control []) workspace genesis f
      → all (λ d. is_some (lookup d (settle f.pending root).1)) cp ≡ true
      → IsLoaded P store workspace genesis cp (record {
        workspace = workspace;
        genesis = genesis;
        heads = heads_of (settle f.pending root).1;
        verified = (settle f.pending root).1;
      })
  unfolding get
  view-IsLoaded blob root f revs e1 all_in e2 e3 fi a4 =
      let g = verify_genesis-IsGenesis P workspace blob genesis root e3 in
      let r = g.is_trusted.0 in
      let acc = settle-Accepted f root r (start-Inv f root r g.root.0 fi) in
      let m = settle f.pending root in
      record {
        root = root;
        blob = blob;
        root_fetched = e2;
        root_verified = e3;
        revs = revs;
        lists = e1;
        fetched = f.pending;
        collected = λ d p i.
            let (q, k) = fi.collected d p i in (q, (readable_iff P workspace p.blob p.c).0 k);
        gathered =
            λ d reach n p (q, k). all_in d reach n p (q, (readable_iff P workspace p.blob p.c).1 k);
        holds = Derived-iff P f.pending genesis root r m.0 m.1 acc;
        layered = acc.inv.layered;
        heads_eq = refl;
        heads_held = heads_of-IsHead m.1 acc.inv.layered;
        all_heads = IsHead-heads_of m.1 acc.inv.layered;
        anchored = all→All (λ d. is_some (lookup d m.1)) cp a4;
        about = (refl, refl);
      }

  pub load_control-IsLoaded :
      (view : ControlView)
      → load_control P store workspace genesis cp ≡ ok view
      → IsLoaded P store workspace genesis cp view
  unfolding load_control settle
  load_control-IsLoaded view h =
      let (a1, h1) = guard->> (P.digest_valid genesis) invalid _ h in
      let (revs, e1, h2) = >>=-eq-ok (store.discover Storage.control []) _ h1 in
      let (a2, h3) = guard->> (leb (length revs) max_controls) invalid _ h2 in
      let (blob, e2, h4) = >>=-eq-ok (store.fetch_head Storage.control [] genesis) _ h3 in
      let (a3, h5) = guard->> (leb (length blob) max_control_bytes) invalid _ h4 in
      let (root, e3, h6) = >>=-eq-ok (verify_genesis P workspace blob genesis) _ h5 in
      let start : Fetched = record { tried = genesis ∷ []; total = length blob; pending = [] } in
      let fetch = store.fetch_head Storage.control [] in
      let (f, e4, h7) =
        >>=-eq-ok (fetch_loop P fetch workspace (max_controls - 1) (sort_bytes revs) start) _ h6 in
      let (a4, h8) =
        guard->> (all (λ d. is_some (lookup d (settle f.pending root).1)) cp) rollback _ h7 in
      let fi =
        fetch_loop-FetchInv P fetch workspace genesis (max_controls - 1) (sort_bytes revs) start f
          (first_inv blob a3) e4 in
      let all_in =
        fetch_loop-gathers P fetch workspace genesis revs (max_controls - 1) (sort_bytes revs)
          (length blob) f (λ d. has-sort_bytes d revs) e4 in
      subst (IsLoaded P store workspace genesis cp) (ok_injective h8)
        (view-IsLoaded blob root f revs e1 all_in e2 e3 fi a4)
