-- ===== src/Wsp/Chain/Authority.antt =====
-- Who can change the members: what holds of the genesis and is kept by the admins' signatures holds of
-- every Control of a loaded view; and a loaded view has a head.
use enbu.Prelude.{
  ◌<◌, Bytes, before, true, false, some, List, [], ◌∷◌, ◌≡◌, ◌⊎◌, inl, inr, refl, sym, ◌∙◌, subst,
  arith, length, has, Dict, lookup, keys, Bool-cases, All, Any, has-append, sort_by-length, All-has,
}
use enbu.Outcome.{ok, err, forked}
use enbu.Graph.{Digest}
use enbu.Signing.{verify, domain_control}
use enbu.Storage.{Store}
use enbu.Wsp.{Principal, Control, Protocol, Signed, decode_canonical}
use enbu.Wsp.Members.{Verified, principal}
use enbu.Wsp.Members.Child.{verify_child-IsChild, Lists, IsAdmin}
use enbu.Wsp.Chain.{
  PendingControl, ControlView, load_control, head, is_forked, digests_of, heads_of, child_of,
  unnamed, get,
}
use enbu.Wsp.Chain.Derived.{Derived, AllDerived, genesis_control, child, none_left, and_next}
use enbu.Wsp.Chain.Accept.{Layered}
use enbu.Wsp.Chain.Load.{load_control-IsLoaded}

module _ (P : Protocol) (Good : Control → Type 0) where
  -- Goodness passes on by admins: a Control that decodes from a body that an admin of a good Control
  -- signed, as its author, is good.
  abbrev pub KeptByAdmins : Type 0
  KeptByAdmins =
      (v : Verified) (a : Principal) (c : Control) (s : Signed)
      → Good v.control
      → principal v.control c.author ≡ some a
      → a.admin ≡ true
      → decode_canonical P.control_codec s.body ≡ ok c
      → verify P.crypto a.signing domain_control s.body s.signature ≡ true
      → Good c

  from_signer :
      (kept : KeptByAdmins) (c : Control) (s : Signed) (vs : List Verified)
      → decode_canonical P.control_codec s.body ≡ ok c
      → All (λ v. Good v.control) vs
      → All (λ v. IsAdmin v c.author) vs
      → Any
          (λ v.
            (a : Principal) × Lists v c.author a
            × (verify P.crypto a.signing domain_control s.body s.signature ≡ true))
          vs
      → Good c
  from_signer kept c s [] d g ad m = elim m [ ]
  from_signer kept c s (v ∷ vs) d g ad (inl (a, e, k)) =
      let (b, f, h) = ad.0 in
      let same : b ≡ a = cc (e, f) in
      kept v a c s g.0 e (subst (λ (x : Principal). x.admin ≡ true) same h) d k
  from_signer kept c s (v ∷ vs) d g ad (inr m) = from_signer kept c s vs d g.1 ad.1 m

  module _ (fetched : Dict PendingControl) (genesis : Digest) (root : Verified)
      (kept : KeptByAdmins) (good_root : Good root.control) where
    mutual
      Derived-Good :
          (d : Digest) (v : Verified) → Derived P fetched genesis root d v → Good v.control
      Derived-Good d v (genesis_control e f) =
          subst (λ (x : Verified). Good x.control) (sym f) good_root
      Derived-Good d v (child p vs en n al h q) =
          let is = verify_child-IsChild P vs p.blob v h in
          from_signer kept v.control is.signed vs is.decodes (AllDerived-Good p.c.parents vs al)
            is.author_admin is.signature_ok

      AllDerived-Good :
          (ds : List Digest) (vs : List Verified)
          → AllDerived P fetched genesis root ds vs
          → All (λ v. Good v.control) vs
      AllDerived-Good ds vs none_left = tt
      AllDerived-Good ds vs (and_next {d = d} {v = v} {ds = es} {vs = ws} r rs) =
          (Derived-Good d v r, AllDerived-Good es ws rs)

  -- Whatever storage returns, a property of the genesis that no admin of a Control having it signs away
  -- holds of every Control of the view: nobody but admins, each made one by admins before, has a say.
  pub load_control-Good :
      (store : Store) (workspace : Bytes) (genesis : Digest) (cp : List Digest) (view : ControlView)
      → KeptByAdmins
      → ((root : Verified) → get view genesis ≡ some root → Good root.control)
      → load_control P store workspace genesis cp ≡ ok view
      → (d : Digest) (v : Verified) → get view d ≡ some v
      → Good v.control
  load_control-Good store workspace genesis cp view kept good h d v e =
      let l = load_control-IsLoaded P store workspace genesis cp view h in
      let root_held = (l.holds genesis l.root).1 (genesis_control refl refl) in
      Derived-Good l.fetched genesis l.root kept (good l.root root_held) d v ((l.holds d v).0 e)

-- A digest that a layered table does not hold is named by none of its Controls.
unnamed_below :
    (d : Digest) (m : Dict Verified)
    → Layered m
    → has d (keys m) ≡ false
    → has d (child_of m) ≡ false
unfolding child_of has
unnamed_below d [] l n = n
unnamed_below d ((e, v) ∷ m) l n =
    let below = unnamed_below d m l.2 (ground arith) in
    let not_parent = not_named v m l.1 (ground arith) in
    has-append d v.control.parents (child_of m) ∙ rw (below, not_parent) refl
  where
    not_named :
        (w : Verified) (t : Dict Verified)
        → All (λ q. has q (keys t) ≡ true) w.control.parents
        → has d (keys t) ≡ false
        → has d w.control.parents ≡ false
    not_named w t a f = elim (Bool-cases (has d w.control.parents)) [
      | inl h ↦ absurd (cc (f, All-has (λ q. has q (keys t) ≡ true) d w.control.parents a h))
      | inr k ↦ k
    ]

newest_unnamed :
    (d : Digest) (v : Verified) (m : Dict Verified)
    → Layered ((d, v) ∷ m)
    → has d (child_of ((d, v) ∷ m)) ≡ false
unfolding child_of
newest_unnamed d v m l =
    has-append d v.control.parents (child_of m) ∙ rw (unnamed_below d m l.2 l.0, not_parent) refl
  where
    not_parent : has d v.control.parents ≡ false
    not_parent = elim (Bool-cases (has d v.control.parents)) [
      | inl h ↦ absurd (cc (l.0, All-has (λ q. has q (keys m) ≡ true) d v.control.parents l.1 h))
      | inr k ↦ k
    ]

heads_of_pos :
    (m : Dict Verified) (d : Digest) (v : Verified)
    → Layered m
    → lookup d m ≡ some v
    → 0 < length (heads_of m)
unfolding heads_of unnamed lookup
heads_of_pos [] d v l e = absurd (cc)
heads_of_pos ((e, w) ∷ m) d v l h =
    let n = newest_unnamed e w m l in
    let less = λ (x y : Verified). before x.digest y.digest in
    let k = sort_by-length less (unnamed (child_of ((e, w) ∷ m)) ((e, w) ∷ m)) in ground arith

-- A loaded view has a head: `Head()` returns the only one, or names the competing ones, and never
-- reads past the end of the heads.
pub head_lem :
    (P : Protocol) (store : Store) (workspace : Bytes) (genesis : Digest) (cp : List Digest)
    (view : ControlView)
    → load_control P store workspace genesis cp ≡ ok view
    → ((v : Verified) × (view.heads ≡ v ∷ []) × (head view ≡ ok v))
      ⊎ ((1 < length view.heads) × (head view ≡ err (forked (digests_of view.heads))))
unfolding head get
head_lem P store workspace genesis cp view h =
    let l = load_control-IsLoaded P store workspace genesis cp view h in
    let root_held = (l.holds genesis l.root).1 (genesis_control refl refl) in
    let pos = heads_of_pos view.verified genesis l.root l.layered root_held in
    by_heads view.heads refl (subst (λ (hs : List Verified). 0 < length hs) (sym l.heads_eq) pos)
  where
    two : (v w : Verified) (vs : List Verified) → view.heads ≡ v ∷ w ∷ vs → is_forked view ≡ true
    two v w vs e = rw (e, is_forked) (ground arith)

    by_heads :
        (hs : List Verified)
        → view.heads ≡ hs
        → 0 < length hs
        → ((v : Verified) × (view.heads ≡ v ∷ []) × (head view ≡ ok v))
          ⊎ ((1 < length view.heads) × (head view ≡ err (forked (digests_of view.heads))))
    by_heads [] e pos = absurd (omega arith)
    by_heads (v ∷ []) e pos = inl (v, e, rw (e, head) refl)
    by_heads (v ∷ w ∷ vs) e pos =
        let t : is_forked view ≡ true = two v w vs e in inr (rw e (omega arith), rw (t, head) refl)
