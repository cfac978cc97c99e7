-- ===== src/Wsp/Chain/Unnamed.antt =====
-- The heads of a table of Controls (`view.Heads` of `LoadControl`): those that no other names.
use enbu.Prelude.{
  before, true, false, some, List, [], ◌∷◌, ◌≡◌, inl, inr, refl, sym, ◌∙◌, arith, All, Any, has,
  has-append, Dict, Entry, lookup, lookup-Entry, lookup-cons_ne, lookup-cons_self, subst,
  All-sort_by, Any-sort_by, not-has-nil, Bool-cases,
}
use enbu.Graph.{Digest}
use enbu.Wsp.Members.{Verified}
use enbu.Wsp.Chain.{child_of, unnamed, heads_of}
use enbu.Wsp.Chain.Accept.{Layered}

-- A Control of the table names `d` as a parent.
abbrev pub Named : Digest → Dict Verified → Type 0
Named d m = (e : Digest) × (w : Verified) × (lookup e m ≡ some w) × (has d w.control.parents ≡ true)

child_of-Named :
    (d : Digest) (m : Dict Verified) → Layered m → has d (child_of m) ≡ true → Named d m
unfolding child_of
child_of-Named d [] l h = absurd (not-has-nil d h)
child_of-Named d ((e, v) ∷ m) l h = elim (Bool-cases (has d v.control.parents)) [
  | inl t ↦ (e, v, lookup-cons_self e v m, t)
  | inr n ↦
      let split = sym (has-append d v.control.parents (child_of m)) ∙ h in
      let (f, w, q, t) = child_of-Named d m l.2 (rw n at split) in
      (f, w, lookup-cons_ne f e v m l.0 w q, t)
]

Named-child_of :
    (d e : Digest) (w : Verified) (m : Dict Verified)
    → Entry e w m
    → has d w.control.parents ≡ true
    → has d (child_of m) ≡ true
unfolding child_of
Named-child_of d e w [] i h = elim i [ ]
Named-child_of d e w ((f, v) ∷ m) i h = has-append d v.control.parents (child_of m) ∙ elim i [
  | inl s ↦ rw (subst (λ x. has d x.control.parents ≡ true) (sym s.1) h) refl
  | inr s ↦ let k = Named-child_of d e w m s h in ground arith
]

Entry-lookup :
    (d : Digest) (v : Verified) (m : Dict Verified) → Layered m → Entry d v m → lookup d m ≡ some v
Entry-lookup d v [] l i = elim i [ ]
Entry-lookup d v ((e, w) ∷ m) l (inl s) =
    subst (λ x. lookup x ((e, w) ∷ m) ≡ some v) s.0
      (subst (λ y. lookup e ((e, w) ∷ m) ≡ some y) s.1 (lookup-cons_self e w m))
Entry-lookup d v ((e, w) ∷ m) l (inr s) = lookup-cons_ne d e w m l.0 v (Entry-lookup d v m l.2 s)

unnamed-All :
    (P : Verified → Type 0) (cs : List Digest) (m : Dict Verified)
    → ((d : Digest) (v : Verified) → Entry d v m → has d cs ≡ false → P v)
    → All P (unnamed cs m)
unfolding unnamed
unnamed-All P cs [] f = tt
unnamed-All P cs ((e, w) ∷ m) f =
    let rest = unnamed-All P cs m (λ d v i n. f d v (inr i) n) in
    elim (Bool-cases (has e cs)) [
      | inl t ↦ rw (unnamed, t) rest
      | inr n ↦ rw (unnamed, n) (f e w (inl (refl, refl)) n, rest)
    ]

unnamed-Any :
    (d : Digest) (v : Verified) (cs : List Digest) (m : Dict Verified)
    → Entry d v m
    → has d cs ≡ false
    → Any (λ h. h ≡ v) (unnamed cs m)
unfolding unnamed
unnamed-Any d v cs [] i n = elim i [ ]
unnamed-Any d v cs ((e, w) ∷ m) (inl s) n =
    rw (unnamed, subst (λ x. has x cs ≡ false) (sym s.0) n) (inl s.1)
unnamed-Any d v cs ((e, w) ∷ m) (inr s) n = elim (Bool-cases (has e cs)) [
  | inl t ↦ rw (unnamed, t) (unnamed-Any d v cs m s n)
  | inr f ↦ rw (unnamed, f) (inr (unnamed-Any d v cs m s n))
]

-- A head is held under some digest that no Control of the table names.
abbrev pub IsHead : Dict Verified → Verified → Type 0
IsHead m h = (d : Digest) × (lookup d m ≡ some h) × ¬ (Named d m)

-- All heads are, and everything that is so is a head.
pub heads_of-IsHead : (m : Dict Verified) → Layered m → All (IsHead m) (heads_of m)
unfolding heads_of
heads_of-IsHead m l =
    All-sort_by (IsHead m) (λ (v w : Verified). before v.digest w.digest) (unnamed (child_of m) m)
      (unnamed-All (IsHead m) (child_of m) m (λ d v i n. (
        d,
        Entry-lookup d v m l i,
        λ (e, w, q, h). absurd (cc (n, Named-child_of d e w m (lookup-Entry e w m q) h)),
      )))

pub IsHead-heads_of :
    (m : Dict Verified) → Layered m → (h : Verified) → IsHead m h → Any (λ v. v ≡ h) (heads_of m)
unfolding heads_of
IsHead-heads_of m l h (d, q, n) =
    let none_names : has d (child_of m) ≡ false = elim (Bool-cases (has d (child_of m))) [
      | inl t ↦ absurd (n (child_of-Named d m l t))
      | inr f ↦ f
    ] in
    Any-sort_by (λ v. v ≡ h) (λ (v w : Verified). before v.digest w.digest) (unnamed (child_of m) m)
      (unnamed-Any d h (child_of m) m (lookup-Entry d h m q) none_names)
