-- ===== src/Storage/Naming/Listed.antt =====
-- What a listing of names says: the scopes in it, and that a name stands for one object only.
use mathlib.Core.List.{append_assoc}
use enbu.Prelude.{
  ℕ, suc, ◌+◌, Bytes, bytes, ◌==◌, Bool, true, false, not, ◌&&◌, ◌||◌, some, [], ◌∷◌, ◌++◌, ◌≡◌,
  ◌↔◌, inl, inr, refl, sym, ap, ◌∙◌, subst, arith, leb, eqb, length, length-append, all, drop, take,
  starts, drop-length, take-length, Bool-cases, Option-cases,
}
use enbu.Outcome.{ok, guard, ◌>>◌, Result-cases}
use enbu.Graph.{Digest}
use enbu.Signing.{is_hex}
use enbu.Storage.{Kind, state}
use enbu.Storage.Naming.{
  DigestLibrary, scoped, letter, prefix_of, valid_scope, name, rev_from_name, scope_in,
  scope_from_name,
}
use enbu.Storage.Naming.RoundTrip.{
  IsDigestLibrary, name-IsNamed, name_prefix_of, prefix-name, rev_from_name-append,
  rev_from_name-split,
}

pub some_injective : {A : Type 0} {x y : A} → some x ≡ some y → x ≡ y
some_injective e = cc

pub all-append : (p : ℕ → Bool) (xs ys : Bytes) → all p (xs ++ ys) ≡ (all p xs && all p ys)
all-append p [] ys = refl
all-append p (x ∷ xs) ys = ground (arith, all-append p xs ys)

longer : (a b : ℕ) → a ≡ 32 + suc b → leb a 32 ≡ false
longer a b e = ground arith

pub record IsScope (scope : Bytes) : Type 0 where
  pub size : length scope ≡ 32
  pub hex : all is_hex scope ≡ true

pub valid_scope-IsScope :
    (kind : Kind) (scope : Bytes)
    → scoped kind ≡ true
    → valid_scope kind scope ≡ ok tt
    → IsScope scope
unfolding valid_scope
valid_scope-IsScope kind scope s h =
    let k : (guard (eqb (length scope) 32) _ >> guard (all is_hex scope) _) ≡ ok tt = rw s at h in
    record { size = ground arith; hex = ground arith }

pub valid_scope-nil :
    (kind : Kind) (scope : Bytes)
    → scoped kind ≡ false
    → valid_scope kind scope ≡ ok tt
    → scope ≡ []
unfolding valid_scope ◌==◌
valid_scope-nil kind [] s h = refl
valid_scope-nil kind (c ∷ scope) s h = absurd (cc (rw s at h))

module _ (D : DigestLibrary) where
  module _ (L : IsDigestLibrary D) where
    -- The text of a state's name, with the prefix taken off piece by piece.
    state_text :
        (scope : Bytes) (e : Bytes)
        → prefix_of state (bytes "s") scope ++ e ≡ bytes "s-" ++ (scope ++ (bytes "-" ++ e))
    unfolding scoped
    state_text scope e = ap (λ r. b's' ∷ b'-' ∷ r) (append_assoc scope (bytes "-") e)

    scope_read :
        (n rest scope : Bytes) (rev : Digest)
        → leb (length rest) 32 ≡ false
        → starts (drop 32 rest) (bytes "-") ≡ true
        → valid_scope state scope ≡ ok tt
        → rev_from_name D (bytes "s-" ++ (scope ++ bytes "-")) n ≡ some rev
        → scope_in D n rest scope ≡ some scope
    unfolding scope_in
    scope_read n rest scope rev b e v r = rw (scope_in, b, e, v, r) refl

    name-scope :
        (scope : Bytes) (rev : Digest) (n : Bytes)
        → name D state scope rev ≡ ok n
        → scope_from_name D n ≡ some scope
    unfolding scope_from_name starts letter scoped
    name-scope scope rev n h =
        let m = name-IsNamed D state scope rev n h in
        let k : bytes "s" ≡ m.l = some_injective m.is_letter in
        let t : n ≡ bytes "s-" ++ (scope ++ (bytes "-" ++ D.encoded rev)) =
          m.text
          ∙ ap (λ l. prefix_of state l scope ++ D.encoded rev) (sym k)
          ∙ state_text scope (D.encoded rev) in
        let w = valid_scope-IsScope state scope refl m.valid in
        let front : take 32 (scope ++ (bytes "-" ++ D.encoded rev)) ≡ scope =
          rw (← w.size) (take-length scope _) in
        let back : drop 32 (scope ++ (bytes "-" ++ D.encoded rev)) ≡ bytes "-" ++ D.encoded rev =
          rw (← w.size) (drop-length scope _) in
        let size = length-append scope (bytes "-" ++ D.encoded rev) in
        let long : leb (length (scope ++ (bytes "-" ++ D.encoded rev))) 32 ≡ false =
          longer _ (length (D.encoded rev)) (omega (arith, size, w.size)) in
        let found =
          subst (λ x. rev_from_name D (prefix_of state (bytes "s") scope) x ≡ some rev)
            (state_text scope (D.encoded rev))
            (rev_from_name-append D L (prefix_of state (bytes "s") scope) rev m.digest) in
        let text = bytes "s-" ++ (scope ++ (bytes "-" ++ D.encoded rev)) in
        let rest = scope ++ (bytes "-" ++ D.encoded rev) in
        let read = scope_read text rest scope rev long (rw back refl) m.valid found in
        let whole : scope_from_name D text ≡ some scope =
          subst (λ x. scope_in D text rest x ≡ some scope) (sym front) read in
        subst (λ x. scope_from_name D x ≡ some scope) (sym t) whole

    scope-name :
        (scope n : Bytes)
        → scope_from_name D n ≡ some scope
        → (rev : Digest) × (name D state scope rev ≡ ok n)
    unfolding scope_from_name scope_in letter scoped
    scope-name scope n h =
        let rest = drop 2 n in
        let s = take 32 rest in
        let stop = leb (length rest) 32 || not (starts (drop 32 rest) (bytes "-")) in
        elim (Bool-cases (starts n (bytes "s-"))) [
          | inr e ↦ absurd (cc (rw e at h))
          | inl p ↦ elim (Bool-cases stop) [
            | inl e ↦ absurd (cc (rw (p, scope_in, e) at h))
            | inr e ↦ elim (Result-cases (valid_scope state s)) [
              | inl (x, q) ↦ absurd (cc (rw (p, scope_in, e, q) at h))
              | inr (u, q) ↦
                  elim (Option-cases (rev_from_name D (bytes "s-" ++ (s ++ bytes "-")) n)) [
                    | inl r ↦ absurd (cc (rw (p, scope_in, e, q, r) at h))
                    | inr (rev, r) ↦
                        let t : s ≡ scope = some_injective (rw (p, scope_in, e, q, r) at h) in
                        let (w, v) =
                          rev_from_name-split D L (bytes "s-" ++ (s ++ bytes "-")) n rev r in
                        let p = bytes "s-" ++ (s ++ bytes "-") in
                        let made =
                          prefix-name D state s p rev (name_prefix_of D state s (bytes "s") refl q)
                            v in
                        (rev, subst (λ x. name D state x rev ≡ ok n) t (made ∙ ap ok (sym w)))
                  ]
            ]
          ]
        ]

    -- `scopeFromName` reads a scope from exactly the names that `Name` gives to some state of it.
    pub scope_from_name_iff :
        (scope n : Bytes)
        → (scope_from_name D n ≡ some scope) ↔ ((rev : Digest) × (name D state scope rev ≡ ok n))
    scope_from_name_iff scope n = (scope-name scope n, λ (rev, h). name-scope scope rev n h)
