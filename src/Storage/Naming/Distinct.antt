-- ===== src/Storage/Naming/Distinct.antt =====
-- A name stands for one object: kind, scope and revision can be told from it.
use mathlib.Core.List.{append_assoc}
use enbu.Prelude.{
  Bytes, bytes, true, some, [], ◌∷◌, ◌++◌, ◌≡◌, inl, inr, refl, sym, ap, ap₂, ◌∙◌, subst, arith,
  eqb, length, drop, take, drop-length, take-length, Bool-cases, if◌then◌else◌,
}
use enbu.Outcome.{ok}
use enbu.Graph.{Digest}
use enbu.Storage.{Kind, state, control, request, compaction, unknown}
use enbu.Storage.Naming.{DigestLibrary, scoped, letter, prefix_of, valid_scope, name}
use enbu.Storage.Naming.RoundTrip.{IsDigestLibrary, name-IsNamed, validate_digest_lem}
use enbu.Storage.Naming.Listed.{valid_scope-IsScope, valid_scope-nil, some_injective}

-- The kind that a letter stands for.
of_letter : Bytes → Kind
of_letter [] = unknown []
of_letter (c ∷ l) =
    if eqb c b's'
    then state
    else if eqb c b'c'
    then control
    else if eqb c b'r'
    then request
    else compaction

of_letter-letter : (kind : Kind) (l : Bytes) → letter kind ≡ some l → of_letter l ≡ kind
unfolding letter of_letter
of_letter-letter state l e = rw (← some_injective e) refl
of_letter-letter control l e = rw (← some_injective e) refl
of_letter-letter request l e = rw (← some_injective e) refl
of_letter-letter compaction l e = rw (← some_injective e) refl
of_letter-letter (unknown k) l e = absurd (cc)

-- A letter is one byte.
letter_single : (kind : Kind) (l : Bytes) → letter kind ≡ some l → length l ≡ 1
unfolding letter
letter_single state l e = rw (← some_injective e) refl
letter_single control l e = rw (← some_injective e) refl
letter_single request l e = rw (← some_injective e) refl
letter_single compaction l e = rw (← some_injective e) refl
letter_single (unknown k) l e = absurd (cc)

-- What stands at the front and at the end of `x ++ y` and of `x' ++ y'` when `x` and `x'` are as long.
append_same_length :
    (x x' y y' : Bytes) → length x ≡ length x' → x ++ y ≡ x' ++ y' → (x ≡ x') × (y ≡ y')
append_same_length x x' y y' l e =
    let front : take (length x) (x ++ y) ≡ take (length x') (x' ++ y') = ap₂ take l e in
    let back : drop (length x) (x ++ y) ≡ drop (length x') (x' ++ y') = ap₂ drop l e in
    (
      sym (take-length x y) ∙ front ∙ take-length x' y',
      sym (drop-length x y) ∙ back ∙ drop-length x' y',
    )

pub scoped_text :
    (kind : Kind) (l scope e : Bytes)
    → scoped kind ≡ true
    → prefix_of kind l scope ++ e ≡ l ++ ((b'-' ∷ scope) ++ (b'-' ∷ e))
scoped_text kind l scope e s = rw s (
    append_assoc l (b'-' ∷ (scope ++ bytes "-")) e
    ∙ ap (λ r. l ++ (b'-' ∷ r)) (append_assoc scope (bytes "-") e))

module _ (D : DigestLibrary) (L : IsDigestLibrary D) where
  prefix_front :
      (kind : Kind) (l scope e : Bytes)
      → letter kind ≡ some l
      → take 1 (prefix_of kind l scope ++ e) ≡ l
  prefix_front kind l scope e h = elim (Bool-cases (scoped kind)) [
    | inl s ↦ rw (← letter_single kind l h, scoped_text kind l scope e s) (take-length l _)
    | inr s ↦ rw (← letter_single kind l h, s, append_assoc l (bytes "-") e) (take-length l _)
  ]

  -- The scope and the digits, of two names with one kind.
  same_kind :
      (kind : Kind) (l scope scope' e e' : Bytes)
      → valid_scope kind scope ≡ ok tt
      → valid_scope kind scope' ≡ ok tt
      → prefix_of kind l scope ++ e ≡ prefix_of kind l scope' ++ e'
      → (scope ≡ scope') × (e ≡ e')
  same_kind kind l scope scope' e e' v v' t = elim (Bool-cases (scoped kind)) [
    | inl s ↦
        let w = valid_scope-IsScope kind scope s v in
        let w' = valid_scope-IsScope kind scope' s v' in
        let u = sym (scoped_text kind l scope e s) ∙ t ∙ scoped_text kind l scope' e' s in
        let (a, b) =
          append_same_length l l ((b'-' ∷ scope) ++ (b'-' ∷ e)) ((b'-' ∷ scope') ++ (b'-' ∷ e'))
            refl u in
        let (c, d) =
          append_same_length (b'-' ∷ scope) (b'-' ∷ scope') (b'-' ∷ e) (b'-' ∷ e')
            (omega (arith, w.size, w'.size)) b in
        (ap (drop 1) c, ap (drop 1) d)
    | inr s ↦
        let (a, b) = append_same_length (l ++ bytes "-") (l ++ bytes "-") e e' refl (rw s at t) in
        (valid_scope-nil kind scope s v ∙ sym (valid_scope-nil kind scope' s v'), b)
  ]

  -- A name stands for one object only: its kind, scope and revision can be read off it.
  pub name_injective :
      (kind kind' : Kind) (scope scope' : Bytes) (rev rev' : Digest) (n : Bytes)
      → name D kind scope rev ≡ ok n
      → name D kind' scope' rev' ≡ ok n
      → (kind ≡ kind') × (scope ≡ scope') × (rev ≡ rev')
  name_injective kind kind' scope scope' rev rev' n h h' =
      let m = name-IsNamed D kind scope rev n h in
      let m' = name-IsNamed D kind' scope' rev' n h' in
      let t = sym m.text ∙ m'.text in
      let q : m.l ≡ m'.l =
        sym (prefix_front kind m.l scope (D.encoded rev) m.is_letter)
        ∙ ap (take 1) t
        ∙ prefix_front kind' m'.l scope' (D.encoded rev') m'.is_letter in
      let k : kind ≡ kind' =
        sym (of_letter-letter kind m.l m.is_letter)
        ∙ ap of_letter q
        ∙ of_letter-letter kind' m'.l m'.is_letter in
      let (s, e) =
        same_kind kind' m'.l scope scope' (D.encoded rev) (D.encoded rev')
          (subst (λ x. valid_scope x scope ≡ ok tt) k m.valid) m'.valid
          (ap₂ (λ x y. prefix_of x y scope ++ D.encoded rev) (sym k) (sym q) ∙ t) in
      let (a, b) = validate_digest_lem D rev m.digest in
      let (a', b') = validate_digest_lem D rev' m'.digest in
      (k, s, sym (L.decoded rev a b) ∙ ap D.from_encoded e ∙ L.decoded rev' a' b')
