-- ===== src/Storage/Naming/Keys.antt =====
-- `Name` gives names that `ValidateKey` accepts.
use mathlib.Core.List.{append_assoc}
use enbu.Prelude.{
  ℕ, ◌≤◌, Bytes, bytes, ◌==◌, Bool, true, false, not, ◌&&◌, ◌||◌, some, [], ◌∷◌, ◌++◌, ◌≡◌, inl,
  inr, refl, ap₂, ◌∙◌, arith, ltb, eqb, length, length-append, all, Bool-cases,
}
use enbu.Outcome.{ok, failed, guard, ◌>>◌}
use enbu.Graph.{Digest}
use enbu.Signing.{is_hex}
use enbu.Storage.{Kind, state, control, request, compaction, unknown}
use enbu.Storage.Naming.{
  DigestLibrary, scoped, letter, prefix_of, valid_scope, name, is_key_char, validate_key,
}
use enbu.Storage.Naming.RoundTrip.{IsDigestLibrary, name-IsNamed, validate_digest_lem}
use enbu.Storage.Naming.Listed.{valid_scope-IsScope, some_injective, all-append}
use enbu.Storage.Naming.Distinct.{scoped_text}

is_hex-is_key_char : (c : ℕ) → is_hex c ≡ true → is_key_char c ≡ true
is_hex-is_key_char c h = ground arith

all_hex : (h : Bytes) → all is_hex h ≡ true → all is_key_char h ≡ true
all_hex [] e = refl
all_hex (c ∷ h) e = ground (arith, is_hex-is_key_char c, all_hex h)

letter_key :
    (kind : Kind) (l : Bytes) → letter kind ≡ some l → (length l ≡ 1) × (all is_key_char l ≡ true)
unfolding letter
letter_key state l e = rw (← some_injective e) (refl, refl)
letter_key control l e = rw (← some_injective e) (refl, refl)
letter_key request l e = rw (← some_injective e) (refl, refl)
letter_key compaction l e = rw (← some_injective e) (refl, refl)
letter_key (unknown k) l e = absurd (cc)

key_guards :
    (long x y chars : Bool)
    → long ≡ false
    → chars ≡ true
    → (guard (not (long || (x && false) || (x && (y && false)))) failed >> guard chars failed)
      ≡ ok tt
key_guards long x y chars e h = rw (e, h) (ground arith)

at_most : (a b : ℕ) → a ≤ b → ltb b a ≡ false
at_most a b h = ground arith

long_key :
    (k : Bytes) → 3 ≤ length k → length k ≤ 128 → all is_key_char k ≡ true → validate_key k ≡ ok tt
unfolding validate_key ◌==◌
long_key [] a b h = absurd (omega arith)
long_key (c ∷ []) a b h = absurd (omega arith)
long_key (c ∷ c' ∷ []) a b h = absurd (omega arith)
long_key (c ∷ c' ∷ c'' ∷ k) a b h =
    key_guards (ltb 128 (length (c ∷ c' ∷ c'' ∷ k))) (eqb c b'.') (eqb c' b'.') _ (at_most _ 128 b)
      h

module _ (D : DigestLibrary) (L : IsDigestLibrary D) where
  key_text :
      (kind : Kind) (l scope e : Bytes)
      → letter kind ≡ some l
      → valid_scope kind scope ≡ ok tt
      → all is_hex e ≡ true
      → length e ≡ 64
      → validate_key (prefix_of kind l scope ++ e) ≡ ok tt
  key_text kind l scope e h v x s =
      let (one, plain) = letter_key kind l h in
      let hex = all_hex e x in
      elim (Bool-cases (scoped kind)) [
        | inl t ↦
            let w = valid_scope-IsScope kind scope t v in
            let size = length-append l ((b'-' ∷ scope) ++ (b'-' ∷ e)) in
            let size' = length-append (b'-' ∷ scope) (b'-' ∷ e) in
            let chars =
              all-append is_key_char l ((b'-' ∷ scope) ++ (b'-' ∷ e))
              ∙ ap₂ (λ a b. a && b) plain
                  (all-append is_key_char (b'-' ∷ scope) (b'-' ∷ e)
                    ∙ ap₂ (λ a b. a && b) (all_hex scope w.hex) hex) in
            rw (scoped_text kind l scope e t) (
              long_key _ (omega (arith, one, size, size', s, w.size))
                (omega (arith, one, size, size', s, w.size)) chars)
        | inr t ↦
            let size = length-append l (b'-' ∷ e) in
            let chars = all-append is_key_char l (b'-' ∷ e) ∙ ap₂ (λ a b. a && b) plain hex in
            rw (t, append_assoc l (bytes "-") e)
              (long_key (l ++ (b'-' ∷ e)) (omega (arith, one, size, s))
                (omega (arith, one, size, s)) chars)
      ]

  -- Every name is a legal OCI tag and file name.
  pub name-validate_key :
      (kind : Kind) (scope : Bytes) (rev : Digest) (n : Bytes)
      → name D kind scope rev ≡ ok n
      → validate_key n ≡ ok tt
  name-validate_key kind scope rev n h =
      let m = name-IsNamed D kind scope rev n h in
      let (a, b) = validate_digest_lem D rev m.digest in
      rw m.text (
        key_text kind m.l scope (D.encoded rev) m.is_letter m.valid (L.encoded_hex rev a b)
          (L.encoded_length rev a b))
