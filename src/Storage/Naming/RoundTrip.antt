-- ===== src/Storage/Naming/RoundTrip.antt =====
-- Names are read back: `revFromName` finds in a listing exactly what `Name` wrote there.
use mathlib.Core.List.{append_assoc}
use enbu.Prelude.{
  Bytes, bytes, true, some, ◌∷◌, ◌++◌, ◌≡◌, ◌↔◌, inl, inr, refl, sym, ap, ◌∙◌, arith, eqb, length,
  all, drop, starts, starts_self, starts-split, drop-length, Bool-cases, Option-cases,
  if◌then◌else◌,
}
use enbu.Outcome.{ok, ◌>>◌, ok_injective, >>=-eq-ok, Result-cases}
use enbu.Graph.{Digest}
use enbu.Signing.{is_hex}
use enbu.Storage.{Kind}
use enbu.Storage.Naming.{
  DigestLibrary, scoped, letter, prefix_of, valid_scope, name_prefix, validate_digest, validate_ref,
  name_text, name, rev_from_name,
}

-- What go-digest documents of SHA-256 digests: `Encoded` and `NewDigestFromEncoded` are inverse, and
-- a valid digest has 64 lower-case hexadecimal digits.
pub record IsDigestLibrary (D : DigestLibrary) : Type 0 where
  pub decoded :
      (d : Digest) → D.validate d ≡ true → D.is_sha256 d ≡ true → D.from_encoded (D.encoded d) ≡ d
  pub encoded_length :
      (d : Digest) → D.validate d ≡ true → D.is_sha256 d ≡ true → length (D.encoded d) ≡ 64
  pub encoded_hex :
      (d : Digest) → D.validate d ≡ true → D.is_sha256 d ≡ true → all is_hex (D.encoded d) ≡ true
  pub from_encoded_sha256 : (h : Bytes) → D.is_sha256 (D.from_encoded h) ≡ true
  pub encoded_again : (h : Bytes) → D.encoded (D.from_encoded h) ≡ h

-- The parts of a name that `Name` gave.
pub record IsNamed (D : DigestLibrary) (kind : Kind) (scope : Bytes) (rev : Digest) (n : Bytes)
    : Type 0 where
  pub l : Bytes
  pub is_letter : letter kind ≡ some l
  pub valid : valid_scope kind scope ≡ ok tt
  pub text : n ≡ prefix_of kind l scope ++ D.encoded rev
  pub digest : validate_digest D rev ≡ ok tt

some_injective : {A : Type 0} {x y : A} → some x ≡ some y → x ≡ y
some_injective e = cc

module _ (D : DigestLibrary) where
  pub validate_digest_lem :
      (d : Digest) → validate_digest D d ≡ ok tt → (D.validate d ≡ true) × (D.is_sha256 d ≡ true)
  unfolding validate_digest
  validate_digest_lem d h = ground arith

  validate_digest_of :
      (d : Digest) → D.validate d ≡ true → D.is_sha256 d ≡ true → validate_digest D d ≡ ok tt
  unfolding validate_digest
  validate_digest_of d v a = rw (v, a) refl

  validate_ref_lem :
      (kind : Kind) (scope : Bytes) (rev : Digest)
      → validate_ref D kind scope rev ≡ ok tt
      → (l : Bytes) × (letter kind ≡ some l)
        × (valid_scope kind scope ≡ ok tt)
        × (validate_digest D rev ≡ ok tt)
  unfolding validate_ref
  validate_ref_lem kind scope rev h = elim (Option-cases (letter kind)) [
    | inl e ↦ absurd (cc (rw e at h))
    | inr (l, e) ↦
        let k : (valid_scope kind scope >> validate_digest D rev) ≡ ok tt = rw e at h in
        elim (Result-cases (valid_scope kind scope)) [
          | inl (x, q) ↦ absurd (cc (rw q at k))
          | inr (u, q) ↦ (l, e, q, rw q at k)
        ]
  ]

  -- The text of a name after its prefix.
  prefix_of-append :
      (kind : Kind) (l scope e : Bytes)
      → (if scoped kind
          then l ++ (bytes "-" ++ (scope ++ (bytes "-" ++ e)))
          else l ++ (bytes "-" ++ e))
        ≡ prefix_of kind l scope ++ e
  prefix_of-append kind l scope e = elim (Bool-cases (scoped kind)) [
    | inl s ↦ rw s (
        sym (
          append_assoc l (b'-' ∷ (scope ++ bytes "-")) e
          ∙ ap (λ r. l ++ (b'-' ∷ r)) (append_assoc scope (bytes "-") e)))
    | inr s ↦ rw s (sym (append_assoc l (bytes "-") e))
  ]

  pub name_prefix_of :
      (kind : Kind) (scope l : Bytes)
      → letter kind ≡ some l
      → valid_scope kind scope ≡ ok tt
      → name_prefix kind scope ≡ ok (prefix_of kind l scope)
  unfolding name_prefix
  name_prefix_of kind scope l q s = rw (q, s, name_prefix) refl

  name_text_of :
      (kind : Kind) (scope l : Bytes) (rev : Digest)
      → letter kind ≡ some l
      → name_text D kind scope rev ≡ ok (prefix_of kind l scope ++ D.encoded rev)
  name_text_of kind scope l rev q = rw q (ap ok (prefix_of-append kind l scope (D.encoded rev)))

  pub name-IsNamed :
      (kind : Kind) (scope : Bytes) (rev : Digest) (n : Bytes)
      → name D kind scope rev ≡ ok n
      → IsNamed D kind scope rev n
  unfolding name
  name-IsNamed kind scope rev n h =
      let (u, r, w) =
        >>=-eq-ok (validate_ref D kind scope rev) (λ u. name_text D kind scope rev) h in
      let (l, q, s, v) = validate_ref_lem kind scope rev r in
      record {
        l = l;
        is_letter = q;
        valid = s;
        text = sym (ok_injective (sym (name_text_of kind scope l rev q) ∙ w));
        digest = v;
      }

  pub prefix-name :
      (kind : Kind) (scope p : Bytes) (rev : Digest)
      → name_prefix kind scope ≡ ok p
      → validate_digest D rev ≡ ok tt
      → name D kind scope rev ≡ ok (p ++ D.encoded rev)
  unfolding name name_prefix validate_ref
  prefix-name kind scope p rev h v = elim (Option-cases (letter kind)) [
    | inl e ↦ absurd (cc (rw (e, name_prefix) at h))
    | inr (l, e) ↦ elim (Result-cases (valid_scope kind scope)) [
      | inl (x, q) ↦ absurd (cc (rw (e, q, name_prefix) at h))
      | inr (u, q) ↦
          let t : prefix_of kind l scope ≡ p =
            ok_injective (sym (name_prefix_of kind scope l e q) ∙ h) in
          rw (name, e, q, v)
            (ap ok (prefix_of-append kind l scope (D.encoded rev) ∙ ap (λ r. r ++ D.encoded rev) t))
    ]
  ]

  module _ (L : IsDigestLibrary D) where
    pub rev_from_name-append :
        (p : Bytes) (rev : Digest)
        → validate_digest D rev ≡ ok tt
        → rev_from_name D p (p ++ D.encoded rev) ≡ some rev
    unfolding rev_from_name
    rev_from_name-append p rev v =
        let (a, s) = validate_digest_lem rev v in
        rw
          (
            starts_self p (D.encoded rev),
            drop-length p (D.encoded rev),
            L.encoded_length rev a s,
            L.decoded rev a s,
            a,
          )
          refl

    pub rev_from_name-split :
        (p n : Bytes) (rev : Digest)
        → rev_from_name D p n ≡ some rev
        → (n ≡ p ++ D.encoded rev) × (validate_digest D rev ≡ ok tt)
    unfolding rev_from_name
    rev_from_name-split p n rev h =
        let h' = drop (length p) n in
        elim (Bool-cases (starts n p)) [
          | inr e ↦ absurd (cc (rw e at h))
          | inl e ↦ elim (Bool-cases (eqb (length h') 64)) [
            | inr l ↦ absurd (cc (rw (e, l) at h))
            | inl l ↦ elim (Bool-cases (D.validate (D.from_encoded h'))) [
              | inr v ↦ absurd (cc (rw (e, l, v) at h))
              | inl v ↦
                  let q : D.from_encoded h' ≡ rev = some_injective (rw (e, l, v) at h) in
                  rw (← q) (
                    rw (L.encoded_again h') (starts-split n p e),
                    validate_digest_of (D.from_encoded h') v (L.from_encoded_sha256 h'),
                  )
            ]
          ]
        ]

    -- Of the names listed with the prefix of a kind and a scope, `revFromName` reads a revision from
    -- exactly those that `Name` gives to it, and reads that revision.
    pub rev_from_name_iff :
        (kind : Kind) (scope p n : Bytes) (rev : Digest)
        → name_prefix kind scope ≡ ok p
        → (rev_from_name D p n ≡ some rev) ↔ (name D kind scope rev ≡ ok n)
    rev_from_name_iff kind scope p n rev h = (
      λ r. let (e, v) = rev_from_name-split p n rev r in rw e (prefix-name kind scope p rev h v),
      λ w.
          let m = name-IsNamed kind scope rev n w in
          let q : prefix_of kind m.l scope ≡ p =
            ok_injective (sym (name_prefix_of kind scope m.l m.is_letter m.valid) ∙ h) in
          rw (m.text, q) (rev_from_name-append p rev m.digest),
    )
