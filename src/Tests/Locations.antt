-- ===== src/Tests/Locations.antt =====
-- Runs of the names and frames of pkg/storage, with libraries that have the documented laws.
use enbu.Prelude.{
  ℕ, zero, suc, ◌+◌, ◌*◌, ◌/◌, ◌%◌, ◌-◌, ◌<◌, ◌≤◌, Bytes, bytes, ◌==◌, true, false, ◌&&◌, Option,
  none, some, [], ◌∷◌, ◌++◌, ◌≡◌, ◌↔◌, inl, inr, refl, sym, ap, ◌∙◌, arith, ltb, eqb, length, all,
  drop, take, starts, starts-split, starts_self, Bool-cases, if◌then◌else◌,
}
use enbu.Outcome.{ok}
use enbu.Graph.{Digest}
use enbu.Signing.{is_hex}
use enbu.Storage.{Object, state, control}
use enbu.Storage.Naming
use enbu.Storage.Naming.{
  DigestLibrary, name, name_prefix, rev_from_name, scope_from_name, validate_key,
}
use enbu.Storage.Naming.RoundTrip.{IsDigestLibrary, rev_from_name_iff}
use enbu.Storage.Naming.Distinct.{name_injective}
use enbu.Storage.Framing
use enbu.Storage.Framing.{VarintLibrary, ReaderAt, FrameLayout, frame, read_layout, read_head}
use enbu.Storage.Framing.Layout.{IsLayout, read_layout-IsLayout}
use enbu.Storage.Framing.Parts.{IsVarintLibrary, IsReaderOf, part_at}
use enbu.Storage.Framing.Lengths.{read_section}
use enbu.Storage.Framing.RoundTrip.{read_head-frame}

abbrev digits : Bytes
digits = bytes "00112233445566778899aabbccddeeff"

abbrev algorithm : Bytes
algorithm = bytes "sha256:"

abbrev rev : Digest
rev = algorithm ++ (digits ++ digits)

-- SHA-256 digests, with one digest for all texts.
abbrev library : DigestLibrary
library = record {
  of_bytes = λ b. rev;
  validate = λ d. eqb (length (drop 7 d)) 64 && all is_hex (drop 7 d);
  is_sha256 = λ d. starts d algorithm;
  encoded = λ d. drop 7 d;
  from_encoded = λ h. algorithm ++ h;
}

library-IsDigestLibrary : IsDigestLibrary library
unfolding starts
library-IsDigestLibrary = record {
  decoded = λ d v s. sym (starts-split d algorithm s);
  encoded_length = λ d v s. ground arith;
  encoded_hex = λ d v s. ground arith;
  from_encoded_sha256 = λ h. starts_self algorithm h;
  encoded_again = λ h. refl;
}

abbrev state_name : Bytes
state_name = bytes "s-" ++ (digits ++ (bytes "-" ++ (digits ++ digits)))

state_name_ok : name library state digits rev ≡ ok state_name
unfolding name Naming.validate_ref Naming.valid_scope Naming.validate_digest Naming.letter
    Naming.scoped starts
state_name_ok = refl

rev_from_name_iff_example :
    (rev_from_name library (bytes "s-" ++ (digits ++ bytes "-")) state_name ≡ some rev)
    ↔ (name library state digits rev ≡ ok state_name)
unfolding name_prefix Naming.valid_scope Naming.letter Naming.scoped
rev_from_name_iff_example =
    rev_from_name_iff library library-IsDigestLibrary state digits
      (bytes "s-" ++ (digits ++ bytes "-")) state_name rev refl

name_injective_example : (state ≡ state) × (digits ≡ digits) × (rev ≡ rev)
name_injective_example =
    name_injective library library-IsDigestLibrary state state digits digits rev rev state_name
      state_name_ok state_name_ok

-- LEB128, as encoding/binary does it; ten groups of seven bits hold 64 bits.
abbrev put_varint : ℕ → ℕ → Bytes
put_varint zero v = []
put_varint (suc fuel) v =
    let rest = put_varint fuel (v / 128) in if ltb v 128 then v ∷ [] else (v % 128 + 128) ∷ rest

abbrev more : ℕ → Option (ℕ × ℕ) → Option (ℕ × ℕ)
more b none = none
more b (some (v, n)) = some (b - 128 + 128 * v, suc n)

abbrev get_varint : Bytes → Option (ℕ × ℕ)
get_varint [] = none
get_varint (b ∷ bs) = let rest = get_varint bs in if ltb b 128 then some (b, 1) else more b rest

abbrev bound : ℕ → ℕ
bound zero = 1
bound (suc fuel) = 128 * bound fuel

small : (v : ℕ) → v < 128 → ltb v 128 ≡ true
small v h = ground arith

large : (b : ℕ) (bs : Bytes) → 128 ≤ b → get_varint (b ∷ bs) ≡ more b (get_varint bs)
large b bs h = rw (not_small b h) refl
  where
    not_small : (b : ℕ) → 128 ≤ b → ltb b 128 ≡ false
    not_small b h = ground arith

get-put :
    (fuel v : ℕ)
    → v < 128 * bound fuel
    → (rest : Bytes)
    → get_varint (put_varint (suc fuel) v ++ rest) ≡ some (v, length (put_varint (suc fuel) v))
get-put zero v h rest = let e = small v (omega (arith, h)) in rw e (rw e refl)
get-put (suc fuel) v h rest = elim (Bool-cases (ltb v 128)) [
  | inl e ↦ rw e (rw e refl)
  | inr e ↦
      let p = put_varint (suc fuel) (v / 128) in
      let b = v % 128 + 128 in
      rw e (
        large b (p ++ rest) (omega arith)
        ∙ ap (more b) (get-put fuel (v / 128) (omega (arith, h)) rest)
        ∙ ap (λ x. some (x, suc (length p))) (omega arith))
]

length-put_varint : (fuel v : ℕ) → length (put_varint fuel v) ≤ fuel
length-put_varint zero v = omega arith
length-put_varint (suc fuel) v = elim (Bool-cases (ltb v 128)) [
  | inl e ↦ rw e (omega arith)
  | inr e ↦ rw e (omega (arith, length-put_varint fuel (v / 128)))
]

abbrev varints : VarintLibrary
varints = record { put = put_varint 10; get = get_varint }

varints-IsVarintLibrary : IsVarintLibrary varints
varints-IsVarintLibrary = record {
  get_put = λ v h rest. get-put 9 v (omega (arith, h)) rest;
  put_length = λ v h. length-put_varint 10 v;
}

abbrev stored : Object
stored = record {
  kind = control;
  scope = [];
  rev = rev;
  head = bytes "head";
  blobs = bytes "one" ∷ bytes "two" ∷ [];
}

abbrev reader : Bytes → ReaderAt
reader b n off = ok (take n (drop off b))

reader-IsReaderOf : (b : Bytes) → IsReaderOf (reader b) b
reader-IsReaderOf b = record { within = λ n off h. refl }

read_head-frame_example :
    (l : FrameLayout) × (read_head varints library
        (reader (frame varints stored))
        (length (frame varints stored))
        rev
      ≡ ok (bytes "head", l))
    × ((i : ℕ)
        → read_section (reader (frame varints stored)) l i
          ≡ part_at (bytes "one" ∷ bytes "two" ∷ []) i)
unfolding Framing.validate_object Framing.valid_blobs Naming.validate_ref Naming.valid_scope
    Naming.validate_digest Naming.letter Naming.scoped starts ◌==◌
read_head-frame_example =
    read_head-frame varints varints-IsVarintLibrary library stored (reader (frame varints stored))
      (reader-IsReaderOf (frame varints stored)) refl

abbrev text : Bytes
text = 2 ∷ 1 ∷ 2 ∷ 7 ∷ 8 ∷ 9 ∷ []

abbrev layout : FrameLayout
layout = record { offsets = 3 ∷ 4 ∷ []; lengths = 1 ∷ 2 ∷ [] }

read_layout-IsLayout_example : IsLayout 6 layout
unfolding read_layout Framing.read_parts Framing.read_lengths Framing.at_index Framing.offsets_from
read_layout-IsLayout_example = read_layout-IsLayout varints (reader text) 6 layout refl
