-- ===== src/Storage/Framing/Parts.antt =====
-- The parts of an object, and where they stand in its text.
use enbu.Prelude.{
  ℕ, zero, suc, ◌+◌, ◌^◌, ◌≤◌, ◌<◌, Bytes, ◌==◌, true, not, ◌||◌, some, List, [], ◌∷◌, ◌++◌, ◌≡◌,
  ◌⊎◌, inl, inr, refl, sym, ap, ◌∙◌, arith, ltb, eqb, length, length-append, All, drop, take,
  drop-drop, drop-length, take-length,
}
use enbu.Outcome.{Result, ok, err, corrupt, not_found, failed, >>=-eq-ok, guard->>, ok_injective}
use enbu.Storage.{Object, max_payload_bytes}
use enbu.Storage.Naming.{DigestLibrary, validate_ref}
use enbu.Storage.Framing.{
  VarintLibrary, ReaderAt, valid_blobs, validate_object, joined, offsets_from, at_index,
  max_head_bytes, max_blobs,
}

-- What encoding/binary documents of unsigned varints of 64 bits.
pub record IsVarintLibrary (V : VarintLibrary) : Type 0 where
  pub get_put :
      (v : ℕ) → v < 2 ^ 64 → (rest : Bytes) → V.get (V.put v ++ rest) ≡ some (v, length (V.put v))
  pub put_length : (v : ℕ) → v < 2 ^ 64 → length (V.put v) ≤ 10

-- `r` reads the object `b`: `ReadAt` fills a buffer that lies within it.
pub record IsReaderOf (r : ReaderAt) (b : Bytes) : Type 0 where
  pub within : (n off : ℕ) → off + n ≤ length b → r n off ≡ ok (take n (drop off b))

-- The blob at an index, of the object that was stored.
abbrev pub part_at : List Bytes → ℕ → Result Bytes
part_at [] i = err not_found
part_at (p ∷ parts) zero = ok p
part_at (p ∷ parts) (suc i) = part_at parts i

-- The sizes that `ValidateObject` checks.
pub record IsSmall (o : Object) : Type 0 where
  pub head_some : 1 ≤ length o.head
  pub head_small : length o.head ≤ 1048576
  pub few_blobs : length o.blobs ≤ 8
  pub blobs_small : All (λ b. length b ≤ 10485760) o.blobs

valid_blobs-All :
    (blobs : List Bytes) → valid_blobs blobs ≡ ok tt → All (λ b. length b ≤ 10485760) blobs
unfolding valid_blobs
valid_blobs-All [] h = tt
valid_blobs-All (b ∷ blobs) h =
    let (g, h1) = guard->> (not (b == [])) failed _ h in
    let (g', h2) = guard->> (not (ltb max_payload_bytes (length b))) failed _ h1 in
    (at_most (length b) _ g', valid_blobs-All blobs h2)
  where
    at_most : (a b : ℕ) → not (ltb b a) ≡ true → a ≤ b
    at_most a b h = ground arith

head_bounds : (n : ℕ) → not (eqb n 0 || ltb 1048576 n) ≡ true → (1 ≤ n) × (n ≤ 1048576)
head_bounds n h = (ground arith, ground arith)

blob_bound : (n : ℕ) → not (ltb 8 n) ≡ true → n ≤ 8
blob_bound n h = ground arith

pub record IsStored (D : DigestLibrary) (o : Object) : Type 0 where
  pub small : IsSmall o
  pub named : (D.of_bytes o.head == o.rev) ≡ true

pub validate_object-IsStored :
    (D : DigestLibrary) (o : Object) → validate_object D o ≡ ok tt → IsStored D o
unfolding validate_object
validate_object-IsStored D o h =
    let (u, v, h0) = >>=-eq-ok (validate_ref D o.kind o.scope o.rev) _ h in
    let (g, h1) =
      guard->> (not (eqb (length o.head) 0 || ltb max_head_bytes (length o.head))) failed _ h0 in
    let (named, h2) = guard->> (D.of_bytes o.head == o.rev) corrupt _ h1 in
    let (few, h3) = guard->> (not (ltb max_blobs (length o.blobs))) failed _ h2 in
    let (a, b) = head_bounds (length o.head) g in
    record {
      small = record {
        head_some = a;
        head_small = b;
        few_blobs = blob_bound (length o.blobs) few;
        blobs_small = valid_blobs-All o.blobs h3;
      };
      named = named;
    }

abbrev pub lengths_of : List Bytes → List ℕ
lengths_of [] = []
lengths_of (p ∷ parts) = length p ∷ lengths_of parts

-- `b[off : off+n]` for the part at an index, in a text whose end is the parts.
pub record IsPart (b : Bytes) (off n : ℕ) (p : Bytes) : Type 0 where
  pub text : take n (drop off b) ≡ p
  pub inside : off + n ≤ length b

pub part_at-IsPart :
    (b : Bytes) (pos : ℕ) (parts : List Bytes) (i : ℕ) (p : Bytes)
    → drop pos b ≡ joined parts
    → pos + length (joined parts) ≡ length b
    → part_at parts i ≡ ok p
    → IsPart b (at_index (offsets_from pos (lengths_of parts)) i) (at_index (lengths_of parts) i) p
unfolding at_index offsets_from
part_at-IsPart b pos [] i p e s h = absurd (cc)
part_at-IsPart b pos (q ∷ parts) zero p e s h =
    let w : q ≡ p = ok_injective h in
    rw (← w) (record {
      text = ap (take (length q)) e ∙ take-length q (joined parts);
      inside = omega (arith, s, length-append q (joined parts));
    })
part_at-IsPart b pos (q ∷ parts) (suc i) p e s h =
    part_at-IsPart b (pos + length q) parts i p
      (sym (drop-drop (length q) pos b) ∙ ap (drop (length q)) e ∙ drop-length q (joined parts))
      (omega (arith, s, length-append q (joined parts))) h

abbrev pub PartAt : List Bytes → ℕ → Type 0
PartAt parts i =
    ((part_at parts i ≡ err not_found) × (length parts ≤ i))
    ⊎ ((p : Bytes) × (part_at parts i ≡ ok p) × (i < length parts))

pub part_at_lem : (parts : List Bytes) (i : ℕ) → PartAt parts i
part_at_lem [] i = inl (refl, omega arith)
part_at_lem (p ∷ parts) zero = inr (p, refl, omega arith)
part_at_lem (p ∷ parts) (suc i) = elim (part_at_lem parts i) [
  | inl (e, l) ↦ inl (e, omega (arith, l))
  | inr (q, e, l) ↦ inr (q, e, omega (arith, l))
]

pub length-offsets_from : (pos : ℕ) (ns : List ℕ) → length (offsets_from pos ns) ≡ length ns
unfolding offsets_from
length-offsets_from pos [] = refl
length-offsets_from pos (n ∷ ns) = ap suc (length-offsets_from (pos + n) ns)

pub length-lengths_of : (parts : List Bytes) → length (lengths_of parts) ≡ length parts
length-lengths_of [] = refl
length-lengths_of (p ∷ parts) = ap suc (length-lengths_of parts)
