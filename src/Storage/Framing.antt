-- ===== src/Storage/Framing.antt =====
-- pkg/storage/storage.go: what an object must be, and how a single-file backend lays it out.
-- encoding/binary and what a backend reads are parameters. Positions and lengths are Go's `int64`;
-- those that occur stay far below its bound.
pub mod Layout
pub mod Parts
pub mod Lengths
pub mod RoundTrip
use enbu.Prelude.{
  ℕ, zero, suc, ◌+◌, ◌*◌, ◌%◌, ◌^◌, Bytes, ◌==◌, drop, Bool, true, false, not, ◌&&◌, ◌||◌, Option,
  none, some, List, [], ◌∷◌, ◌++◌, ltb, leb, eqb, length, if◌then◌else◌,
}
use enbu.Outcome.{Result, ok, err, corrupt, not_found, failed, guard, ◌>>=◌, ◌>>◌}
use enbu.Graph.{Digest}
use enbu.Storage.{Object, max_payload_bytes}
use enbu.Storage.Naming.{DigestLibrary, validate_ref}

-- What the code calls of encoding/binary.
pub record VarintLibrary : Type 0 where
  -- The bytes that `binary.PutUvarint` writes.
  pub put : ℕ → Bytes
  -- `binary.Uvarint`: the value and how many bytes it takes, `none` where that is not positive.
  pub get : Bytes → Option (ℕ × ℕ)

-- An `io.ReaderAt`: what a zeroed buffer of a length holds after `ReadAt` at an offset, `err` for an
-- error that is not `io.EOF`.
abbrev pub ReaderAt : Type 0
ReaderAt = ℕ → ℕ → Result Bytes

abbrev pub max_head_bytes : ℕ
max_head_bytes = 1048576

abbrev pub max_blobs : ℕ
max_blobs = 8

abbrev pub max_varint_len : ℕ
max_varint_len = 10

-- The size checks of one blob.
unfoldable pub valid_blobs : List Bytes → Result (Unit {0})
unfolding ◌==◌
valid_blobs [] = ok tt
valid_blobs (b ∷ blobs) = do
  guard (not (b == [])) failed
  guard (not (ltb max_payload_bytes (length b))) failed
  valid_blobs blobs

-- `ValidateObject(o)`.
unfoldable pub validate_object : DigestLibrary → Object → Result (Unit {0})
unfolding validate_ref valid_blobs ◌==◌
validate_object D o = do
  validate_ref D o.kind o.scope o.rev
  guard (not (eqb (length o.head) 0 || ltb max_head_bytes (length o.head))) failed
  guard (D.of_bytes o.head == o.rev) corrupt
  guard (not (ltb max_blobs (length o.blobs))) failed
  valid_blobs o.blobs

-- `frameLayout`.
pub record FrameLayout : Type 0 where
  pub offsets : List ℕ
  pub lengths : List ℕ

abbrev pub joined : List Bytes → Bytes
joined [] = []
joined (p ∷ parts) = p ++ joined parts

-- `off := pos; for ... { offsets = append(offsets, off); off += length }`.
unfoldable pub offsets_from : ℕ → List ℕ → List ℕ
offsets_from off [] = []
offsets_from off (n ∷ lengths) = off ∷ offsets_from (off + n) lengths

-- `xs[i]`; the code reads within the list only.
unfoldable pub at_index : List ℕ → ℕ → ℕ
at_index [] i = 0
at_index (x ∷ xs) zero = x
at_index (x ∷ xs) (suc i) = at_index xs i

abbrev pub smaller : ℕ → ℕ → ℕ
smaller a b = if leb a b then a else b

-- The variables of `readLayout` after its first loop.
pub record LengthsRead : Type 0 where
  pub pos : ℕ
  pub total : ℕ
  pub lengths : List ℕ

-- `blobSection(r, l, index)`: where the blob lies and how long it is. An index is not negative here.
unfoldable pub blob_section : FrameLayout → ℕ → Result (ℕ × ℕ)
unfolding at_index
blob_section l index = do
  guard (not (leb (length l.offsets) (index + 1))) not_found
  ok (at_index l.offsets (index + 1), at_index l.lengths (index + 1))

module _ (V : VarintLibrary) where
  unfoldable pub put_lengths : List Bytes → Bytes
  put_lengths [] = []
  put_lengths (p ∷ parts) = V.put (length p) ++ put_lengths parts

  -- `frame(o)`.
  unfoldable pub frame : Object → Bytes
  unfolding put_lengths
  frame o =
      let parts = o.head ∷ o.blobs in V.put (length parts) ++ (put_lengths parts ++ joined parts)

  -- The loop of `readLayout` over the lengths.
  unfoldable pub read_lengths : ℕ → ℕ → Bytes → ℕ → ℕ → Result LengthsRead
  read_lengths zero limit buf pos total = ok (record { pos = pos; total = total; lengths = [] })
  read_lengths (suc count) limit buf pos total = elim (V.get (drop pos buf)) [
    | none ↦ err corrupt
    | some (v, m) ↦
        let rest = read_lengths count max_payload_bytes buf (pos + m) ((total + v) % 2 ^ 64) in
        if ltb limit v
        then err corrupt
        else (rest >>= λ later. ok (record later { lengths = v ∷ later.lengths }))
  ]

  -- What `readLayout` does after the first number. `int64(total) != size-pos` is the last guard: where
  -- `size` is below `pos`, Go compares with a negative number.
  unfoldable pub read_parts : Bytes → ℕ → ℕ → ℕ → Result FrameLayout
  unfolding read_lengths offsets_from at_index
  read_parts buf size count n = do
    guard (not (eqb count 0 || ltb (max_blobs + 1) count)) corrupt
    l ← read_lengths count max_head_bytes buf n 0
    guard (not (eqb (at_index l.lengths 0) 0) && eqb (l.pos + l.total) size) corrupt
    ok (record { offsets = offsets_from l.pos l.lengths; lengths = l.lengths })

  -- `readLayout(r, size)`.
  unfoldable pub read_layout : ReaderAt → ℕ → Result FrameLayout
  unfolding read_parts
  read_layout r size = r (smaller size ((max_blobs + 2) * max_varint_len)) 0 >>= λ buf.
      elim (V.get buf) [ none ↦ err corrupt | some (count, n) ↦ read_parts buf size count n ]

  -- `readHead(r, size, rev)`.
  unfoldable pub read_head : DigestLibrary → ReaderAt → ℕ → Digest → Result (Bytes × FrameLayout)
  unfolding read_layout at_index ◌==◌
  read_head D r size rev = do
    l ← read_layout r size
    head ← r (at_index l.lengths 0) (at_index l.offsets 0)
    guard (D.of_bytes head == rev) corrupt
    ok (head, l)
