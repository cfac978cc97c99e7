-- ===== src/Storage/Framing/Lengths.antt =====
-- Reading back the lengths at the start of a stored object, and the sections of its blobs.
use mathlib.Core.List.{append_assoc}
use enbu.Prelude.{
  ℕ, zero, suc, ◌+◌, ◌-◌, ◌*◌, ◌%◌, ◌^◌, ◌≤◌, ◌<◌, Bytes, true, false, not, ◌&&◌, ◌||◌, some, List,
  [], ◌∷◌, ◌++◌, ◌≡◌, inl, inr, refl, sym, ap, ap₂, ◌∙◌, arith, ltb, leb, eqb, length,
  length-append, All, drop, take, drop-length,
}
use enbu.Outcome.{Result, ok, ◌>>=◌}
use enbu.Storage.{max_payload_bytes}
use enbu.Storage.Framing.{
  VarintLibrary, LengthsRead, ReaderAt, FrameLayout, joined, offsets_from, at_index, smaller,
  blob_section, put_lengths, read_lengths,
}
use enbu.Storage.Framing.Parts.{
  IsVarintLibrary, IsReaderOf, part_at, part_at_lem, lengths_of, part_at-IsPart,
  length-offsets_from, length-lengths_of,
}

-- Reading all of the section that `blobSection` gives.
abbrev pub read_section : ReaderAt → FrameLayout → ℕ → Result Bytes
read_section r l i = blob_section l i >>= λ (off, n). r n off

abbrev pub layout_of : ℕ → List Bytes → FrameLayout
layout_of pos parts = record {
  offsets = offsets_from pos (lengths_of parts);
  lengths = lengths_of parts;
}

length-layout_of :
    (pos : ℕ) (parts : List Bytes) → length (offsets_from pos (lengths_of parts)) ≡ length parts
length-layout_of pos parts = length-offsets_from pos (lengths_of parts) ∙ length-lengths_of parts

-- A section is the blob, or there is none at the index.
pub read_section-part_at :
    (r : ReaderAt) (b : Bytes) (pos : ℕ) (head : Bytes) (blobs : List Bytes) (i : ℕ)
    → IsReaderOf r b
    → drop pos b ≡ joined (head ∷ blobs)
    → pos + length (joined (head ∷ blobs)) ≡ length b
    → read_section r (layout_of pos (head ∷ blobs)) i ≡ part_at blobs i
unfolding blob_section
read_section-part_at r b pos head blobs i R e s =
    let parts = head ∷ blobs in
    let size = length-layout_of pos parts in
    elim (part_at_lem blobs i) [
      | inl (q, l) ↦
          let g : leb (length (offsets_from pos (lengths_of parts))) (i + 1) ≡ true =
            reached _ (i + 1) (omega (arith, size, l)) in
          rw (blob_section, g) (sym q)
      | inr (p, q, l) ↦
          let g : leb (length (offsets_from pos (lengths_of parts))) (i + 1) ≡ false =
            short _ (i + 1) (omega (arith, size, l)) in
          let w = part_at-IsPart b pos parts (i + 1) p e s (ap (part_at parts) (add_one i) ∙ q) in
          let t =
            R.within (at_index (lengths_of parts) (i + 1))
              (at_index (offsets_from pos (lengths_of parts)) (i + 1)) w.inside in
          rw (blob_section, g, q) (t ∙ ap ok w.text)
    ]
  where
    reached : (a b : ℕ) → a ≤ b → leb a b ≡ true
    reached a b h = ground arith

    short : (a b : ℕ) → b < a → leb a b ≡ false
    short a b h = ground arith

    add_one : (i : ℕ) → i + 1 ≡ suc i
    add_one i = omega arith

wraps_not : (n : ℕ) → n < 2 ^ 64 → n % 2 ^ 64 ≡ n
wraps_not n h = omega arith

not_above : (v limit : ℕ) → v ≤ limit → ltb limit v ≡ false
not_above v limit h = ground arith

pub take_over :
    (n : ℕ) (xs ys : Bytes) → length xs ≤ n → take n (xs ++ ys) ≡ xs ++ take (n - length xs) ys
take_over n [] ys h = ap (λ k. take k ys) (omega arith)
take_over zero (x ∷ xs) ys h = absurd (omega arith)
take_over (suc n) (x ∷ xs) ys h =
    let e : suc n - length (x ∷ xs) ≡ n - length xs = omega arith in
    rw e (ap (λ r. x ∷ r) (take_over n xs ys (omega arith)))

pub counted : (n : ℕ) → n ≤ 8 → not (eqb (suc n) 0 || ltb 9 (suc n)) ≡ true
counted n h = ground arith

pub exact :
    (first end size : ℕ) → 1 ≤ first → end ≡ size → (not (eqb first 0) && eqb end size) ≡ true
exact first end size h e = rw e (ground arith)

pub smaller_bound :
    (size start : ℕ)
    → start ≤ size
    → start ≤ 100
    → (start ≤ smaller size 100) × (0 + smaller size 100 ≤ size)
smaller_bound size start h k = (ground arith, ground arith)

-- The first part is within `limit`.
unfoldable pub First : ℕ → List Bytes → Type 0
First limit [] = Unit
First limit (p ∷ parts) = length p ≤ limit

First-All :
    (parts : List Bytes) → All (λ b. length b ≤ 10485760) parts → First max_payload_bytes parts
unfolding First
First-All [] h = tt
First-All (p ∷ parts) h = h.0

module _ (V : VarintLibrary) (L : IsVarintLibrary V) where
  pub put_lengths-bound :
      (parts : List Bytes)
      → All (λ b. length b ≤ 10485760) parts
      → length (put_lengths V parts) ≤ length parts * 10
  unfolding put_lengths
  put_lengths-bound [] h = omega arith
  put_lengths-bound (p ∷ parts) h = omega (
    arith,
    length-append (V.put (length p)) (put_lengths V parts),
    L.put_length (length p) (omega (arith, h.0)),
    put_lengths-bound parts h.1,
  )

  read_step :
      (count limit : ℕ) (buf : Bytes) (pos total v m t : ℕ) (l : LengthsRead)
      → V.get (drop pos buf) ≡ some (v, m)
      → ltb limit v ≡ false
      → (total + v) % 2 ^ 64 ≡ t
      → read_lengths V count max_payload_bytes buf (pos + m) t ≡ ok l
      → read_lengths V (suc count) limit buf pos total ≡ ok (record l { lengths = v ∷ l.lengths })
  unfolding read_lengths
  read_step count limit buf pos total v m t l e f u q = rw (read_lengths, e, f, u, q) refl

  -- The loop over the lengths reads back what `frame` put there.
  pub read_lengths-put :
      (parts : List Bytes) (limit : ℕ) (pre tail : Bytes) (total : ℕ)
      → First limit parts
      → All (λ b. length b ≤ 10485760) parts
      → total + length parts * 10485760 < 2 ^ 64
      → read_lengths V
          (length parts)
          limit
          (pre ++ (put_lengths V parts ++ tail))
          (length pre)
          total
        ≡ ok (record {
          pos = length pre + length (put_lengths V parts);
          total = total + length (joined parts);
          lengths = lengths_of parts;
        })
  unfolding read_lengths put_lengths First
  read_lengths-put [] limit pre tail total f h b =
      ap ok (ap₂ (λ x y. record { pos = x; total = y; lengths = [] }) (omega arith) (omega arith))
  read_lengths-put (p ∷ parts) limit pre tail total f h b =
      let v = length p in
      let text = put_lengths V parts ++ tail in
      let buf = pre ++ ((V.put v ++ put_lengths V parts) ++ tail) in
      let at : drop (length pre) buf ≡ V.put v ++ text =
        drop-length pre _ ∙ append_assoc (V.put v) (put_lengths V parts) tail in
      let got : V.get (drop (length pre) buf) ≡ some (v, length (V.put v)) =
        ap V.get at ∙ L.get_put v (omega (arith, h.0)) text in
      let moved : buf ≡ (pre ++ V.put v) ++ text =
        ap (λ r. pre ++ r) (append_assoc (V.put v) (put_lengths V parts) tail)
        ∙ sym (append_assoc pre (V.put v) text) in
      let later =
        read_lengths-put parts max_payload_bytes (pre ++ V.put v) tail (total + v)
          (First-All parts h.1) h.1 (omega (arith, h.0, b)) in
      let size = length-append pre (V.put v) in
      let l : LengthsRead = record {
        pos = length (pre ++ V.put v) + length (put_lengths V parts);
        total = (total + v) + length (joined parts);
        lengths = lengths_of parts;
      } in
      let read =
        λ (x : Bytes) (n : ℕ). read_lengths V (length parts) max_payload_bytes x n (total + v) in
      let rest : read buf (length pre + length (V.put v)) ≡ ok l =
        ap₂ read moved (sym size) ∙ later in
      read_step (length parts) limit buf (length pre) total v (length (V.put v)) (total + v) l got
        (not_above v limit f) (wraps_not (total + v) (omega (arith, h.0, b))) rest
      ∙ ap ok (
          ap₂ (λ x y. record { pos = x; total = y; lengths = v ∷ lengths_of parts })
            (omega (arith, size, length-append (V.put v) (put_lengths V parts)))
            (omega (arith, length-append p (joined parts))))
