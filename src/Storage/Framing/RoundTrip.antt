-- ===== src/Storage/Framing/RoundTrip.antt =====
-- An object that a backend stored and reads back from what it stored is the same object.
use mathlib.Core.List.{append_assoc}
use enbu.Prelude.{
  ℕ, ◌+◌, ◌-◌, ◌≤◌, Bytes, ◌==◌, true, not, ◌&&◌, ◌||◌, some, List, ◌∷◌, ◌++◌, ◌≡◌, refl, sym, ap,
  ◌∙◌, arith, ltb, eqb, length, length-append, All, drop, take, drop-drop, drop-length,
}
use enbu.Outcome.{ok}
use enbu.Graph.{Digest}
use enbu.Storage.{Object}
use enbu.Storage.Naming.{DigestLibrary}
use enbu.Storage.Framing.{
  VarintLibrary, LengthsRead, ReaderAt, FrameLayout, validate_object, joined, offsets_from,
  at_index, smaller, put_lengths, frame, read_lengths, read_parts, read_layout, read_head,
  max_head_bytes,
}
use enbu.Storage.Framing.Parts.{
  IsVarintLibrary, IsReaderOf, IsSmall, part_at, lengths_of, validate_object-IsStored,
  part_at-IsPart,
}
use enbu.Storage.Framing.Lengths.{
  read_section, layout_of, read_section-part_at, take_over, counted, exact, smaller_bound, First,
  put_lengths-bound, read_lengths-put,
}

module _ (V : VarintLibrary) (L : IsVarintLibrary V) where
  read_parts_step :
      (buf : Bytes) (size count n : ℕ) (l : LengthsRead)
      → not (eqb count 0 || ltb 9 count) ≡ true
      → read_lengths V count max_head_bytes buf n 0 ≡ ok l
      → (not (eqb (at_index l.lengths 0) 0) && eqb (l.pos + l.total) size) ≡ true
      → read_parts V buf size count n
        ≡ ok (record { offsets = offsets_from l.pos l.lengths; lengths = l.lengths })
  unfolding read_parts
  read_parts_step buf size count n l g q e = rw (read_parts, g, q, e) refl

  read_layout_step :
      (r : ReaderAt) (size : ℕ) (buf : Bytes) (count n : ℕ)
      → r (smaller size 100) 0 ≡ ok buf
      → V.get buf ≡ some (count, n)
      → read_layout V r size ≡ read_parts V buf size count n
  unfolding read_layout
  read_layout_step r size buf count n q e = rw (read_layout, q, e) refl

  read_head_step :
      (D : DigestLibrary) (r : ReaderAt) (size : ℕ) (rev : Digest) (l : FrameLayout) (head : Bytes)
      → read_layout V r size ≡ ok l
      → r (at_index l.lengths 0) (at_index l.offsets 0) ≡ ok head
      → (D.of_bytes head == rev) ≡ true
      → read_head V D r size rev ≡ ok (head, l)
  unfolding read_head
  read_head_step D r size rev l head q e g = rw (read_head, q, e, g) refl

  module _ (D : DigestLibrary) (o : Object) (small : IsSmall o) where
    abbrev parts : List Bytes
    parts = o.head ∷ o.blobs

    abbrev count_text : Bytes
    count_text = V.put (length parts)

    abbrev start : ℕ
    start = length count_text + length (put_lengths V parts)

    parts_small : All (λ b. length b ≤ 10485760) parts
    parts_small = (omega (arith, small.head_small), small.blobs_small)

    -- The text of `frame(o)` after a front part of it.
    drop-frame : drop start (frame V o) ≡ joined parts
    unfolding frame
    drop-frame =
        sym (drop-drop (length (put_lengths V parts)) (length count_text) (frame V o))
        ∙ ap (drop (length (put_lengths V parts)))
            (drop-length count_text (put_lengths V parts ++ joined parts))
        ∙ drop-length (put_lengths V parts) (joined parts)

    frame-length : start + length (joined parts) ≡ length (frame V o)
    unfolding frame
    frame-length = omega (
      arith,
      length-append count_text (put_lengths V parts ++ joined parts),
      length-append (put_lengths V parts) (joined parts),
    )

    -- The header fits in what `readLayout` reads first.
    header_bound : start ≤ 100
    header_bound = omega (
      arith,
      L.put_length (length parts) (omega (arith, small.few_blobs)),
      put_lengths-bound V L parts parts_small,
      small.few_blobs,
    )

    -- What `readLayout` reads first: the header and some more text.
    front :
        (n : ℕ)
        → start ≤ n
        → (tail : Bytes) × (take n (frame V o) ≡ count_text ++ (put_lengths V parts ++ tail))
    unfolding frame
    front n h =
        let header = count_text ++ put_lengths V parts in
        let size = length-append count_text (put_lengths V parts) in
        let tail = take (n - length header) (joined parts) in
        (
          tail,
          ap (take n) (sym (append_assoc count_text (put_lengths V parts) (joined parts)))
              ∙ take_over n header (joined parts) (omega (arith, size, h))
              ∙ append_assoc count_text (put_lengths V parts) tail,
        )

    read_parts-frame :
        (tail : Bytes)
        → read_parts V
            (count_text ++ (put_lengths V parts ++ tail))
            (length (frame V o))
            (length parts)
            (length count_text)
          ≡ ok (layout_of start parts)
    unfolding at_index First
    read_parts-frame tail =
        let read : LengthsRead = record {
          pos = start;
          total = 0 + length (joined parts);
          lengths = lengths_of parts;
        } in
        read_parts_step (count_text ++ (put_lengths V parts ++ tail)) (length (frame V o))
          (length parts) (length count_text) read (counted (length o.blobs) small.few_blobs)
          (read_lengths-put V L parts max_head_bytes count_text tail 0 small.head_small parts_small
            (omega (arith, small.few_blobs)))
          (exact (length o.head) _ _ small.head_some (omega (arith, frame-length)))

    module _ (r : ReaderAt) (R : IsReaderOf r (frame V o)) where
      read_layout-frame : read_layout V r (length (frame V o)) ≡ ok (layout_of start parts)
      read_layout-frame =
          let size = length (frame V o) in
          let reached = smaller_bound size start (omega (arith, frame-length)) header_bound in
          let (tail, e) = front (smaller size 100) reached.0 in
          let q = R.within (smaller size 100) 0 reached.1 in
          read_layout_step r size (take (smaller size 100) (frame V o)) (length parts)
            (length count_text) q
            (ap V.get e
              ∙ L.get_put (length parts) (omega (arith, small.few_blobs))
                  (put_lengths V parts ++ tail))
          ∙ ap (λ b. read_parts V b size (length parts) (length count_text)) e
          ∙ read_parts-frame tail

      read_head-ok :
          (D.of_bytes o.head == o.rev) ≡ true
          → read_head V D r (length (frame V o)) o.rev ≡ ok (o.head, layout_of start parts)
      unfolding at_index offsets_from
      read_head-ok named =
          let w = part_at-IsPart (frame V o) start parts 0 o.head drop-frame frame-length refl in
          read_head_step D r (length (frame V o)) o.rev (layout_of start parts) o.head
            read_layout-frame (R.within (length o.head) start w.inside ∙ ap ok w.text) named

-- What a backend wrote for a valid object it reads back: `readHead` returns the head of the object that
-- has the revision, and every index of a blob gives that blob, and an index behind the last one
-- ErrNotFound.
pub read_head-frame :
    (V : VarintLibrary)
    → IsVarintLibrary V
    → (D : DigestLibrary) (o : Object) (r : ReaderAt) → IsReaderOf r (frame V o)
    → validate_object D o ≡ ok tt
    → (l : FrameLayout) × (read_head V D r (length (frame V o)) o.rev ≡ ok (o.head, l))
      × ((i : ℕ) → read_section r l i ≡ part_at o.blobs i)
read_head-frame V L D o r R h =
    let s = validate_object-IsStored D o h in
    let at = start V L D o s.small in
    (
      layout_of at (o.head ∷ o.blobs),
      read_head-ok V L D o s.small r R s.named,
      λ i.
          read_section-part_at r (frame V o) at o.head o.blobs i R (drop-frame V L D o s.small)
            (frame-length V L D o s.small),
    )
