-- ===== src/Storage/Framing/Layout.antt =====
-- Whatever a backend answers, a layout that `readLayout` accepts lies within the object.
use enbu.Prelude.{
  ℕ, zero, suc, ◌+◌, ◌*◌, ◌%◌, ◌^◌, ◌≤◌, ◌<◌, Bytes, true, not, ◌&&◌, ◌||◌, none, some, List, [],
  ◌∷◌, ◌≡◌, inl, inr, refl, ap, subst, arith, ltb, eqb, length, All, drop, Bool-cases, Option-cases,
}
use enbu.Outcome.{Result, ok, err, corrupt, ok_injective, >>=-eq-ok, guard->>}
use enbu.Storage.{max_payload_bytes}
use enbu.Storage.Framing.{
  VarintLibrary, LengthsRead, ReaderAt, FrameLayout, offsets_from, at_index, smaller, read_lengths,
  read_parts, read_layout, max_head_bytes, max_blobs,
}

-- The parts follow one another from `pos` to the end of the object.
abbrev pub Follow : ℕ → ℕ → List ℕ → List ℕ → Type 0
Follow size pos [] [] = pos ≡ size
Follow size pos [] (n ∷ ns) = ⊥
Follow size pos (o ∷ os) [] = ⊥
Follow size pos (o ∷ os) (n ∷ ns) = (o ≡ pos) × Follow size (pos + n) os ns

-- A layout of an object of `size` bytes: a head and at most 8 blobs, one behind the other up to the
-- end of the object, none of them larger than allowed.
pub record IsLayout (size : ℕ) (l : FrameLayout) : Type 0 where
  pub some_part : 1 ≤ length l.lengths
  pub few_parts : length l.lengths ≤ 9
  pub some_head : 1 ≤ at_index l.lengths 0
  pub small_head : at_index l.lengths 0 ≤ 1048576
  pub small_parts : All (λ n. n ≤ 10485760) l.lengths
  pub start : ℕ
  pub follow : Follow size start l.offsets l.lengths

abbrev sum : List ℕ → ℕ
sum [] = 0
sum (n ∷ ns) = n + sum ns

offsets_from-Follow : (pos : ℕ) (ns : List ℕ) → Follow (pos + sum ns) pos (offsets_from pos ns) ns
unfolding offsets_from
offsets_from-Follow pos [] = omega arith
offsets_from-Follow pos (n ∷ ns) =
    let e : pos + n + sum ns ≡ pos + (n + sum ns) = omega arith in
    (
      refl,
      subst (λ x. Follow x (pos + n) (offsets_from (pos + n) ns) ns) e
          (offsets_from-Follow (pos + n) ns),
    )

-- What the loop over the lengths has read.
record IsRead (count limit total : ℕ) (l : LengthsRead) : Type 0 where
  counted : length l.lengths ≡ count
  first : at_index l.lengths 0 ≤ limit
  small : All (λ n. n ≤ 10485760) l.lengths
  added : l.total ≡ total + sum l.lengths

wraps_not : (n : ℕ) → n < 2 ^ 64 → n % 2 ^ 64 ≡ n
wraps_not n h = omega arith

counted_parts : (c : ℕ) → not (eqb c 0 || ltb 9 c) ≡ true → (1 ≤ c) × (c ≤ 9)
counted_parts c h = (ground arith, ground arith)

exact_size :
    (first end size : ℕ) → (not (eqb first 0) && eqb end size) ≡ true → (1 ≤ first) × (end ≡ size)
exact_size first end size h = (ground arith, ground arith)

module _ (V : VarintLibrary) where
  read_lengths-IsRead :
      (count limit : ℕ) (buf : Bytes) (pos total : ℕ) (l : LengthsRead)
      → limit ≤ 10485760
      → total + count * 10485760 < 2 ^ 64
      → read_lengths V count limit buf pos total ≡ ok l
      → IsRead count limit total l
  unfolding read_lengths at_index
  read_lengths-IsRead zero limit buf pos total l b w h =
      let e : record { pos = pos; total = total; lengths = [] } ≡ l = ok_injective h in
      rw (← e) (record { counted = refl; first = omega arith; small = tt; added = omega arith })
  read_lengths-IsRead (suc count) limit buf pos total l b w h =
      elim (Option-cases (V.get (drop pos buf))) [
        | inl e ↦ absurd (cc (rw (e, read_lengths) at h))
        | inr ((v, m), e) ↦ elim (Bool-cases (ltb limit v)) [
          | inl t ↦ absurd (cc (rw (e, t, read_lengths) at h))
          | inr t ↦
              let step =
                read_lengths V count max_payload_bytes buf (pos + m) ((total + v) % 2 ^ 64) in
              let (later, q, r) =
                >>=-eq-ok step (λ later. ok (record later { lengths = v ∷ later.lengths }))
                  (rw (e, t, read_lengths) at h) in
              let bound : v ≤ limit = ground arith in
              let u = wraps_not (total + v) (omega (arith, w, bound, b)) in
              let i =
                read_lengths-IsRead count max_payload_bytes buf (pos + m) ((total + v) % 2 ^ 64)
                  later (omega arith) (rw u (omega (arith, w, bound, b))) q in
              let k : record later { lengths = v ∷ later.lengths } ≡ l = ok_injective r in
              rw (← k) (record {
                counted = ap suc i.counted;
                first = bound;
                small = (omega (arith, bound, b), i.small);
                added = omega (arith, i.added, u);
              })
        ]
      ]

  read_parts-IsLayout :
      (buf : Bytes) (size count n : ℕ) (l : FrameLayout)
      → read_parts V buf size count n ≡ ok l
      → IsLayout size l
  unfolding read_parts
  read_parts-IsLayout buf size count n l h =
      let (g, h1) = guard->> (not (eqb count 0 || ltb (max_blobs + 1) count)) corrupt _ h in
      let (c, q, h2) = >>=-eq-ok (read_lengths V count max_head_bytes buf n 0) _ h1 in
      let (g', h3) =
        guard->> (not (eqb (at_index c.lengths 0) 0) && eqb (c.pos + c.total) size) corrupt _ h2 in
      let (many, few) = counted_parts count g in
      let (filled, whole) = exact_size (at_index c.lengths 0) (c.pos + c.total) size g' in
      let i =
        read_lengths-IsRead count max_head_bytes buf n 0 c (omega arith) (omega (arith, few)) q in
      let e : record { offsets = offsets_from c.pos c.lengths; lengths = c.lengths } ≡ l =
        ok_injective h3 in
      rw (← e) (record {
        some_part = omega (arith, i.counted, many);
        few_parts = omega (arith, i.counted, few);
        some_head = filled;
        small_head = i.first;
        small_parts = i.small;
        start = c.pos;
        follow =
            subst (λ x. Follow x c.pos (offsets_from c.pos c.lengths) c.lengths)
              (omega (arith, whole, i.added)) (offsets_from-Follow c.pos c.lengths);
      })

  abbrev parts_of : ℕ → Bytes → Result FrameLayout
  parts_of size buf = elim (V.get buf) [
    | none ↦ err corrupt
    | some (count, n) ↦ read_parts V buf size count n
  ]

  -- Whatever a backend answers: a layout that `readLayout` accepts has a head and at most 8 blobs, each
  -- within its bound, that lie one behind the other, the last one up to the end of the object.
  pub read_layout-IsLayout :
      (r : ReaderAt) (size : ℕ) (l : FrameLayout) → read_layout V r size ≡ ok l → IsLayout size l
  unfolding read_layout
  read_layout-IsLayout r size l h =
      let (buf, q, k) = >>=-eq-ok (r (smaller size 100) 0) (parts_of size) h in
      elim (Option-cases (V.get buf)) [
        | inl e ↦ absurd (cc (rw (e, parts_of) at k))
        | inr ((count, n), e) ↦ read_parts-IsLayout buf size count n l (rw (e, parts_of) at k)
      ]
