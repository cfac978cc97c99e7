-- ===== src/Masking/Values.antt =====
-- What `maskedValues` gives: values of at least six bytes, longest first.
use enbu.Prelude.{
  ◌≤◌, Bytes, Bool, not, ◌&&◌, List, [], ◌∷◌, inl, inr, arith, ltb, leb, length, All, All-map,
  All-append, any, has, Dict, insert_by, sort_by, Bool-cases, if◌then◌else◌,
}
use enbu.Masking.{
  min_masked_length, is_break, lines_of, add_value, add_values, collect_values, masked_values,
}
use enbu.Masking.Matches.{Descending}

abbrev longer_first : Bytes → Bytes → Bool
longer_first a b = ltb (length b) (length a)

All-insert_by :
    (P : Bytes → Type 0) (x : Bytes) (ys : List Bytes)
    → P x
    → All P ys
    → All P (insert_by longer_first x ys)
unfolding insert_by
All-insert_by P x [] p h = (p, tt)
All-insert_by P x (y ∷ ys) p h = elim (Bool-cases (longer_first x y)) [
  | inl e ↦ rw e (p, h)
  | inr e ↦ rw e (h.0, All-insert_by P x ys p h.1)
]

All-sort_by : (P : Bytes → Type 0) (xs : List Bytes) → All P xs → All P (sort_by longer_first xs)
unfolding sort_by
All-sort_by P [] h = tt
All-sort_by P (x ∷ xs) h = All-insert_by P x (sort_by longer_first xs) h.0 (All-sort_by P xs h.1)

insert_by-Descending :
    (x : Bytes) (ys : List Bytes) → Descending ys → Descending (insert_by longer_first x ys)
unfolding insert_by
insert_by-Descending x [] d = (tt, tt)
insert_by-Descending x (y ∷ ys) d = elim (Bool-cases (longer_first x y)) [
  | inl e ↦
      let l : length y ≤ length x = ground arith in
      rw e ((l, All-map (λ w h. omega (arith, l, h)) ys d.0), d)
  | inr e ↦
      let l : length x ≤ length y = ground arith in
      rw e (All-insert_by (λ w. length w ≤ length y) x ys l d.0, insert_by-Descending x ys d.1)
]

sort_by-Descending : (xs : List Bytes) → Descending (sort_by longer_first xs)
unfolding sort_by
sort_by-Descending [] = tt
sort_by-Descending (x ∷ xs) =
    insert_by-Descending x (sort_by longer_first xs) (sort_by-Descending xs)

abbrev Long : Bytes → Type 0
Long v = 6 ≤ length v

add_value-Long : (v : Bytes) (values : List Bytes) → All Long values → All Long (add_value v values)
unfolding add_value
add_value-Long v values h =
    elim (Bool-cases (leb min_masked_length (length v) && not (has v values))) [
      | inl e ↦
          let l : 6 ≤ length v = ground arith in rw e (All-append Long values (v ∷ []) h (l, tt))
      | inr e ↦ rw e h
    ]

add_values-Long : (vs values : List Bytes) → All Long values → All Long (add_values vs values)
unfolding add_values
add_values-Long [] values h = h
add_values-Long (v ∷ vs) values h =
    add_values-Long vs (add_value v values) (add_value-Long v values h)

collect_values-Long :
    (secrets : Dict Bytes) (values : List Bytes)
    → All Long values
    → All Long (collect_values secrets values)
unfolding collect_values
collect_values-Long [] values h = h
collect_values-Long ((k, v) ∷ secrets) values h =
    let lines = if any is_break v then lines_of [] v else [] in
    collect_values-Long secrets (add_values lines (add_value v values))
      (add_values-Long lines (add_value v values) (add_value-Long v values h))

pub masked_values-Descending : (secrets : Dict Bytes) → Descending (masked_values secrets)
unfolding masked_values
masked_values-Descending secrets = sort_by-Descending (collect_values secrets [])

pub masked_values-Long : (secrets : Dict Bytes) → All (λ v. 6 ≤ length v) (masked_values secrets)
unfolding masked_values
masked_values-Long secrets =
    All-sort_by Long (collect_values secrets []) (collect_values-Long secrets [] tt)
