-- ===== src/Masking.antt =====
-- cli/mask.go: the output of a command with the secret values in it replaced. Text is bytes; the
-- carriage return and the newline are bytes of their own in UTF-8.
pub mod Matches
pub mod Held
pub mod Values
pub mod Whole
pub mod Stream
use enbu.Prelude.{
  ℕ, zero, suc, ◌+◌, ◌-◌, Bytes, bytes, ◌==◌, Bool, true, false, not, ◌&&◌, ◌||◌, Option, none,
  some, List, [], ◌∷◌, ◌++◌, ltb, leb, eqb, length, any, take, drop, starts, has, sort_by, Dict,
  if◌then◌else◌,
}

-- `concealed`, `minMaskedLength`.
abbrev pub concealed : Bytes
concealed = bytes "<concealed by enbu>"

abbrev pub min_masked_length : ℕ
min_masked_length = 6

abbrev pub is_break : ℕ → Bool
is_break c = eqb c b'\r' || eqb c b'\n'

-- The field that is being read, put before the others unless it is empty.
abbrev close_field : Bytes → List Bytes → List Bytes
close_field [] rest = rest
close_field (c ∷ cs) rest = (c ∷ cs) ∷ rest

-- `strings.FieldsFunc` at line breaks; `field` is what was read of the present field.
unfoldable pub lines_of : Bytes → Bytes → List Bytes
lines_of field [] = close_field field []
lines_of field (c ∷ cs) =
    let closed = lines_of [] cs in
    let longer = lines_of (field ++ (c ∷ [])) cs in
    if is_break c then close_field field closed else longer

-- The closure `add`: a value that is long enough and not there yet joins the values.
unfoldable pub add_value : Bytes → List Bytes → List Bytes
add_value v values =
    if leb min_masked_length (length v) && not (has v values) then values ++ (v ∷ []) else values

unfoldable pub add_values : List Bytes → List Bytes → List Bytes
unfolding add_value
add_values [] values = values
add_values (v ∷ vs) values = add_values vs (add_value v values)

-- The loop over the secrets, in the order of the list.
unfoldable pub collect_values : Dict Bytes → List Bytes → List Bytes
unfolding add_value add_values lines_of
collect_values [] values = values
collect_values ((k, v) ∷ secrets) values =
    let lines = if any is_break v then lines_of [] v else [] in
    collect_values secrets (add_values lines (add_value v values))

-- `maskedValues(secrets)`: longest first.
unfoldable pub masked_values : Dict Bytes → List Bytes
unfolding collect_values sort_by
masked_values secrets =
    sort_by (λ (a b : Bytes). ltb (length b) (length a)) (collect_values secrets [])

-- `bytes.Index(b, v)`; `none` is -1.
unfoldable pub index : Bytes → Bytes → Option ℕ
unfolding starts
index [] v = if starts [] v then some 0 else none
index (x ∷ b) v =
    let later = index b v in
    if starts (x ∷ b) v then some 0 else elim later [ none ↦ none | some i ↦ some (suc i) ]

-- `if i >= 0 && (at < 0 || i < at) { at, n = i, len(v) }`, for a match at `i`.
unfoldable pub better : Option (ℕ × ℕ) → ℕ → ℕ → Option (ℕ × ℕ)
better none i n = some (i, n)
better (some (at, m)) i n = if ltb i at then some (i, n) else some (at, m)

-- The loop of `firstMatch`: `found` is `at` and `n`, `none` while `at` is -1.
unfoldable pub first_match_loop : Bytes → Option (ℕ × ℕ) → List Bytes → Option (ℕ × ℕ)
unfolding index better
first_match_loop b found [] = found
first_match_loop b found (v ∷ values) = elim (index b v) [
  | none ↦ first_match_loop b found values
  | some i ↦ first_match_loop b (better found i (length v)) values
]

abbrev begins : Bytes → ℕ → Bool
begins [] c = false
begins (x ∷ v) c = eqb c x

-- The inner loop of `prefixLen`, over the ends `b[j:]` of the text, longest first.
unfoldable pub prefix_scan : Bytes → ℕ → Bytes → ℕ
unfolding starts
prefix_scan v longest [] = longest
prefix_scan v longest (c ∷ rest) =
    let later = prefix_scan v longest rest in
    if ltb longest (length (c ∷ rest))
    then if begins v c && starts v (c ∷ rest) then length (c ∷ rest) else later
    else longest

-- The loop of `prefixLen` over the values.
unfoldable pub prefix_loop : Bytes → ℕ → List Bytes → ℕ
unfolding prefix_scan
prefix_loop b longest [] = longest
prefix_loop b longest (v ∷ values) =
    prefix_loop b (prefix_scan v longest (drop (length b + 1 - length v) b)) values

module _ (values : List Bytes) where
  -- `firstMatch(b)`.
  unfoldable pub first_match : Bytes → Option (ℕ × ℕ)
  unfolding first_match_loop
  first_match b = first_match_loop b none values

  -- `beginsLonger(b, n)`.
  unfoldable pub begins_longer : Bytes → ℕ → Bool
  unfolding starts
  begins_longer b n = any (λ v. ltb n (length v) && ltb (length b) (length v) && starts v b) values

  -- `prefixLen(b)`.
  unfoldable pub prefix_len : Bytes → ℕ
  unfolding prefix_loop
  prefix_len b = prefix_loop b 0 values

  -- The loop of `conceal`. It takes a value of at least one byte off the text each time, so a round
  -- more than there are bytes is enough.
  unfoldable pub conceal_loop : ℕ → Bytes → Bool → Bytes × Bytes
  unfolding first_match begins_longer prefix_len
  conceal_loop zero rest final = ([], rest)
  conceal_loop (suc fuel) rest final = elim (first_match rest) [
    | none ↦
        if final
        then (rest, [])
        else (take (length rest - prefix_len rest) rest, drop (length rest - prefix_len rest) rest)
    | some (i, n) ↦
        let next = conceal_loop fuel (drop (i + n) rest) final in
        if not final && begins_longer (drop i rest) n
        then (take i rest, drop i rest)
        else (take i rest ++ (concealed ++ next.0), next.1)
  ]

  -- `conceal(b, final)`.
  unfoldable pub conceal : Bytes → Bool → Bytes × Bytes
  unfolding conceal_loop
  conceal b final = conceal_loop (suc (length b)) b final

  -- `Write(p)`, on what is held back: what is held back then, and what goes to `w`. What `w` answers
  -- changes nothing in the masker.
  unfoldable pub write : Bytes → Bytes → Bytes × Bytes
  unfolding conceal
  write pending p = let (out, held) = conceal (pending ++ p) false in (held, out)

  -- `Flush()`; an empty text to write stands for no call of `w`.
  unfoldable pub flush : Bytes → Bytes × Bytes
  unfolding conceal
  flush [] = ([], [])
  flush (c ∷ pending) = ([], (conceal (c ∷ pending) true).0)

  -- All that `w` gets from the writes `ps` and a flush at the end.
  unfoldable pub run : Bytes → List Bytes → Bytes
  unfolding write flush
  run pending [] = (flush pending).1
  run pending (p ∷ ps) = let (held, out) = write pending p in out ++ run held ps
