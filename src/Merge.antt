-- ===== src/Merge.antt =====
-- pkg/merge/merge.go: the three-way merge of secret maps. A map is an association list (`Dict`);
-- the order in which Go walks a map plays no part, since the keys are sorted first.
pub mod Single
pub mod Several
pub mod Listing
use enbu.Prelude.{
  ℕ, Bytes, ◌==◌, before, Bool, true, false, not, ◌&&◌, ◌||◌, Option, none, some, List, [], ◌∷◌,
  ◌++◌, Dict, lookup, keys, has, sort_by, sort_bytes, if◌then◌else◌,
}

-- `SecretMap`, `map[string]string`.
abbrev pub SecretMap : Type 0
SecretMap = Dict Bytes

pub record Value : Type 0 where
  pub text : Bytes
  pub deleted : Bool

pub record Conflict : Type 0 where
  pub key : Bytes
  pub candidates : List Value

pub record Choice : Type 0 where
  pub value : Bytes
  pub delete : Bool

abbrev pub same_bool : Bool → Bool → Bool
same_bool true b = b
same_bool false b = not b

-- Go's `==` on `Value`.
abbrev pub same : Value → Value → Bool
same v w = v.text == w.text && same_bool v.deleted w.deleted

abbrev pub absent : Value
absent = record { text = []; deleted = true }

abbrev pub present : Bytes → Value
present t = record { text = t; deleted = false }

-- `side{m}.get(key)`.
unfoldable pub get : SecretMap → Bytes → Value
get m key = elim (lookup key m) [ none ↦ absent | some t ↦ present t ]

-- The loop of `resolveAgainst`: `changed` is `some` where the source has `have`.
unfoldable pub resolve_loop : Value → Bytes → Option Value → List SecretMap → Option Value
resolve_loop base key none [] = some base
resolve_loop base key (some changed) [] = some changed
resolve_loop base key none (h ∷ hs) =
    resolve_loop base key (if same (get h key) base then none else some (get h key)) hs
resolve_loop base key (some changed) (h ∷ hs) =
    let rest = resolve_loop base key (some changed) hs in
    if same (get h key) base then rest else if not (same (get h key) changed) then none else rest

-- `resolveAgainst(base, key, heads)`: `none` is the result `false`.
unfoldable pub resolve_against : Value → Bytes → List SecretMap → Option Value
unfolding resolve_loop
resolve_against base key heads = resolve_loop base key none heads

-- The loop of `resolveKey` behind its first base: every further base must yield `agreed`.
unfoldable pub agree_loop : Bytes → List SecretMap → Value → List SecretMap → Option Value
agree_loop key heads agreed [] = some agreed
agree_loop key heads agreed (b ∷ bs) =
    let rest = λ (v : Value). agree_loop key heads v bs in
    elim (resolve_against (get b key) key heads) [
      | none ↦ none
      | some v ↦ if not (same v agreed) then none else rest v
    ]

-- `resolveKey(key, bases, heads)`. With no base the source returns the zero `Value` and `true`;
-- `Merge` never calls it so.
unfoldable pub resolve_key : Bytes → List SecretMap → List SecretMap → Option Value
unfolding agree_loop
resolve_key key [] heads = some (present [])
resolve_key key (b ∷ bs) heads = elim (resolve_against (get b key) key heads) [
  | none ↦ none
  | some v ↦ agree_loop key heads v bs
]

unfoldable pub contains : List Value → Value → Bool
contains [] v = false
contains (w ∷ ws) v = same w v || contains ws v

-- The comparison of `sort.Slice` in `candidates`: texts in order, the deletion last.
unfoldable pub candidate_less : Value → Value → Bool
candidate_less a b =
    if not (same_bool a.deleted b.deleted) then not a.deleted else before a.text b.text

unfoldable pub collect : Bytes → List Value → List SecretMap → List Value
unfolding contains
collect key out [] = out
collect key out (h ∷ hs) =
    collect key (if contains out (get h key) then out else out ++ (get h key ∷ [])) hs

-- `candidates(key, heads)`.
unfoldable pub candidates : Bytes → List SecretMap → List Value
unfolding collect candidate_less sort_by
candidates key heads = sort_by candidate_less (collect key [] heads)

add_keys : List Bytes → List Bytes → List Bytes
add_keys [] set = set
add_keys (k ∷ ks) set = add_keys ks (if has k set then set else k ∷ set)

all_keys : List SecretMap → List Bytes → List Bytes
unfolding add_keys
all_keys [] set = set
all_keys (m ∷ ms) set = all_keys ms (add_keys (keys m) set)

-- What one round of the loop of `Merge` does for `k`: write a value, report a conflict, or neither.
unfoldable pub merge_key :
    Bytes
    → List SecretMap
    → List SecretMap
    → Dict Choice
    → SecretMap × List Conflict
    → SecretMap × List Conflict
merge_key k bases heads choices (out, conflicts) = elim (resolve_key k bases heads) [
  | none ↦ elim (lookup k choices) [
    | some c ↦ if c.delete then (out, conflicts) else ((k, c.value) ∷ out, conflicts)
    | none ↦ (out, record { key = k; candidates = candidates k heads } ∷ conflicts)
  ]
  | some v ↦ if v.deleted then (out, conflicts) else ((k, v.text) ∷ out, conflicts)
]

unfoldable pub merge_keys :
    List Bytes → List SecretMap → List SecretMap → Dict Choice → SecretMap × List Conflict
unfolding merge_key
merge_keys [] bases heads choices = ([], [])
merge_keys (k ∷ ks) bases heads choices =
    merge_key k bases heads choices (merge_keys ks bases heads choices)

-- `if len(bases) == 0 { bases = {{}} }`.
abbrev pub or_empty : List SecretMap → List SecretMap
or_empty [] = [] ∷ []
or_empty (b ∷ bs) = b ∷ bs

-- The sorted keys of all the maps.
unfoldable pub merged_keys : List SecretMap → List SecretMap → List Bytes
unfolding all_keys sort_bytes
merged_keys bases heads = sort_bytes (all_keys heads (all_keys bases []))

-- `Merge(bases, heads, choices)`.
unfoldable pub merge : List SecretMap → List SecretMap → Dict Choice → SecretMap × List Conflict
unfolding merge_keys merged_keys
merge bases heads choices =
    merge_keys (merged_keys (or_empty bases) heads) (or_empty bases) heads choices
