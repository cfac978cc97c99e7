-- ===== src/Merge/Listing.antt =====
-- `Merge` as a whole: what its map holds at each key, and which conflicts it reports.
use enbu.Prelude.{
  not, ◌&&◌, ap, Bytes, ◌==◌, eq_iff, ==_refl, Bool, true, false, ◌||◌, Option, none, some, List,
  [], ◌∷◌, ◌≡◌, ◌↔◌, ◌⊎◌, inl, inr, refl, arith, All, Any, any, Bool-cases, Option-cases,
  if◌then◌else◌, sym, subst, Dict, lookup, keys, has, has-keys, has-sort_bytes, is_some,
}
use enbu.Merge.{
  SecretMap, Value, Choice, Conflict, get, resolve_key, absent, present, or_empty, add_keys,
  all_keys, merge_key, merge_keys, merged_keys, merge, candidates,
}
use enbu.Merge.Several.{Agreed, resolve_key-Agreed}

has-add_keys : (k : Bytes) (ks set : List Bytes) → has k (add_keys ks set) ≡ (has k ks || has k set)
unfolding add_keys has
has-add_keys k [] set = refl
has-add_keys k (j ∷ ks) set = elim (Bool-cases (has j set)) [
  | inl e ↦ rw (e, add_keys) (ground (arith, has-add_keys k ks set, eq_iff k j))
  | inr n ↦ rw (n, add_keys) (ground (arith, has-add_keys k ks (j ∷ set)))
]

has-all_keys :
    (k : Bytes) (ms : List SecretMap) (set : List Bytes)
    → has k (all_keys ms set) ≡ (any (λ m. is_some (lookup k m)) ms || has k set)
unfolding all_keys
has-all_keys k [] set = refl
has-all_keys k (m ∷ ms) set =
    ground
      (arith, has-all_keys k ms (add_keys (keys m) set), has-add_keys k (keys m) set, has-keys k m)

-- The value written at `k`, for the merged value and the choice of a person.
abbrev pub settle : Option Value → Option Choice → Option Bytes
settle (some v) c = if v.deleted then none else some v.text
settle none (some c) = if c.delete then none else some c.value
settle none none = none

-- `k` is reported as a conflict.
abbrev pub Reported : Bytes → List Conflict → Type 0
Reported k cs = Any (λ c. c.key ≡ k) cs

module _ (bases heads : List SecretMap) (choices : Dict Choice) where
  lookup-merge_keys :
      (k : Bytes) (ks : List Bytes)
      → lookup k (merge_keys ks bases heads choices).0
        ≡ (if has k ks then settle (resolve_key k bases heads) (lookup k choices) else none)
  unfolding merge_keys merge_key lookup has
  lookup-merge_keys k [] = refl
  lookup-merge_keys k (j ∷ ks) = elim (Bool-cases (k == j)) [
    | inl e ↦ rw (sym ((eq_iff k j).0 e)) (ground (arith, ==_refl k, lookup-merge_keys k ks))
    | inr n ↦ ground (arith, n, eq_iff j k, eq_iff k j, lookup-merge_keys k ks)
  ]

  -- `k` conflicts, and no person has settled it.
  abbrev pub disputed : Bytes → Bool
  disputed k = not (is_some (resolve_key k bases heads)) && not (is_some (lookup k choices))

  conflicts-merge_key :
      (j : Bytes) (r : SecretMap × List Conflict)
      → (merge_key j bases heads choices r).1
        ≡ (if disputed j then record { key = j; candidates = candidates j heads } ∷ r.1 else r.1)
  unfolding merge_key
  conflicts-merge_key j (out, cs) = ground arith

  Reported-merge_keys :
      (k : Bytes) (ks : List Bytes)
      → Reported k (merge_keys ks bases heads choices).1
      → disputed k ≡ true
  unfolding merge_keys
  Reported-merge_keys k [] r = elim r [ ]
  Reported-merge_keys k (j ∷ ks) r =
      let rest = merge_keys ks bases heads choices in
      elim (Bool-cases (disputed j)) [
        | inl d ↦ elim (rw (conflicts-merge_key j rest, d) at r) [
          | inl e ↦ subst (λ x. disputed x ≡ true) e d
          | inr m ↦ Reported-merge_keys k ks m
        ]
        | inr n ↦ Reported-merge_keys k ks (rw (conflicts-merge_key j rest, n) at r)
      ]

  reports-merge_keys :
      (k : Bytes) (ks : List Bytes)
      → has k ks ≡ true
      → disputed k ≡ true
      → Any
          (λ c. c ≡ record { key = k; candidates = candidates k heads })
          (merge_keys ks bases heads choices).1
  unfolding merge_keys has
  reports-merge_keys k [] m d = absurd (cc)
  reports-merge_keys k (j ∷ ks) m d =
      let rest = merge_keys ks bases heads choices in
      elim (Bool-cases (k == j)) [
        | inl e ↦
            let kj = (eq_iff k j).0 e in
            rw (conflicts-merge_key j rest, subst (λ x. disputed x ≡ true) kj d)
              (inl (ap (λ x. record { key = x; candidates = candidates x heads }) (sym kj)))
        | inr n ↦
            let later = reports-merge_keys k ks (rw n at m) d in
            elim (Bool-cases (disputed j)) [
              | inl dj ↦ rw (conflicts-merge_key j rest, dj) (inr later)
              | inr nj ↦ rw (conflicts-merge_key j rest, nj) later
            ]
      ]

-- A key that no map has merges to the deletion.
missing-Agreed :
    (k : Bytes) (bases heads : List SecretMap)
    → any (λ m. is_some (lookup k m)) bases ≡ false
    → any (λ m. is_some (lookup k m)) heads ≡ false
    → Agreed k bases heads absent
unfolding get
missing-Agreed k [] heads b h = tt
missing-Agreed k (m ∷ ms) heads b h = (
  (within heads h, inl (sym (get_missing m (ground arith)))),
  missing-Agreed k ms heads (ground arith) h,
)
  where
    get_missing : (n : SecretMap) → is_some (lookup k n) ≡ false → get n k ≡ absent
    get_missing n e = ground arith

    within :
        (hs : List SecretMap)
        → any (λ n. is_some (lookup k n)) hs ≡ false
        → All (λ n. (get n k ≡ get m k) ⊎ (get n k ≡ absent)) hs
    within [] e = tt
    within (n ∷ ns) e = (inr (get_missing n (ground arith)), within ns (ground arith))

missing-resolve_key :
    (k : Bytes) (bases heads : List SecretMap)
    → has k (merged_keys (or_empty bases) heads) ≡ false
    → resolve_key k (or_empty bases) heads ≡ some absent
unfolding merged_keys
missing-resolve_key k bases heads h =
    let e = has-sort_bytes k (all_keys heads (all_keys (or_empty bases) [])) in
    let e' = has-all_keys k heads (all_keys (or_empty bases) []) in
    let e'' = has-all_keys k (or_empty bases) [] in
    (resolve_key-Agreed k bases heads absent).1
      (missing-Agreed k (or_empty bases) heads (ground arith) (ground arith))

lookup-merge :
    (bases heads : List SecretMap) (choices : Dict Choice) (k : Bytes)
    → lookup k (merge bases heads choices).0
      ≡ settle
          (resolve_key k (or_empty bases) heads)
          (if is_some (resolve_key k (or_empty bases) heads) then none else lookup k choices)
unfolding merge
lookup-merge bases heads choices k =
    let e =
      lookup-merge_keys (or_empty bases) heads choices k (merged_keys (or_empty bases) heads) in
    elim (Bool-cases (has k (merged_keys (or_empty bases) heads))) [
      | inl m ↦ ground arith
      | inr n ↦ let r = missing-resolve_key k bases heads n in ground arith
    ]

canonical : Value → Value
canonical v = if v.deleted then absent else present v.text

get-canonical : (m : SecretMap) (k : Bytes) → canonical (get m k) ≡ get m k
unfolding canonical get
get-canonical m k = ground arith

head-canonical :
    (k : Bytes) (heads : List SecretMap) (v : Value)
    → Any (λ h. get h k ≡ v) heads
    → canonical v ≡ v
head-canonical k [] v m = elim m [ ]
head-canonical k (h ∷ hs) v (inl e) = subst (λ x. canonical x ≡ x) e (get-canonical h k)
head-canonical k (h ∷ hs) v (inr m) = head-canonical k hs v m

outcome-canonical :
    (k : Bytes) (bases heads : List SecretMap) (v : Value)
    → Agreed k (or_empty bases) heads v
    → canonical v ≡ v
outcome-canonical k bases heads v a = elim ((first bases a).1) [
  | inl e ↦ subst (λ x. canonical x ≡ x) (sym e) (get-canonical _ k)
  | inr m ↦ head-canonical k heads v m
]
  where
    first :
        (bs : List SecretMap)
        → Agreed k (or_empty bs) heads v
        → (b : SecretMap) × ((v ≡ get b k) ⊎ Any (λ h. get h k ≡ v) heads)
    first [] o = ([], o.0.1)
    first (b ∷ bs) o = (b, o.0.1)

module _ (bases heads : List SecretMap) (choices : Dict Choice) (k : Bytes) where
  resolved :
      (v : Value)
      → Agreed k (or_empty bases) heads v
      → resolve_key k (or_empty bases) heads ≡ some v
  resolved v = (resolve_key-Agreed k bases heads v).1

  unresolved :
      ((v : Value) → ¬ Agreed k (or_empty bases) heads v)
      → resolve_key k (or_empty bases) heads ≡ none
  unresolved n = elim (Option-cases (resolve_key k (or_empty bases) heads)) [
    | inl e ↦ e
    | inr (v, e) ↦ absurd (n v ((resolve_key-Agreed k bases heads v).0 e))
  ]

  -- A key with an outcome that every base yields is merged to it.
  pub get-merge-Agreed :
      (v : Value) → Agreed k (or_empty bases) heads v → get (merge bases heads choices).0 k ≡ v
  unfolding get canonical
  get-merge-Agreed v a =
      let e = lookup-merge bases heads choices k in
      let r = resolved v a in let c = outcome-canonical k bases heads v a in ground arith

  -- A key with no outcome that every base yields holds what a person chose for it, and is deleted if
  -- nobody did.
  pub get-merge-conflict :
      ((v : Value) → ¬ Agreed k (or_empty bases) heads v)
      → get (merge bases heads choices).0 k ≡ elim (lookup k choices) [
        | none ↦ absent
        | some c ↦ if c.delete then absent else present c.value
      ]
  unfolding get
  get-merge-conflict n =
      let e = lookup-merge bases heads choices k in let r = unresolved n in ground arith

  -- A conflict is reported for a key exactly when no outcome is agreed and no choice was made.
  pub merge-Reported :
      Reported k (merge bases heads choices).1
      ↔ (((v : Value) → ¬ Agreed k (or_empty bases) heads v) × (lookup k choices ≡ none))
  unfolding merge
  merge-Reported = (
    λ r.
        let d = Reported-merge_keys (or_empty bases) heads choices k _ r in
        (λ v a. let e = resolved v a in ground arith, ground arith),
    λ h.
        let r = unresolved (h.0) in
        named _ (
          reports-merge_keys (or_empty bases) heads choices k _ (known r)
            (let c = h.1 in ground arith)),
  )
    where
      known :
          resolve_key k (or_empty bases) heads ≡ none
          → has k (merged_keys (or_empty bases) heads) ≡ true
      known r = elim (Bool-cases (has k (merged_keys (or_empty bases) heads))) [
        | inl m ↦ m
        | inr n ↦ cc (r, missing-resolve_key k bases heads n)
      ]

      named :
          (cs : List Conflict)
          → Any (λ c. c ≡ record { key = k; candidates = candidates k heads }) cs
          → Reported k cs
      named [] a = elim a [ ]
      named (c ∷ cs) (inl e) = inl (ap (λ x. x.key) e)
      named (c ∷ cs) (inr m) = inr (named cs m)
