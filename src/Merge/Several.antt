-- ===== src/Merge/Several.antt =====
-- The merge of one key against several bases, and against the heads themselves.
use enbu.Prelude.{
  Bytes, some, List, [], ◌∷◌, ◌≡◌, ◌↔◌, inl, inr, arith, All, Any, All-map, Bool-cases,
  Option-cases, sym, ◌∙◌, subst,
}
use enbu.Merge.{SecretMap, Value, same, get, resolve_against, agree_loop, resolve_key, or_empty}
use enbu.Merge.Single.{same_iff, Outcome, resolve_against-Outcome}

-- Every base has `v` as its outcome.
abbrev pub Agreed : Bytes → List SecretMap → List SecretMap → Value → Type 0
Agreed key bases heads v = All (λ b. Outcome (get b key) key heads v) bases

agree_loop-Agreed :
    (key : Bytes) (heads : List SecretMap) (w v : Value) (bases : List SecretMap)
    → (agree_loop key heads w bases ≡ some v) ↔ ((w ≡ v) × Agreed key bases heads w)
unfolding agree_loop
agree_loop-Agreed key heads w v [] = ground arith
agree_loop-Agreed key heads w v (b ∷ bs) =
    elim (Option-cases (resolve_against (get b key) key heads)) [
      | inl e ↦ (
        λ r. cc (rw (e, agree_loop) at r),
        λ o. cc (e, (resolve_against-Outcome (get b key) key heads w).1 o.1.0),
      )
      | inr (x, e) ↦
          let first = resolve_against-Outcome (get b key) key heads in
          let rest = agree_loop-Agreed key heads x v bs in
          elim (Bool-cases (same x w)) [
            | inl s ↦
                let xw = (same_iff x w).0 s in
                (
                  λ r.
                      let o = rest.0 (rw (e, s, agree_loop) at r) in
                      (
                        sym xw ∙ o.0,
                        ((first w).0 (e ∙ ap_some xw), subst (λ y. Agreed key bs heads y) xw o.1),
                      ),
                  λ o.
                      rw (e, s, agree_loop)
                        (rest.1 (xw ∙ o.0, subst (λ y. Agreed key bs heads y) (sym xw) o.1.1)),
                )
            | inr d ↦ (
              λ r. cc (rw (e, d, agree_loop) at r),
              λ o. cc (d, (same_iff x w).1 (some_inj (sym e ∙ (first w).1 o.1.0))),
            )
          ]
    ]
  where
    ap_some : {x y : Value} → x ≡ y → some x ≡ some y
    ap_some p = cc

    some_inj : {x y : Value} → some x ≡ some y → x ≡ y
    some_inj p = cc

against_bases :
    (key : Bytes) (b : SecretMap) (bs heads : List SecretMap) (v : Value)
    → (resolve_key key (b ∷ bs) heads ≡ some v) ↔ Agreed key (b ∷ bs) heads v
unfolding resolve_key
against_bases key b bs heads v = elim (Option-cases (resolve_against (get b key) key heads)) [
  | inl e ↦ (
    λ r. cc (rw (e, resolve_key) at r),
    λ o. cc (e, (resolve_against-Outcome (get b key) key heads v).1 o.0),
  )
  | inr (x, e) ↦
      let first = resolve_against-Outcome (get b key) key heads in
      let rest = agree_loop-Agreed key heads x v bs in
      (
        λ r.
            let o = rest.0 (rw (e, resolve_key) at r) in
            subst (λ y. Agreed key (b ∷ bs) heads y) o.0 ((first x).0 e, o.1),
        λ o.
            let xv = some_inj (sym e ∙ (first v).1 o.0) in
            rw (e, resolve_key) (rest.1 (xv, subst (λ y. Agreed key bs heads y) (sym xv) o.1)),
      )
]
  where
    some_inj : {x y : Value} → some x ≡ some y → x ≡ y
    some_inj p = cc

-- The merge of a key succeeds with `v` exactly when `v` is the outcome against every base.
pub resolve_key-Agreed :
    (key : Bytes) (bases heads : List SecretMap) (v : Value)
    → (resolve_key key (or_empty bases) heads ≡ some v) ↔ Agreed key (or_empty bases) heads v
resolve_key-Agreed key [] heads v = against_bases key [] [] heads v
resolve_key-Agreed key (b ∷ bs) heads v = against_bases key b bs heads v

-- A value that all of at least one head have is the outcome, whatever the bases are.
pub unanimous-Agreed :
    (key : Bytes) (bases heads : List SecretMap) (v : Value)
    → All (λ h. get h key ≡ v) heads
    → Any (λ h. get h key ≡ v) heads
    → Agreed key bases heads v
unanimous-Agreed key [] heads v same_v some_v = tt
unanimous-Agreed key (b ∷ bs) heads v same_v some_v = (
  (All-map (λ h e. inr e) heads same_v, inr some_v),
  unanimous-Agreed key bs heads v same_v some_v,
)

-- A base whose own value is `v` leaves no other value to any head.
base_v :
    (key : Bytes) (bases heads : List SecretMap) (v : Value)
    → Agreed key bases heads v
    → Any (λ b. get b key ≡ v) bases
    → All (λ h. get h key ≡ v) heads
base_v key [] heads v a m = elim m [ ]
base_v key (b ∷ bs) heads v a (inl e) =
    All-map (λ h. elim [ inl q ↦ q ∙ e | inr q ↦ q ]) heads a.0.0
base_v key (b ∷ bs) heads v a (inr m) = base_v key bs heads v a.1 m

-- With the heads themselves as the bases a key merges only if all the heads agree on it, so that
-- every differing value becomes a conflict.
pub heads_as_bases :
    (key : Bytes) (h : SecretMap) (hs : List SecretMap) (v : Value)
    → (resolve_key key (h ∷ hs) (h ∷ hs) ≡ some v) ↔ All (λ g. get g key ≡ v) (h ∷ hs)
heads_as_bases key h hs v = (
  λ r.
      let a = (against_bases key h hs (h ∷ hs) v).0 r in
      elim (a.0.1) [
        | inl e ↦ base_v key (h ∷ hs) (h ∷ hs) v a (inl (sym e))
        | inr m ↦ base_v key (h ∷ hs) (h ∷ hs) v a m
      ],
  λ u. (against_bases key h hs (h ∷ hs) v).1 (unanimous-Agreed key (h ∷ hs) (h ∷ hs) v u (inl u.0)),
)
