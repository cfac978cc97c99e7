-- ===== src/Merge/Single.antt =====
-- The merge of one key against one base.
use enbu.Prelude.{
  Bytes, eq_iff, true, none, some, List, [], ◌∷◌, ◌≡◌, ◌↔◌, ◌⊎◌, inl, inr, arith, All, Any,
  Bool-cases, sym, ◌∙◌, subst,
}
use enbu.Merge.{SecretMap, Value, same, get, resolve_loop, resolve_against}

pub same_iff : (v w : Value) → (same v w ≡ true) ↔ (v ≡ w)
same_iff v w = ground (arith, eq_iff v.text w.text)

-- Every head has the base's value or `v` at `key`.
abbrev pub Within : Value → Value → Bytes → List SecretMap → Type 0
Within base v key heads = All (λ h. (get h key ≡ base) ⊎ (get h key ≡ v)) heads

-- `v` is a possible outcome: no head has a third value, and `v` is the base's or some head's.
abbrev pub Outcome : Value → Bytes → List SecretMap → Value → Type 0
Outcome base key heads v = Within base v key heads × ((v ≡ base) ⊎ Any (λ h. get h key ≡ v) heads)

loop_some :
    (base : Value) (key : Bytes) (c v : Value) (heads : List SecretMap)
    → (resolve_loop base key (some c) heads ≡ some v) ↔ ((c ≡ v) × Within base c key heads)
unfolding resolve_loop
loop_some base key c v [] = ground arith
loop_some base key c v (h ∷ hs) =
    ground (arith, same_iff (get h key) base, same_iff (get h key) c, loop_some base key c v hs)

kept_iff :
    (base v x : Value) (key : Bytes) (heads : List SecretMap)
    → x ≡ base
    → (Outcome base key heads v ↔ (
        ((x ≡ base) ⊎ (x ≡ v))
        × Within base v key heads
        × ((v ≡ base) ⊎ ((x ≡ v) ⊎ Any (λ h. get h key ≡ v) heads))))
kept_iff base v x key heads e = (
  λ o. (inl e, o.0, elim (o.1) [ inl q ↦ inl q | inr a ↦ inr (inr a) ]),
  λ o. (
    o.1,
    elim (o.2) [ inl q ↦ inl q | inr b ↦ elim b [ inl g ↦ inl (sym g ∙ e) | inr a ↦ inr a ] ],
  ),
)

changed_iff :
    (base v x : Value) (key : Bytes) (heads : List SecretMap)
    → ¬ (x ≡ base)
    → (((x ≡ v) × Within base x key heads) ↔ (
        ((x ≡ base) ⊎ (x ≡ v))
        × Within base v key heads
        × ((v ≡ base) ⊎ ((x ≡ v) ⊎ Any (λ h. get h key ≡ v) heads))))
changed_iff base v x key heads n = (
  λ o. (inr o.0, subst (λ y. Within base y key heads) o.0 o.1, inr (inl o.0)),
  λ o. elim (o.0) [
    | inl e ↦ absurd (n e)
    | inr e ↦ (e, subst (λ y. Within base y key heads) (sym e) o.1)
  ],
)

loop_none :
    (base : Value) (key : Bytes) (v : Value) (heads : List SecretMap)
    → (resolve_loop base key none heads ≡ some v) ↔ Outcome base key heads v
unfolding resolve_loop
loop_none base key v [] = ground arith
loop_none base key v (h ∷ hs) = elim (Bool-cases (same (get h key) base)) [
  | inl e ↦
      let k = kept_iff base v (get h key) key hs ((same_iff _ _).0 e) in
      let ih = loop_none base key v hs in
      rw (e, resolve_loop)
        ((λ r. let o = k.0 (ih.0 r) in ((o.0, o.1), o.2)), (λ o. ih.1 (k.1 (o.0.0, o.0.1, o.1))))
  | inr n ↦
      let k =
        changed_iff base v (get h key) key hs (λ e. cc (n, (same_iff (get h key) base).1 e)) in
      let s = loop_some base key (get h key) v hs in
      rw (n, resolve_loop)
        ((λ r. let o = k.0 (s.0 r) in ((o.0, o.1), o.2)), (λ o. s.1 (k.1 (o.0.0, o.0.1, o.1))))
]

-- The merge of a key against one base succeeds with `v` exactly when no head has a value other than
-- the base's and `v`, and `v` is the base's value or one that some head has.
pub resolve_against-Outcome :
    (base : Value) (key : Bytes) (heads : List SecretMap) (v : Value)
    → (resolve_against base key heads ≡ some v) ↔ Outcome base key heads v
unfolding resolve_against
resolve_against-Outcome base key heads v = loop_none base key v heads
