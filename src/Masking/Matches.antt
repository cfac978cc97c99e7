-- ===== src/Masking/Matches.antt =====
-- What `firstMatch` finds: the earliest value in a text, the longest one of those that start there.
use enbu.Prelude.{
  ℕ, zero, suc, ◌≤◌, ◌<◌, Bytes, true, false, Option, none, some, List, [], ◌∷◌, ◌≡◌, ◌⊎◌, inl, inr,
  refl, sym, ap, ◌∙◌, subst, arith, ltb, length, All, Any, Among, All-Among, ap₂, drop, starts,
  Bool-cases, Option-cases,
}
use enbu.Masking.{index, better, first_match_loop, first_match}

-- `v` stands in `b` at `i`.
abbrev pub At : Bytes → ℕ → Bytes → Type 0
At b i v = starts (drop i b) v ≡ true

some_injective : {A : Type 0} {x y : A} → some x ≡ some y → x ≡ y
some_injective e = cc

index-none : (b v : Bytes) → index b v ≡ none → (j : ℕ) → starts (drop j b) v ≡ false
unfolding index starts
index-none [] v e zero = ground arith
index-none [] v e (suc j) = ground arith
index-none (x ∷ b) v e zero = elim (Bool-cases (starts (x ∷ b) v)) [
  | inl t ↦ absurd (cc (rw (t, index) at e))
  | inr n ↦ n
]
index-none (x ∷ b) v e (suc j) = elim (Bool-cases (starts (x ∷ b) v)) [
  | inl t ↦ absurd (cc (rw (t, index) at e))
  | inr n ↦ elim (Option-cases (index b v)) [
    | inr (i, q) ↦ absurd (cc (rw (n, q, index) at e))
    | inl q ↦ index-none b v q j
  ]
]

record IsFirst (b v : Bytes) (i : ℕ) : Type 0 where
  here : At b i v
  none_before : (j : ℕ) → j < i → starts (drop j b) v ≡ false

index-IsFirst : (b v : Bytes) (i : ℕ) → index b v ≡ some i → IsFirst b v i
unfolding index
index-IsFirst [] v i e = elim (Bool-cases (starts [] v)) [
  | inl t ↦
      let p : 0 ≡ i = some_injective (rw (t, index) at e) in
      subst (IsFirst [] v) p (record { here = t; none_before = λ j l. absurd (omega arith) })
  | inr n ↦ absurd (cc (rw (n, index) at e))
]
index-IsFirst (x ∷ b) v i e = elim (Bool-cases (starts (x ∷ b) v)) [
  | inl t ↦
      let p : 0 ≡ i = some_injective (rw (t, index) at e) in
      subst (IsFirst (x ∷ b) v) p (record { here = t; none_before = λ j l. absurd (omega arith) })
  | inr n ↦ elim (Option-cases (index b v)) [
    | inl q ↦ absurd (cc (rw (n, q, index) at e))
    | inr (k, q) ↦
        let p : suc k ≡ i = some_injective (rw (n, q, index) at e) in
        subst (IsFirst (x ∷ b) v) p (later k n (index-IsFirst b v k q))
  ]
]
  where
    before :
        (k : ℕ)
        → starts (x ∷ b) v ≡ false
        → IsFirst b v k
        → (j : ℕ) → j < suc k
        → starts (drop j (x ∷ b)) v ≡ false
    before k n f zero l = n
    before k n f (suc j) l = f.none_before j (omega arith)

    later : (k : ℕ) → starts (x ∷ b) v ≡ false → IsFirst b v k → IsFirst (x ∷ b) v (suc k)
    later k n f = record { here = f.here; none_before = before k n f }

-- Each value is at least as long as those behind it.
abbrev pub Descending : List Bytes → Type 0
Descending [] = Unit
Descending (v ∷ vs) = All (λ w. length w ≤ length v) vs × Descending vs

-- What was found before is no earlier than `i`, and of length `n` if it is there.
abbrev NotBefore : Option (ℕ × ℕ) → ℕ → ℕ → Type 0
NotBefore none i n = Unit
NotBefore (some (a, m)) i n = (i ≤ a) × (a ≡ i → m ≡ n)

abbrev IsBound : Option (ℕ × ℕ) → ℕ → Type 0
IsBound none l = Unit
IsBound (some (a, m)) l = l ≤ m

better-NotBefore :
    (found : Option (ℕ × ℕ)) (j l i n : ℕ)
    → IsBound found l
    → NotBefore (better found j l) i n
    → NotBefore found i n × (i ≤ j) × (j ≡ i → l ≤ n)
unfolding better
better-NotBefore none j l i n b h = (tt, h.0, λ e. let q = h.1 e in omega arith)
better-NotBefore (some (a, m)) j l i n b h = elim (Bool-cases (ltb j a)) [
  | inl t ↦
      let g = rw (t, better) at h in
      ((ground arith, λ e. absurd (ground arith)), g.0, λ e. let q = g.1 e in omega arith)
  | inr f ↦
      let g = rw (f, better) at h in
      (g, ground arith, λ e. let q = g.1 (ground arith) in omega arith)
]

better-IsBound :
    (found : Option (ℕ × ℕ)) (j l : ℕ) (vs : List Bytes)
    → All (λ v. length v ≤ l) vs
    → All (λ v. IsBound found (length v)) vs
    → All (λ v. IsBound (better found j l) (length v)) vs
unfolding better
better-IsBound none j l vs h k = h
better-IsBound (some (a, m)) j l vs h k = elim (Bool-cases (ltb j a)) [
  | inl t ↦ rw (t, better) h
  | inr f ↦ rw (f, better) k
]

loop-none :
    (b : Bytes) (found : Option (ℕ × ℕ)) (vs : List Bytes)
    → first_match_loop b found vs ≡ none
    → (found ≡ none) × All (λ v. index b v ≡ none) vs
unfolding first_match_loop better
loop-none b found [] e = (e, tt)
loop-none b found (v ∷ vs) e = elim (Option-cases (index b v)) [
  | inl q ↦ let (f, a) = loop-none b found vs (rw (q, first_match_loop) at e) in (f, (q, a))
  | inr (i, q) ↦
      let (f, a) = loop-none b (better found i (length v)) vs (rw (q, first_match_loop) at e) in
      absurd (better-ne-none found i (length v) f)
]
  where
    better-ne-none : (o : Option (ℕ × ℕ)) (i n : ℕ) → ¬ (better o i n ≡ none)
    better-ne-none none i n h = cc
    better-ne-none (some (a, m)) i n h = elim (Bool-cases (ltb i a)) [
      | inl t ↦ cc (rw (t, better) at h)
      | inr t ↦ cc (rw (t, better) at h)
    ]

better-from :
    (found : Option (ℕ × ℕ)) (j l i n : ℕ)
    → better found j l ≡ some (i, n)
    → (found ≡ some (i, n)) ⊎ ((j ≡ i) × (l ≡ n))
unfolding better
better-from none j l i n e =
    let q = some_injective e in inr (ap (λ (x : ℕ × ℕ). x.0) q, ap (λ (x : ℕ × ℕ). x.1) q)
better-from (some (a, m)) j l i n e = elim (Bool-cases (ltb j a)) [
  | inl t ↦
      let q = some_injective (rw (t, better) at e) in
      inr (ap (λ (x : ℕ × ℕ). x.0) q, ap (λ (x : ℕ × ℕ). x.1) q)
  | inr t ↦ inl (rw (t, better) at e)
]

record LoopFound (b : Bytes) (found : Option (ℕ × ℕ)) (vs : List Bytes) (i n : ℕ) : Type 0 where
  not_before : NotBefore found i n
  each : All (λ v. (j : ℕ) → index b v ≡ some j → (i ≤ j) × (j ≡ i → length v ≤ n)) vs
  from : (found ≡ some (i, n)) ⊎ Any (λ v. (index b v ≡ some i) × (length v ≡ n)) vs

loop-LoopFound :
    (b : Bytes) (found : Option (ℕ × ℕ)) (vs : List Bytes) (i n : ℕ)
    → Descending vs
    → All (λ v. IsBound found (length v)) vs
    → first_match_loop b found vs ≡ some (i, n)
    → LoopFound b found vs i n
unfolding first_match_loop
loop-LoopFound b found [] i n d h e = record {
  not_before = same_found found e;
  each = tt;
  from = inl e;
}
  where
    same_found : (o : Option (ℕ × ℕ)) → o ≡ some (i, n) → NotBefore o i n
    same_found none p = tt
    same_found (some (a, m)) p =
        let q = some_injective p in
        let s : a ≡ i = ap (λ (x : ℕ × ℕ). x.0) q in
        let t : m ≡ n = ap (λ (x : ℕ × ℕ). x.1) q in (omega arith, λ r. t)
loop-LoopFound b found (v ∷ vs) i n d h e = elim (Option-cases (index b v)) [
  | inl q ↦
      let r = loop-LoopFound b found vs i n d.1 h.1 (rw (q, first_match_loop) at e) in
      record {
        not_before = r.not_before;
        each = (λ j k. absurd (cc), r.each);
        from = elim r.from [ inl f ↦ inl f | inr f ↦ inr (inr f) ];
      }
  | inr (j, q) ↦
      let r =
        loop-LoopFound b (better found j (length v)) vs i n d.1
          (better-IsBound found j (length v) vs d.0 h.1) (rw (q, first_match_loop) at e) in
      let (nb, at, len) = better-NotBefore found j (length v) i n h.0 r.not_before in
      record {
        not_before = nb;
        each = (
          λ k p.
              let s : j ≡ k = some_injective (sym q ∙ p) in
              subst (λ (x : ℕ). (i ≤ x) × (x ≡ i → length v ≤ n)) s (at, len),
          r.each,
        );
        from = elim r.from [
          | inl f ↦ elim (better-from found j (length v) i n f) [
            | inl g ↦ inl g
            | inr g ↦ inr (inl (q ∙ ap some g.0, g.1))
          ]
          | inr f ↦ inr (inr f)
        ];
      }
]

-- The earliest match of `b`, with the length of the longest value there.
pub record IsMatch (values : List Bytes) (b : Bytes) (i n : ℕ) : Type 0 where
  pub present : Any (λ v. At b i v × (length v ≡ n)) values
  pub earliest : (v : Bytes) → Among v values → (j : ℕ) → j < i → starts (drop j b) v ≡ false
  pub longest : (v : Bytes) → Among v values → At b i v → length v ≤ n

Any-map :
    {P Q : Bytes → Type 0} → ((x : Bytes) → P x → Q x) → (xs : List Bytes) → Any P xs → Any Q xs
Any-map f [] h = h
Any-map f (x ∷ xs) (inl h) = inl (f x h)
Any-map f (x ∷ xs) (inr h) = inr (Any-map f xs h)

always : (v : Bytes) (vs : List Bytes) → All (λ w. IsBound none (length w)) vs
always v [] = tt
always v (w ∷ vs) = (tt, always v vs)

pub first_match-IsMatch :
    (values : List Bytes) (b : Bytes) (i n : ℕ)
    → Descending values
    → first_match values b ≡ some (i, n)
    → IsMatch values b i n
unfolding first_match
first_match-IsMatch values b i n d e =
    let r = loop-LoopFound b none values i n d (always [] values) e in
    record {
      present = elim r.from [
        | inl f ↦ absurd (cc)
        | inr f ↦ Any-map (λ v k. ((index-IsFirst b v i k.0).here, k.1)) values f
      ];
      earliest = λ v m j l. elim (Option-cases (index b v)) [
        | inl q ↦ index-none b v q j
        | inr (k, q) ↦
            let (le, at) = All-Among _ v values r.each m k q in
            (index-IsFirst b v k q).none_before j (omega arith)
      ];
      longest = λ v m h. elim (Option-cases (index b v)) [
        | inl q ↦ let w = index-none b v q i in absurd (cc)
        | inr (k, q) ↦
            let (le, at) = All-Among _ v values r.each m k q in
            elim (Bool-cases (ltb i k)) [
              | inl t ↦ let w = (index-IsFirst b v k q).none_before i (ground arith) in absurd (cc)
              | inr t ↦ at (ground arith)
            ]
      ];
    }

-- No value stands in `b`.
pub first_match-none :
    (values : List Bytes) (b : Bytes)
    → first_match values b ≡ none
    → (v : Bytes) → Among v values
    → (j : ℕ) → starts (drop j b) v ≡ false
unfolding first_match
first_match-none values b e v m j =
    index-none b v (All-Among _ v values ((loop-none b none values e).1) m) j

pub Any-Among : {P : Bytes → Type 0} (xs : List Bytes) → Any P xs → (x : Bytes) × Among x xs × P x
Any-Among [] h = elim h [ ]
Any-Among (x ∷ xs) (inl h) = (x, inl refl, h)
Any-Among (x ∷ xs) (inr h) = let (y, m, k) = Any-Among xs h in (y, inr m, k)

-- There is one earliest match at most, and `firstMatch` finds it.
pub IsMatch-first_match :
    (values : List Bytes) (b : Bytes) (i n : ℕ)
    → Descending values
    → IsMatch values b i n
    → first_match values b ≡ some (i, n)
IsMatch-first_match values b i n d h = elim (Option-cases (first_match values b)) [
  | inl q ↦
      let (v, m, p) = Any-Among values h.present in
      let w = first_match-none values b q v m i in absurd (cc (w, p.0))
  | inr ((j, k), q) ↦
      let r = first_match-IsMatch values b j k d q in
      let (v, m, p) = Any-Among values h.present in
      let (w, u, o) = Any-Among values r.present in
      let le : ¬ (j < i) = λ l. let z = h.earliest w u j l in cc (z, o.0) in
      let ge : ¬ (i < j) = λ l. let z = r.earliest v m i l in cc (z, p.0) in
      let same : j ≡ i = omega arith in
      let a = r.longest v m (subst (λ x. At b x v) (sym same) p.0) in
      let c = h.longest w u (subst (λ x. At b x w) same o.0) in
      let len : k ≡ n = omega (arith, p.1, o.1) in q ∙ ap₂ (λ (x y : ℕ). some (x, y)) same len
]
