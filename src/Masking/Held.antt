-- ===== src/Masking/Held.antt =====
-- `prefixLen`: no longer end of the text can begin a value.
use enbu.Prelude.{
  ℕ, zero, suc, ◌+◌, ◌-◌, ◌≤◌, ◌<◌, Bytes, true, false, ◌&&◌, List, [], ◌∷◌, ◌≡◌, inl, inr, sym, ap,
  ◌∙◌, subst, arith, ltb, length, Among, drop, drop-drop, length-drop, starts, Bool-cases,
}
use enbu.Masking.{begins, prefix_scan, prefix_loop, prefix_len}

prefix_scan-ge : (v : Bytes) (longest : ℕ) (rest : Bytes) → longest ≤ prefix_scan v longest rest
unfolding prefix_scan
prefix_scan-ge v longest [] = omega arith
prefix_scan-ge v longest (c ∷ rest) = ground (arith, prefix_scan-ge v longest rest)

starts-begins : (v : Bytes) (c : ℕ) (rest : Bytes) → starts v (c ∷ rest) ≡ true → begins v c ≡ true
unfolding starts
starts-begins [] c rest h = ground arith
starts-begins (x ∷ v) c rest h = ground arith

prefix_scan-max :
    (v : Bytes) (longest : ℕ) (rest : Bytes) (k : ℕ)
    → prefix_scan v longest rest < length (drop k rest)
    → starts v (drop k rest) ≡ false
unfolding prefix_scan
prefix_scan-max v longest [] zero l = absurd (omega arith)
prefix_scan-max v longest [] (suc k) l = absurd (omega arith)
prefix_scan-max v longest (c ∷ rest) k l = elim (Bool-cases (ltb longest (length (c ∷ rest)))) [
  | inr n ↦
      let s = length-drop k (c ∷ rest) in
      let g = prefix_scan-ge v longest (c ∷ rest) in absurd (ground arith)
  | inl t ↦ elim (Bool-cases (begins v c && starts v (c ∷ rest))) [
    | inl u ↦
        let s = length-drop k (c ∷ rest) in
        let m = rw (t, u, prefix_scan) at l in absurd (ground arith)
    | inr u ↦ deeper k t u (rw (t, u, prefix_scan) at l) (λ j. prefix_scan-max v longest rest j)
  ]
]
  where
    deeper :
        (k : ℕ)
        → ltb longest (length (c ∷ rest)) ≡ true
        → (begins v c && starts v (c ∷ rest)) ≡ false
        → prefix_scan v longest rest < length (drop k (c ∷ rest))
        → ((j : ℕ)
            → prefix_scan v longest rest < length (drop j rest)
            → starts v (drop j rest) ≡ false)
        → starts v (drop k (c ∷ rest)) ≡ false
    deeper zero t u m f = elim (Bool-cases (starts v (c ∷ rest))) [
      | inl s ↦ let b = starts-begins v c rest s in absurd (ground arith)
      | inr s ↦ s
    ]
    deeper (suc j) t u m f = f j m

prefix_loop-ge : (b : Bytes) (longest : ℕ) (vs : List Bytes) → longest ≤ prefix_loop b longest vs
unfolding prefix_loop
prefix_loop-ge b longest [] = omega arith
prefix_loop-ge b longest (v ∷ vs) =
    let rest = drop (length b + 1 - length v) b in
    omega (arith, prefix_scan-ge v longest rest, prefix_loop-ge b (prefix_scan v longest rest) vs)

prefix_loop-max :
    (b : Bytes) (longest : ℕ) (vs : List Bytes) (v : Bytes) (k : ℕ)
    → Among v vs
    → prefix_loop b longest vs < length (drop k b)
    → length (drop k b) < length v
    → starts v (drop k b) ≡ false
unfolding prefix_loop
prefix_loop-max b longest [] v k m l s = elim m [ ]
prefix_loop-max b longest (w ∷ vs) v k (inr m) l s =
    prefix_loop-max b (prefix_scan w longest (drop (length b + 1 - length w) b)) vs v k m l s
prefix_loop-max b longest (w ∷ vs) v k (inl p) l s =
    let start = length b + 1 - length w in
    let g = prefix_loop-ge b (prefix_scan w longest (drop start b)) vs in
    let d = length-drop k b in
    let q : length w ≡ length v = ap (λ (x : Bytes). length x) p in
    let e : start + (k - start) ≡ k = omega arith in
    let same : drop (k - start) (drop start b) ≡ drop k b =
      drop-drop (k - start) start b ∙ ap (λ j. drop j b) e in
    subst (λ x. starts x (drop k b) ≡ false) p
      (subst (λ x. starts w x ≡ false) same
        (prefix_scan-max w longest (drop start b) (k - start)
          (subst (λ x. prefix_scan w longest (drop start b) < length x) (sym same) (omega arith))))

-- An end of the text longer than `prefixLen` says begins no longer value.
pub prefix_len-max :
    (values : List Bytes) (b v : Bytes) (k : ℕ)
    → Among v values
    → prefix_len values b < length (drop k b)
    → length (drop k b) < length v
    → starts v (drop k b) ≡ false
unfolding prefix_len
prefix_len-max values b v k m l s = prefix_loop-max b 0 values v k m l s
