-- ===== src/Masking/Whole.antt =====
-- Masking the whole of a text at once.
use mathlib.Core.List.{append_assoc}
use enbu.Prelude.{
  ℕ, zero, suc, ◌+◌, ◌-◌, ◌≤◌, ◌<◌, Bytes, Bool, true, false, none, some, List, [], ◌∷◌, ◌++◌, ◌≡◌,
  inl, inr, refl, sym, ap, ◌∙◌, subst, arith, ltb, length, any, Any, Among, take, drop,
  take-append-drop, take-append-take, drop-drop, length-drop, starts, starts-length, Bool-cases,
  Option-cases,
}
use enbu.Masking.{concealed, first_match, conceal_loop, conceal}
use enbu.Masking.Matches.{
  Descending, IsMatch, first_match-IsMatch, first_match-none, IsMatch-first_match, Any-Among,
}

pub any-false :
    (p : Bytes → Bool) (xs : List Bytes) (x : Bytes) → any p xs ≡ false → Among x xs → p x ≡ false
any-false p [] x e m = elim m [ ]
any-false p (y ∷ ys) x e (inl q) = subst (λ z. p z ≡ false) q (ground arith)
any-false p (y ∷ ys) x e (inr m) = any-false p ys x (ground arith) m

-- Values that are not empty, longest first, none of which stands inside another behind its start.
pub record IsApart (values : List Bytes) : Type 0 where
  pub descending : Descending values
  pub not_empty : (v : Bytes) → Among v values → 1 ≤ length v
  pub apart :
      (v w : Bytes) → Among v values → Among w values → (k : ℕ) → starts (drop (suc k) v) w ≡ false

module _ (values : List Bytes) (ok : IsApart values) where
  -- What masking the whole of `b` at once gives.
  abbrev pub masked : Bytes → Bytes
  masked b = (conceal values b true).0

  pub match_bounds : (b : Bytes) (i n : ℕ) → IsMatch values b i n → (1 ≤ n) × (i + n ≤ length b)
  match_bounds b i n h =
      let (v, m, p) = Any-Among values h.present in
      let e = ok.not_empty v m in
      let l = starts-length (drop i b) v p.0 in
      let d = length-drop i b in (omega (arith, p.1), omega (arith, p.1))

  loop_fuel :
      (f g : ℕ) (b : Bytes)
      → length b < f
      → length b < g
      → conceal_loop values f b true ≡ conceal_loop values g b true
  unfolding conceal_loop
  loop_fuel zero g b h k = absurd (omega arith)
  loop_fuel (suc f) zero b h k = absurd (omega arith)
  loop_fuel (suc f) (suc g) b h k = elim (Option-cases (first_match values b)) [
    | inl q ↦ rw (q, conceal_loop) refl
    | inr ((i, n), q) ↦
        let (one, within) = match_bounds b i n (first_match-IsMatch values b i n ok.descending q) in
        let d = length-drop (i + n) b in
        let rest = loop_fuel f g (drop (i + n) b) (omega arith) (omega arith) in
        rw (q, conceal_loop) (rw rest refl)
  ]

  unopened :
      (b : Bytes)
      → first_match values b ≡ none
      → conceal_loop values (suc (length b)) b true ≡ (b, [])
  unfolding conceal_loop
  unopened b q = rw (q, conceal_loop) refl

  pub masked-none : (b : Bytes) → first_match values b ≡ none → masked b ≡ b
  unfolding conceal conceal_loop
  masked-none b q = ap (λ (x : Bytes × Bytes). x.0) (unopened b q)

  opened :
      (b : Bytes) (i n : ℕ)
      → first_match values b ≡ some (i, n)
      → conceal_loop values (suc (length b)) b true ≡ (
          let next = conceal_loop values (length b) (drop (i + n) b) true in
          (take i b ++ (concealed ++ next.0), next.1))
  unfolding conceal_loop
  opened b i n q = rw (q, conceal_loop) refl

  pub masked-some :
      (b : Bytes) (i n : ℕ)
      → first_match values b ≡ some (i, n)
      → masked b ≡ take i b ++ (concealed ++ masked (drop (i + n) b))
  unfolding conceal conceal_loop
  masked-some b i n q =
      let (one, within) = match_bounds b i n (first_match-IsMatch values b i n ok.descending q) in
      let d = length-drop (i + n) b in
      let rest =
        loop_fuel (length b) (suc (length (drop (i + n) b))) (drop (i + n) b) (omega arith)
          (omega arith) in
      ap (λ (x : Bytes × Bytes). x.0) (opened b i n q)
      ∙ ap (λ (x : Bytes × Bytes). take i b ++ (concealed ++ x.0)) rest

  -- No value starts before `k`.
  abbrev pub NoneBefore : Bytes → ℕ → Type 0
  NoneBefore b k = (v : Bytes) → Among v values → (j : ℕ) → j < k → starts (drop j b) v ≡ false

  pub drop_sum : (k j : ℕ) (b : Bytes) → k ≤ j → drop (j - k) (drop k b) ≡ drop j b
  drop_sum k j b h = drop-drop (j - k) k b ∙ ap (λ x. drop x b) (omega arith)

  shifted :
      (b : Bytes) (k i n : ℕ)
      → NoneBefore b k
      → IsMatch values (drop k b) i n
      → IsMatch values b (k + i) n
  shifted b k i n none_k h = record {
    present =
        subst (λ x. Any (λ v. (starts x v ≡ true) × (length v ≡ n)) values) (drop-drop i k b)
          h.present;
    earliest = λ v m j l. elim (Bool-cases (ltb j k)) [
      | inl t ↦ none_k v m j (ground arith)
      | inr t ↦
          subst (λ x. starts x v ≡ false) (drop_sum k j b (ground arith))
            (h.earliest v m (j - k) (ground arith))
    ];
    longest = λ v m a. h.longest v m (subst (λ x. starts x v ≡ true) (sym (drop-drop i k b)) a);
  }

  pub masked_skip : (b : Bytes) (k : ℕ) → NoneBefore b k → masked b ≡ take k b ++ masked (drop k b)
  masked_skip b k h = elim (Option-cases (first_match values (drop k b))) [
    | inl q ↦
        let e = masked-none (drop k b) q in
        masked-none b (nothing q) ∙ sym (take-append-drop k b) ∙ ap (λ x. take k b ++ x) (sym e)
    | inr ((i, n), q) ↦
        let found = first_match-IsMatch values (drop k b) i n ok.descending q in
        let all = IsMatch-first_match values b (k + i) n ok.descending (shifted b k i n h found) in
        let here = masked-some b (k + i) n all in
        let there = masked-some (drop k b) i n q in
        here ∙ joined i n ∙ ap (λ x. take k b ++ x) (sym there)
  ]
    where
      nothing : first_match values (drop k b) ≡ none → first_match values b ≡ none
      nothing q = elim (Option-cases (first_match values b)) [
        | inl r ↦ r
        | inr ((i, n), r) ↦
            let f = first_match-IsMatch values b i n ok.descending r in
            let (v, m, p) = Any-Among values f.present in
            elim (Bool-cases (ltb i k)) [
              | inl t ↦ let w = h v m i (ground arith) in absurd (cc (w, p.0))
              | inr t ↦
                  let w = first_match-none values (drop k b) q v m (i - k) in
                  let u = subst (λ x. starts x v ≡ false) (drop_sum k i b (ground arith)) w in
                  absurd (cc (u, p.0))
            ]
      ]

      joined :
          (i n : ℕ)
          → take (k + i) b ++ (concealed ++ masked (drop ((k + i) + n) b))
            ≡ take k b ++ (take i (drop k b) ++ (concealed ++ masked (drop (i + n) (drop k b))))
      joined i n =
          let e : drop ((k + i) + n) b ≡ drop (i + n) (drop k b) =
            sym (drop-drop (i + n) k b ∙ ap (λ x. drop x b) (omega arith)) in
          rw (take-append-take k i b, e)
            (append_assoc (take k b) (take i (drop k b))
              (concealed ++ masked (drop (i + n) (drop k b))))
