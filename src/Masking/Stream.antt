-- ===== src/Masking/Stream.antt =====
-- How the output that the masker writes piece by piece compares with masking the whole text at once.
use mathlib.Core.List.{append-nil, append_assoc}
use enbu.Prelude.{
  ℕ, zero, suc, ◌+◌, ◌-◌, ◌≤◌, ◌<◌, Bytes, true, false, ◌&&◌, none, List, [], ◌∷◌, ◌++◌, ◌≡◌, inl,
  inr, sym, ap, ap₂, ◌∙◌, subst, arith, ltb, length, Any, All-Among, Among, Dict, take, drop,
  take-append, drop-append, length-drop, starts, starts-append, starts-append_left,
  starts-append_right, starts-drop, starts_trans, Bool-cases, Option-cases,
}
use enbu.Masking.{
  concealed, masked_values, first_match, begins_longer, prefix_len, conceal_loop, conceal, write,
  flush, run,
}
use enbu.Masking.Matches.{
  IsMatch, first_match-IsMatch, first_match-none, IsMatch-first_match, Any-Among,
}
use enbu.Masking.Held.{prefix_len-max}
use enbu.Masking.Values.{masked_values-Descending, masked_values-Long}
use enbu.Masking.Whole.{
  IsApart, any-false, match_bounds, masked-none, masked-some, NoneBefore, drop_sum, masked_skip,
  masked,
}

-- All that was written.
abbrev pub joined : List Bytes → Bytes
joined [] = []
joined (p ∷ ps) = p ++ joined ps

module _ (values : List Bytes) (ok : IsApart values) where
  -- More text behind `b` brings no match before one of `b`, since such a match would hold it inside.
  extend_earliest :
      (b y : Bytes) (i n : ℕ) → IsMatch values b i n → (NoneBefore values ok) (b ++ y) i
  extend_earliest b y i n h v m j l = elim (Bool-cases (starts (drop j (b ++ y)) v)) [
    | inr e ↦ e
    | inl e ↦
        let (one, within) = match_bounds values ok b i n h in
        let d = length-drop j b in
        let at : starts (drop j b ++ y) v ≡ true =
          subst (λ x. starts x v ≡ true) (drop-append j b y (omega arith)) e in
        elim (Bool-cases (ltb (length (drop j b)) (length v))) [
          | inr s ↦
              let w = h.earliest v m j l in
              let u = starts-append_left (drop j b) y v (ground arith) at in absurd (cc (w, u))
          | inl t ↦
              let (w, u, p) = Any-Among values h.present in
              let long = starts-append_right (drop j b) y v (ground arith) at in
              let inner = starts-drop (i - j) v (drop j b) long in
              let same = (drop_sum values ok) j i b (omega arith) in
              let here : starts (drop (i - j) v) (drop i b) ≡ true =
                subst (λ x. starts (drop (i - j) v) x ≡ true) same inner in
              let both = starts_trans (drop (i - j) v) (drop i b) w here p.0 in
              let k : i - j ≡ suc (i - j - 1) = omega arith in
              let inside = ok.apart v w m u (i - j - 1) in
              absurd (cc (subst (λ x. starts (drop x v) w ≡ true) k both, inside))
        ]
  ]

  extend-IsMatch :
      (b y : Bytes) (i n : ℕ)
      → IsMatch values b i n
      → begins_longer values (drop i b) n ≡ false
      → IsMatch values (b ++ y) i n
  unfolding begins_longer
  extend-IsMatch b y i n h short =
      let (one, within) = match_bounds values ok b i n h in
      let same = drop-append i b y (omega arith) in
      record {
        present = more (sym same) values h.present;
        earliest = extend_earliest b y i n h;
        longest = λ v m a.
            let at : starts (drop i b ++ y) v ≡ true = subst (λ x. starts x v ≡ true) same a in
            elim (Bool-cases (ltb (length (drop i b)) (length v))) [
              | inr s ↦ h.longest v m (starts-append_left (drop i b) y v (ground arith) at)
              | inl t ↦
                  let long = starts-append_right (drop i b) y v (ground arith) at in
                  let test =
                    any-false
                      (λ x.
                        ltb n (length x)
                        && ltb (length (drop i b)) (length x)
                        && starts x (drop i b))
                      values v short m in
                  ground arith
            ];
      }
    where
      more :
          {c : Bytes}
          → drop i b ++ y ≡ c
          → (vs : List Bytes) → Any (λ v. (starts (drop i b) v ≡ true) × (length v ≡ n)) vs
          → Any (λ v. (starts c v ≡ true) × (length v ≡ n)) vs
      more e [] p = p
      more e (v ∷ vs) (inl p) =
          inl (subst (λ x. starts x v ≡ true) e (starts-append (drop i b) y v p.0), p.1)
      more e (v ∷ vs) (inr p) = inr (more e vs p)

  -- What is held back is long enough: no value can start before it.
  extend_none :
      (b y : Bytes)
      → first_match values b ≡ none
      → (NoneBefore values ok) (b ++ y) (length b - prefix_len values b)
  extend_none b y q v m j l = elim (Bool-cases (starts (drop j (b ++ y)) v)) [
    | inr e ↦ e
    | inl e ↦
        let d = length-drop j b in
        let at : starts (drop j b ++ y) v ≡ true =
          subst (λ x. starts x v ≡ true) (drop-append j b y (omega arith)) e in
        elim (Bool-cases (ltb (length (drop j b)) (length v))) [
          | inr s ↦
              let w = first_match-none values b q v m j in
              let u = starts-append_left (drop j b) y v (ground arith) at in absurd (cc (w, u))
          | inl t ↦
              let w = prefix_len-max values b v j m (omega arith) (ground arith) in
              let u = starts-append_right (drop j b) y v (ground arith) at in absurd (cc (w, u))
        ]
  ]

  split_at :
      (b y : Bytes) (k : ℕ)
      → k ≤ length b
      → (NoneBefore values ok) (b ++ y) k
      → masked values ok (b ++ y) ≡ take k b ++ (masked values ok) (drop k b ++ y)
  split_at b y k h none_k =
      masked_skip values ok (b ++ y) k none_k
      ∙ ap₂ (λ (x z : Bytes). x ++ masked values ok z) (take-append k b y h) (drop-append k b y h)

  -- What `conceal` lets out before the end is what masking the whole text begins with.
  conceal-masked :
      (f : ℕ) (b y : Bytes)
      → length b < f
      → (let out = conceal_loop values f b false in
          masked values ok (b ++ y) ≡ out.0 ++ (masked values ok) (out.1 ++ y))
  unfolding conceal_loop
  conceal-masked zero b y l = absurd (omega arith)
  conceal-masked (suc f) b y l = elim (Option-cases (first_match values b)) [
    | inl q ↦
        rw (q, conceal_loop)
          (split_at b y (length b - prefix_len values b) (omega arith) (extend_none b y q))
    | inr ((i, n), q) ↦
        let h = first_match-IsMatch values b i n ok.descending q in
        let (one, within) = match_bounds values ok b i n h in
        elim (Bool-cases (begins_longer values (drop i b) n)) [
          | inl t ↦
              rw (q, t, conceal_loop) (split_at b y i (omega arith) (extend_earliest b y i n h))
          | inr t ↦
              let all =
                IsMatch-first_match values (b ++ y) i n ok.descending
                  (extend-IsMatch b y i n h t) in
              let d = length-drop (i + n) b in
              let rest = conceal-masked f (drop (i + n) b) y (omega arith) in
              let whole = masked-some values ok (b ++ y) i n all in
              let e = take-append i b y (omega arith) in
              let g = drop-append (i + n) b y within in
              rw (q, t, conceal_loop)
                (whole
                  ∙ ap₂ (λ (x z : Bytes). x ++ (concealed ++ masked values ok z)) e g
                  ∙ ap (λ x. take i b ++ (concealed ++ x)) rest
                  ∙ sym (
                      regroup i (conceal_loop values f (drop (i + n) b) false).0 (
                        (masked values ok)
                          ((conceal_loop values f (drop (i + n) b) false).1 ++ y))))
        ]
  ]
    where
      regroup :
          (i : ℕ) (x z : Bytes)
          → (take i b ++ (concealed ++ x)) ++ z ≡ take i b ++ (concealed ++ (x ++ z))
      regroup i x z =
          append_assoc (take i b) (concealed ++ x) z
          ∙ ap (λ w. take i b ++ w) (append_assoc concealed x z)

  masked_nil : (masked values ok) [] ≡ []
  masked_nil = elim (Option-cases (first_match values [])) [
    | inl q ↦ (masked-none values ok) [] q
    | inr ((i, n), q) ↦
        let (one, within) =
          (match_bounds values ok) [] i n (first_match-IsMatch values [] i n ok.descending q) in
        absurd (omega arith)
  ]

  run-masked :
      (pending : Bytes) (ps : List Bytes)
      → run values pending ps ≡ masked values ok (pending ++ joined ps)
  unfolding run write flush conceal
  run-masked [] [] = sym masked_nil
  run-masked (c ∷ cs) [] = ap (masked values ok) (sym (append-nil (c ∷ cs)))
  run-masked pending (p ∷ ps) =
      let out = conceal values (pending ++ p) false in
      ap (λ x. out.0 ++ x) (run-masked out.1 ps)
      ∙ sym (conceal-masked (suc (length (pending ++ p))) (pending ++ p) (joined ps) (omega arith))
      ∙ ap (masked values ok) (append_assoc pending p (joined ps))

-- No value stands inside another behind its start.
abbrev pub Apart : List Bytes → Type 0
Apart values =
    (v w : Bytes) → Among v values → Among w values → (k : ℕ) → starts (drop (suc k) v) w ≡ false

-- However a command's output is cut into writes, the masker writes what it would have written for
-- the whole output at once: nothing is lost, repeated or put out of order, and no value slips through
-- where two writes meet, if no masked value stands inside another behind its start.
pub run-conceal :
    (secrets : Dict Bytes)
    → Apart (masked_values secrets)
    → (ps : List Bytes)
    → run (masked_values secrets) [] ps ≡ (conceal (masked_values secrets) (joined ps) true).0
run-conceal secrets h ps =
    let ok : IsApart (masked_values secrets) = record {
      descending = masked_values-Descending secrets;
      not_empty = λ v m.
          let l =
            All-Among (λ x. 6 ≤ length x) v (masked_values secrets) (masked_values-Long secrets)
              m in
          omega (arith, l);
      apart = h;
    } in
    run-masked (masked_values secrets) ok [] ps
