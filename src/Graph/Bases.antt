-- ===== src/Graph/Bases.antt =====
-- `MergeBases` against the lowest common ancestors.
use enbu.Prelude.{
  ◌==◌, eq_iff, true, false, not, ◌&&◌, List, [], ◌∷◌, ◌≡◌, ◌↔◌, inl, inr, refl, sym, ◌∙◌, subst,
  arith, Bool-cases, has-cons_cases, has_head, has_tail, has, select, has-select, has-append,
  has-sort_bytes, All, &&-left, &&-right, not-has-nil,
}
use enbu.Graph.{Graph, Digest, ancestors, common_loop, shadowed, merge_bases}
use enbu.Graph.Ancestors.{Ancestor, ancestors-Ancestor}

module _ (g : Graph) where
  -- `b` is an ancestor of all of `hs`.
  abbrev pub Common : List Digest → Digest → Type 0
  Common hs b = All (λ h. Ancestor g h b) hs

  common_loop-Common :
      (hs common : List Digest) (b : Digest)
      → (has b (common_loop g hs common) ≡ true) ↔ ((has b common ≡ true) × Common hs b)
  unfolding common_loop
  common_loop-Common [] common b = (λ h. (h, tt), λ r. r.0)
  common_loop-Common (h ∷ hs) common b =
      let p = λ (d : Digest). has d (ancestors g h) in
      let ih = common_loop-Common hs (select p common) b in
      let s = has-select p b common in
      let a = ancestors-Ancestor g h b in
      (
        λ m.
            let r = ih.0 m in
            let both = sym s ∙ r.0 in
            (&&-left _ _ both, (a.0 (&&-right (has b common) _ both), r.1)),
        λ r.
            let both : (has b common && p b) ≡ true = rw (r.0, a.1 r.1.0) refl in
            ih.1 (s ∙ both, r.1.1),
      )

  shadowed-Ancestor :
      (ds : List Digest) (a : Digest)
      → (has a (shadowed g ds) ≡ true)
        ↔ ((c : Digest) × (has c ds ≡ true) × Ancestor g c a × ((a == c) ≡ false))
  unfolding shadowed
  shadowed-Ancestor [] a = (λ h. absurd (not-has-nil a h), λ r. absurd (not-has-nil r.0 r.1))
  shadowed-Ancestor (d ∷ ds) a =
      let p = λ (x : Digest). not (x == d) in
      let ih = shadowed-Ancestor ds a in
      let s = has-append a (select p (ancestors g d)) (shadowed g ds) in
      let t = has-select p a (ancestors g d) in
      let an = ancestors-Ancestor g d a in
      (
        λ h. elim (Bool-cases (has a (select p (ancestors g d)))) [
          | inl e ↦
              let both = sym t ∙ e in
              (
                d,
                has_head d ds,
                an.0 (&&-left _ _ both),
                (let q = &&-right (has a (ancestors g d)) _ both in ground arith),
              )
          | inr n ↦ let (c, m, q, r) = ih.0 (ground arith) in (c, has_tail c d ds m, q, r)
        ],
        λ r.
            let (c, m, q, n) = r in
            elim (has-cons_cases c d ds m) [
              | inl e ↦
                  let w = an.1 (subst (λ x. Ancestor g x a) e q) in
                  let n' = subst (λ x. (a == x) ≡ false) e n in ground arith
              | inr k ↦ let w = ih.1 (c, k, q, n) in ground arith
            ],
      )

  -- The merge bases of heads are exactly their lowest common ancestors: the common ancestors that are
  -- not an ancestor of another common ancestor.
  pub merge_bases_iff :
      (h : Digest) (hs : List Digest) (b : Digest)
      → (has b (merge_bases g (h ∷ hs)) ≡ true)
        ↔ (Common (h ∷ hs) b × ((c : Digest) → Common (h ∷ hs) c → Ancestor g c b → b ≡ c))
  unfolding merge_bases
  merge_bases_iff h hs b =
      let common = common_loop g hs (ancestors g h) in
      let shadow = shadowed g common in
      let p = λ (d : Digest). not (has d shadow) in
      let s = has-sort_bytes b (select p common) ∙ has-select p b common in
      let cm = λ (x : Digest). common_loop-Common hs (ancestors g h) x in
      let an = λ (x : Digest). ancestors-Ancestor g h x in
      let sh = shadowed-Ancestor common b in
      (
        λ m.
            let both = sym s ∙ m in
            let c = (cm b).0 (&&-left _ _ both) in
            let np = &&-right (has b common) _ both in
            (
              ((an b).0 c.0, c.1),
              λ c' k q. elim (Bool-cases (b == c')) [
                | inl e ↦ (eq_iff b c').0 e
                | inr n ↦
                    let w = sh.1 (c', (cm c').1 ((an c').1 k.0, k.1), q, n) in
                    absurd (cc (subst (λ z. not z ≡ true) w np))
              ],
            ),
        λ r.
            let m = (cm b).1 ((an b).1 r.0.0, r.0.1) in
            elim (Bool-cases (has b shadow)) [
              | inl e ↦
                  let (c, k, q, n) = sh.0 e in
                  let kc = (cm c).0 k in
                  absurd (cc (n, (eq_iff b c).1 (r.1 c ((an c).0 kc.0, kc.1) q)))
              | inr n ↦ rw (s, m, n) refl
            ],
      )
