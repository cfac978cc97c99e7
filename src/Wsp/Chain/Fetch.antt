-- ===== src/Wsp/Chain/Fetch.antt =====
-- The loop of `LoadControl` that fetches Controls: what it collects, and that it stays in its budget.
use enbu.Prelude.{
  ℕ, zero, suc, ◌+◌, ◌-◌, ◌≤◌, Bytes, ◌==◌, eq_iff, true, false, some, List, [], ◌∷◌, ◌++◌, ◌≡◌,
  inl, inr, refl, sym, ◌∙◌, subst, arith, length, ltb, has, has_tail, has_head, put, keys,
  Bool-cases, Option-cases, Distinct, Entry, Entry-put, keys-put-Distinct, has-keys-put,
}
use enbu.Outcome.{Result, ok, Result-cases}
use enbu.Graph.{Digest}
use enbu.Wsp.{Protocol}
use enbu.Wsp.Chain.{PendingControl, Fetched, is_damaged, readable, fetch_loop, max_control_bytes}

module _ (P : Protocol) (fetch : Digest → Result Bytes) (workspace : Bytes) (genesis : Digest) where
  -- A collected Control is what storage returned under its digest, read as one of this workspace.
  abbrev pub Collected : Digest → PendingControl → Type 0
  Collected d p = (fetch d ≡ ok p.blob) × (readable P workspace p.blob ≡ some p.c)

  pub record FetchInv (st : Fetched) : Type 0 where
    pub genesis_tried : has genesis st.tried ≡ true
    pub pending_tried : (d : Digest) → has d (keys st.pending) ≡ true → has d st.tried ≡ true
    pub no_genesis : has genesis (keys st.pending) ≡ false
    pub distinct : Distinct (keys st.pending)
    pub collected : (d : Digest) (p : PendingControl) → Entry d p st.pending → Collected d p
    pub budget : st.total ≤ max_control_bytes

  tried_inv :
      (rev : Digest) (st : Fetched) → FetchInv st → FetchInv (record st { tried = rev ∷ st.tried })
  tried_inv rev st i = record {
    genesis_tried = has_tail genesis rev st.tried i.genesis_tried;
    pending_tried = λ d h. has_tail d rev st.tried (i.pending_tried d h);
    no_genesis = i.no_genesis;
    distinct = i.distinct;
    collected = i.collected;
    budget = i.budget;
  }

  read_inv :
      (st : Fetched) (n : ℕ)
      → ltb (max_control_bytes - st.total) n ≡ false
      → FetchInv st
      → FetchInv (record st { total = st.total + n })
  read_inv st n l i = record {
    genesis_tried = i.genesis_tried;
    pending_tried = i.pending_tried;
    no_genesis = i.no_genesis;
    distinct = i.distinct;
    collected = i.collected;
    budget = let b = i.budget in ground arith;
  }

  collect_inv :
      (rev : Digest) (p : PendingControl) (st : Fetched)
      → Collected rev p
      → has rev st.tried ≡ true
      → (rev == genesis) ≡ false
      → FetchInv st
      → FetchInv (record st { pending = put rev p st.pending })
  collect_inv rev p st c t n i = record {
    genesis_tried = i.genesis_tried;
    pending_tried = λ d h. elim (Bool-cases (d == rev)) [
      | inl s ↦ subst (λ x. has x st.tried ≡ true) (sym ((eq_iff d rev).0 s)) t
      | inr s ↦ i.pending_tried d (sym (has-keys-put d rev p st.pending ∙ rw s refl) ∙ h)
    ];
    no_genesis =
        let e = has-keys-put genesis rev p st.pending in
        let g = i.no_genesis in ground (arith, eq_iff genesis rev, eq_iff rev genesis);
    distinct = keys-put-Distinct rev p st.pending i.distinct;
    collected = λ d q e. elim (Entry-put d rev q p st.pending e) [
      | inl s ↦ subst (λ x. Collected x q) s.0 (subst (λ x. Collected rev x) s.1 c)
      | inr s ↦ i.collected d q s
    ];
    budget = i.budget;
  }

  not_genesis :
      (rev : Digest) (st : Fetched)
      → FetchInv st
      → has rev st.tried ≡ false
      → (rev == genesis) ≡ false
  not_genesis rev st i n = elim (Bool-cases (rev == genesis)) [
    | inl s ↦
        absurd
          (cc (i.genesis_tried, subst (λ x. has x st.tried ≡ false) ((eq_iff rev genesis).0 s) n))
    | inr s ↦ s
  ]

  -- Whatever storage answers, what the loop collects is what it fetched, each Control once and the
  -- genesis not again, within the byte budget.
  pub fetch_loop-FetchInv :
      (left : ℕ) (queue : List Digest) (st st' : Fetched)
      → FetchInv st
      → fetch_loop P fetch workspace left queue st ≡ ok st'
      → FetchInv st'
  unfolding fetch_loop
  fetch_loop-FetchInv left [] st st' i e = subst FetchInv (cc e) i
  fetch_loop-FetchInv zero (rev ∷ queue) st st' i e = elim (Bool-cases (has rev st.tried)) [
    | inl t ↦ fetch_loop-FetchInv zero queue st st' i (rw (t, fetch_loop) at e)
    | inr n ↦ cc (rw (n, fetch_loop) at e)
  ]
  fetch_loop-FetchInv (suc left) (rev ∷ queue) st st' i e = elim (Bool-cases (has rev st.tried)) [
    | inl t ↦ fetch_loop-FetchInv (suc left) queue st st' i (rw (t, fetch_loop) at e)
    | inr n ↦
        let tried = record st { tried = rev ∷ st.tried } in
        let ti = tried_inv rev st i in
        elim (Result-cases (fetch rev)) [
          | inl (x, f) ↦ elim (Bool-cases (is_damaged x)) [
            | inl d ↦
                fetch_loop-FetchInv left (queue ++ []) tried st' ti (rw (n, f, d, fetch_loop) at e)
            | inr d ↦ cc (rw (n, f, d, fetch_loop) at e)
          ]
          | inr (blob, f) ↦ elim (Bool-cases (ltb (max_control_bytes - st.total) (length blob))) [
            | inl b ↦ cc (rw (n, f, b, fetch_loop) at e)
            | inr b ↦
                let read = record tried { total = st.total + length blob } in
                let ri = read_inv tried (length blob) b ti in
                elim (Option-cases (readable P workspace blob)) [
                  | inl o ↦
                      fetch_loop-FetchInv left (queue ++ []) read st' ri
                        (rw (n, f, b, o, fetch_loop) at e)
                  | inr (c, o) ↦
                      let p : PendingControl = record { blob = blob; c = c } in
                      fetch_loop-FetchInv left (queue ++ c.parents)
                        (record read { pending = put rev p st.pending }) st'
                        (collect_inv rev p read (f, o) (has_head rev st.tried)
                          (not_genesis rev st i n) ri)
                        (rw (n, f, b, o, fetch_loop) at e)
                ]
          ]
        ]
  ]
