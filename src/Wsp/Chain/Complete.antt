-- ===== src/Wsp/Chain/Complete.antt =====
-- The loop of `LoadControl` that fetches Controls: nothing is left out that storage lists or that a
-- collected Control names, if storage returns it and it reads as a Control of the workspace.
use enbu.Prelude.{
  ℕ, zero, suc, ◌+◌, ◌-◌, Bytes, ◌==◌, eq_iff, true, false, none, some, List, [], ◌∷◌, ◌++◌, ◌||◌,
  ◌≡◌, ◌↔◌, ◌⊎◌, inl, inr, refl, sym, ap, ◌∙◌, subst, arith, length, ltb, has, has-append, put,
  Bool-cases, Option-cases, Dict, Entry, Entry-put, put-Entry_self, put-Entry_other,
}
use enbu.Outcome.{Result, ok, Result-cases}
use enbu.Graph.{Digest}
use enbu.Wsp.{Protocol, Control, Signed, decode_signed}
use enbu.Wsp.Members.{decode_control}
use enbu.Wsp.Chain.{PendingControl, Fetched, is_damaged, readable, fetch_loop, max_control_bytes}
use enbu.Wsp.Chain.Fetch.{Collected}

-- The blob is a signed object with a Control of the workspace.
abbrev pub IsReadable : Protocol → Bytes → Bytes → Control → Type 0
IsReadable P workspace blob c =
    (s : Signed) × (decode_signed P blob ≡ ok s)
    × (decode_control P s.body ≡ ok c)
    × (c.workspace ≡ workspace)

pub readable_iff :
    (P : Protocol) (workspace blob : Bytes) (c : Control)
    → (readable P workspace blob ≡ some c) ↔ IsReadable P workspace blob c
unfolding readable
readable_iff P workspace blob c = (there, back)
  where
    there : readable P workspace blob ≡ some c → IsReadable P workspace blob c
    there e = elim (Result-cases (decode_signed P blob)) [
      | inl (x, q) ↦ absurd (cc (rw (q, readable) at e))
      | inr (s, q) ↦ elim (Result-cases (decode_control P s.body)) [
        | inl (x, r) ↦ absurd (cc (rw (q, r, readable) at e))
        | inr (d, r) ↦ elim (Bool-cases (d.workspace == workspace)) [
          | inr n ↦ absurd (cc (rw (q, r, n, readable) at e))
          | inl t ↦
              let same : d ≡ c = some_injective (rw (q, r, t, readable) at e) in
              (
                s,
                q,
                r ∙ ap ok same,
                subst (λ x. x.workspace ≡ workspace) same ((eq_iff d.workspace workspace).0 t),
              )
        ]
      ]
    ]
      where
        some_injective : {x y : Control} → some x ≡ some y → x ≡ y
        some_injective p = cc

    back : IsReadable P workspace blob c → readable P workspace blob ≡ some c
    back (s, q, r, w) = rw (readable, q, r, (eq_iff c.workspace workspace).1 w) refl

-- Storage lists the digest, or a collected Control names it.
abbrev pub Reached : List Digest → Dict PendingControl → Digest → Type 0
Reached revs pending d =
    (has d revs ≡ true)
    ⊎ ((e : Digest) × (q : PendingControl) × Entry e q pending × (has d q.c.parents ≡ true))

module _ (P : Protocol) (fetch : Digest → Result Bytes) (workspace : Bytes) (genesis : Digest)
    (revs : List Digest) where
  record Complete (queue : List Digest) (st : Fetched) : Type 0 where
    kept :
        (d : Digest)
        → has d st.tried ≡ true
        → (d == genesis) ≡ false
        → (p : PendingControl) → Collected P fetch workspace genesis d p
        → Entry d p st.pending
    covers : (d : Digest) → Reached revs st.pending d → (has d st.tried || has d queue) ≡ true

  drop_tried :
      (rev : Digest) (queue : List Digest) (st : Fetched)
      → has rev st.tried ≡ true
      → Complete (rev ∷ queue) st
      → Complete queue st
  unfolding has
  drop_tried rev queue st t i = record { kept = i.kept; covers = λ d r. tried_or d (i.covers d r) }
    where
      tried_or :
          (d : Digest)
          → (has d st.tried || (d == rev || has d queue)) ≡ true
          → (has d st.tried || has d queue) ≡ true
      tried_or d h = elim (Bool-cases (d == rev)) [
        | inl s ↦ rw (subst (λ x. has x st.tried ≡ true) (sym ((eq_iff d rev).0 s)) t) refl
        | inr n ↦ rw n at h
      ]

  -- A revision that gives no Control.
  skip_rev :
      (rev : Digest) (queue : List Digest) (st : Fetched) (n : ℕ)
      → ((p : PendingControl) → ¬ (Collected P fetch workspace genesis rev p))
      → Complete (rev ∷ queue) st
      → Complete (queue ++ []) (record { tried = rev ∷ st.tried; total = n; pending = st.pending })
  unfolding has
  skip_rev rev queue st n bad i = record {
    kept = λ d h g p c. elim (Bool-cases (d == rev)) [
      | inl s ↦
          absurd
            (bad p (subst (λ x. Collected P fetch workspace genesis x p) ((eq_iff d rev).0 s) c))
      | inr f ↦ i.kept d (rw f at h) g p c
    ];
    covers = λ d r. let k = i.covers d r in let a = has-append d queue [] in ground arith;
  }

  -- A revision that gives a Control.
  keep_rev :
      (rev : Digest) (queue : List Digest) (st : Fetched) (n : ℕ) (p : PendingControl)
      → Collected P fetch workspace genesis rev p
      → Complete (rev ∷ queue) st
      → Complete
          (queue ++ p.c.parents)
          (record { tried = rev ∷ st.tried; total = n; pending = put rev p st.pending })
  unfolding has
  keep_rev rev queue st n p c i = record {
    kept = λ d h g q k. elim (Bool-cases (d == rev)) [
      | inl s ↦
          let e = (eq_iff d rev).0 s in
          let same = only_one p q c (subst (λ x. Collected P fetch workspace genesis x q) e k) in
          subst (λ x. Entry x q (put rev p st.pending)) (sym e)
            (subst (λ y. Entry rev y (put rev p st.pending)) same (put-Entry_self rev p st.pending))
      | inr f ↦ put-Entry_other d rev q p st.pending f (i.kept d (rw f at h) g q k)
    ];
    covers = λ d r.
        let a = has-append d queue p.c.parents in
        elim r [
          | inl l ↦ let k = i.covers d (inl l) in ground arith
          | inr (e, q, en, h) ↦ elim (Entry-put e rev q p st.pending en) [
            | inl s ↦ let k = subst (λ x. has d x.c.parents ≡ true) (sym s.1) h in ground arith
            | inr old ↦ let k = i.covers d (inr (e, q, old, h)) in ground arith
          ]
        ];
  }
    where
      only_one :
          (p q : PendingControl)
          → Collected P fetch workspace genesis rev p
          → Collected P fetch workspace genesis rev q
          → p ≡ q
      only_one p q (f, r) (g, t) =
          let b : p.blob ≡ q.blob = cc (f, g) in
          let u : some p.c ≡ some q.c = sym r ∙ ap (readable P workspace) b ∙ t in
          pair_eq p q b (some_injective u)
        where
          some_injective : {x y : Control} → some x ≡ some y → x ≡ y
          some_injective e = cc

          pair_eq : (p q : PendingControl) → p.blob ≡ q.blob → p.c ≡ q.c → p ≡ q
          pair_eq p q b c = λ i. record { blob = b i; c = c i }

  fetch_loop-Complete :
      (left : ℕ) (queue : List Digest) (st st' : Fetched)
      → Complete queue st
      → fetch_loop P fetch workspace left queue st ≡ ok st'
      → Complete [] st'
  unfolding fetch_loop
  fetch_loop-Complete left [] st st' i e = subst (Complete []) (cc e) i
  fetch_loop-Complete zero (rev ∷ queue) st st' i e = elim (Bool-cases (has rev st.tried)) [
    | inl t ↦
        fetch_loop-Complete zero queue st st' (drop_tried rev queue st t i)
          (rw (t, fetch_loop) at e)
    | inr n ↦ cc (rw (n, fetch_loop) at e)
  ]
  fetch_loop-Complete (suc left) (rev ∷ queue) st st' i e = elim (Bool-cases (has rev st.tried)) [
    | inl t ↦
        fetch_loop-Complete (suc left) queue st st' (drop_tried rev queue st t i)
          (rw (t, fetch_loop) at e)
    | inr n ↦ elim (Result-cases (fetch rev)) [
      | inl (x, f) ↦ elim (Bool-cases (is_damaged x)) [
        | inl d ↦
            fetch_loop-Complete left (queue ++ []) (record st { tried = rev ∷ st.tried }) st'
              (skip_rev rev queue st st.total (λ p c. absurd (cc (f, c.0))) i)
              (rw (n, f, d, fetch_loop) at e)
        | inr d ↦ cc (rw (n, f, d, fetch_loop) at e)
      ]
      | inr (blob, f) ↦ elim (Bool-cases (ltb (max_control_bytes - st.total) (length blob))) [
        | inl b ↦ cc (rw (n, f, b, fetch_loop) at e)
        | inr b ↦
            let total = st.total + length blob in
            elim (Option-cases (readable P workspace blob)) [
              | inl o ↦
                  fetch_loop-Complete left (queue ++ [])
                    (record st { tried = rev ∷ st.tried; total = total }) st'
                    (skip_rev rev queue st total (λ p c. unread blob f o p c) i)
                    (rw (n, f, b, o, fetch_loop) at e)
              | inr (c, o) ↦
                  let p : PendingControl = record { blob = blob; c = c } in
                  fetch_loop-Complete left (queue ++ c.parents)
                    (record {
                      tried = rev ∷ st.tried;
                      total = total;
                      pending = put rev p st.pending;
                    })
                    st' (keep_rev rev queue st total p (f, o) i) (rw (n, f, b, o, fetch_loop) at e)
            ]
      ]
    ]
  ]
    where
      unread :
          (blob : Bytes)
          → fetch rev ≡ ok blob
          → readable P workspace blob ≡ none
          → (p : PendingControl) → ¬ (Collected P fetch workspace genesis rev p)
      unread blob f o p c =
          let b : blob ≡ p.blob = cc (f, c.0) in
          absurd (cc (subst (λ x. readable P workspace x ≡ none) b o, c.1))

  -- All that storage lists, or a collected Control names, is collected if it can be.
  pub fetch_loop-gathers :
      (left : ℕ) (queue : List Digest) (n : ℕ) (st : Fetched)
      → ((d : Digest) → has d queue ≡ has d revs)
      → fetch_loop P fetch workspace left queue
          (record { tried = genesis ∷ []; total = n; pending = [] })
        ≡ ok st
      → (d : Digest) → Reached revs st.pending d
      → (d == genesis) ≡ false
      → (p : PendingControl) → Collected P fetch workspace genesis d p
      → Entry d p st.pending
  unfolding has
  fetch_loop-gathers left queue n st q e d r g p c =
      let i = fetch_loop-Complete left queue _ st start e in
      i.kept d (let k = i.covers d r in ground arith) g p c
    where
      start : Complete queue (record { tried = genesis ∷ []; total = n; pending = [] })
      start = record {
        kept = λ d h g p c. absurd (cc (rw g at h));
        covers =
            λ d r. elim r [ inl l ↦ let k = q d in ground arith | inr (e, p, en, h) ↦ elim en [ ] ];
      }
