-- ===== src/Prelude/Walk.antt =====
-- Worklist loops over revisions, as the protocol writes them: take an entry off the list, drop it
-- if it was seen, else look at it. `visit` says what the look finds and `join` where the new entries
-- go. The entries taken off the list, `popped`, are kept beside `seen`.
pub mod Total
use enbu.Prelude.{
  ℕ, zero, suc, ◌+◌, Bytes, ◌==◌, eq_iff, ==_refl, Bool, true, false, ◌||◌, List, [], ◌∷◌, ◌++◌,
  ◌≡◌, ◌↔◌, ◌⊎◌, inl, inr, refl, arith, has, length, Bool-cases, if◌then◌else◌, subst, sym, ◌∙◌,
  has-cons_cases, has_head, has_tail,
}

-- What a look at an entry finds: nothing to do, the end of the loop, or further entries.
pub data Look : Type 0 where
  skip stop : Look
  expand : List Bytes → Look

pub data Walked : Type 0 where
  done : List Bytes → List Bytes → Walked
  stopped spent : Walked

module _ (visit : Bytes → Look) (join : List Bytes → List Bytes → List Bytes) where
  unfoldable pub walk : ℕ → List Bytes → List Bytes → List Bytes → Walked
  walk zero seen popped [] = done seen popped
  walk zero seen popped (c ∷ rest) = spent
  walk (suc f) seen popped [] = done seen popped
  walk (suc f) seen popped (c ∷ rest) =
      let dropped = walk f seen (c ∷ popped) rest in
      if has c seen then dropped else elim (visit c) [
        | skip ↦ dropped
        | stop ↦ stopped
        | expand ns ↦ walk f (c ∷ seen) (c ∷ popped) (join ns rest)
      ]

  -- The entries that a walk from `start` comes to.
  pub data Reach (start : List Bytes) : Bytes → Type 0 where
    from : {x : Bytes} → has x start ≡ true → Reach start x
    next :
        {m x : Bytes} {ns : List Bytes}
        → Reach start m
        → visit m ≡ expand ns
        → has x ns ≡ true
        → Reach start x

pub Look-cases : (l : Look) → (l ≡ skip) ⊎ ((l ≡ stop) ⊎ ((ns : List Bytes) × (l ≡ expand ns)))
Look-cases skip = inl refl
Look-cases stop = inr (inl refl)
Look-cases (expand ns) = inr (inr (ns, refl))

pub Walked-cases :
    (w : Walked)
    → ((seen : List Bytes) × (popped : List Bytes) × (w ≡ done seen popped))
      ⊎ ((w ≡ stopped) ⊎ (w ≡ spent))
Walked-cases (done seen popped) = inl (seen, popped, refl)
Walked-cases stopped = inr (inl refl)
Walked-cases spent = inr (inr refl)

module _ (visit : Bytes → Look) (join : List Bytes → List Bytes → List Bytes)
    (has-join : (x : Bytes) (ns rest : List Bytes)
      → has x (join ns rest) ≡ (has x ns || has x rest))
    (start : List Bytes) where
  abbrev AllReached : List Bytes → Type 0
  AllReached xs = (x : Bytes) → has x xs ≡ true → Reach visit join start x

  -- What the loop keeps: every entry popped or waiting is reached, what was expanded was popped, and
  -- the entries that an expanded one leads to are popped or waiting.
  record Inv (seen popped work : List Bytes) : Type 0 where
    reached_work : AllReached work
    reached_popped : AllReached popped
    seen_popped : (x : Bytes) → has x seen ≡ true → has x popped ≡ true
    seen_expand : (x : Bytes) → has x seen ≡ true → (ns : List Bytes) × (visit x ≡ expand ns)
    popped_seen :
        (x : Bytes) (ns : List Bytes)
        → has x popped ≡ true
        → visit x ≡ expand ns
        → has x seen ≡ true
    no_stop : (x : Bytes) → has x popped ≡ true → ¬ (visit x ≡ stop)
    closed :
        (m x : Bytes) (ns : List Bytes)
        → has m seen ≡ true
        → visit m ≡ expand ns
        → has x ns ≡ true
        → (has x popped || has x work) ≡ true
    started : (x : Bytes) → has x start ≡ true → (has x popped || has x work) ≡ true

  start-Inv : Inv [] [] start
  unfolding has
  start-Inv = record {
    reached_work = λ x h. from h;
    reached_popped = λ x h. absurd (cc);
    seen_popped = λ x h. h;
    seen_expand = λ x h. absurd (cc);
    popped_seen = λ x ns h e. h;
    no_stop = λ x h e. cc;
    closed = λ m x ns h e k. absurd (cc);
    started = λ x h. h;
  }

  -- Whatever is popped next, `c` moves from the work to the popped entries.
  module _ (c : Bytes) (seen popped rest : List Bytes) (inv : Inv seen popped (c ∷ rest)) where
    moved :
        (x : Bytes)
        → (has x popped || has x (c ∷ rest)) ≡ true
        → (has x (c ∷ popped) || has x rest) ≡ true
    unfolding has
    moved x h = ground arith

    popped_reached : AllReached (c ∷ popped)
    popped_reached x h = elim (has-cons_cases x c popped h) [
      | inl e ↦ inv.reached_work x (subst (λ y. has x (y ∷ rest) ≡ true) e (has_head x rest))
      | inr m ↦ inv.reached_popped x m
    ]

    no_stop_popped :
        ¬ (visit c ≡ stop) → (x : Bytes) → has x (c ∷ popped) ≡ true → ¬ (visit x ≡ stop)
    no_stop_popped n x h e = elim (has-cons_cases x c popped h) [
      | inl p ↦ n (subst (λ y. visit y ≡ stop) p e)
      | inr m ↦ inv.no_stop x m e
    ]

    -- The entry was seen before, or there is nothing to do for it.
    drop-Inv :
        ¬ (visit c ≡ stop)
        → ((ns : List Bytes) → visit c ≡ expand ns → has c seen ≡ true)
        → Inv seen (c ∷ popped) rest
    drop-Inv n s = record {
      reached_work = λ x h. inv.reached_work x (has_tail x c rest h);
      reached_popped = popped_reached;
      seen_popped = λ x h. has_tail x c popped (inv.seen_popped x h);
      seen_expand = inv.seen_expand;
      popped_seen = λ x ns h e. elim (has-cons_cases x c popped h) [
        | inl p ↦
            subst (λ y. has y seen ≡ true) (sym p) (s ns (subst (λ y. visit y ≡ expand ns) p e))
        | inr m ↦ inv.popped_seen x ns m e
      ];
      no_stop = no_stop_popped n;
      closed = λ m x ns h e k. moved x (inv.closed m x ns h e k);
      started = λ x h. moved x (inv.started x h);
    }

    or_joined :
        (x : Bytes) (ns : List Bytes) (p : Bool)
        → (p || has x rest) ≡ true
        → (p || has x (join ns rest)) ≡ true
    or_joined x ns p h = let e = has-join x ns rest in ground arith

    expand-Inv :
        (ns : List Bytes) → visit c ≡ expand ns → Inv (c ∷ seen) (c ∷ popped) (join ns rest)
    expand-Inv ns e = record {
      reached_work = λ x h. elim (Bool-cases (has x ns)) [
        | inl m ↦ next (popped_reached c (has_head c popped)) e m
        | inr n ↦ inv.reached_work x (has_tail x c rest (rw (has-join x ns rest, n) at h))
      ];
      reached_popped = popped_reached;
      seen_popped = λ x h. elim (has-cons_cases x c seen h) [
        | inl p ↦ rw p (has_head c popped)
        | inr m ↦ has_tail x c popped (inv.seen_popped x m)
      ];
      seen_expand = λ x h. elim (has-cons_cases x c seen h) [
        | inl p ↦ (ns, subst (λ y. visit y ≡ expand ns) (sym p) e)
        | inr m ↦ inv.seen_expand x m
      ];
      popped_seen = λ x ms h q. elim (has-cons_cases x c popped h) [
        | inl p ↦ rw p (has_head c seen)
        | inr m ↦ has_tail x c seen (inv.popped_seen x ms m q)
      ];
      no_stop = no_stop_popped (λ q. cc);
      closed = λ m x ms h q k. elim (has-cons_cases m c seen h) [
        | inl p ↦
            let same = expand_inj (sym (subst (λ y. visit y ≡ expand ms) p q) ∙ e) in
            new_joined x (subst (λ l. has x l ≡ true) same k)
        | inr o ↦ or_joined x ns (has x (c ∷ popped)) (moved x (inv.closed m x ms o q k))
      ];
      started = λ x h. or_joined x ns (has x (c ∷ popped)) (moved x (inv.started x h));
    }
      where
        expand_inj : {ms ks : List Bytes} → expand ms ≡ expand ks → ms ≡ ks
        expand_inj p = cc

        new_joined :
            (x : Bytes) → has x ns ≡ true → (has x (c ∷ popped) || has x (join ns rest)) ≡ true
        new_joined x m = let q = has-join x ns rest in ground arith

  -- What the result of a walk says of the entries that can be reached.
  Result : Walked → Type 0
  Result (done seen popped) = Inv seen popped []
  Result stopped = (x : Bytes) × Reach visit join start x × (visit x ≡ stop)
  Result spent = Unit

  walk_inv :
      (f : ℕ) (seen popped work : List Bytes)
      → Inv seen popped work
      → Result (walk visit join f seen popped work)
  unfolding walk Result
  walk_inv zero seen popped [] inv = inv
  walk_inv zero seen popped (c ∷ rest) inv = tt
  walk_inv (suc f) seen popped [] inv = inv
  walk_inv (suc f) seen popped (c ∷ rest) inv = elim (Bool-cases (has c seen)) [
    | inl m ↦ rw m (
        walk_inv f seen (c ∷ popped) rest (
          drop-Inv c seen popped rest inv (λ q. let s = inv.seen_expand c m in cc (q, s.1))
            (λ ns e. m)))
    | inr n ↦ elim (Look-cases (visit c)) [
      | inl e ↦
          rw (n, e, walk)
            (walk_inv f seen (c ∷ popped) rest
              (drop-Inv c seen popped rest inv (λ q. cc (e, q)) (λ ns q. cc (e, q))))
      | inr (inl e) ↦ rw (n, e, walk) (c, inv.reached_work c (has_head c rest), e)
      | inr (inr (ns, e)) ↦
          rw (n, e, walk)
            (walk_inv f (c ∷ seen) (c ∷ popped) (join ns rest)
              (expand-Inv c seen popped rest inv ns e))
    ]
  ]

  Reach-popped :
      (x : Bytes) {seen popped : List Bytes}
      → Inv seen popped []
      → Reach visit join start x
      → has x popped ≡ true
  unfolding has
  Reach-popped x inv (from h) = let s = inv.started x h in ground arith
  Reach-popped x inv (next {m = m} {ns = ns} r e k) =
      let s = inv.closed m x ns (inv.popped_seen m ns (Reach-popped m inv r) e) e k in ground arith

  -- A walk that ends has popped the entries that can be reached and no other, and none stops it; the
  -- seen ones are those that were expanded.
  pub walk-done :
      (f : ℕ) {seen popped : List Bytes}
      → walk visit join f [] [] start ≡ done seen popped
      → (x : Bytes)
      → ((has x popped ≡ true) ↔ Reach visit join start x)
        × ((has x seen ≡ true)
            ↔ (Reach visit join start x × ((ns : List Bytes) × (visit x ≡ expand ns))))
        × (Reach visit join start x → ¬ (visit x ≡ stop))
  unfolding Result
  walk-done f {seen} {popped} e x =
      let inv : Inv seen popped [] = subst Result e (walk_inv f [] [] start start-Inv) in
      (
        (inv.reached_popped x, Reach-popped x inv),
        (
          λ h. (inv.reached_popped x (inv.seen_popped x h), inv.seen_expand x h),
          λ r. inv.popped_seen x (r.1.0) (Reach-popped x inv r.0) (r.1.1),
        ),
        λ r. inv.no_stop x (Reach-popped x inv r),
      )

  pub walk-stopped :
      (f : ℕ)
      → walk visit join f [] [] start ≡ stopped
      → (x : Bytes) × Reach visit join start x × (visit x ≡ stop)
  unfolding Result
  walk-stopped f e = subst Result e (walk_inv f [] [] start start-Inv)
