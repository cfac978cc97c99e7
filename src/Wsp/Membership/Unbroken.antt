-- ===== src/Wsp/Membership/Unbroken.antt =====
-- What an unbroken membership means.
use enbu.Prelude.{
  ℕ, ◌+◌, true, false, not, ◌&&◌, ◌||◌, none, some, List, [], ◌∷◌, ◌≡◌, inl, inr, refl, sym, subst,
  arith, Bool-cases, Option-cases, has-cons_cases, has_head, has-append, not-has-nil, length,
  length-append, has, is_some, All,
}
use enbu.Prelude.Walk.{stop, expand, walk, done, Reach, from, next, walk-done, Walked-cases}
use enbu.Graph.{Digest}
use enbu.Signing.{DeviceId}
use enbu.Wsp.Members.{Verified, principal}
use enbu.Wsp.Chain.{ControlView, get}
use enbu.Wsp.Membership.{
  enqueue, control_rounds, look_older, was_present, look_newer, unbroken_since, membership_unbroken,
}

-- `d` is `start` or is named, through Controls of the view, by one that leads back to it.
pub data Back (view : ControlView) (start : Digest) : Digest → Type 0 where
  here : {d : Digest} → d ≡ start → Back view start d
  older :
      {m d : Digest} {v : Verified}
      → Back view start m
      → get view m ≡ some v
      → has d v.control.parents ≡ true
      → Back view start d

-- The view holds `d`, and if `d` does not list the device, no parent of it did.
abbrev pub NotRemovedAt : ControlView → DeviceId → Digest → Type 0
NotRemovedAt view id d =
    (v : Verified) × (get view d ≡ some v)
    × (principal v.control id ≡ none
        → All (λ p. (w : Verified) × (get view p ≡ some w) × (principal w.control id ≡ none))
            v.control.parents)

has-enqueue :
    (x : Digest) (ns queue : List Digest) → has x (enqueue ns queue) ≡ (has x ns || has x queue)
unfolding enqueue
has-enqueue x ns queue = ground (arith, has-append x queue ns)

length-enqueue : (ns queue : List Digest) → length (enqueue ns queue) ≡ length ns + length queue
unfolding enqueue
length-enqueue ns queue = omega (arith, length-append queue ns)

module _ (view : ControlView) where
  older_expand :
      (m : Digest) (ns : List Digest)
      → look_older view m ≡ expand ns
      → (v : Verified) × (get view m ≡ some v) × (v.control.parents ≡ ns)
  unfolding look_older
  older_expand m ns e = elim (Option-cases (get view m)) [
    | inl q ↦ cc (rw (q, look_older) at e)
    | inr (v, q) ↦ (v, q, cc (rw (q, look_older) at e))
  ]

  Back-Reach :
      (start d : Digest) → Back view start d → Reach (look_older view) enqueue (start ∷ []) d
  unfolding look_older
  Back-Reach start d (here e) =
      from (subst (λ x. has x (start ∷ []) ≡ true) (sym e) (has_head start []))
  Back-Reach start d (older {m = m} {v = v} r q k) =
      next (Back-Reach start m r) (rw (q, look_older) refl) k

  Reach-Back :
      (start d : Digest) → Reach (look_older view) enqueue (start ∷ []) d → Back view start d
  Reach-Back start d (from e) = elim (has-cons_cases d start [] e) [
    | inl s ↦ here s
    | inr n ↦ absurd (not-has-nil d n)
  ]
  Reach-Back start d (next {m = m} {ns = ns} r e k) =
      let (v, q, s) = older_expand m ns e in
      older (Reach-Back start m r) q (subst (λ l. has d l ≡ true) (sym s) k)

  not_present :
      (id : DeviceId) (ps : List Digest)
      → was_present view id ps ≡ false
      → All (λ p. (w : Verified) × (get view p ≡ some w) × (principal w.control id ≡ none)) ps
  unfolding was_present
  not_present id [] e = tt
  not_present id (p ∷ ps) e = elim (Option-cases (get view p)) [
    | inl q ↦ cc (rw (q, was_present) at e)
    | inr (w, q) ↦
        let f = rw (q, was_present) at e in ((w, q, ground arith), not_present id ps (ground arith))
  ]

  module _ (head start : Digest) (id : DeviceId) (old : List Digest) where
    newer_expand :
        (m : Digest) (ns : List Digest)
        → look_newer view id old m ≡ expand ns
        → (has m old ≡ false)
          × ((v : Verified) × (get view m ≡ some v) × (v.control.parents ≡ ns))
          × NotRemovedAt view id m
    unfolding look_newer
    newer_expand m ns e = elim (Bool-cases (has m old)) [
      | inl h ↦ cc (rw (h, look_newer) at e)
      | inr n ↦ elim (Option-cases (get view m)) [
        | inl q ↦ cc (rw (n, q, look_newer) at e)
        | inr (v, q) ↦
            elim (Bool-cases
              (not (is_some (principal v.control id)) && was_present view id v.control.parents)) [
                | inl t ↦ cc (rw (n, q, t, look_newer) at e)
                | inr t ↦ (
                  n,
                  (v, q, cc (rw (n, q, t, look_newer) at e)),
                  (v, q, λ a. not_present id v.control.parents (ground arith)),
                )
              ]
      ]
    ]

    Newer-Back :
        (d : Digest) → Reach (look_newer view id old) enqueue (head ∷ []) d → Back view head d
    Newer-Back d (from e) = elim (has-cons_cases d head [] e) [
      | inl s ↦ here s
      | inr n ↦ absurd (not-has-nil d n)
    ]
    Newer-Back d (next {m = m} {ns = ns} r e k) =
        let (n, (v, q, s), u) = newer_expand m ns e in
        older (Newer-Back m r) q (subst (λ l. has d l ≡ true) (sym s) k)

    -- A look that is no stop, at a Control that is not older, expands it.
    newer_look :
        (m : Digest) (v : Verified)
        → has m old ≡ false
        → get view m ≡ some v
        → ¬ (look_newer view id old m ≡ stop)
        → look_newer view id old m ≡ expand v.control.parents
    unfolding look_newer
    newer_look m v n q s =
        elim (Bool-cases
          (not (is_some (principal v.control id)) && was_present view id v.control.parents)) [
            | inl t ↦ absurd (s (rw (n, q, t, look_newer) refl))
            | inr t ↦ rw (n, q, t, look_newer) refl
          ]

    newer_none :
        (m : Digest) → has m old ≡ false → get view m ≡ none → look_newer view id old m ≡ stop
    unfolding look_newer
    newer_none m n q = rw (n, q, look_newer) refl

    -- What the two loops found.
    module _ (f : ℕ) (seen popped : List Digest)
        (ended : walk (look_newer view id old) enqueue f [] [] (head ∷ []) ≡ done seen popped)
        (old-Back : (m : Digest) → has m old ≡ true → Back view start m) where
      not_old : (m : Digest) → ¬ Back view start m → has m old ≡ false
      not_old m n = elim (Bool-cases (has m old)) [ inl h ↦ absurd (n (old-Back m h)) | inr h ↦ h ]

      not_stop :
          (m : Digest)
          → Reach (look_newer view id old) enqueue (head ∷ []) m
          → ¬ (look_newer view id old m ≡ stop)
      not_stop m r =
          let w = walk-done (look_newer view id old) enqueue has-enqueue (head ∷ []) f ended m in
          w.2 r

      newer_reached :
          (d : Digest)
          → Back view head d
          → ¬ Back view start d
          → Reach (look_newer view id old) enqueue (head ∷ []) d
      newer_reached d (here e) n =
          from (subst (λ x. has x (head ∷ []) ≡ true) (sym e) (has_head head []))
      newer_reached d (older {m = m} {v = v} b q k) n =
          let nm : ¬ Back view start m = λ s. n (older s q k) in
          let r = newer_reached m b nm in next r (newer_look m v (not_old m nm) q (not_stop m r)) k

      kept : (d : Digest) → Back view head d → ¬ Back view start d → NotRemovedAt view id d
      kept d b n =
          let r = newer_reached d b n in
          elim (Option-cases (get view d)) [
            | inl q ↦ absurd (not_stop d r (newer_none d (not_old d n) q))
            | inr (v, q) ↦
                let (u, w, z) =
                  newer_expand d v.control.parents
                    (newer_look d v (not_old d n) q (not_stop d r)) in
                z
          ]

-- What `membership_unbroken` answers for: `start` is among the Controls that `head` leads back to, the
-- view holds all that `start` leads back to, and no Control that `head` leads back to, other than
-- those, removed the device.
pub record IsUnbroken (view : ControlView) (head start : Digest) (id : DeviceId) : Type 0 where
  pub reached : Back view head start
  pub complete : (d : Digest) → Back view start d → (v : Verified) × (get view d ≡ some v)
  pub kept_since : (d : Digest) → Back view head d → ¬ Back view start d → NotRemovedAt view id d

module _ (view : ControlView) (head start : Digest) (id : DeviceId) where
  older_held :
      (old popped : List Digest)
      → walk (look_older view) enqueue (control_rounds view) [] [] (start ∷ []) ≡ done old popped
      → (d : Digest) → Back view start d
      → (v : Verified) × (get view d ≡ some v)
  unfolding look_older
  older_held old popped e d b =
      let w =
        walk-done (look_older view) enqueue has-enqueue (start ∷ []) (control_rounds view) e d in
      elim (Option-cases (get view d)) [
        | inl q ↦ absurd (w.2 (Back-Reach view start d b) (rw (q, look_older) refl))
        | inr r ↦ r
      ]

  old-Back :
      (old popped : List Digest)
      → walk (look_older view) enqueue (control_rounds view) [] [] (start ∷ []) ≡ done old popped
      → (m : Digest) → has m old ≡ true
      → Back view start m
  old-Back old popped e m h =
      let w =
        walk-done (look_older view) enqueue has-enqueue (start ∷ []) (control_rounds view) e m in
      Reach-Back view start m ((w.1.0 h).0)

  since :
      (old popped : List Digest)
      → walk (look_older view) enqueue (control_rounds view) [] [] (start ∷ []) ≡ done old popped
      → unbroken_since view head start id old ≡ true
      → IsUnbroken view head start id
  unfolding unbroken_since
  since old popped e h =
      elim (Walked-cases
        (walk (look_newer view id old) enqueue (control_rounds view) [] [] (head ∷ []))) [
          | inl (seen, popped', q) ↦
              let w =
                walk-done (look_newer view id old) enqueue has-enqueue (head ∷ [])
                  (control_rounds view) q start in
              record {
                reached =
                    Newer-Back view head start id old start (w.0.0 (rw (q, unbroken_since) at h));
                complete = older_held old popped e;
                kept_since =
                    kept view head start id old (control_rounds view) seen popped' q
                      (old-Back old popped e);
              }
          | inr (inl q) ↦ absurd (cc (rw (q, unbroken_since) at h))
          | inr (inr q) ↦ absurd (cc (rw (q, unbroken_since) at h))
        ]

  -- When `membership_unbroken` holds, `start` lies on the history of `head`, the view holds the whole
  -- history of `start`, and at no Control of the history of `head` that is not in that of `start` was
  -- the device removed: the view holds that Control, and if it does not list the device, the view
  -- holds its parents and none of them lists it.
  pub membership_unbroken-IsUnbroken :
      membership_unbroken view head start id ≡ true → IsUnbroken view head start id
  unfolding membership_unbroken
  membership_unbroken-IsUnbroken h =
      elim (Walked-cases
        (walk (look_older view) enqueue (control_rounds view) [] [] (start ∷ []))) [
          | inl (old, popped, q) ↦ since old popped q (rw (q, membership_unbroken) at h)
          | inr (inl q) ↦ absurd (cc (rw (q, membership_unbroken) at h))
          | inr (inr q) ↦ absurd (cc (rw (q, membership_unbroken) at h))
        ]
