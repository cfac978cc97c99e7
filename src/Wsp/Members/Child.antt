-- ===== src/Wsp/Members/Child.antt =====
-- What `VerifyChild` and `VerifyGenesis` accept.
use enbu.Prelude.{
  ◌+◌, ◌<◌, Bytes, ◌==◌, eq_iff, Bool, true, false, not, ◌&&◌, ◌||◌, Option, none, some, List, [],
  ◌∷◌, ◌≡◌, ◌≢◌, ◌⊎◌, inl, inr, refl, sym, ap₂, subst, arith, ltb, length, all→All, map, All, Any,
  All-map, sort_bytes, Bool-cases, Option-cases, &&-left, &&-right,
}
use enbu.Outcome.{Result, ok, err, invalid, guard, ◌>>◌, guard->>, >>=-eq-ok}
use enbu.Graph.{Digest}
use enbu.Signing.{DeviceId, PublicKey, device_id, verify, domain_control}
use enbu.Wsp.{Principal, Control, Protocol, Signed, decode_canonical, decode_signed}
use enbu.Wsp.Members.{
  Verified, is_none_list, is_admin_of, principal, decode_control, verify_genesis, verify_child,
  resolution_scan, resolution_keeps, check_resolution, max_height, same_digests, author_key, no_key,
  u64,
}
use enbu.Wsp.Members.WellFormed.{IsWellFormed, validate-IsWellFormed}

-- `v` lists `id`, as `a`.
abbrev pub Lists : Verified → DeviceId → Principal → Type 0
Lists v id a = principal v.control id ≡ some a

-- `v` lists `id` as an admin.
abbrev pub IsAdmin : Verified → DeviceId → Type 0
IsAdmin v id = (a : Principal) × Lists v id a × (a.admin ≡ true)

module _ (P : Protocol) where
  -- The principal `q` of a resolution was listed by a parent, was an admin of one if it is one, and
  -- has the device id and the recipient that every parent which lists it gives.
  pub record IsKept (parents : List Verified) (q : Principal) : Type 0 where
    pub listed : Any (λ p. (a : Principal) × Lists p q.id a) parents
    pub was_admin : q.admin ≡ true → Any (λ p. IsAdmin p q.id) parents
    pub unchanged :
        All
          (λ p.
            (a : Principal)
            → Lists p q.id a
            → (device_id P.crypto a.signing ≡ device_id P.crypto q.signing)
              × (a.recipient ≡ q.recipient))
          parents

  pub record IsChild (parents : List Verified) (blob : Bytes) (v : Verified) : Type 0 where
    pub signed : Signed
    pub reads : decode_signed P blob ≡ ok signed
    pub decodes : decode_canonical P.control_codec signed.body ≡ ok v.control
    pub well_formed : IsWellFormed P v.control
    pub digest_eq : v.digest ≡ P.digest_of blob
    pub has_parent : parents ≢ []
    pub same_workspace : All (λ p. v.control.workspace ≡ p.control.workspace) parents
    pub names_parents : v.control.parents ≡ sort_bytes (map (λ p. p.digest) parents)
    pub height_eq : v.control.height ≡ u64 (max_height parents + 1)
    pub author_admin : All (λ p. IsAdmin p v.control.author) parents
    pub signature_ok :
        Any
          (λ p.
            (a : Principal) × Lists p v.control.author a
            × (verify P.crypto a.signing domain_control signed.body signed.signature ≡ true))
          parents
    pub resolves : 1 < length parents → All (IsKept parents) v.control.principals

  decode_control_sound :
      (body : Bytes) (c : Control)
      → decode_control P body ≡ ok c
      → (decode_canonical P.control_codec body ≡ ok c) × IsWellFormed P c
  unfolding decode_control
  decode_control_sound body c h =
      let (c', e, k) = >>=-eq-ok _ _ h in
      let (u, f, g) = >>=-eq-ok _ _ k in
      let same : c' ≡ c = cc g in
      (
        subst (λ x. decode_canonical P.control_codec body ≡ ok x) same e,
        subst (λ x. IsWellFormed P x) same ((validate-IsWellFormed P c').0 f),
      )

  same_digests-eq : (ds es : List Digest) → same_digests ds es ≡ true → ds ≡ es
  same_digests-eq [] [] h = refl
  same_digests-eq [] (e ∷ es) h = cc
  same_digests-eq (d ∷ ds) [] h = cc
  same_digests-eq (d ∷ ds) (e ∷ es) h =
      let p = (eq_iff d e).0 (&&-left _ _ h) in
      let q = same_digests-eq ds es (&&-right _ _ h) in ap₂ ◌∷◌ p q

  KeyOf : DeviceId → PublicKey → Verified → Type 0
  KeyOf author k p = (a : Principal) × Lists p author a × (a.signing ≡ k)

  -- With no parent the key is the one the loop began with.
  abbrev KeyFrom : DeviceId → PublicKey → PublicKey → List Verified → Type 0
  KeyFrom author key k [] = key ≡ k
  KeyFrom author key k (p ∷ ps) = Any (KeyOf author k) (p ∷ ps)

  KeyFrom-cons :
      (author : DeviceId) (k : PublicKey) (p : Verified) (a : Principal) (ps : List Verified)
      → Lists p author a
      → KeyFrom author a.signing k ps
      → Any (KeyOf author k) (p ∷ ps)
  unfolding KeyOf
  KeyFrom-cons author k p a [] e q = inl (a, e, q)
  KeyFrom-cons author k p a (r ∷ rs) e m = inr m

  author_key_sound :
      (author : DeviceId) (ps : List Verified) (key k : PublicKey)
      → author_key author ps key ≡ some k
      → All (λ p. IsAdmin p author) ps × KeyFrom author key k ps
  unfolding author_key KeyOf
  author_key_sound author [] key k h = (tt, cc)
  author_key_sound author (p ∷ ps) key k h = elim (Option-cases (principal p.control author)) [
    | inl e ↦ cc (rw (e, author_key) at h)
    | inr (a, e) ↦ elim (Bool-cases (a.admin)) [
      | inl ad ↦
          let r = author_key_sound author ps a.signing k (rw (e, ad, author_key) at h) in
          (((a, e, ad), r.0), KeyFrom-cons author k p a ps e r.1)
      | inr n ↦ cc (rw (e, n, author_key) at h)
    ]
  ]

  scan_sound :
      (q : Principal) (ps : List Verified) (listed was l w : Bool)
      → resolution_scan P q ps listed was ≡ some (l, w)
      → (l ≡ true → (listed ≡ true) ⊎ Any (λ p. (a : Principal) × Lists p q.id a) ps)
        × (w ≡ true → (was ≡ true) ⊎ Any (λ p. IsAdmin p q.id) ps)
        × All
            (λ p.
              (a : Principal)
              → Lists p q.id a
              → (device_id P.crypto a.signing ≡ device_id P.crypto q.signing)
                × (a.recipient ≡ q.recipient))
            ps
  unfolding resolution_scan
  scan_sound q [] listed was l w h = (λ e. inl (cc (e, h)), λ e. inl (cc (e, h)), tt)
  scan_sound q (p ∷ ps) listed was l w h = elim (Option-cases (principal p.control q.id)) [
    | inl e ↦
        let r = scan_sound q ps listed was l w (rw (e, resolution_scan) at h) in
        (
          λ x. elim (r.0 x) [ inl y ↦ inl y | inr m ↦ inr (inr m) ],
          λ x. elim (r.1 x) [ inl y ↦ inl y | inr m ↦ inr (inr m) ],
          (λ a y. cc (e, y), r.2),
        )
    | inr (old, e) ↦
        let changed =
          not (device_id P.crypto old.signing == device_id P.crypto q.signing)
          || not (old.recipient == q.recipient) in
        elim (Bool-cases changed) [
          | inl c ↦ cc (rw (e, c, resolution_scan) at h)
          | inr n ↦
              let r =
                scan_sound q ps true (was || old.admin) l w (rw (e, n, resolution_scan) at h) in
              let kd = eq_iff (device_id P.crypto old.signing) (device_id P.crypto q.signing) in
              let kr = eq_iff old.recipient q.recipient in
              (
                λ x. inr (inl (old, e)),
                λ x. elim (r.1 x) [
                  | inl y ↦ elim (Bool-cases was) [
                    | inl z ↦ inl z
                    | inr z ↦ inr (inl (old, e, ground arith))
                  ]
                  | inr m ↦ inr (inr m)
                ],
                (
                  λ a y.
                      let same : old ≡ a = cc (e, y) in
                      subst
                        (λ (x : Principal).
                          (device_id P.crypto x.signing ≡ device_id P.crypto q.signing)
                          × (x.recipient ≡ q.recipient))
                        same (kd.0 (ground arith), kr.0 (ground arith)),
                  r.2,
                ),
              )
        ]
  ]

  keeps_sound :
      (q : Principal) (parents : List Verified)
      → resolution_keeps P q parents ≡ true
      → IsKept parents q
  unfolding resolution_keeps
  keeps_sound q parents h = elim (Option-cases (resolution_scan P q parents false false)) [
    | inl e ↦ cc (rw (e, resolution_keeps) at h)
    | inr ((l, w), e) ↦
        let k = rw (e, resolution_keeps) at h in
        let r = scan_sound q parents false false l w e in
        record {
          listed = elim (r.0 (&&-left _ _ k)) [ inl y ↦ cc | inr m ↦ m ];
          was_admin = λ ad. elim (r.1 (ground arith)) [ inl y ↦ cc | inr m ↦ m ];
          unchanged = r.2;
        }
  ]

  check_resolution_sound :
      (parents : List Verified) (c : Control)
      → check_resolution P parents c ≡ true
      → All (IsKept parents) c.principals
  unfolding check_resolution
  check_resolution_sound parents c h =
      All-map (λ q. keeps_sound q parents) c.principals
        (all→All (λ q. resolution_keeps P q parents) c.principals h)

  not_nil : (parents : List Verified) → not (is_none_list parents) ≡ true → parents ≢ []
  not_nil [] h e = cc
  not_nil (p ∷ ps) h e = cc

  key-Any :
      (author : DeviceId) (k : PublicKey) (ps : List Verified) (t : PublicKey → Bool)
      → t k ≡ true
      → Any (KeyOf author k) ps
      → Any (λ p. (a : Principal) × Lists p author a × (t a.signing ≡ true)) ps
  unfolding KeyOf
  key-Any author k [] t h m = elim m [ ]
  key-Any author k (p ∷ ps) t h (inl (a, e, q)) = inl (a, e, subst (λ x. t x ≡ true) (sym q) h)
  key-Any author k (p ∷ ps) t h (inr m) = inr (key-Any author k ps t h m)

  key_result :
      (o : Option PublicKey) (k : PublicKey)
      → elim o as (λ x. Result PublicKey) [ none ↦ err invalid | some j ↦ ok j ] ≡ ok k
      → o ≡ some k
  key_result none k h = cc
  key_result (some j) k h = cc

  several :
      (parents : List Verified) (b : Bool)
      → (not (ltb 1 (length parents)) || b) ≡ true
      → 1 < length parents
      → b ≡ true
  several parents b h n = ground arith

  from_some :
      (author : DeviceId) (k : PublicKey) (ps : List Verified)
      → not (is_none_list ps) ≡ true
      → KeyFrom author no_key k ps
      → Any (KeyOf author k) ps
  from_some author k [] h m = cc
  from_some author k (p ∷ ps) h m = m

  -- `VerifyChild` accepts a Control only with the authority of all its parents: they are named exactly
  -- and of its workspace, its author is an admin of each, its signature verifies under a key that one
  -- of them lists for the author, it is well formed, one higher than the highest, and with several
  -- parents it adds nobody, makes no new admin and changes no recipient and no device id of a key.
  pub verify_child-IsChild :
      (parents : List Verified) (blob : Bytes) (v : Verified)
      → verify_child P parents blob ≡ ok v
      → IsChild parents blob v
  unfolding verify_child
  verify_child-IsChild parents blob v h =
      let (a1, h1) = guard->> _ _ _ h in
      let (s, e1, h2) = >>=-eq-ok _ _ h1 in
      let (c, e2, h3) = >>=-eq-ok _ _ h2 in
      let (a2, h4) = guard->> _ _ _ h3 in
      let (a3, h5) = guard->> _ _ _ h4 in
      let (a4, h6) = guard->> _ _ _ h5 in
      let (k, e3, h7) = >>=-eq-ok _ _ h6 in
      let (a5, h8) = guard->> _ _ _ h7 in
      let (a6, h9) = guard->> _ _ _ h8 in
      let d = decode_control_sound s.body c e2 in
      let key = author_key_sound c.author parents no_key k (key_result _ k e3) in
      let made : IsChild parents blob (record { control = c; digest = P.digest_of blob }) = record {
        signed = s;
        reads = e1;
        decodes = d.0;
        well_formed = d.1;
        digest_eq = refl;
        has_parent = not_nil parents a1;
        same_workspace =
            All-map (λ p. (eq_iff c.workspace p.control.workspace).0) parents
              (all→All (λ (p : Verified). c.workspace == p.control.workspace) parents a2);
        names_parents = same_digests-eq _ _ a3;
        height_eq = ground arith;
        author_admin = key.0;
        signature_ok =
            key-Any c.author k parents (λ j. verify P.crypto j domain_control s.body s.signature) a5
              (from_some _ _ parents a1 key.1);
        resolves = λ n. check_resolution_sound parents c (several parents _ a6 n);
      } in
      subst (IsChild parents blob) (cc h9) made

  pub record IsGenesis (workspace blob trusted : Bytes) (v : Verified) : Type 0 where
    pub signed : Signed
    pub reads : decode_signed P blob ≡ ok signed
    pub decodes : decode_canonical P.control_codec signed.body ≡ ok v.control
    pub well_formed : IsWellFormed P v.control
    pub is_trusted : (v.digest ≡ trusted) × (P.digest_of blob ≡ trusted)
    pub root : (v.control.parents ≡ []) × (v.control.workspace ≡ workspace)
    pub author_signs :
        (a : Principal) × Lists v v.control.author a
        × (a.admin ≡ true)
        × (verify P.crypto a.signing domain_control signed.body signed.signature ≡ true)

  nil_of : {A : Type 0} (xs : List A) → is_none_list xs ≡ true → xs ≡ []
  nil_of [] h = refl
  nil_of (x ∷ xs) h = cc

  -- `VerifyGenesis` accepts only the bytes with the trusted digest, as a well-formed Control of the
  -- workspace with no parent, signed by its own author, whom it lists as an admin.
  pub verify_genesis-IsGenesis :
      (workspace blob trusted : Bytes) (v : Verified)
      → verify_genesis P workspace blob trusted ≡ ok v
      → IsGenesis workspace blob trusted v
  unfolding verify_genesis is_admin_of
  verify_genesis-IsGenesis workspace blob trusted v h =
      let (a1, h1) = guard->> _ _ _ h in
      let (s, e1, h2) = >>=-eq-ok _ _ h1 in
      let (c, e2, h3) = >>=-eq-ok _ _ h2 in
      let (a2, h4) = guard->> _ _ _ h3 in
      let (a3, h5) = guard->> _ _ _ h4 in
      let d = decode_control_sound s.body c e2 in
      author_case s c e1 d.0 d.1 ((eq_iff _ _).0 a1) a2 a3 (principal c c.author) refl h5
    where
      author_case :
          (s : Signed) (c : Control)
          → decode_signed P blob ≡ ok s
          → decode_canonical P.control_codec s.body ≡ ok c
          → IsWellFormed P c
          → P.digest_of blob ≡ trusted
          → (is_none_list c.parents && c.workspace == workspace) ≡ true
          → is_admin_of (principal c c.author) ≡ true
          → (o : Option Principal) → principal c c.author ≡ o
          → elim o as (λ x. Result Verified) [
            | none ↦ err invalid
            | some author ↦
                guard (verify P.crypto author.signing domain_control s.body s.signature) invalid
                >> ok (record { control = c; digest = trusted })
          ]
            ≡ ok v
          → IsGenesis workspace blob trusted v
      author_case s c e1 dc w t a2 a3 none p k = cc
      author_case s c e1 dc w t a2 a3 (some a) p k =
          let (a4, k1) = guard->> _ _ _ k in
          let made : IsGenesis workspace blob trusted (record { control = c; digest = trusted }) =
            record {
              signed = s;
              reads = e1;
              decodes = dc;
              well_formed = w;
              is_trusted = (refl, t);
              root = (
                nil_of c.parents (&&-left _ _ a2),
                (eq_iff c.workspace workspace).0 (&&-right _ _ a2),
              );
              author_signs = (a, p, (rw (p, is_admin_of) at a3), a4);
            } in
          subst (IsGenesis workspace blob trusted) (cc k1) made
