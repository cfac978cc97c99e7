-- ===== src/App/Compacting/Recorded.antt =====
-- The order of a compaction: the records come before what they excuse is deleted.
use mathlib.Core.List.{append-nil}
use enbu.Prelude.{
  before, ℕ, zero, suc, ◌-◌, ◌≤◌, Bytes, ◌==◌, Option, none, some, true, ◌||◌, List, [], ◌∷◌, ◌++◌,
  ◌≡◌, inl, inr, refl, sym, ap, ◌∙◌, subst, arith, Any, has, has-append, has-sort_bytes,
  not-has-nil, has_head, has_tail, has-cons_cases, length, length-drop, take, drop,
  take-append-drop, sort_bytes, sort_by-length, Bool-cases,
}
use enbu.Outcome.{Result, ok, invalid, Result-cases, >>=-eq-ok, guard->>, ok_injective}
use enbu.Graph.{Digest}
use enbu.Storage
use enbu.Storage.{Object}
use enbu.Signing.{device_id, domain_compact}
use enbu.Wsp.{Protocol, Signer, Compaction, or_err, encode_signed, state_scope}
use enbu.Wsp.Compacting.{
  VerifiedCompaction, max_compaction_removed, validate_compaction, sign_compaction,
  verify_compaction,
}
use enbu.App.Heads.{Session}
use enbu.App.Compacting.{
  Action, publications, deletions, chunks, is_gone, delete_all, record_object, publish_records,
  compact,
}

chunks-has :
    (fuel : ℕ) (d : Digest) (xs : List Digest)
    → length xs ≤ fuel
    → has d xs ≡ true
    → Any (λ c. has d c ≡ true) (chunks fuel xs)
unfolding chunks
chunks-has fuel d [] l h = absurd (not-has-nil d h)
chunks-has zero d (x ∷ xs) l h = absurd (omega arith)
chunks-has (suc fuel) d (x ∷ xs) l h =
    let front = take max_compaction_removed (x ∷ xs) in
    let back = drop max_compaction_removed (x ∷ xs) in
    let split : (has d front || has d back) ≡ true =
      sym (has-append d front back)
      ∙ ap (has d) (take-append-drop max_compaction_removed (x ∷ xs))
      ∙ h in
    let size : length back ≤ fuel =
      shorter (length xs) fuel _ (length-drop max_compaction_removed (x ∷ xs)) l in
    elim (Bool-cases (has d front)) [
      | inl t ↦ inl t
      | inr n ↦ inr (chunks-has fuel d back size (rw n at split))
    ]
  where
    shorter : (n fuel m : ℕ) → m ≡ suc n - 4000 → suc n ≤ suc fuel → m ≤ fuel
    shorter n fuel m e l = omega arith

same_length : (ds : List Digest) → length (sort_bytes ds) ≤ length ds
unfolding sort_bytes
same_length ds = omega (arith, sort_by-length before ds)

delete_all-only :
    (delete : Digest → Result (Unit {0})) (d : Digest) (ds : List Digest)
    → has d (delete_all delete ds).1 ≡ true
    → has d ds ≡ true
unfolding delete_all has
delete_all-only delete d [] h = h
delete_all-only delete d (x ∷ ds) h = elim (Result-cases (delete x)) [
  | inr (u, q) ↦ widen d x _ _ (delete_all-only delete d ds) (rw (q, delete_all) at h)
  | inl (e, q) ↦ elim (Bool-cases (is_gone e)) [
    | inl t ↦ widen d x _ _ (delete_all-only delete d ds) (rw (q, t, delete_all) at h)
    | inr n ↦ widen d x [] ds (λ m. absurd (not-has-nil d m)) (rw (q, n, delete_all) at h)
  ]
]
  where
    widen :
        (d x : Digest) (few more : List Digest)
        → (has d few ≡ true → has d more ≡ true)
        → has d (x ∷ few) ≡ true
        → has d (x ∷ more) ≡ true
    widen d x few more f h = elim (has-cons_cases d x few h) [
      | inl e ↦ subst (λ y. has y (x ∷ more) ≡ true) (sym e) (has_head x more)
      | inr m ↦ has_tail d x more (f m)
    ]

module _ (P : Protocol) (s : Session) (signer : Signer) (now : ℕ) (resource : Bytes)
    (floor : Digest) where
  -- The object is a record, signed by the device and verified, whose signed body is the encoding of a
  -- Compaction of the resource under this floor and the current Control that lists the revision.
  pub record IsRecordOf (d : Digest) (o : Object) : Type 0 where
    pub listing : Compaction
    pub lists_it : has d listing.removed ≡ true
    pub about :
        (listing.workspace ≡ s.view.workspace)
        × (listing.resource ≡ resource)
        × (listing.floor ≡ floor)
        × (listing.control ≡ s.head.digest)
        × (listing.author ≡ s.self)
    pub body : Bytes
    pub encodes : P.compaction_codec.marshal listing ≡ some body
    pub signature : Bytes
    pub signs : signer.sign domain_compact body ≡ some signature
    pub holds : encode_signed P (record { body = body; signature = signature }) ≡ ok o.head
    pub verified : VerifiedCompaction
    pub verifies : verify_compaction P s.view s.view.workspace resource o.rev o.head ≡ ok verified
    pub placed : (o.kind ≡ Storage.compaction) × (o.scope ≡ state_scope P s.view.workspace resource)

  -- What a signature of a Compaction stands over.
  sign_compaction-body :
      (c : Compaction) (blob : Bytes)
      → sign_compaction P c signer ≡ ok blob
      → (body : Bytes) × (signature : Bytes) × (P.compaction_codec.marshal
            (record c { removed = sort_bytes c.removed })
          ≡ some body)
        × (signer.sign domain_compact body ≡ some signature)
        × (encode_signed P (record { body = body; signature = signature }) ≡ ok blob)
  unfolding sign_compaction
  sign_compaction-body c blob e =
      let sorted = record c { removed = sort_bytes c.removed } in
      let (u, v, e1) = >>=-eq-ok (validate_compaction P sorted) _ e in
      let (g, e2) = guard->> (device_id P.crypto signer.public == c.author) invalid _ e1 in
      let (body, m, e3) = >>=-eq-ok (or_err (P.compaction_codec.marshal sorted)) _ e2 in
      let (sig, w, e4) = >>=-eq-ok (or_err (signer.sign domain_compact body)) _ e3 in
      (body, sig, some_of _ m, some_of _ w, e4)
    where
      some_of : {A : Type 0} {a : A} (o : Option A) → or_err o ≡ ok a → o ≡ some a
      some_of none e = absurd (cc e)
      some_of (some b) e = ap some (ok_injective e)

  record_object-IsRecordOf :
      (removed : List Digest) (o : Object) (d : Digest)
      → record_object P s signer now resource floor removed ≡ ok o
      → has d removed ≡ true
      → IsRecordOf d o
  unfolding record_object
  record_object-IsRecordOf removed o d e h =
      let c : Compaction = record {
        workspace = s.view.workspace;
        resource = resource;
        floor = floor;
        removed = removed;
        control = s.head.digest;
        author = s.self;
        created_at = now;
      } in
      let (blob, b, e1) = >>=-eq-ok (sign_compaction P c signer) _ e in
      let (v, w, e2) =
        >>=-eq-ok (verify_compaction P s.view s.view.workspace resource (P.digest_of blob) blob) _
          e1 in
      let (body, sig, m, g, k) = sign_compaction-body c blob b in
      subst (IsRecordOf d) (ok_injective e2) (record {
        listing = record c { removed = sort_bytes removed };
        lists_it = has-sort_bytes d removed ∙ h;
        about = (refl, refl, refl, refl, refl);
        body = body;
        encodes = m;
        signature = sig;
        signs = g;
        holds = k;
        verified = v;
        verifies = w;
        placed = (refl, refl);
      })

  publish_records-Any :
      (publish : Object → Result (Unit {0})) (d : Digest) (cs : List (List Digest))
      → (publish_records P s signer now resource floor publish cs).0 ≡ ok tt
      → Any (λ c. has d c ≡ true) cs
      → Any
          (λ o. IsRecordOf d o × (publish o ≡ ok tt))
          (publish_records P s signer now resource floor publish cs).1
  unfolding publish_records
  publish_records-Any publish d [] e m = elim m [ ]
  publish_records-Any publish d (c ∷ cs) e m =
      elim (Result-cases (record_object P s signer now resource floor c)) [
        | inl (x, q) ↦ absurd (cc (rw (q, publish_records) at e))
        | inr (o, q) ↦ elim (Result-cases (publish o)) [
          | inl (x, p) ↦ absurd (cc (rw (q, p, publish_records) at e))
          | inr (u, p) ↦
              rw (q, p, publish_records)
                (elim m [
                  | inl h ↦ inl (record_object-IsRecordOf c o d q h, p)
                  | inr k ↦
                      inr (publish_records-Any publish d cs (rw (q, p, publish_records) at e) k)
                ])
        ]
      ]

  -- What a compaction did, in order.
  pub record IsOrdered (publish : Object → Result (Unit {0})) (removed junk : List Digest)
      (actions : List Action) : Type 0 where
    pub objects : List Object
    pub gone : List Digest
    pub in_order : actions ≡ publications objects ++ deletions gone
    pub only : (d : Digest) → has d gone ≡ true → (has d removed || has d junk) ≡ true
    pub recorded :
        (d : Digest)
        → has d gone ≡ true
        → has d removed ≡ true
        → Any (λ o. IsRecordOf d o × (publish o ≡ ok tt)) objects

  -- Whatever storage answers, a compaction deletes nothing but what it chose to remove, and it has
  -- published a signed record that lists a removed revision before it deletes anything.
  pub compact-IsOrdered :
      (publish : Object → Result (Unit {0})) (delete : Digest → Result (Unit {0}))
      (kept removed junk : List Digest)
      → IsOrdered publish removed junk
          (compact P s signer now resource floor publish delete kept removed junk).1
  unfolding compact
  compact-IsOrdered publish delete kept removed junk =
      let sorted = sort_bytes removed in
      let cs = chunks (length removed) sorted in
      let records = publish_records P s signer now resource floor publish cs in
      let gone = delete_all delete (sorted ++ junk) in
      elim (Result-cases records.0) [
        | inl (e, q) ↦
            rw (compact, q)
              (record {
                objects = records.1;
                gone = [];
                in_order = sym (append-nil (publications records.1));
                only = λ d h. absurd (not-has-nil d h);
                recorded = λ d h k. absurd (not-has-nil d h);
              })
        | inr (u, q) ↦
            rw (compact, q)
              (record {
                objects = records.1;
                gone = gone.1;
                in_order = refl;
                only = λ d h. either d (delete_all-only delete d (sorted ++ junk) h);
                recorded = λ d h k. publish_records-Any publish d cs q (
                    chunks-has (length removed) d sorted (same_length removed)
                      (has-sort_bytes d removed ∙ k));
              })
      ]
    where
      either :
          (d : Digest)
          → has d (sort_bytes removed ++ junk) ≡ true
          → (has d removed || has d junk) ≡ true
      either d h =
          ap (λ b. b || has d junk) (sym (has-sort_bytes d removed))
          ∙ sym (has-append d (sort_bytes removed) junk)
          ∙ h
