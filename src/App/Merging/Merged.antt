-- ===== src/App/Merging/Merged.antt =====
-- What `mergeResource` requires before it gives a content.
use enbu.Prelude.{
  Bytes, none, some, List, [], ◌∷◌, ◌++◌, Dict, lookup, ◌≡◌, ◌⊎◌, refl, sym, subst, inl, inr,
  Option-cases,
}
use enbu.Outcome.{Error, ok, ok_injective, ◌>>=◌, >>=-eq-ok}
use enbu.Graph.{Digest, merge_bases}
use enbu.Storage.{Store}
use enbu.Wsp.{Protocol}
use enbu.Wsp.Checkpoint.{Json, Disk, CheckpointFile, StateAcceptance, accepted}
use enbu.Wsp.Revisions.{VerifiedState, StateView, missing_parents}
use enbu.Merge.{SecretMap, Choice, Conflict, merge}
use enbu.App.Heads.{Session, digests, trusted_heads}
use enbu.App.Merging.{
  Opening, opened, no_match, unopened, ResourceRead, decrypt, decrypt_all, base_maps, merge_maps,
  merge_heads, merge_resource,
}

module _ (P : Protocol) (store : Store) (open_secrets : Bytes → Opening) where
  Opening-cases :
      (o : Opening)
      → ((m : SecretMap) × (o ≡ opened m)) ⊎ ((e : Error) × ((o ≡ no_match e) ⊎ (o ≡ unopened e)))
  Opening-cases (opened m) = inl (m, refl)
  Opening-cases (no_match e) = inr (e, inl refl)
  Opening-cases (unopened e) = inr (e, inr refl)

  -- Every head that is decrypted gives one map, in order.
  decrypt_all-cons :
      (h : VerifiedState) (hs : List VerifiedState) (maps : List SecretMap)
      → decrypt_all P store open_secrets (h ∷ hs) ≡ ok maps
      → (m : SecretMap) × (ms : List SecretMap) × (decrypt P store open_secrets h ≡ opened m)
        × (maps ≡ m ∷ ms)
        × (decrypt_all P store open_secrets hs ≡ ok ms)
  unfolding decrypt_all
  decrypt_all-cons h hs maps e = elim (Opening-cases (decrypt P store open_secrets h)) [
    | inr (x, inl q) ↦ absurd (cc (rw (q, decrypt_all) at e))
    | inr (x, inr q) ↦ absurd (cc (rw (q, decrypt_all) at e))
    | inl (m, q) ↦
        let (ms, r, w) =
          >>=-eq-ok (decrypt_all P store open_secrets hs) (λ ms. ok (m ∷ ms))
            (rw (q, decrypt_all) at e) in
        (m, ms, q, sym (ok_injective w), r)
  ]

  -- The content of every head, in order.
  pub data Contents : List VerifiedState → List SecretMap → Type 0 where
    no_content : Contents [] []
    and_content :
        {h : VerifiedState} {hs : List VerifiedState} {m : SecretMap} {ms : List SecretMap}
        → decrypt P store open_secrets h ≡ opened m
        → Contents hs ms
        → Contents (h ∷ hs) (m ∷ ms)

  decrypt_all-Contents :
      (hs : List VerifiedState) (maps : List SecretMap)
      → decrypt_all P store open_secrets hs ≡ ok maps
      → Contents hs maps
  unfolding decrypt_all
  decrypt_all-Contents [] maps e = subst (Contents []) (ok_injective e) no_content
  decrypt_all-Contents (h ∷ hs) maps e =
      let (m, ms, o, p, r) = decrypt_all-cons h hs maps e in
      subst (Contents (h ∷ hs)) (sym p) (and_content o (decrypt_all-Contents hs ms r))

  -- The bases that the heads `maps` are merged against: what the merge bases hold, and all of `maps` in
  -- the place of one that no key of the device opens.
  pub data Bases (sv : StateView) (maps : List SecretMap)
      : List Digest → List SecretMap → Type 0 where
    no_base : Bases sv maps [] []
    not_held :
        {b : Digest} {bs : List Digest} {ms : List SecretMap}
        → lookup b sv.states ≡ none
        → Bases sv maps bs ms
        → Bases sv maps (b ∷ bs) ms
    held :
        {b : Digest} {bs : List Digest} {st : VerifiedState} {m : SecretMap} {ms : List SecretMap}
        → lookup b sv.states ≡ some st
        → decrypt P store open_secrets st ≡ opened m
        → Bases sv maps bs ms
        → Bases sv maps (b ∷ bs) (m ∷ ms)
    closed :
        {b : Digest} {bs : List Digest} {st : VerifiedState} {e : Error} {ms : List SecretMap}
        → lookup b sv.states ≡ some st
        → decrypt P store open_secrets st ≡ no_match e
        → Bases sv maps bs ms
        → Bases sv maps (b ∷ bs) (maps ++ ms)

  base_maps-Bases :
      (sv : StateView) (maps : List SecretMap) (bs : List Digest) (bases : List SecretMap)
      → base_maps P store open_secrets sv maps bs ≡ ok bases
      → Bases sv maps bs bases
  unfolding base_maps
  base_maps-Bases sv maps [] bases e = subst (Bases sv maps []) (ok_injective e) no_base
  base_maps-Bases sv maps (b ∷ bs) bases e = elim (Option-cases (lookup b sv.states)) [
    | inl n ↦ not_held n (base_maps-Bases sv maps bs bases (rw (n, base_maps) at e))
    | inr (st, q) ↦ elim (Opening-cases (decrypt P store open_secrets st)) [
      | inl (m, o) ↦
          let (ms, r, w) =
            >>=-eq-ok (base_maps P store open_secrets sv maps bs) (λ ms. ok (m ∷ ms))
              (rw (q, o, base_maps) at e) in
          subst (Bases sv maps (b ∷ bs)) (ok_injective w)
            (held q o (base_maps-Bases sv maps bs ms r))
      | inr (x, inl o) ↦
          let (ms, r, w) =
            >>=-eq-ok (base_maps P store open_secrets sv maps bs) (λ ms. ok (maps ++ ms))
              (rw (q, o, base_maps) at e) in
          subst (Bases sv maps (b ∷ bs)) (ok_injective w)
            (closed q o (base_maps-Bases sv maps bs ms r))
      | inr (x, inr o) ↦ absurd (cc (rw (q, o, base_maps) at e))
    ]
  ]

  -- How the secrets and conflicts come from the heads' maps: those of the only head as they are, and
  -- otherwise the three-way merge against the content of the merge bases, with nothing missing.
  pub data Combined (sv : StateView) (hs : List VerifiedState) (choices : Dict Choice)
      : List SecretMap → SecretMap × List Conflict → Type 0 where
    one_head : {m : SecretMap} → Combined sv hs choices (m ∷ []) (m, [])
    merged :
        {m1 m2 : SecretMap} {ms bases : List SecretMap}
        → missing_parents sv ≡ []
        → Bases sv (m1 ∷ m2 ∷ ms) (merge_bases sv.graph (digests hs)) bases
        → Combined sv hs choices (m1 ∷ m2 ∷ ms) (merge bases (m1 ∷ m2 ∷ ms) choices)

  List-cases :
      {A : Type 0} (xs : List A) → (xs ≡ []) ⊎ ((x : A) × ((rest : List A) × (xs ≡ x ∷ rest)))
  List-cases [] = inl refl
  List-cases (x ∷ rest) = inr (x, (rest, refl))

  merge_maps-Combined :
      (sv : StateView) (hs : List VerifiedState) (choices : Dict Choice) (m : SecretMap)
      (ms : List SecretMap) (r : SecretMap × List Conflict)
      → merge_maps P store open_secrets sv hs choices (m ∷ ms) ≡ ok r
      → Combined sv hs choices (m ∷ ms) r
  unfolding merge_maps
  merge_maps-Combined sv hs choices m [] r e =
      subst (Combined sv hs choices (m ∷ [])) (ok_injective e) one_head
  merge_maps-Combined sv hs choices m (m2 ∷ ms) r e = elim (List-cases (missing_parents sv)) [
    | inl q ↦
        let maps = m ∷ m2 ∷ ms in
        let (bases, b, w) =
          >>=-eq-ok (base_maps P store open_secrets sv maps (merge_bases sv.graph (digests hs)))
            (λ bases. ok (merge bases maps choices)) (rw (q, merge_maps) at e) in
        subst (Combined sv hs choices maps) (ok_injective w)
          (merged q (base_maps-Bases sv maps _ bases b))
    | inr (d, (ds, q)) ↦ absurd (cc (rw (q, merge_maps) at e))
  ]

  -- The content that `mergeResource` gives.
  module _ (json : Json CheckpointFile) (s : Session) (resource : Bytes) where
    pub record IsMerged (disk : Disk) (sv : StateView) (choices : Dict Choice) (r : ResourceRead)
        : Type 0 where
      pub remembered : StateAcceptance
      pub reads : accepted json disk resource ≡ ok remembered
      pub all_trusted : r.heads ≡ trusted_heads s sv remembered
      pub first : VerifiedState
      pub others : List VerifiedState
      pub some_head : r.heads ≡ first ∷ others
      pub same_view : r.view ≡ sv
      pub maps : List SecretMap
      pub decrypted : Contents r.heads maps
      pub combined : Combined sv r.heads choices maps (r.secrets, r.conflicts)

    merge_heads-IsMerged :
        (disk : Disk) (sv : StateView) (choices : Dict Choice) (a : StateAcceptance)
        → (hs : List VerifiedState) (r : ResourceRead) → accepted json disk resource ≡ ok a
        → hs ≡ trusted_heads s sv a
        → merge_heads P store open_secrets sv choices hs ≡ ok r
        → IsMerged disk sv choices r
    unfolding merge_heads
    merge_heads-IsMerged disk sv choices a [] r w t e = absurd (cc e)
    merge_heads-IsMerged disk sv choices a (h ∷ hs) r w t e =
        let next = λ (maps : List SecretMap) (merged : SecretMap × List Conflict).
          ok (record { view = sv; heads = h ∷ hs; secrets = merged.0; conflicts = merged.1 }) in
        let (maps, d, e2) =
          >>=-eq-ok (decrypt_all P store open_secrets (h ∷ hs))
            (λ maps. merge_maps P store open_secrets sv (h ∷ hs) choices maps >>= next maps) e in
        let (result, m, e3) =
          >>=-eq-ok (merge_maps P store open_secrets sv (h ∷ hs) choices maps) (next maps) e2 in
        let (m1, ms, _, p, _) = decrypt_all-cons h hs maps d in
        subst (IsMerged disk sv choices) (ok_injective e3) (record {
          remembered = a;
          reads = w;
          all_trusted = t;
          first = h;
          others = hs;
          some_head = refl;
          same_view = refl;
          maps = maps;
          decrypted = decrypt_all-Contents (h ∷ hs) maps d;
          combined =
              subst (λ l. Combined sv (h ∷ hs) choices l result) (sym p)
                (merge_maps-Combined sv (h ∷ hs) choices m1 ms result (rw p at m));
        })

    -- If mergeResource gives a content, then it comes from all trusted heads of the view, of which there
    -- is one at least and each was decrypted. With one head it is the content of that head, without
    -- conflicts. With several, no parent of a revision is missing that no deletion record excuses, and
    -- the secrets and conflicts are the three-way merge of the contents of all heads under the choices,
    -- against the contents of the merge bases; all heads stand in for a base that the device cannot open.
    pub merge_resource-IsMerged :
        (disk : Disk) (sv : StateView) (choices : Dict Choice) (r : ResourceRead)
        → merge_resource P store open_secrets json s resource disk sv choices ≡ ok r
        → IsMerged disk sv choices r
    unfolding merge_resource
    merge_resource-IsMerged disk sv choices r e =
        let (a, w, h) =
          >>=-eq-ok (accepted json disk resource)
            (λ a. merge_heads P store open_secrets sv choices (trusted_heads s sv a)) e in
        merge_heads-IsMerged disk sv choices a (trusted_heads s sv a) r w refl h
