-- ===== src/Wsp/Checkpoint/Accepting.antt =====
-- What a device that accepts heads remembers, and which views it refuses.
use enbu.Prelude.{
  Bytes, eq_iff, Bool, true, ◌||◌, Option, none, some, List, [], ◌∷◌, ◌≡◌, ◌⊎◌, inl, inr, refl, sym,
  ap, subst, ◌∙◌, arith, All, ltb, lookup, Bool-cases, Option-cases,
}
use enbu.Outcome.{Result, ok, >>=-eq-ok, ok_injective}
use enbu.Graph.{Digest}
use enbu.Wsp.Members.{same_digests}
use enbu.Wsp.Checkpoint.{
  CheckpointFile, Disk, absent, unreadable, contents, Json, checkpoint_version, missing_from, read,
  write, update,
}

-- Two files say the same: the order of a map is not kept.
pub record SameFile (f g : CheckpointFile) : Type 0 where
  pub same_version : f.version ≡ g.version
  pub same_control : f.control ≡ g.control
  pub same_states : (resource : Bytes) → lookup resource f.states ≡ lookup resource g.states

-- What the checkpoints rely on of encoding/json: a written file reads back, and the version that is
-- read first is that of the file.
pub record JsonLaws (json : Json CheckpointFile) : Type 0 where
  pub reads_back :
      (f : CheckpointFile) (b : Bytes)
      → json.codec.marshal f ≡ some b
      → (json.version_of b ≡ some f.version)
        × ((g : CheckpointFile) × (json.codec.unmarshal b ≡ some g) × SameFile g f)
  pub version_first :
      (b : Bytes) (f : CheckpointFile)
      → json.codec.unmarshal b ≡ some f
      → json.version_of b ≡ some f.version

pub missing_from-none :
    (shows : Digest → Bool) (ds : List Digest)
    → missing_from ds shows ≡ none
    → All (λ d. shows d ≡ true) ds
unfolding missing_from
missing_from-none shows [] e = tt
missing_from-none shows (d ∷ ds) e = elim (Bool-cases (shows d)) [
  | inl t ↦ (t, missing_from-none shows ds (rw (t, missing_from) at e))
  | inr n ↦ absurd (cc (rw (n, missing_from) at e))
]

pub missing_from-All :
    (shows : Digest → Bool) (ds : List Digest)
    → All (λ d. shows d ≡ true) ds
    → missing_from ds shows ≡ none
unfolding missing_from
missing_from-All shows [] a = refl
missing_from-All shows (d ∷ ds) a = rw (a.0, missing_from) (missing_from-All shows ds a.1)

pub equal_of_same_digests : (xs ys : List Digest) → same_digests xs ys ≡ true → xs ≡ ys
equal_of_same_digests [] [] e = refl
equal_of_same_digests [] (y ∷ ys) e = cc
equal_of_same_digests (x ∷ xs) [] e = cc
equal_of_same_digests (x ∷ xs) (y ∷ ys) e =
    let p = (eq_iff x y).0 (ground arith) in
    let q = equal_of_same_digests xs ys (ground arith) in cc

module _ (json : Json CheckpointFile) (laws : JsonLaws json) where
  read-version :
      (disk : Disk) (f : CheckpointFile) → read json disk ≡ ok f → f.version ≡ checkpoint_version
  unfolding read
  read-version absent f e = ap (λ (g : CheckpointFile). g.version) (sym (ok_injective e))
  read-version unreadable f e = absurd (cc)
  read-version (contents b) f e = elim (Option-cases (json.version_of b)) [
    | inl q ↦ absurd (cc (rw (q, read) at e))
    | inr (v, q) ↦ elim (Bool-cases (ltb v 1 || ltb checkpoint_version v)) [
      | inl t ↦ absurd (cc (rw (q, t, read) at e))
      | inr n ↦ elim (Bool-cases (ltb v checkpoint_version)) [
        | inl t ↦
            ap (λ (g : CheckpointFile). g.version) (sym (ok_injective (rw (q, n, t, read) at e)))
        | inr t ↦ elim (Option-cases (json.codec.unmarshal b)) [
          | inl u ↦ absurd (cc (rw (q, n, t, u, read) at e))
          | inr (g, u) ↦
              let p = ok_injective (rw (q, n, t, u, read) at e) in
              let w : json.version_of b ≡ some f.version =
                subst (λ (x : CheckpointFile). json.version_of b ≡ some x.version) p
                  (laws.version_first b g u) in
              let z : v ≡ f.version = cc in sym z ∙ ground (arith, n, t)
        ]
      ]
    ]
  ]

  -- A file of the present version that was written reads back.
  write-read :
      (f : CheckpointFile) (disk : Disk)
      → f.version ≡ checkpoint_version
      → write json f ≡ ok disk
      → (g : CheckpointFile) × (read json disk ≡ ok g) × SameFile g f
  unfolding write read
  write-read f disk v e = elim (Option-cases (json.codec.marshal f)) [
    | inl q ↦ absurd (cc (rw (q, write) at e))
    | inr (b, q) ↦
        let (w, (g, u, s)) = laws.reads_back f b q in
        let p : contents b ≡ disk = ok_injective (rw (q, write) at e) in
        (g, subst (λ (d : Disk). read json d ≡ ok g) p (rw (w, v, u, read) refl), s)
  ]

  -- An update that succeeds leaves a file that says what `fn` made of the one before.
  pub update-read :
      (disk disk' : Disk) (fn : CheckpointFile → Result (Option CheckpointFile))
      (f : CheckpointFile)
      → ((f' : CheckpointFile) → fn f ≡ ok (some f') → f'.version ≡ f.version)
      → read json disk ≡ ok f
      → update json disk fn ≡ ok disk'
      → (g : CheckpointFile) × (read json disk' ≡ ok g)
        × (((fn f ≡ ok none) × (g ≡ f))
            ⊎ ((f' : CheckpointFile) × (fn f ≡ ok (some f')) × SameFile g f'))
  unfolding update
  update-read disk disk' fn f keeps r e =
      let (f0, r0, e0) = >>=-eq-ok (read json disk) _ e in
      let (x, s, t) = >>=-eq-ok (fn f0) _ e0 in
      let same : f0 ≡ f = ok_injective (sym r0 ∙ r) in
      let s' : fn f ≡ ok x = subst (λ (y : CheckpointFile). fn y ≡ ok x) same s in updated x s' t
    where
      updated :
          (x : Option CheckpointFile)
          → fn f ≡ ok x
          → elim x [ none ↦ ok disk | some f' ↦ write json f' ] ≡ ok disk'
          → (g : CheckpointFile) × (read json disk' ≡ ok g)
            × (((fn f ≡ ok none) × (g ≡ f))
                ⊎ ((f' : CheckpointFile) × (fn f ≡ ok (some f')) × SameFile g f'))
      updated none s t =
          (f, subst (λ (d : Disk). read json d ≡ ok f) (ok_injective t) r, inl (s, refl))
      updated (some f') s t =
          let (g, u, v) = write-read f' disk' (keeps f' s ∙ read-version disk f r) t in
          (g, u, inr (f', s, v))
