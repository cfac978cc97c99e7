-- ===== src/Tests/Graphs.antt =====
-- Runs of the revision graph (pkg/wsp/dag.go) and of compaction (pkg/wsp/compaction.go).
use enbu.Prelude.{bytes, true, false, [], ◌∷◌, ◌≡◌, ◌↔◌, ◌⊎◌, refl, has, ◌==◌, lookup}
use enbu.Graph.{Digest, Graph, add, has_rev, ancestors, heads, merge_bases}
use enbu.Graph.Ancestors.{Ancestor, ancestors-Ancestor}
use enbu.Graph.Heads.{Unnamed, heads_iff, heads-add}
use enbu.Graph.Bases.{Common, merge_bases_iff}
use enbu.Wsp.Compacting.{VerifiedCompaction, compute, excuses}
use enbu.Wsp.Compacting.Excused.{Excused, compute-Excused}

abbrev a : Digest
a = bytes "a"

abbrev b : Digest
b = bytes "b"

abbrev c : Digest
c = bytes "c"

abbrev d : Digest
d = bytes "d"

-- `b` and `c` name `a`; `a` names `d`, which the graph lacks.
abbrev fork : Graph
fork = record { parents = (a, d ∷ []) ∷ (b, a ∷ []) ∷ (c, a ∷ []) ∷ [] }

ancestors-Ancestor_example : (has a (ancestors fork b) ≡ true) ↔ Ancestor fork b a
ancestors-Ancestor_example = ancestors-Ancestor fork b a

heads_iff_example : (has b (heads fork) ≡ true) ↔ ((has_rev fork b ≡ true) × Unnamed b fork.parents)
heads_iff_example = heads_iff fork b

abbrev e : Digest
e = bytes "e"

heads-add_example : (has c (heads (add fork e (b ∷ []))) ≡ true) ↔ (
    ((c ≡ e) × Unnamed e fork.parents × (has e (b ∷ []) ≡ false))
    ⊎ ((has c (heads fork) ≡ true) × (has c (b ∷ []) ≡ false)))
unfolding has_rev lookup ◌==◌
heads-add_example = heads-add fork e (b ∷ []) refl c

merge_bases_iff_example : (has a (merge_bases fork (b ∷ c ∷ [])) ≡ true) ↔ (
    Common fork (b ∷ c ∷ []) a
    × ((x : Digest) → Common fork (b ∷ c ∷ []) x → Ancestor fork x a → a ≡ x))
merge_bases_iff_example = merge_bases_iff fork b (c ∷ []) a

abbrev compaction : VerifiedCompaction
compaction = record {
  compaction = record {
    workspace = bytes "w";
    resource = bytes "r";
    floor = a;
    removed = d ∷ [];
    control = bytes "c";
    author = bytes "x";
    created_at = 0;
  };
  digest = bytes "k";
}

compute-Excused_example :
    (excuses (compute (compaction ∷ []) fork) d ≡ true) ↔ Excused (compaction ∷ []) fork d
compute-Excused_example = compute-Excused (compaction ∷ []) fork d
