-- ===== src/Graph.antt =====
-- pkg/wsp/dag.go: the graph of revisions and the parents that each one names.
pub mod Ancestors
pub mod Heads
pub mod Bases
use enbu.Prelude.{
  ℕ, suc, Bytes, ◌==◌, Bool, true, false, not, ◌&&◌, ◌||◌, Option, none, some, List, [], ◌∷◌, ◌++◌,
  Dict, lookup, put, keys, has, select, length, sort_bytes, if◌then◌else◌, is_some,
}
use enbu.Prelude.Walk.{Look, skip, expand, walk, done, stopped, spent}
use enbu.Prelude.Walk.Total.{remaining}

-- `digest.Digest`, a string.
abbrev pub Digest : Type 0
Digest = Bytes

pub record Graph : Type 0 where
  pub parents : Dict (List Digest)

-- `NewGraph()`.
abbrev pub new_graph : Graph
new_graph = record { parents = [] }

unfoldable pub add : Graph → Digest → List Digest → Graph
add g d ps = record { parents = put d ps g.parents }

unfoldable pub has_rev : Graph → Digest → Bool
has_rev g d = is_some (lookup d g.parents)

unfoldable pub len : Graph → ℕ
len g = length g.parents

-- `g.parents[d]`, which is nil for an unknown revision.
unfoldable pub parents_of : Graph → Digest → List Digest
parents_of g d = elim (lookup d g.parents) [ none ↦ [] | some ps ↦ ps ]

missing_in : Graph → List Digest → List Digest → List Digest
missing_in g [] out = out
missing_in g (p ∷ ps) out =
    missing_in g ps (if not (has_rev g p) && not (has p out) then out ++ (p ∷ []) else out)

missing_loop : Graph → Dict (List Digest) → List Digest → List Digest
unfolding missing_in
missing_loop g [] out = out
missing_loop g ((d, ps) ∷ m) out = missing_loop g m (missing_in g ps out)

-- `Missing()`. `out` is the set `seen` of the source as well.
unfoldable pub missing : Graph → List Digest
unfolding missing_loop has_rev sort_bytes
missing g = sort_bytes (missing_loop g g.parents [])

-- The set `child` of `Heads()`.
children : Dict (List Digest) → List Digest
children [] = []
children ((d, ps) ∷ m) = ps ++ children m

unfoldable pub heads : Graph → List Digest
unfolding children sort_bytes
heads g = sort_bytes (select (λ d. not (has d (children g.parents))) (keys g.parents))

-- The body of the loop of `Ancestors`: an unknown revision is passed over.
unfoldable pub look : Graph → Digest → Look
unfolding has_rev parents_of
look g d = if has_rev g d then expand (parents_of g d) else skip

-- `append(stack, parents...)`, with the top of the stack at the front.
unfoldable pub push : List Digest → List Digest → List Digest
push [] stack = stack
push (p ∷ ps) stack = push ps (p ∷ stack)

-- Enough rounds: the first entry, and every parent edge once.
unfoldable pub rounds : Graph → ℕ
rounds g = suc (remaining (λ d. length (parents_of g d)) [] (keys g.parents))

unfoldable pub ancestors : Graph → Digest → List Digest
unfolding walk look push rounds
ancestors g d = elim (walk (look g) push (rounds g) [] [] (d ∷ [])) [
  | done seen popped ↦ seen
  | stopped ↦ []
  | spent ↦ []
]

-- `for _, h := range heads[1:]`: keep the ancestors that `h` has too.
common_loop : Graph → List Digest → List Digest → List Digest
unfolding ancestors
common_loop g [] common = common
common_loop g (h ∷ hs) common =
    let anc = ancestors g h in common_loop g hs (select (λ d. has d anc) common)

-- The set `shadowed`: the proper ancestors of the common ancestors.
shadowed : Graph → List Digest → List Digest
unfolding ancestors
shadowed g [] = []
shadowed g (d ∷ ds) = select (λ a. not (a == d)) (ancestors g d) ++ shadowed g ds

unfoldable pub merge_bases : Graph → List Digest → List Digest
unfolding common_loop shadowed sort_bytes
merge_bases g [] = []
merge_bases g (h ∷ hs) =
    let common = common_loop g hs (ancestors g h) in
    let shadow = shadowed g common in sort_bytes (select (λ d. not (has d shadow)) common)
