-- ===== src/Tests/Merging.antt =====
-- Runs of the merge (pkg/merge) and of signing (pkg/signing).
use enbu.Prelude.{
  Bytes, bytes, false, none, some, [], ◌∷◌, ◌≡◌, ◌↔◌, refl, All, lookup, Dict, lookup, ◌==◌,
}
use enbu.Merge.{
  SecretMap, Value, Choice, present, get, resolve_against, resolve_key, or_empty, merge,
}
use enbu.Merge.Single.{Outcome, resolve_against-Outcome}
use enbu.Merge.Several.{Agreed, resolve_key-Agreed, heads_as_bases}
use enbu.Merge.Listing.{Reported, get-merge-Agreed, get-merge-conflict, merge-Reported}
use enbu.Signing.{valid_domain, domain_state}
use enbu.Signing.Laws.{message_injective}

abbrev key : Bytes
key = bytes "TOKEN"

abbrev old : SecretMap
old = (key, bytes "a") ∷ []

abbrev left : SecretMap
left = (key, bytes "b") ∷ []

abbrev right : SecretMap
right = (key, bytes "c") ∷ []

abbrev b_value : Value
b_value = present (bytes "b")

resolve_against-Outcome_example :
    (resolve_against (present (bytes "a")) key (old ∷ left ∷ []) ≡ some b_value)
    ↔ Outcome (present (bytes "a")) key (old ∷ left ∷ []) b_value
resolve_against-Outcome_example =
    resolve_against-Outcome (present (bytes "a")) key (old ∷ left ∷ []) b_value

resolve_key-Agreed_example :
    (resolve_key key (or_empty (old ∷ [])) (old ∷ left ∷ []) ≡ some b_value)
    ↔ Agreed key (or_empty (old ∷ [])) (old ∷ left ∷ []) b_value
resolve_key-Agreed_example = resolve_key-Agreed key (old ∷ []) (old ∷ left ∷ []) b_value

heads_as_bases_example :
    (resolve_key key (left ∷ right ∷ []) (left ∷ right ∷ []) ≡ some b_value)
    ↔ All (λ g. get g key ≡ b_value) (left ∷ right ∷ [])
heads_as_bases_example = heads_as_bases key left (right ∷ []) b_value

agreed : Agreed key (or_empty (old ∷ [])) (old ∷ left ∷ []) b_value
unfolding resolve_key resolve_against get lookup ◌==◌
agreed = (resolve_key-Agreed key (old ∷ []) (old ∷ left ∷ []) b_value).0 refl

get-merge-Agreed_example : get (merge (old ∷ []) (old ∷ left ∷ []) []).0 key ≡ b_value
get-merge-Agreed_example = get-merge-Agreed (old ∷ []) (old ∷ left ∷ []) [] key b_value agreed

disagreed : (v : Value) → ¬ Agreed key (or_empty (old ∷ [])) (left ∷ right ∷ []) v
unfolding resolve_key resolve_against get lookup ◌==◌
disagreed v a = let e = (resolve_key-Agreed key (old ∷ []) (left ∷ right ∷ []) v).1 a in cc e

abbrev choices : Dict Choice
choices = (key, record { value = bytes "d"; delete = false }) ∷ []

abbrev no_choice : Dict Choice
no_choice = []

get-merge-conflict_example :
    get (merge (old ∷ []) (left ∷ right ∷ []) choices).0 key ≡ present (bytes "d")
unfolding lookup ◌==◌
get-merge-conflict_example = get-merge-conflict (old ∷ []) (left ∷ right ∷ []) choices key disagreed

merge-Reported_example : Reported key (merge (old ∷ []) (left ∷ right ∷ []) no_choice).1 ↔ (
    ((v : Value) → ¬ Agreed key (or_empty (old ∷ [])) (left ∷ right ∷ []) v)
    × (lookup key no_choice ≡ none))
merge-Reported_example = merge-Reported (old ∷ []) (left ∷ right ∷ []) no_choice key

message_injective_example : (domain_state ≡ domain_state) × (bytes "body" ≡ bytes "body")
unfolding valid_domain
message_injective_example =
    message_injective domain_state domain_state (bytes "body") (bytes "body") refl refl refl
