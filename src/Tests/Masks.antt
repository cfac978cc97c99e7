-- ===== src/Tests/Masks.antt =====
-- Runs of the masking of a command's output (cli/mask.go).
use enbu.Prelude.{
  ℕ, zero, suc, ◌+◌, ◌==◌, has, Dict, sort_by, insert_by, Bytes, bytes, Bool, true, false, not,
  ◌&&◌, List, [], ◌∷◌, ◌≡◌, refl, sym, ap, ◌∙◌, subst, arith, drop, drop-drop, starts, All,
  All-Among,
}
use enbu.Masking
use enbu.Masking.{conceal, run, write, masked_values}
use enbu.Masking.Stream.{Apart, run-conceal}

-- `w` stands nowhere in `v`.
abbrev nowhere : Bytes → Bytes → Bool
nowhere [] w = not (starts [] w)
nowhere (c ∷ v) w = not (starts (c ∷ v) w) && nowhere v w

nowhere_lem : (v w : Bytes) → nowhere v w ≡ true → (k : ℕ) → starts (drop k v) w ≡ false
nowhere_lem [] w h zero = ground arith
nowhere_lem [] w h (suc k) = ground arith
nowhere_lem (c ∷ v) w h zero = ground arith
nowhere_lem (c ∷ v) w h (suc k) = nowhere_lem v w (ground arith) k

behind : (v : Bytes) (k : ℕ) → drop (suc k) v ≡ drop k (drop 1 v)
behind v k = let e : suc k ≡ 1 + k = omega arith in ap (λ n. drop n v) e ∙ sym (drop-drop k 1 v)

abbrev password : Bytes
password = bytes "pass-word"

abbrev token : Bytes
token = bytes "token1"

abbrev secrets : Dict Bytes
secrets = (bytes "TOKEN", token) ∷ (bytes "PASSWORD", password) ∷ (bytes "PORT", bytes "80") ∷ []

abbrev values : List Bytes
values = password ∷ token ∷ []

secrets-masked : masked_values secrets ≡ values
unfolding masked_values Masking.collect_values Masking.add_values Masking.add_value sort_by
    insert_by has ◌==◌
secrets-masked = refl

values-Apart : Apart values
unfolding starts
values-Apart v w m m' k =
    let rows : All (λ x. All (λ y. nowhere (drop 1 x) y ≡ true) values) values =
      ((refl, (refl, tt)), ((refl, (refl, tt)), tt)) in
    let row = All-Among (λ x. All (λ y. nowhere (drop 1 x) y ≡ true) values) v values rows m in
    let none_inside = All-Among (λ y. nowhere (drop 1 v) y ≡ true) w values row m' in
    ap (λ b. starts b w) (behind v k) ∙ nowhere_lem (drop 1 v) w none_inside k

run-conceal_example :
    run (masked_values secrets) [] (bytes "the pass-w" ∷ bytes "ord and token1" ∷ [])
    ≡ (conceal (masked_values secrets) (bytes "the pass-word and token1") true).0
run-conceal_example =
    run-conceal secrets (subst Apart (sym secrets-masked) values-Apart)
      (bytes "the pass-w" ∷ bytes "ord and token1" ∷ [])

-- One value inside another: a write that ends within the longer one lets its rest through.
split_in_value :
    run (bytes "abcdefghij" ∷ bytes "cdefgh" ∷ []) [] (bytes "abcdefgh" ∷ bytes "ij" ∷ [])
    ≡ bytes "ab<concealed by enbu>ij"
unfolding run write Masking.flush conceal Masking.conceal_loop Masking.first_match
    Masking.first_match_loop Masking.index Masking.better Masking.begins_longer Masking.prefix_len
    Masking.prefix_loop Masking.prefix_scan starts
split_in_value = refl
