-- ===== src/Outcome.antt =====
-- Go's `(value, error)` results. The errors are told apart as callers do (`errors.Is`, `errors.As`);
-- their texts are left out.
use enbu.Prelude.{Bytes, Bool, true, false, List, ◌≡◌, refl, arith, ◌⊎◌, inl, inr}

pub data Error : Type 0 where
  -- `ErrInvalid`, `ErrRollback`, `storage.ErrNotFound`, `storage.ErrCorrupt`, `TrustRootChangedError`.
  invalid rollback not_found corrupt root_changed : Error
  -- `storage.ErrDiscoveryLimit`.
  discovery_limit : Error
  -- `ForkError` with the digests of its heads.
  forked : List Bytes → Error
  -- Any other error, such as a refused permission or a failed read.
  refused failed : Error

pub data Result (A : Type 0) : Type 0 where
  err : Error → Result A
  ok : A → Result A

-- `err == nil`.
abbrev pub is_ok : {A : Type 0} → Result A → Bool
is_ok (err e) = false
is_ok (ok a) = true

pub Result-cases :
    {A : Type 0} (r : Result A) → ((e : Error) × (r ≡ err e)) ⊎ ((a : A) × (r ≡ ok a))
Result-cases (err e) = inl (e, refl)
Result-cases (ok a) = inr (a, refl)

pub ok_injective : {A : Type 0} {a b : A} → ok a ≡ ok b → a ≡ b
ok_injective p = cc

-- `if !test { return failure }`.
abbrev pub guard : Bool → Error → Result (Unit {0})
guard false failure = err failure
guard true failure = ok tt

-- `v, err := step; if err != nil { return err }`.
infixl 5 ◌>>=◌
abbrev pub ◌>>=◌ : {A B : Type 0} → Result A → (A → Result B) → Result B
err failure >>= next = err failure
ok value >>= next = next value

pub guard-eq-ok : (test : Bool) (e : Error) → guard test e ≡ ok tt → test ≡ true
guard-eq-ok test e h = ground arith

infixl 5 ◌>>◌
abbrev pub ◌>>◌ : {B : Type 0} → Result (Unit {0}) → Result B → Result B
step >> rest = step >>= λ done. rest

-- A guard and a step that a successful run went through.
pub guard->> :
    {B : Type 0} (test : Bool) (e : Error) (rest : Result B) {b : B}
    → (guard test e >> rest) ≡ ok b
    → (test ≡ true) × (rest ≡ ok b)
guard->> false e rest h = cc
guard->> true e rest h = (refl, h)

pub >>=-eq-ok :
    {A B : Type 0} (step : Result A) (next : A → Result B) {b : B}
    → (step >>= next) ≡ ok b
    → (value : A) × (step ≡ ok value) × (next value ≡ ok b)
>>=-eq-ok (err e) next h = cc
>>=-eq-ok (ok value) next h = (value, refl, h)
