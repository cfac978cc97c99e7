-- ===== src/Signing/Laws.antt =====
-- What a signature check accepts, and that a signed message has one reading.
use enbu.Prelude.{Bytes, Bool, true, not, [], ◌∷◌, ◌++◌, ◌≡◌, arith, eqb, all}
use enbu.Signing.{valid_domain, message}

no_zero : Bytes → Bool
no_zero bs = all (λ c. not (eqb c 0)) bs

split_at_zero :
    (d d' b b' : Bytes)
    → no_zero d ≡ true
    → no_zero d' ≡ true
    → d ++ (0 ∷ b) ≡ d' ++ (0 ∷ b')
    → (d ≡ d') × (b ≡ b')
unfolding no_zero
split_at_zero [] [] b b' h k e = ground arith
split_at_zero [] (y ∷ ys) b b' h k e = ground arith
split_at_zero (x ∷ xs) [] b b' h k e = ground arith
split_at_zero (x ∷ xs) (y ∷ ys) b b' h k e = ground (arith, split_at_zero xs ys b b')

-- Under valid domains, one signed message is the message of one domain and one body: a signature
-- made for one kind of object never passes for another.
pub message_injective :
    (d d' b b' : Bytes)
    → valid_domain d ≡ true
    → valid_domain d' ≡ true
    → message d b ≡ message d' b'
    → (d ≡ d') × (b ≡ b')
unfolding message valid_domain no_zero
message_injective [] d' b b' h k e = ground arith
message_injective (x ∷ xs) [] b b' h k e = ground arith
message_injective (x ∷ xs) (y ∷ ys) b b' h k e = split_at_zero (x ∷ xs) (y ∷ ys) b b' h k e
