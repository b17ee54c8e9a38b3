-- ===== src/Examples/Passwords.antt =====
-- Password hashes, with stand-ins for scrypt and for the texts of bytes.
use smart_platform_services.Common.{
  ℕ, ◌+◌, ◌≡◌, refl, ◌<◌, ◌↔◌, ◌-◌, true, Option, none, some, List, [], ◌∷◌, Text, text, ◌==◌,
  text_Eq, nat_Eq, length, is_truthy, Lacks, arith, if◌then◌else◌, same_text,
}
use smart_platform_services.Identity.Passwords.{Scrypt, hash, verify, IsScrypt, verify-hash}

-- A key of 64 bytes.
abbrev stretched : ℕ → List ℕ
stretched n =
    n ∷ n ∷ n ∷ n ∷ n ∷ n ∷ n ∷ n ∷ n ∷ n ∷ n ∷ n ∷ n ∷ n ∷ n ∷ n ∷ n ∷ n ∷ n ∷ n ∷ n ∷ n ∷ n ∷ n
    ∷ n ∷ n ∷ n ∷ n ∷ n ∷ n ∷ n ∷ n ∷ n ∷ n ∷ n ∷ n ∷ n ∷ n ∷ n ∷ n ∷ n ∷ n ∷ n ∷ n ∷ n ∷ n ∷ n ∷ n
    ∷ n ∷ n ∷ n ∷ n ∷ n ∷ n ∷ n ∷ n ∷ n ∷ n ∷ n ∷ n ∷ n ∷ n ∷ n ∷ n ∷ []

abbrev first_of : Text → ℕ
first_of [] = 0
first_of (c ∷ s) = c

abbrev shifted : List ℕ → Text
shifted [] = []
shifted (n ∷ ns) = (n + 100) ∷ shifted ns

abbrev unshifted : Text → List ℕ
unshifted [] = []
unshifted (c ∷ s) = (c - 100) ∷ unshifted s

abbrev numeral : Text → Option ℕ
numeral t =
    if t == text "16384"
    then some 16384
    else if t == text "8"
    then some 8
    else if t == text "1"
    then some 1
    else none

abbrev stand_in : Scrypt
stand_in = record {
  derive = λ password salt. stretched (first_of password + first_of salt);
  to_hex = shifted;
  from_hex = unshifted;
  number = numeral;
}

unshifted-shifted : (ns : List ℕ) → unshifted (shifted ns) ≡ ns
unshifted-shifted [] = refl
unshifted-shifted (n ∷ ns) =
    let same : ((n + 100) - 100) ≡ n = omega arith in rw (unshifted-shifted ns, same) refl

shifted-Lacks : (ns : List ℕ) → Lacks b'$' (shifted ns)
shifted-Lacks [] = tt
shifted-Lacks (n ∷ ns) = (ground arith, shifted-Lacks ns)

shifted_truthy : (ns : List ℕ) → 0 < length ns → is_truthy (some (shifted ns)) ≡ true
shifted_truthy [] h = absurd (omega (arith, h))
shifted_truthy (n ∷ ns) h = refl

stand_in-IsScrypt : IsScrypt stand_in
unfolding same_text
stand_in-IsScrypt = record {
  key_length = λ password salt. refl;
  from_hex-to_hex = unshifted-shifted;
  hex_digits = shifted-Lacks;
  hex_truthy = shifted_truthy;
  number_cost = refl;
  number_block_size = refl;
  number_parallelization = refl;
}

verify-hash_example :
    let encoded = hash stand_in (text "secret") (5 ∷ 6 ∷ []) in
    (verify stand_in (text "secret") encoded ≡ true)
    × ((verify stand_in (text "guess") encoded ≡ true) ↔ (
        stand_in.derive (text "guess") (shifted (5 ∷ 6 ∷ []))
        ≡ stand_in.derive (text "secret") (shifted (5 ∷ 6 ∷ []))))
verify-hash_example =
    verify-hash stand_in stand_in-IsScrypt (5 ∷ 6 ∷ []) (omega arith) (text "secret") (text "guess")
