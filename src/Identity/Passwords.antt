-- ===== src/Identity/Passwords.antt =====
-- libs/identity/src/security/password-hasher.service.ts. scrypt and the hexadecimal texts of Buffer are
-- parameters, and so is Number: `number` gives none for what is not a natural number.
use smart_platform_services.Common.{
  eq_self, ◌∙◌, ℕ, ◌≡◌, refl, ◌↔◌, ◌<◌, Bool, true, false, not, ◌&&◌, ◌||◌, Option, some, List, [],
  ◌∷◌, ◌++◌, Text, text, if◌then◌else◌, ◌==◌, nat_Eq, text_Eq, same_text, length, is_truthy, holds,
  split, Lacks, split-append, split-Lacks, arith,
}

-- What the platform computes.
pub record Scrypt : Type 0 where
  pub derive : Text → Text → List ℕ
  pub to_hex : List ℕ → Text
  pub from_hex : Text → List ℕ
  pub number : Text → Option ℕ

module _ (s : Scrypt) where
  -- `hash`, with the bytes of the salt that are drawn.
  unfoldable pub hash : Text → List ℕ → Text
  hash password drawn =
      let salt = s.to_hex drawn in
      text "scrypt"
      ++ (b'$'
          ∷ (text "16384"
              ++ (b'$'
                  ∷ (text "8"
                      ++ (b'$'
                          ∷ (text "1"
                              ++ (b'$' ∷ (salt ++ (b'$' ∷ s.to_hex (s.derive password salt))))))))))

  -- The hash that is expected has the length of a key, and is the one of the password.
  abbrev pub matches : Text → Text → List ℕ → Bool
  matches password salt expected = length expected == 64 && s.derive password salt == expected

  abbrev pub verify_parts : Text → List Text → Bool
  verify_parts password (algorithm ∷ cost ∷ block_size ∷ parallelization ∷ salt ∷ hex ∷ extra) =
      if not (algorithm == text "scrypt")
        || not (holds (s.number cost) 16384)
        || not (holds (s.number block_size) 8)
        || not (holds (s.number parallelization) 1)
        || not (is_truthy (some salt))
        || not (is_truthy (some hex))
      then false
      else matches password salt (s.from_hex hex)
  verify_parts password _ = false

  unfoldable pub verify : Text → Text → Bool
  verify password encoded = verify_parts password (split b'$' encoded)

-- The documented behaviour of scrypt with the service's options, of Buffer and of Number.
pub record IsScrypt (s : Scrypt) : Type 0 where
  pub key_length : (password salt : Text) → length (s.derive password salt) ≡ 64
  pub from_hex-to_hex : (bytes : List ℕ) → s.from_hex (s.to_hex bytes) ≡ bytes
  pub hex_digits : (bytes : List ℕ) → Lacks b'$' (s.to_hex bytes)
  pub hex_truthy : (bytes : List ℕ) → 0 < length bytes → is_truthy (some (s.to_hex bytes)) ≡ true
  pub number_cost : s.number (text "16384") ≡ some 16384
  pub number_block_size : s.number (text "8") ≡ some 8
  pub number_parallelization : s.number (text "1") ≡ some 1

module _ (s : Scrypt) (lawful : IsScrypt s) (drawn : List ℕ) (salted : 0 < length drawn) where
  parts_of_hash :
      (password : Text)
      → split b'$' (hash s password drawn)
        ≡ text "scrypt"
          ∷ text "16384"
          ∷ text "8"
          ∷ text "1"
          ∷ s.to_hex drawn
          ∷ s.to_hex (s.derive password (s.to_hex drawn))
          ∷ []
  unfolding hash split
  parts_of_hash password =
      let key = s.to_hex (s.derive password (s.to_hex drawn)) in
      rw
        (
          split-append b'$' (s.to_hex drawn) key (lawful.hex_digits drawn),
          split-Lacks b'$' key (lawful.hex_digits (s.derive password (s.to_hex drawn))),
        )
        refl

  key_pos : (password : Text) → 0 < length (s.derive password (s.to_hex drawn))
  key_pos password = omega (arith, lawful.key_length password (s.to_hex drawn))

  verify-hash-eq :
      (password other : Text)
      → verify s other (hash s password drawn)
        ≡ (s.derive other (s.to_hex drawn) == s.derive password (s.to_hex drawn))
  unfolding verify same_text
  verify-hash-eq password other =
      let key = s.derive password (s.to_hex drawn) in
      rw
        (
          parts_of_hash password,
          lawful.number_cost,
          lawful.number_block_size,
          lawful.number_parallelization,
          lawful.hex_truthy drawn salted,
          lawful.hex_truthy key (key_pos password),
          lawful.from_hex-to_hex key,
          lawful.key_length password (s.to_hex drawn),
        )
        refl

  -- A password is verified against its own hash, and another password is exactly when scrypt derives the
  -- same key from it with that salt.
  pub verify-hash :
      (password other : Text)
      → (verify s password (hash s password drawn) ≡ true)
        × ((verify s other (hash s password drawn) ≡ true)
            ↔ (s.derive other (s.to_hex drawn) ≡ s.derive password (s.to_hex drawn)))
  verify-hash password other = (
    verify-hash-eq password password ∙ eq_self (s.derive password (s.to_hex drawn)),
    rw (verify-hash-eq password other) (text_Eq.decides _ _),
  )
