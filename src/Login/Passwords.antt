-- ===== src/Login/Passwords.antt =====
-- The passwords of apps/gateway/src/auth.ts: what verifyPassword makes of hashPassword's record.
use deepseek_harness_gateway.Common.{
  ℕ, ◌<◌, ◌≡◌, refl, ap, ◌∙◌, ◌&&◌, List, [], ◌∷◌, ◌++◌, nat_eq, arith,
}
use deepseek_harness_gateway.Common.Text.{Text, text_eq}
use deepseek_harness_gateway.Common.Lists.{length, All}
use deepseek_harness_gateway.Common.Split.{split_on, split_on-free, split_on-append}
use deepseek_harness_gateway.Common.Hex.{to_hex, from_hex-to_hex, no_colon-to_hex}
use deepseek_harness_gateway.Login.{Scrypt, hash_password, verify_password, bytes_eq}

length-text_eq : (a b : List ℕ) → (nat_eq (length a) (length b) && text_eq a b) ≡ text_eq a b
unfolding text_eq
length-text_eq [] [] = refl
length-text_eq [] (y ∷ b) = ground arith
length-text_eq (x ∷ a) [] = ground arith
length-text_eq (x ∷ a) (y ∷ b) = ground (arith, length-text_eq a b)

stored_parts :
    (salt hash : List ℕ)
    → All (λ b. b < 256) salt
    → All (λ b. b < 256) hash
    → split_on 58 (to_hex salt ++ 58 ∷ to_hex hash) ≡ to_hex salt ∷ to_hex hash ∷ []
stored_parts salt hash hs hh =
    split_on-append 58 (to_hex salt) (to_hex hash) (no_colon-to_hex salt hs)
    ∙ ap (λ z. to_hex salt ∷ z) (split_on-free 58 (to_hex hash) (no_colon-to_hex hash hh))

verify-hex :
    (scrypt : Scrypt) (given : Text) (salt hash : List ℕ)
    → 0 < length salt
    → All (λ b. b < 256) salt
    → 0 < length hash
    → All (λ b. b < 256) hash
    → verify_password scrypt given (to_hex salt ++ 58 ∷ to_hex hash)
      ≡ bytes_eq (scrypt given (to_hex salt)) hash
unfolding verify_password to_hex bytes_eq text_eq
verify-hex scrypt given [] hash n hs k hh = absurd (omega arith)
verify-hex scrypt given (b ∷ salt) [] n hs k hh = absurd (omega arith)
verify-hex scrypt given (b ∷ salt) (c ∷ hash) n hs k hh =
    rw (stored_parts (b ∷ salt) (c ∷ hash) hs hh, from_hex-to_hex (c ∷ hash) hh)
      (length-text_eq (scrypt given (to_hex (b ∷ salt))) (c ∷ hash))

-- A given password is accepted against the record made of another exactly when the two have the same
-- hash under the record's salt, so the password itself is always accepted.
pub verify_password-hash_password :
    (scrypt : Scrypt) (random : List ℕ) (plain given : Text)
    → 0 < length random
    → All (λ b. b < 256) random
    → 0 < length (scrypt plain (to_hex random))
    → All (λ b. b < 256) (scrypt plain (to_hex random))
    → verify_password scrypt given (hash_password scrypt random plain)
      ≡ bytes_eq (scrypt given (to_hex random)) (scrypt plain (to_hex random))
unfolding hash_password
verify_password-hash_password scrypt random plain given some_salt salt_bytes some_hash hash_bytes =
    verify-hex scrypt given random (scrypt plain (to_hex random)) some_salt salt_bytes some_hash
      hash_bytes
