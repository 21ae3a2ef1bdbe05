-- ===== src/Auth/Passwords/Verification.antt =====
-- verifyPassword on a hash that hashPassword made (cmd/brain/auth_store.go).
use mathlib.Core.Option.{some-injective}
use ovek.Common.{
  ℕ, ◌≡◌, refl, sym, ap, ◌∙◌, ◌↔◌, String, true, some, [], ◌∷◌, length, split_on, lacks,
  split-lacks, split-append, Option-cases, inl, inr,
}
use ovek.Scrubber.{Bytes}
use ovek.Scrubber.Keys.{bytes_eq_iff}
use ovek.Auth.{Platform}
use ovek.Auth.Passwords.{
  password_hash_iterations, password_hash_key_length, join_hash, hash_password, check_key,
  verify_parts, verify_password,
}

-- Base64 has no dollar sign and is decoded to what was encoded, a derived key has the length that was
-- asked for, and the number of iterations is read back.
pub record IsEncoding (platform : Platform) : Type 0 where
  pub decode-encode : (b : Bytes) → platform.decode_base64 (platform.encode_base64 b) ≡ some b
  pub encode_lacks : (b : Bytes) → lacks b'$' (platform.encode_base64 b) ≡ true
  pub atoi_iterations : platform.atoi "120000" ≡ some password_hash_iterations
  pub length-key :
      (password : String) (salt : Bytes) (iterations n : ℕ) (key : Bytes)
      → platform.pbkdf2_key password salt iterations n ≡ some key
      → length key ≡ n

split_joined :
    (scheme iterations salt key : String)
    → lacks b'$' scheme ≡ true
    → lacks b'$' iterations ≡ true
    → lacks b'$' salt ≡ true
    → lacks b'$' key ≡ true
    → split_on b'$' (join_hash scheme iterations salt key) ≡ scheme ∷ iterations ∷ salt ∷ key ∷ []
unfolding join_hash
split_joined scheme iterations salt key a b c d =
    split-append "$" scheme _ refl a
    ∙ ap (λ rest. scheme ∷ rest)
        (split-append "$" iterations _ refl b
          ∙ ap (λ rest. iterations ∷ rest)
              (split-append "$" salt key refl c
                ∙ ap (λ rest. salt ∷ rest) (split-lacks b'$' key d)))

module _ (platform : Platform) (encoding : IsEncoding platform) where
  check_key_iff :
      (salt expected : Bytes) (candidate : String)
      → length expected ≡ password_hash_key_length
      → (check_key platform (some password_hash_iterations) (some salt) (some expected) candidate
          ≡ true)
        ↔ (platform.pbkdf2_key candidate salt password_hash_iterations password_hash_key_length
            ≡ some expected)
  unfolding check_key
  check_key_iff salt expected candidate h =
      elim (Option-cases
        (platform.pbkdf2_key candidate salt password_hash_iterations password_hash_key_length)) [
          | inl e ↦ rw (h, check_key) (rw (e, check_key) (λ k. cc, λ k. cc))
          | inr (derived, e) ↦
              rw (h, check_key)
                (rw (e, check_key)
                  (
                    λ k. ap some (sym ((bytes_eq_iff expected derived).0 k)),
                    λ k.
                        (bytes_eq_iff expected derived).1 (sym (some-injective derived expected k)),
                  ))
        ]

  hash-derived :
      (salt : Bytes) (password : String) (key : Bytes)
      → platform.pbkdf2_key password salt password_hash_iterations password_hash_key_length
        ≡ some key
      → hash_password platform salt password
        ≡ some (
            join_hash "pbkdf2-sha256" "120000"
              (platform.encode_base64 salt)
              (platform.encode_base64 key))
  unfolding hash_password
  hash-derived salt password key h = rw (h, hash_password)

  verify-joined :
      (salt key : Bytes) (candidate : String)
      → verify_password platform
          (join_hash "pbkdf2-sha256" "120000"
            (platform.encode_base64 salt)
            (platform.encode_base64 key))
          candidate
        ≡ check_key platform (some password_hash_iterations) (some salt) (some key) candidate
  unfolding verify_password verify_parts lacks
  verify-joined salt key candidate =
      ap (λ parts. verify_parts platform parts candidate)
        (split_joined "pbkdf2-sha256" "120000" (platform.encode_base64 salt)
          (platform.encode_base64 key) refl refl (encoding.encode_lacks salt)
          (encoding.encode_lacks key))
      ∙ rw (encoding.atoi_iterations, encoding.decode-encode salt, encoding.decode-encode key)

  -- Where a key is derived from a password and a salt, the password has a hash, and exactly those
  -- passwords are accepted for it of which the same key is derived.
  pub verify-hash :
      (salt : Bytes) (password candidate : String) (key : Bytes)
      → platform.pbkdf2_key password salt password_hash_iterations password_hash_key_length
        ≡ some key
      → (encoded : String) × (hash_password platform salt password ≡ some encoded)
        × ((verify_password platform encoded candidate ≡ true) ↔ (
            platform.pbkdf2_key candidate salt password_hash_iterations password_hash_key_length
            ≡ some key))
  verify-hash salt password candidate key h = (
    join_hash "pbkdf2-sha256" "120000" (platform.encode_base64 salt) (platform.encode_base64 key),
    hash-derived salt password key h,
    rw (verify-joined salt key candidate) (
        check_key_iff salt key candidate (
          encoding.length-key password salt password_hash_iterations password_hash_key_length key
            h)),
  )
