-- ===== src/Auth/Passwords.antt =====
-- Password hashes: hashPassword and verifyPassword of cmd/brain/auth_store.go. The key derivation
-- and the base64 encoding are the platform's, and so is the random salt.
pub mod Verification
use ovek.Common.{
  ℕ, ◌≡◌, refl, sym, ap, ◌∙◌, String, Bool, true, false, ◌&&◌, Option, none, some, List, [], ◌∷◌,
  ◌==◌, eq_refl, nat_eq, length, text_append, split_on, lacks, split-lacks, split-append,
  if◌then◌else◌, Option-cases, inl, inr,
}
use ovek.Scrubber.{Bytes, bytes_eq}
use ovek.Auth.{Platform}

abbrev pub password_hash_iterations : ℕ
password_hash_iterations = 120000

abbrev pub password_hash_key_length : ℕ
password_hash_key_length = 32

unfoldable pub join_hash : String → String → String → String → String
join_hash scheme iterations salt key = text_append scheme (
    text_append "$"
      (text_append iterations (text_append "$" (text_append salt (text_append "$" key)))))

module _ (platform : Platform) where
  unfoldable pub hash_password : Bytes → String → Option String
  hash_password salt password =
      elim (platform.pbkdf2_key password salt password_hash_iterations password_hash_key_length) [
        | none ↦ none
        | some key ↦ some (
            join_hash "pbkdf2-sha256" "120000" (platform.encode_base64 salt)
              (platform.encode_base64 key))
      ]

  -- The derived key of a password against the one that is expected.
  unfoldable pub check_key : Option ℕ → Option Bytes → Option Bytes → String → Bool
  check_key (some iterations) (some salt) (some expected_hash) password =
      elim (platform.pbkdf2_key password salt iterations (length expected_hash)) [
        | none ↦ false
        | some derived_hash ↦ bytes_eq expected_hash derived_hash
      ]
  check_key _ _ _ password = false

  unfoldable pub verify_parts : List String → String → Bool
  unfolding check_key
  verify_parts (scheme ∷ iterations ∷ salt ∷ key ∷ []) password =
      if scheme == "pbkdf2-sha256"
      then check_key (platform.atoi iterations) (platform.decode_base64 salt)
          (platform.decode_base64 key) password
      else false
  verify_parts _ password = false

  unfoldable pub verify_password : String → String → Bool
  unfolding verify_parts
  verify_password encoded_hash password = verify_parts (split_on b'$' encoded_hash) password
