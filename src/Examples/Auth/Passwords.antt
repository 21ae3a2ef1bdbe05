-- ===== src/Examples/Auth/Passwords.antt =====
-- A password hash of cmd/brain/auth_store.go, with stand-ins for the derivation and the encoding.
use ovek.Common.{◌≡◌, ◌↔◌, refl, String, true, some, [], ◌∷◌}
use ovek.Scrubber.{Bytes}
use ovek.Auth.Passwords.{
  password_hash_iterations, password_hash_key_length, hash_password, verify_password,
}
use ovek.Auth.Passwords.Verification.{verify-hash}
use ovek.Examples.Auth.{pad, codes, demo_platform, demo_platform-IsEncoding}

abbrev key : Bytes
key = pad 32 (codes "open sesame")

verify-hash_example :
    (encoded : String) × (hash_password demo_platform (1 ∷ 2 ∷ []) "open sesame" ≡ some encoded)
    × ((verify_password demo_platform encoded "open barley" ≡ true) ↔ (
        demo_platform.pbkdf2_key "open barley"
          (1 ∷ 2 ∷ [])
          password_hash_iterations
          password_hash_key_length
        ≡ some key))
verify-hash_example =
    verify-hash demo_platform demo_platform-IsEncoding (1 ∷ 2 ∷ []) "open sesame" "open barley" key
      refl
