-- ===== src/Credentials.antt =====
-- Opaque credentials: newOpaqueCredential and parseOpaqueCredential of cmd/brain/auth_store.go. The
-- id and the secret, which the program draws at random in hexadecimal digits, are arguments.
pub mod RoundTrip
use Prim.Native.String.{[] as empty, ◌∷◌ as ◌◂◌}
use ovek.Common.{
  String, Char, code, Bool, true, false, not, ◌&&◌, ◌||◌, Option, none, some, List, [], ◌∷◌, ◌==◌,
  trim_space, text_append, split_on, nat_eq, is_space, if◌then◌else◌,
}

-- strings.Split(s, "_")
unfoldable pub split_underscore : String → List String
unfolding split_on
split_underscore s = split_on b'_' s

-- What the hexadecimal digits of an id or a secret are: no space and no underscore, and not blank.
unfoldable pub is_plain : String → Bool
is_plain empty = true
is_plain (c ◂ s) = not (is_space (code c)) && not (nat_eq (code c) b'_') && is_plain s

unfoldable pub is_word : String → Bool
unfolding is_plain
is_word s = not (s == "") && is_plain s

unfoldable pub join_credential : String → String → String → String
join_credential prefix credential_id secret =
    text_append prefix (text_append "_" (text_append credential_id (text_append "_" secret)))

-- hashOpaqueCredential is the hexadecimal SHA-256 sum of the credential.
module _ (hash_opaque_credential : String → String) where
  -- The plaintext, the id and the hash.
  unfoldable pub new_opaque_credential : String → String → String → String × String × String
  new_opaque_credential prefix credential_id secret =
      let plaintext = join_credential prefix credential_id secret in
      (plaintext, credential_id, hash_opaque_credential plaintext)

  unfoldable pub parse_parts : String → String → List String → Option (String × String)
  parse_parts prefix plaintext (first ∷ credential_id ∷ secret ∷ []) =
      if first == prefix && not (trim_space credential_id == "") && not (trim_space secret == "")
      then some (credential_id, hash_opaque_credential plaintext)
      else none
  parse_parts prefix plaintext _ = none

  -- The id and the hash. The hash is that of the text as it was given, not of the trimmed one.
  unfoldable pub parse_opaque_credential : String → String → Option (String × String)
  parse_opaque_credential prefix plaintext =
      parse_parts prefix plaintext (split_underscore (trim_space plaintext))
