-- ===== src/Examples/Auth.antt =====
-- A platform, and runs of cmd/brain/auth_store.go on it.
mod Passwords
mod Sessions
use Prim.Native.String.{[] as empty, ◌∷◌ as ◌◂◌}
use mathlib.Core.Option.{some-injective}
use ovek.Common.{
  ℕ, zero, suc, ◌+◌, ◌*◌, ◌/◌, ◌%◌, ◌≤◌, ◌≡◌, refl, sym, ap, ◌∙◌, String, Char, code, Bool, true,
  false, Option, none, some, List, [], ◌∷◌, ◌==◌, length, arith, nat_eq, Bool-cases, inl, inr,
  text_append, lacks, if◌then◌else◌,
}
use ovek.Scrubber.{Bytes}
use ovek.Auth.{Platform}
use ovek.Auth.Passwords.{password_hash_iterations}
use ovek.Auth.Passwords.Verification.{IsEncoding}

-- A stand-in for base64: a byte is as many a's, and a b.
unfoldable pub unary : ℕ → String → String
unary zero rest = "b" ◂ rest
unary (suc n) rest = "a" ◂ unary n rest

unfoldable pub encode : Bytes → String
unfolding unary
encode [] = ""
encode (c ∷ s) = unary c (encode s)

unfoldable pub decode : ℕ → String → Bytes
decode n empty = []
decode n (c ◂ s) =
    let first = n ∷ decode 0 s in
    let more = decode (n + 1) s in if nat_eq (code c) b'b' then first else more

decode-unary : (c n : ℕ) (rest : String) → decode n (unary c rest) ≡ (n + c) ∷ decode 0 rest
unfolding decode unary
decode-unary zero n rest = ap (λ m. m ∷ decode 0 rest) (omega arith)
decode-unary (suc c) n rest =
    decode-unary c (n + 1) rest ∙ ap {B = Bytes} (λ m. m ∷ decode 0 rest) (omega arith)

decode-encode : (b : Bytes) → decode 0 (encode b) ≡ b
unfolding encode
decode-encode [] = unfold decode in refl
decode-encode (c ∷ s) =
    decode-unary c 0 (encode s)
    ∙ ap (λ rest. (0 + c) ∷ rest) (decode-encode s)
    ∙ ap {B = Bytes} (λ m. m ∷ s) (omega arith)

lacks-unary : (c : ℕ) (rest : String) → lacks b'$' rest ≡ true → lacks b'$' (unary c rest) ≡ true
unfolding lacks unary
lacks-unary zero rest h = h
lacks-unary (suc c) rest h = lacks-unary c rest h

lacks-encode : (b : Bytes) → lacks b'$' (encode b) ≡ true
unfolding encode
lacks-encode [] = unfold lacks in refl
lacks-encode (c ∷ s) = lacks-unary c (encode s) (lacks-encode s)

-- A stand-in for the key derivation: the first bytes of the password.
unfoldable pub pad : ℕ → Bytes → Bytes
pad zero s = []
pad (suc n) [] = 0 ∷ pad n []
pad (suc n) (c ∷ s) = c ∷ pad n s

length-pad : (n : ℕ) (s : Bytes) → length (pad n s) ≡ n
unfolding pad
length-pad zero s = refl
length-pad (suc n) [] = ap suc (length-pad n [])
length-pad (suc n) (c ∷ s) = ap suc (length-pad n s)

unfoldable pub codes : String → Bytes
codes empty = []
codes (c ◂ s) = code c ∷ codes s

-- A stand-in for the texts of instants: binary digits, the last one first.
unfoldable pub bits : ℕ → ℕ → String
bits zero n = ""
bits (suc fuel) n = elim (nat_eq n 0) [
  | true ↦ ""
  | false ↦ (if nat_eq (n % 2) 0 then "0" else "1") ◂ bits fuel (n / 2)
]

unfoldable pub format_time : ℕ → String
unfolding bits
format_time t = bits t t

unfoldable pub value_of : String → ℕ
value_of empty = 0
value_of (c ◂ s) = (if nat_eq (code c) b'0' then 0 else 1) + 2 * value_of s

value-bits : (fuel n : ℕ) → n ≤ fuel → value_of (bits fuel n) ≡ n
unfolding value_of bits
value-bits zero n h = omega arith
value-bits (suc fuel) n h = elim (Bool-cases (nat_eq n 0)) [
  | inl e ↦ rw (e, bits) (ground arith)
  | inr e ↦
      rw (e, bits)
        (elim (Bool-cases (nat_eq (n % 2) 0)) [
          | inl f ↦ rw f (finish f e (value-bits fuel (n / 2) (half e)))
          | inr f ↦ rw f (finish' f e (value-bits fuel (n / 2) (half e)))
        ])
]
  where
    half : nat_eq n 0 ≡ false → n / 2 ≤ fuel
    half e = ground (arith, h)

    finish :
        nat_eq (n % 2) 0 ≡ true
        → nat_eq n 0 ≡ false
        → value_of (bits fuel (n / 2)) ≡ n / 2
        → 0 + 2 * value_of (bits fuel (n / 2)) ≡ n
    finish f e ih = ground (arith, ih)

    finish' :
        nat_eq (n % 2) 0 ≡ false
        → nat_eq n 0 ≡ false
        → value_of (bits fuel (n / 2)) ≡ n / 2
        → 1 + 2 * value_of (bits fuel (n / 2)) ≡ n
    finish' f e ih = ground (arith, ih)

pub parse-format : (t : ℕ) → some (value_of (format_time t)) ≡ some t
unfolding format_time
parse-format t = ap some (value-bits t t (omega arith))

abbrev pub demo_platform : Platform
demo_platform = record {
  hash_opaque_credential = λ plaintext. text_append "sum of " plaintext;
  json_marshal = λ details. some "{...}";
  pbkdf2_key = λ password salt iterations n. some (pad n (codes password));
  encode_base64 = encode;
  decode_base64 = λ s. some (decode 0 s);
  atoi = λ s. if s == "120000" then some 120000 else none;
  format_time = format_time;
  parse_time = λ s. some (value_of s);
}

pub demo_platform-IsEncoding : IsEncoding demo_platform
demo_platform-IsEncoding = record {
  decode-encode = λ b. ap some (decode-encode b);
  encode_lacks = lacks-encode;
  atoi_iterations = refl;
  length-key = λ password salt iterations n key h. key_length password n key h;
}
  where
    key_length :
        (password : String) (n : ℕ) (key : Bytes)
        → some (pad n (codes password)) ≡ some key
        → length key ≡ n
    key_length password n key h =
        ap length (sym (some-injective _ _ h)) ∙ length-pad n (codes password)
