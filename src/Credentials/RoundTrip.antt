-- ===== src/Credentials/RoundTrip.antt =====
-- A credential that cmd/brain/auth_store.go makes is parsed to its id and its hash.
use Prim.Native.String.{[] as empty, ◌∷◌ as ◌◂◌}
use ovek.Common.{
  ◌≡◌, refl, ap, ◌∙◌, String, Char, code, Bool, true, false, not, ◌&&◌, none, some, [], ◌∷◌, ◌==◌,
  eq_iff, eq_refl, lacks, split-lacks, split-append, append-empty, append-char, trim_space,
  trim_left, trim_right, text_append, nat_eq, is_space, Bool-cases, inl, inr,
}
use ovek.Credentials.{
  split_underscore, is_plain, is_word, join_credential, new_opaque_credential, parse_parts,
  parse_opaque_credential,
}

plain-split :
    (c : Char) (s : String)
    → is_plain (c ◂ s) ≡ true
    → (is_space (code c) ≡ false) × (nat_eq (code c) b'_' ≡ false) × (is_plain s ≡ true)
unfolding is_plain
plain-split c s h = elim (Bool-cases (is_space (code c))) [
  | inl e ↦ cc (rw e at h)
  | inr e ↦ (elim (Bool-cases (nat_eq (code c) b'_')) [
    | inl f ↦ cc (rw (e, f) at h)
    | inr f ↦ (e, f, rw (e, f) at h)
  ])
]

plain-lacks : (s : String) → is_plain s ≡ true → lacks b'_' s ≡ true
unfolding lacks
plain-lacks empty h = refl
plain-lacks (c ◂ s) h = let (e, f, rest) = plain-split c s h in rw f (plain-lacks s rest)

split-plain : (s : String) → is_plain s ≡ true → split_underscore s ≡ s ∷ []
unfolding split_underscore
split-plain s h = split-lacks b'_' s (plain-lacks s h)

split_underscore-append :
    (s t : String)
    → is_plain s ≡ true
    → split_underscore (text_append s (text_append "_" t)) ≡ s ∷ split_underscore t
unfolding split_underscore
split_underscore-append s t h = split-append "_" s t refl (plain-lacks s h)

-- No character of the text is a space.
abbrev pub has_no_space : String → Bool
has_no_space empty = true
has_no_space (c ◂ s) = not (is_space (code c)) && has_no_space s

plain-no_space : (s : String) → is_plain s ≡ true → has_no_space s ≡ true
plain-no_space empty h = refl
plain-no_space (c ◂ s) h = let (e, f, rest) = plain-split c s h in rw e (plain-no_space s rest)

no_space-append :
    (s t : String)
    → has_no_space s ≡ true
    → has_no_space t ≡ true
    → has_no_space (text_append s t) ≡ true
no_space-append empty t h k = ap has_no_space (append-empty t) ∙ k
no_space-append (c ◂ s) t h k = elim (Bool-cases (is_space (code c))) [
  | inl e ↦ cc (rw e at h)
  | inr e ↦ rw append-char (rw e (no_space-append s t (rw e at h) k))
]

trim_right-no_space : (s : String) → has_no_space s ≡ true → trim_right s ≡ s
unfolding trim_right
trim_right-no_space empty h = refl
trim_right-no_space (c ◂ s) h = elim (Bool-cases (is_space (code c))) [
  | inl e ↦ cc (rw e at h)
  | inr e ↦ (elim (Bool-cases (trim_right s == "")) [
    | inl f ↦ rw (f, e) (ap (λ t. c ◂ t) (trim_right-no_space s (rw e at h)))
    | inr f ↦ rw (f) (ap (λ t. c ◂ t) (trim_right-no_space s (rw e at h)))
  ])
]

trim_left-no_space : (s : String) → has_no_space s ≡ true → trim_left s ≡ s
unfolding trim_left
trim_left-no_space empty h = refl
trim_left-no_space (c ◂ s) h = elim (Bool-cases (is_space (code c))) [
  | inl e ↦ cc (rw e at h)
  | inr e ↦ rw e
]

pub trim_space-no_space : (s : String) → has_no_space s ≡ true → trim_space s ≡ s
unfolding trim_space
trim_space-no_space s h = ap trim_right (trim_left-no_space s h) ∙ trim_right-no_space s h

word-split : (s : String) → is_word s ≡ true → ((s == "") ≡ false) × (is_plain s ≡ true)
unfolding is_word
word-split s h = elim (Bool-cases (s == "")) [ inl e ↦ cc (rw e at h) | inr e ↦ (e, rw e at h) ]

word-trimmed : (s : String) → is_word s ≡ true → (trim_space s == "") ≡ false
word-trimmed s h =
    let (filled, plain) = word-split s h in
    ap (λ t. t == "") (trim_space-no_space s (plain-no_space s plain)) ∙ filled

joined-no_space :
    (prefix credential_id secret : String)
    → is_plain prefix ≡ true
    → is_plain credential_id ≡ true
    → is_plain secret ≡ true
    → has_no_space (join_credential prefix credential_id secret) ≡ true
unfolding join_credential
joined-no_space prefix credential_id secret p i s =
    no_space-append prefix _ (plain-no_space prefix p) (
      no_space-append "_" _ refl (
        no_space-append credential_id _ (plain-no_space credential_id i)
          (no_space-append "_" secret refl (plain-no_space secret s))))

joined-split :
    (prefix credential_id secret : String)
    → is_plain prefix ≡ true
    → is_plain credential_id ≡ true
    → is_plain secret ≡ true
    → split_underscore (join_credential prefix credential_id secret)
      ≡ prefix ∷ credential_id ∷ secret ∷ []
unfolding join_credential
joined-split prefix credential_id secret p i s =
    split_underscore-append prefix (text_append credential_id (text_append "_" secret)) p
    ∙ ap (λ rest. prefix ∷ rest)
        (split_underscore-append credential_id secret i
          ∙ ap (λ rest. credential_id ∷ rest) (split-plain secret s))

-- A credential made of an id and a secret that are words is parsed, under its own prefix, to that id
-- and to the hash that was made with it.
pub parse-new_credential :
    (hash : String → String) (prefix credential_id secret : String)
    → is_plain prefix ≡ true
    → is_word credential_id ≡ true
    → is_word secret ≡ true
    → parse_opaque_credential hash prefix (new_opaque_credential hash prefix credential_id secret).0
      ≡ some (
        (new_opaque_credential hash prefix credential_id secret).1,
        (new_opaque_credential hash prefix credential_id secret).2,
      )
unfolding parse_opaque_credential new_opaque_credential parse_parts
parse-new_credential hash prefix credential_id secret p i s =
    let (id_filled, id_plain) = word-split credential_id i in
    let (secret_filled, secret_plain) = word-split secret s in
    let joined = join_credential prefix credential_id secret in
    ap (parse_parts hash prefix joined) (
      ap split_underscore (
        trim_space-no_space joined
          (joined-no_space prefix credential_id secret p id_plain secret_plain))
      ∙ joined-split prefix credential_id secret p id_plain secret_plain)
    ∙ rw (eq_refl prefix, word-trimmed credential_id i, word-trimmed secret s)

-- A blank text is no credential.
pub parse-blank :
    (hash : String → String) (prefix plaintext : String)
    → (trim_space plaintext == "") ≡ true
    → parse_opaque_credential hash prefix plaintext ≡ none
unfolding parse_opaque_credential split_underscore parse_parts
parse-blank hash prefix plaintext e =
    ap (λ t. parse_parts hash prefix plaintext (split_underscore t))
      ((eq_iff (trim_space plaintext) "").0 e)

pub new-id :
    (hash : String → String) (prefix credential_id secret : String)
    → (new_opaque_credential hash prefix credential_id secret).1 ≡ credential_id
unfolding new_opaque_credential
new-id hash prefix credential_id secret = refl

-- So a text that is a credential is not blank.
pub parsed-not_blank :
    (hash : String → String) (prefix plaintext : String) {parsed : String × String}
    → parse_opaque_credential hash prefix plaintext ≡ some parsed
    → (trim_space plaintext == "") ≡ false
parsed-not_blank hash prefix plaintext h = elim (Bool-cases (trim_space plaintext == "")) [
  | inl e ↦ cc (h, parse-blank hash prefix plaintext e)
  | inr e ↦ e
]
