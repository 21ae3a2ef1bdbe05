-- ===== src/Scrubber.antt =====
-- The log redactor of cmd/brain/secret_scrubber.go. A Go string is its list of bytes.
pub mod Redaction
pub mod Delivery
pub mod Output
pub mod Leaks
pub mod Writer
pub mod Stream
pub mod Keys
pub mod Build
pub mod Loop
pub mod Streaming
use ovek.Common.{
  ℕ, zero, suc, Bool, true, false, not, ◌&&◌, ◌||◌, Option, none, some, List, [], ◌∷◌, ◌++◌, length,
  ltb, nat_eq, if◌then◌else◌,
}

abbrev pub Bytes : Type 0
Bytes = List ℕ

abbrev pub min_secret_scrub_length : ℕ
min_secret_scrub_length = 4

-- The bytes of "[redacted]".
abbrev pub redacted : Bytes
redacted = b'[' ∷ b'r' ∷ b'e' ∷ b'd' ∷ b'a' ∷ b'c' ∷ b't' ∷ b'e' ∷ b'd' ∷ b']' ∷ []

-- strings.HasPrefix(s, prefix)
unfoldable pub has_prefix : Bytes → Bytes → Bool
has_prefix s [] = true
has_prefix [] (p ∷ ps) = false
has_prefix (c ∷ s) (p ∷ ps) = nat_eq c p && has_prefix s ps

unfoldable pub bytes_eq : Bytes → Bytes → Bool
bytes_eq [] [] = true
bytes_eq (c ∷ s) (d ∷ t) = nat_eq c d && bytes_eq s t
bytes_eq _ _ = false

-- s[n:]
abbrev pub drop : ℕ → Bytes → Bytes
drop zero s = s
drop (suc n) [] = []
drop (suc n) (c ∷ s) = drop n s

pub record SecretScrubber : Type 0 where
  pub values : List Bytes
  pub max_len : ℕ

-- `unique[value] = struct{}{}`: the keys of the map, each once.
unfoldable pub has_key : Bytes → List Bytes → Bool
unfolding bytes_eq
has_key value [] = false
has_key value (key ∷ keys) = bytes_eq key value || has_key value keys

unfoldable pub unique_keys : List Bytes → List Bytes → List Bytes
unfolding has_key
unique_keys keys [] = keys
unique_keys keys (value ∷ values) =
    unique_keys
      (if ltb (length value) min_secret_scrub_length || has_key value keys
        then keys
        else value ∷ keys)
      values

-- The running maximum of the loop over `unique`.
unfoldable pub max_length : ℕ → List Bytes → ℕ
max_length longest [] = longest
max_length longest (value ∷ values) =
    max_length (if ltb longest (length value) then length value else longest) values

-- sort.Slice by `len(values[i]) > len(values[j])`
unfoldable pub insert_longest_first : Bytes → List Bytes → List Bytes
insert_longest_first value [] = value ∷ []
insert_longest_first value (other ∷ others) =
    let rest = insert_longest_first value others in
    if ltb (length value) (length other) then other ∷ rest else value ∷ other ∷ others

unfoldable pub sort_longest_first : List Bytes → List Bytes
unfolding insert_longest_first
sort_longest_first [] = []
sort_longest_first (value ∷ values) = insert_longest_first value (sort_longest_first values)

-- `range_order` is the order in which Go walks the map, which the language leaves open.
unfoldable pub new_secret_scrubber : (List Bytes → List Bytes) → List Bytes → SecretScrubber
unfolding unique_keys max_length sort_longest_first
new_secret_scrubber range_order values =
    let walked = range_order (unique_keys [] values) in
    record { values = sort_longest_first walked; max_len = max_length 0 walked }

-- The inner loop of `flush`: the first secret that the tail begins with, or "".
unfoldable pub first_match : List Bytes → Bytes → Bytes
unfolding has_prefix
first_match [] tail = []
first_match (secret ∷ secrets) tail =
    if has_prefix tail secret then secret else first_match secrets tail

abbrev pub is_empty : Bytes → Bool
is_empty [] = true
is_empty (_ ∷ _) = false

-- The outer loop of `flush`, with fuel: the output so far and the tail that is left.
unfoldable pub flush_loop : ℕ → SecretScrubber → Bool → Bytes → Bytes → Bytes × Bytes
unfolding first_match
flush_loop fuel scrubber final output [] = (output, [])
flush_loop zero scrubber final output (c ∷ tail) = (output, c ∷ tail)
flush_loop (suc fuel) scrubber final output (c ∷ tail) =
    let matched = first_match scrubber.values (c ∷ tail) in
    let hidden =
      flush_loop fuel scrubber final (output ++ redacted) (drop (length matched) (c ∷ tail)) in
    let kept = flush_loop fuel scrubber final (output ++ c ∷ []) tail in
    if not final && ltb (length (c ∷ tail)) scrubber.max_len
    then (output, c ∷ tail)
    else if not (is_empty matched)
    then hidden
    else kept

-- An error of the writer below is one of its own, or io.ErrShortWrite.
pub data WriteError : Type 0 where
  failed : WriteError
  err_short_write : WriteError

-- `writer` is nil or the state of the io.Writer below.
pub record ScrubbingWriter (W : Type 0) : Type 0 where
  pub writer : Option W
  pub scrubber : SecretScrubber
  pub tail : Bytes

-- Writer(writer)
unfoldable pub new_writer : {W : Type 0} → SecretScrubber → Option W → ScrubbingWriter W
new_writer scrubber writer = record { writer = writer; scrubber = scrubber; tail = [] }

-- io.Writer, which the program is handed: the new state, the count written and the error.
module _ {W : Type 0} (write_below : W → Bytes → W × ℕ × Option WriteError) where
  -- The end of `flush`: io.WriteString and the test for a short write.
  unfoldable pub deliver : ScrubbingWriter W → W → Bytes → ScrubbingWriter W × Option WriteError
  deliver w below [] = (w, none)
  deliver w below (c ∷ output) =
      let (below', written, err) = write_below below (c ∷ output) in
      (
        record w { writer = some below' },
        elim err [
          | none ↦ if nat_eq written (length (c ∷ output)) then none else some err_short_write
          | some e ↦ some e
        ],
      )

  unfoldable pub flush : ScrubbingWriter W → Bool → ScrubbingWriter W × Option WriteError
  unfolding flush_loop deliver
  flush w final = elim w.writer [
    | none ↦ (w, none)
    | some below ↦
        let (output, tail) = flush_loop (length w.tail) w.scrubber final [] w.tail in
        deliver (record w { tail = tail }) below output
  ]

  -- Flush()
  unfoldable pub flush_all : ScrubbingWriter W → ScrubbingWriter W × Option WriteError
  unfolding flush
  flush_all w = flush w true

  -- The branch of `write` for a scrubber with no secret.
  unfoldable pub write_through :
      ScrubbingWriter W → W → Bytes → ScrubbingWriter W × ℕ × Option WriteError
  write_through w below payload =
      let (below', written, err) = write_below below payload in
      (record w { writer = some below' }, written, err)

  unfoldable pub write : ScrubbingWriter W → Bytes → ScrubbingWriter W × ℕ × Option WriteError
  unfolding flush write_through
  write w payload = elim w.writer [
    | none ↦ (w, length payload, none)
    | some below ↦ elim w.scrubber.values [
      | [] ↦ write_through w below payload
      | _ ∷ _ ↦
          let (w', err) = flush (record w { tail = w.tail ++ payload }) false in
          (w', length payload, err)
    ]
  ]
