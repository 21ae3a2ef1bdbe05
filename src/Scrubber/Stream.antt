-- ===== src/Scrubber/Stream.antt =====
-- What a log stream through the redactor of cmd/brain/secret_scrubber.go guarantees.
use ovek.Common.{
  ℕ, ◌≡◌, refl, sym, ap, ◌∙◌, true, false, Option, none, some, List, [], ◌∷◌, ◌++◌, length, ltb,
  Memᴰ, inl, inr, arith, subst, ◌≤◌, Bool-cases, if◌then◌else◌, flatten,
}
use mathlib.Core.Option.{some-injective}
use ovek.Scrubber.{
  Bytes, min_secret_scrub_length, WriteError, ScrubbingWriter, new_secret_scrubber, new_writer,
  flush_all,
}
use ovek.Scrubber.Redaction.{Redacts}
use ovek.Scrubber.Output.{Redacts-unique, Redacts-same_keys}
use ovek.Scrubber.Keys.{IsScrubbed}
use ovek.Scrubber.Build.{WalksKeys, mem_of_new_secret_scrubber, new_secret_scrubber-IsValid}
use ovek.Scrubber.Leaks.{avoids_mark, contains, contains-Redacts}
use ovek.Scrubber.Delivery.{Accepts}
use ovek.Scrubber.Writer.{write_chunks, stream-IsRedacted}

-- The values that are long enough to be hidden, as they were given.
unfoldable pub scrubbed : List Bytes → List Bytes
scrubbed [] = []
scrubbed (t ∷ ts) = if ltb (length t) min_secret_scrub_length then scrubbed ts else t ∷ scrubbed ts

mem_scrubbed :
    (values : List Bytes) (t : Bytes) → Memᴰ t (scrubbed values) → Memᴰ t values × IsScrubbed t
unfolding scrubbed
mem_scrubbed [] t m = elim m [ ]
mem_scrubbed (v ∷ vs) t m = elim (Bool-cases (ltb (length v) min_secret_scrub_length)) [
  | inl e ↦ later (mem_scrubbed vs t (rw e at m))
  | inr e ↦ here e (mem_scrubbed vs t) (rw e at m)
]
  where
    later : Memᴰ t vs × IsScrubbed t → Memᴰ t (v ∷ vs) × IsScrubbed t
    later (n, l) = (Memᴰ.tail n, l)

    here :
        ltb (length v) min_secret_scrub_length ≡ false
        → (Memᴰ t (scrubbed vs) → Memᴰ t vs × IsScrubbed t)
        → Memᴰ t (v ∷ scrubbed vs)
        → Memᴰ t (v ∷ vs) × IsScrubbed t
    here e ih (Memᴰ.head p) = (Memᴰ.head p, rw p (ground arith))
    here e ih (Memᴰ.tail n) = later (ih n)

mem_of_scrubbed :
    (values : List Bytes) (t : Bytes) → Memᴰ t values → IsScrubbed t → Memᴰ t (scrubbed values)
unfolding scrubbed
mem_of_scrubbed [] t m l = elim m [ ]
mem_of_scrubbed (v ∷ vs) t (Memᴰ.head p) l = rw (long (rw p at l)) (Memᴰ.head p)
  where
    long : IsScrubbed v → ltb (length v) min_secret_scrub_length ≡ false
    long h = ground arith
mem_of_scrubbed (v ∷ vs) t (Memᴰ.tail m) l =
    elim (Bool-cases (ltb (length v) min_secret_scrub_length)) [
      | inl e ↦ rw e (mem_of_scrubbed vs t m l)
      | inr e ↦ rw e (Memᴰ.tail (mem_of_scrubbed vs t m l))
    ]

module _ {W : Type 0} {write_below : W → Bytes → W × ℕ × Option WriteError} {contents : W → Bytes}
    (accepts : Accepts write_below contents) where
  -- A log copied into a fresh redactor chunk by chunk, then flushed.
  abbrev pub streamed :
      (List Bytes → List Bytes)
      → List Bytes
      → W
      → List Bytes
      → ScrubbingWriter W × Option WriteError
  streamed range_order values below chunks = flush_all write_below (
      write_chunks write_below (new_writer (new_secret_scrubber range_order values) (some below))
        chunks)

  module _ (range_order : List Bytes → List Bytes) (walks : WalksKeys range_order)
      (values : List Bytes) (below : W) (chunks : List Bytes) where
    -- However the log is cut into chunks, and in whatever order Go walks the set of secrets, the
    -- stream ends with no error, and what the writer below has received is the redaction of the
    -- whole log by the secrets of at least four bytes.
    pub streamed-Redacts :
        (below' : W) × (output : Bytes) × ((streamed range_order values below chunks).0.writer
          ≡ some below')
        × (contents below' ≡ contents below ++ output)
        × Redacts (scrubbed values) (flatten chunks) output
        × ((streamed range_order values below chunks).1 ≡ none)
    streamed-Redacts =
        let scrubber = new_secret_scrubber range_order values in
        let r =
          stream-IsRedacted accepts scrubber (contents below)
            (new_secret_scrubber-IsValid range_order walks values) below chunks refl in
        let keys = mem_of_new_secret_scrubber range_order walks values in
        (
          r.below,
          r.output,
          r.is_open,
          r.written,
          Redacts-same_keys scrubber.values (scrubbed values)
              (λ t m. mem_of_scrubbed values t ((keys t).0 m).0 ((keys t).0 m).1)
              (λ t m. (keys t).1 (mem_scrubbed values t m)) (flatten chunks) r.output r.redacts,
          r.succeeds,
        )

    -- A secret of at least four bytes that holds no '[' and does not begin with a byte of
    -- "[redacted]" is nowhere in what the stream adds to the log.
    pub contains-streamed :
        (p : ℕ) (t : Bytes) (below' : W)
        → Memᴰ (p ∷ t) values
        → min_secret_scrub_length ≤ length (p ∷ t)
        → avoids_mark (p ∷ t) ≡ true
        → (streamed range_order values below chunks).0.writer ≡ some below'
        → (output : Bytes) × (contents below' ≡ contents below ++ output)
          × (contains output (p ∷ t) ≡ false)
    contains-streamed p t below' m l h e =
        let (found, output, is_open, written, redacts, _) = streamed-Redacts in
        (
          output,
          ap contents (some-injective _ _ (sym e ∙ is_open)) ∙ written,
          contains-Redacts (scrubbed values) p t (flatten chunks) output
              (mem_of_scrubbed values (p ∷ t) m l) h redacts,
        )

  -- Two streams of one log, cut differently and with the secrets walked in different orders, leave
  -- the same text below.
  pub streamed_unique :
      (order order' : List Bytes → List Bytes)
      → WalksKeys order
      → WalksKeys order'
      → (values : List Bytes) (below : W) (chunks chunks' : List Bytes) (w w' : W)
      → flatten chunks ≡ flatten chunks'
      → (streamed order values below chunks).0.writer ≡ some w
      → (streamed order' values below chunks').0.writer ≡ some w'
      → contents w ≡ contents w'
  streamed_unique order order' walks walks' values below chunks chunks' w w' same e e' =
      let (u, a, is_open, written, redacts, _) = streamed-Redacts order walks values below chunks in
      let (v, b, is_open', written', redacts', _) =
        streamed-Redacts order' walks' values below chunks' in
      let outputs =
        Redacts-unique (scrubbed values) (flatten chunks) a b redacts
          (subst (λ s. Redacts (scrubbed values) s b) (sym same) redacts') in
      ap contents (some-injective _ _ (sym e ∙ is_open))
      ∙ written
      ∙ ap (λ s. contents below ++ s) outputs
      ∙ sym (ap contents (some-injective _ _ (sym e' ∙ is_open')) ∙ written')
