-- ===== src/Scrubber/Writer.antt =====
-- The writer of cmd/brain/secret_scrubber.go above an io.Writer that takes all it is given.
use ovek.Common.{
  ℕ, ◌≡◌, refl, sym, ap, ◌∙◌, Bool, true, false, Option, none, some, List, [], ◌∷◌, ◌++◌,
  append_assoc, append-nil, arith, length, List-cases, inl, inr, flatten,
}
use mathlib.Core.Path.{subst, subst₂}
use ovek.Scrubber.{
  Bytes, SecretScrubber, WriteError, ScrubbingWriter, new_writer, flush_loop, flush, flush_all,
  write,
}
use ovek.Scrubber.Redaction.{Redacts, done, keep}
use ovek.Scrubber.Loop.{flush_loop_total}
use ovek.Scrubber.Delivery.{Accepts, flush-Flushed}
use ovek.Scrubber.Streaming.{IsValid, Pending, flush_loop-Pending}

module _ {W : Type 0} (write_below : W → Bytes → W × ℕ × Option WriteError) where
  -- A copy of a log into the writer, chunk by chunk.
  unfoldable pub write_chunks : ScrubbingWriter W → List Bytes → ScrubbingWriter W
  write_chunks w [] = w
  write_chunks w (chunk ∷ chunks) = write_chunks (write write_below w chunk).0 chunks

module _ {W : Type 0} {write_below : W → Bytes → W × ℕ × Option WriteError} {contents : W → Bytes}
    (accepts : Accepts write_below contents) (scrubber : SecretScrubber) (start : Bytes) where
  -- After the input `s` the writer below holds `start ++ output`, and `tail` waits.
  pub record IsAt (s : Bytes) (w : ScrubbingWriter W) : Type 0 where
    below : W
    output : Bytes
    is_open : w.writer ≡ some below
    same : w.scrubber ≡ scrubber
    written : contents below ≡ start ++ output
    pending : (rest : Bytes) → Pending scrubber.values rest s output w.tail
    through : scrubber.values ≡ [] → w.tail ≡ []

  write_filled :
      (w : ScrubbingWriter W) (below : W) (payload v : Bytes) (vs : List Bytes)
      → w.writer ≡ some below
      → w.scrubber.values ≡ v ∷ vs
      → (write write_below w payload).0
        ≡ (flush write_below (record w { tail = w.tail ++ payload }) false).0
  unfolding write
  write_filled w below payload v vs e f = rw (e, f)

  write_empty :
      (w : ScrubbingWriter W) (below : W) (payload : Bytes)
      → w.writer ≡ some below
      → w.scrubber.values ≡ []
      → (write write_below w payload).0 ≡ record w { writer = some (write_below below payload).0 }
  unfolding write
  write_empty w below payload e f = rw (e, f)

  module _ (valid : IsValid scrubber) where
    more_input :
        (s output tail payload rest : Bytes)
        → Pending scrubber.values (payload ++ rest) s output tail
        → Pending scrubber.values rest (s ++ payload) output (tail ++ payload)
    more_input s output tail payload rest p after r =
        subst (λ u. Redacts scrubber.values u (output ++ after)) (sym (append_assoc s payload rest))
          (p after
            (subst (λ u. Redacts scrubber.values u after) (append_assoc tail payload rest) r))

    looped :
        (final : Bool) (t rest output tail : Bytes)
        → (final ≡ true → rest ≡ [])
        → flush_loop (length t) scrubber final [] t ≡ (output, tail)
        → Pending scrubber.values rest t output tail
    looped final t rest output tail h e =
        subst {A = Bytes × Bytes} (λ r. Pending scrubber.values rest t r.0 r.1) e
          (flush_loop-Pending scrubber valid final rest t h (length t) [] t (omega arith)
            (λ _ r. r))

    same_loop :
        (t : Bytes) (u : SecretScrubber) (final : Bool) {r : Bytes × Bytes}
        → u ≡ scrubber
        → flush_loop (length t) u final [] t ≡ r
        → flush_loop (length t) scrubber final [] t ≡ r
    same_loop t u final e h = rw (← e) h

    write_filled-IsAt :
        (s : Bytes) (w : ScrubbingWriter W) (payload v : Bytes) (vs : List Bytes)
        → scrubber.values ≡ v ∷ vs
        → IsAt s w
        → IsAt (s ++ payload) (write write_below w payload).0
    write_filled-IsAt s w payload v vs e at =
        let f =
          flush-Flushed accepts (record w { tail = w.tail ++ payload }) at.below false at.is_open in
        rw (write_filled w at.below payload v vs at.is_open (ap (λ u. u.values) at.same ∙ e))
          (record {
            below = f.below';
            output = at.output ++ f.output;
            is_open = f.is_open;
            same = f.same ∙ at.same;
            written =
                f.written
                ∙ ap (λ u. u ++ f.output) at.written
                ∙ append_assoc start at.output f.output;
            pending = λ rest after r.
                subst (Redacts scrubber.values ((s ++ payload) ++ rest))
                  (sym (append_assoc at.output f.output after))
                  (more_input s at.output w.tail payload rest (at.pending (payload ++ rest))
                    (f.output ++ after)
                    (looped false (w.tail ++ payload) rest f.output _ (λ h. cc)
                      (same_loop (w.tail ++ payload) w.scrubber false at.same f.loop) after r));
            through = λ none. cc (e, none);
          })

    keep_all :
        (payload rest after : Bytes)
        → scrubber.values ≡ []
        → Redacts scrubber.values rest after
        → Redacts scrubber.values (payload ++ rest) (payload ++ after)
    keep_all [] rest after e r = r
    keep_all (c ∷ payload) rest after e r = keep c (rw e tt) (keep_all payload rest after e r)

    write_empty-IsAt :
        (s : Bytes) (w : ScrubbingWriter W) (payload : Bytes)
        → scrubber.values ≡ []
        → IsAt s w
        → IsAt (s ++ payload) (write write_below w payload).0
    write_empty-IsAt s w payload e at =
        rw (write_empty w at.below payload at.is_open (ap (λ u. u.values) at.same ∙ e)) (record {
          below = (write_below at.below payload).0;
          output = at.output ++ payload;
          is_open = refl;
          same = at.same;
          written =
              accepts.appends at.below payload
              ∙ ap (λ u. u ++ payload) at.written
              ∙ append_assoc start at.output payload;
          pending = λ rest after r.
              subst₂ (Redacts scrubber.values) (sym (append_assoc s payload rest))
                (sym (append_assoc at.output payload after))
                (at.pending (payload ++ rest) (payload ++ after) (
                  rw (at.through e) (
                    keep_all payload rest after e
                      (subst (λ t. Redacts scrubber.values (t ++ rest) after) (at.through e) r))));
          through = at.through;
        })

    write-IsAt :
        (s : Bytes) (w : ScrubbingWriter W) (payload : Bytes)
        → IsAt s w
        → IsAt (s ++ payload) (write write_below w payload).0
    write-IsAt s w payload at = elim (List-cases scrubber.values) [
      | inl e ↦ write_empty-IsAt s w payload e at
      | inr (v, vs, e) ↦ write_filled-IsAt s w payload v vs e at
    ]

    write_chunks-IsAt :
        (s : Bytes) (w : ScrubbingWriter W) (chunks : List Bytes)
        → IsAt s w
        → IsAt (s ++ flatten chunks) (write_chunks write_below w chunks)
    unfolding write_chunks
    write_chunks-IsAt s w [] at = rw append-nil at
    write_chunks-IsAt s w (chunk ∷ chunks) at =
        subst (λ u. IsAt u (write_chunks write_below (write write_below w chunk).0 chunks))
          (append_assoc s chunk (flatten chunks))
          (write_chunks-IsAt (s ++ chunk) (write write_below w chunk).0 chunks
            (write-IsAt s w chunk at))

    new_writer-IsAt :
        (below : W) → contents below ≡ start → IsAt [] (new_writer scrubber (some below))
    unfolding new_writer
    new_writer-IsAt below e = record {
      below = below;
      output = [];
      is_open = refl;
      same = refl;
      written = e ∙ sym (append-nil start);
      pending = λ rest after r. r;
      through = λ _. refl;
    }

    pub record IsRedacted (s : Bytes) (r : ScrubbingWriter W × Option WriteError) : Type 0 where
      pub below : W
      pub output : Bytes
      pub is_open : r.0.writer ≡ some below
      pub written : contents below ≡ start ++ output
      pub redacts : Redacts scrubber.values s output
      pub emptied : r.0.tail ≡ []
      pub succeeds : r.1 ≡ none

    flush_all-IsRedacted :
        (s : Bytes) (w : ScrubbingWriter W) → IsAt s w → IsRedacted s (flush_all write_below w)
    unfolding flush_all
    flush_all-IsRedacted s w at =
        let f = flush-Flushed accepts w at.below true at.is_open in
        let loop = same_loop w.tail w.scrubber true at.same f.loop in
        let emptied =
          sym (ap {A = Bytes × Bytes} (λ u. u.1) loop)
          ∙ flush_loop_total scrubber (length w.tail) [] w.tail (omega arith) in
        record {
          below = f.below';
          output = at.output ++ f.output;
          is_open = f.is_open;
          written =
              f.written
              ∙ ap (λ u. u ++ f.output) at.written
              ∙ append_assoc start at.output f.output;
          redacts =
              subst₂ (Redacts scrubber.values) (append-nil s)
                (ap (λ u. at.output ++ u) (append-nil f.output))
                (at.pending [] (f.output ++ [])
                  (looped true w.tail [] f.output _ (λ _. refl) loop [] (rw emptied done)));
          emptied = emptied;
          succeeds = f.succeeds;
        }

    -- A whole stream: a fresh writer, the chunks, and the flush.
    pub stream-IsRedacted :
        (below : W) (chunks : List Bytes)
        → contents below ≡ start
        → IsRedacted (flatten chunks) (
            flush_all write_below
              (write_chunks write_below (new_writer scrubber (some below)) chunks))
    stream-IsRedacted below chunks e =
        flush_all-IsRedacted (flatten chunks)
          (write_chunks write_below (new_writer scrubber (some below)) chunks)
          (write_chunks-IsAt [] (new_writer scrubber (some below)) chunks (new_writer-IsAt below e))
