-- ===== src/Scrubber/Delivery.antt =====
-- How `flush` hands its output to an io.Writer that takes all it is given.
use ovek.Common.{
  ℕ, ◌≡◌, refl, sym, ap, Bool, Option, none, some, [], ◌∷◌, ◌++◌, append-nil, length, nat_eq_refl,
}
use ovek.Scrubber.{Bytes, WriteError, ScrubbingWriter, flush_loop, deliver, flush}

-- io.Writer where it meets no error: all of a payload is appended to what was written before.
pub record Accepts {W : Type 0} (write_below : W → Bytes → W × ℕ × Option WriteError)
    (contents : W → Bytes) : Type 0 where
  pub appends : (w : W) (b : Bytes) → contents (write_below w b).0 ≡ contents w ++ b
  pub counts : (w : W) (b : Bytes) → (write_below w b).1 ≡ length b
  pub succeeds : (w : W) (b : Bytes) → (write_below w b).2 ≡ none

module _ {W : Type 0} {write_below : W → Bytes → W × ℕ × Option WriteError} {contents : W → Bytes}
    (accepts : Accepts write_below contents) where
  pub record Delivered (w : ScrubbingWriter W) (below : W) (output : Bytes)
      (r : ScrubbingWriter W × Option WriteError) : Type 0 where
    pub below' : W
    pub is_open : r.0.writer ≡ some below'
    pub same : r.0.scrubber ≡ w.scrubber
    pub tail : r.0.tail ≡ w.tail
    pub written : contents below' ≡ contents below ++ output
    pub succeeds : r.1 ≡ none

  deliver-Delivered :
      (w : ScrubbingWriter W) (below : W) (output : Bytes)
      → w.writer ≡ some below
      → Delivered w below output (deliver write_below w below output)
  unfolding deliver
  deliver-Delivered w below [] e = record {
    below' = below;
    is_open = e;
    same = refl;
    tail = refl;
    written = sym (append-nil _);
    succeeds = refl;
  }
  deliver-Delivered w below (c ∷ output) e = record {
    below' = (write_below below (c ∷ output)).0;
    is_open = refl;
    same = refl;
    tail = refl;
    written = accepts.appends below (c ∷ output);
    succeeds =
        rw (accepts.succeeds below (c ∷ output))
          (rw (accepts.counts below (c ∷ output)) (rw (nat_eq_refl (length (c ∷ output)))));
  }

  flush_lem :
      (w : ScrubbingWriter W) (below : W) (final : Bool)
      → w.writer ≡ some below
      → let r = flush_loop (length w.tail) w.scrubber final [] w.tail in
        flush write_below w final ≡ deliver write_below (record w { tail = r.1 }) below r.0
  unfolding flush
  flush_lem w below final e = rw e

  pub record Flushed (w : ScrubbingWriter W) (below : W) (final : Bool)
      (r : ScrubbingWriter W × Option WriteError) : Type 0 where
    pub below' : W
    pub output : Bytes
    pub is_open : r.0.writer ≡ some below'
    pub same : r.0.scrubber ≡ w.scrubber
    pub loop : flush_loop (length w.tail) w.scrubber final [] w.tail ≡ (output, r.0.tail)
    pub written : contents below' ≡ contents below ++ output
    pub succeeds : r.1 ≡ none

  pub flush-Flushed :
      (w : ScrubbingWriter W) (below : W) (final : Bool)
      → w.writer ≡ some below
      → Flushed w below final (flush write_below w final)
  flush-Flushed w below final e =
      let (output, tail) = flush_loop (length w.tail) w.scrubber final [] w.tail in
      let d = deliver-Delivered (record w { tail = tail }) below output e in
      rw (flush_lem w below final e) (record {
        below' = d.below';
        output = output;
        is_open = d.is_open;
        same = d.same;
        loop = ap (λ u. (output, u)) (sym d.tail);
        written = d.written;
        succeeds = d.succeeds;
      })
