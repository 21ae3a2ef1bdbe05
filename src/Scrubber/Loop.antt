-- ===== src/Scrubber/Loop.antt =====
-- One round of the loop of `flush`, branch by branch, and that its fuel suffices.
use ovek.Common.{
  ℕ, zero, suc, ◌≤◌, ◌≡◌, refl, Bool, true, false, not, ◌&&◌, [], ◌∷◌, ◌++◌, arith, length,
  Bool-cases, ltb, inl, inr,
}
use ovek.Scrubber.{Bytes, first_match, drop, redacted, SecretScrubber, flush_loop, is_empty}

-- The test by which the loop waits for more input.
abbrev pub waits : SecretScrubber → Bool → Bytes → Bool
waits scrubber final tail = not final && ltb (length tail) scrubber.max_len

module _ (fuel : ℕ) (scrubber : SecretScrubber) (final : Bool) (output : Bytes) where
  pub flush_loop-nil : flush_loop fuel scrubber final output [] ≡ (output, [])
  unfolding flush_loop
  flush_loop-nil = elim fuel as (λ n. flush_loop n scrubber final output [] ≡ (output, [])) [
    | zero ↦ refl
    | suc n ↦ refl
  ]

  module _ (c : ℕ) (tail : Bytes) where
    pub flush_loop-wait :
        waits scrubber final (c ∷ tail) ≡ true
        → flush_loop (suc fuel) scrubber final output (c ∷ tail) ≡ (output, c ∷ tail)
    unfolding flush_loop
    flush_loop-wait e = rw e

    pub flush_loop-hide :
        waits scrubber final (c ∷ tail) ≡ false
        → is_empty (first_match scrubber.values (c ∷ tail)) ≡ false
        → flush_loop (suc fuel) scrubber final output (c ∷ tail)
          ≡ flush_loop fuel scrubber final
              (output ++ redacted)
              (drop (length (first_match scrubber.values (c ∷ tail))) (c ∷ tail))
    unfolding flush_loop
    flush_loop-hide e f = rw (e, f)

    pub flush_loop-keep :
        waits scrubber final (c ∷ tail) ≡ false
        → is_empty (first_match scrubber.values (c ∷ tail)) ≡ true
        → flush_loop (suc fuel) scrubber final output (c ∷ tail)
          ≡ flush_loop fuel scrubber final (output ++ c ∷ []) tail
    unfolding flush_loop
    flush_loop-keep e f = rw (e, f)

pub length-drop_suc :
    (m : Bytes) (c : ℕ) (tail : Bytes) (n : ℕ)
    → is_empty m ≡ false
    → length tail ≤ n
    → length (drop (length m) (c ∷ tail)) ≤ n
length-drop_suc [] c tail n e h = cc
length-drop_suc (d ∷ m) c tail n e h = go (length m) tail n h
  where
    go : (k : ℕ) (s : Bytes) (n : ℕ) → length s ≤ n → length (drop k s) ≤ n
    go zero s n h = h
    go (suc k) [] n h = h
    go (suc k) (x ∷ s) n h = go k s n (omega arith)

-- At the end of the input the loop looks at every byte: a tail is left by no amount of fuel that
-- reaches its length.
pub flush_loop_total :
    (scrubber : SecretScrubber) (fuel : ℕ) (output tail : Bytes)
    → length tail ≤ fuel
    → (flush_loop fuel scrubber true output tail).1 ≡ []
flush_loop_total scrubber fuel output [] h = rw flush_loop-nil
flush_loop_total scrubber zero output (c ∷ tail) h = absurd (omega arith)
flush_loop_total scrubber (suc fuel) output (c ∷ tail) h =
    elim (Bool-cases (is_empty (first_match scrubber.values (c ∷ tail)))) [
      | inl e ↦
          rw (flush_loop-keep fuel scrubber true output c tail refl e)
            (flush_loop_total scrubber fuel (output ++ c ∷ []) tail (omega arith))
      | inr e ↦ rw (flush_loop-hide fuel scrubber true output c tail refl e) (
          flush_loop_total scrubber fuel (output ++ redacted)
            (drop (length (first_match scrubber.values (c ∷ tail))) (c ∷ tail))
            (length-drop_suc (first_match scrubber.values (c ∷ tail)) c tail fuel e (omega arith)))
    ]
