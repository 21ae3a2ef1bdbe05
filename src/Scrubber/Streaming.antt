-- ===== src/Scrubber/Streaming.antt =====
-- The writer redacts what is written to it, however it is cut into chunks.
use ovek.Common.{
  ℕ, zero, suc, ◌≤◌, ◌≡◌, refl, sym, ap, ◌∙◌, inl, inr, Bool, true, false, ◌&&◌, List, [], ◌∷◌,
  ◌++◌, append_assoc, append-nil, arith, length, All, Bool-cases, ltb, not,
}
use mathlib.Core.Path.{subst}
use ovek.Scrubber.{
  Bytes, has_prefix, first_match, drop, redacted, SecretScrubber, flush_loop, is_empty,
}
use ovek.Scrubber.Loop.{
  waits, flush_loop-nil, flush_loop-wait, flush_loop-hide, flush_loop-keep, length-drop_suc,
}
use ovek.Scrubber.Redaction.{
  IsLongest, NoneBegins, Redacts, hide, keep, IsFilled, IsLongestFirst, has_prefix-split,
  has_prefix-length, has_prefix-append, first_match-cases,
}

pub record IsValid (scrubber : SecretScrubber) : Type 0 where
  pub filled : All IsFilled scrubber.values
  pub longest_first : IsLongestFirst scrubber.values
  pub fits : All (λ t. length t ≤ scrubber.max_len) scrubber.values

-- The output so far for the input so far, with a tail not yet looked at, when `rest` still follows.
abbrev pub Pending : List Bytes → Bytes → Bytes → Bytes → Bytes → Type 0
Pending secrets rest s output tail =
    (after : Bytes)
    → Redacts secrets (tail ++ rest) after
    → Redacts secrets (s ++ rest) (output ++ after)

-- What follows the tail does not decide which secret it begins with.
abbrev IsSettled : List Bytes → Bytes → Bytes → Type 0
IsSettled secrets rest tail = All (λ t. has_prefix (tail ++ rest) t ≡ has_prefix tail t) secrets

module _ (rest tail : Bytes) where
  NoneBegins-settled :
      (secrets : List Bytes)
      → IsSettled secrets rest tail
      → NoneBegins secrets tail
      → NoneBegins secrets (tail ++ rest)
  NoneBegins-settled [] settled none_begins = tt
  NoneBegins-settled (t ∷ ts) settled none_begins =
      (settled.0 ∙ none_begins.0, NoneBegins-settled ts settled.1 none_begins.1)

  longest-settled :
      (secrets : List Bytes) (n : ℕ)
      → IsSettled secrets rest tail
      → All (λ t. has_prefix tail t ≡ true → length t ≤ n) secrets
      → All (λ t. has_prefix (tail ++ rest) t ≡ true → length t ≤ n) secrets
  longest-settled [] n settled longest = tt
  longest-settled (t ∷ ts) n settled longest =
      (λ p. longest.0 (sym settled.0 ∙ p), longest-settled ts n settled.1 longest.1)

  IsLongest-settled :
      (secrets : List Bytes) (m : Bytes)
      → IsSettled secrets rest tail
      → IsLongest secrets tail m
      → IsLongest secrets (tail ++ rest) m
  IsLongest-settled secrets m settled l = record {
    listed = l.listed;
    filled = l.filled;
    begins = has_prefix-append tail rest m (has_prefix-length tail m l.begins) ∙ l.begins;
    longest = longest-settled secrets (length m) settled l.longest;
  }

module _ (secrets : List Bytes) (rest s output : Bytes) where
  split :
      (tail m : Bytes)
      → has_prefix tail m ≡ true
      → tail ++ rest ≡ m ++ (drop (length m) tail ++ rest)
  split tail m e =
      ap (λ u. u ++ rest) (has_prefix-split tail m e) ∙ append_assoc m (drop (length m) tail) rest

  Pending-hide :
      (tail m : Bytes)
      → IsSettled secrets rest tail
      → IsLongest secrets tail m
      → Pending secrets rest s output tail
      → Pending secrets rest s (output ++ redacted) (drop (length m) tail)
  Pending-hide tail m settled l p after r =
      subst (Redacts secrets (s ++ rest)) (sym (append_assoc output redacted after)) (
        p (redacted ++ after)
          (hide m (IsLongest-settled rest tail secrets m settled l) (split tail m l.begins) r))

  Pending-keep :
      (c : ℕ) (tail : Bytes)
      → IsSettled secrets rest (c ∷ tail)
      → NoneBegins secrets (c ∷ tail)
      → Pending secrets rest s output (c ∷ tail)
      → Pending secrets rest s (output ++ c ∷ []) tail
  Pending-keep c tail settled none_begins p after r =
      subst (Redacts secrets (s ++ rest)) (sym (append_assoc output (c ∷ []) after))
        (p (c ∷ after) (keep c (NoneBegins-settled rest (c ∷ tail) secrets settled none_begins) r))

IsSettled-of_length :
    (secrets : List Bytes) (rest tail : Bytes) (n : ℕ)
    → All (λ t. length t ≤ n) secrets
    → n ≤ length tail
    → IsSettled secrets rest tail
IsSettled-of_length [] rest tail n fits h = tt
IsSettled-of_length (t ∷ ts) rest tail n fits h =
    (has_prefix-append tail rest t (omega arith), IsSettled-of_length ts rest tail n fits.1 h)

IsSettled-at_end : (secrets : List Bytes) (tail : Bytes) → IsSettled secrets [] tail
IsSettled-at_end [] tail = tt
IsSettled-at_end (t ∷ ts) tail =
    (ap (λ u. has_prefix u t) (append-nil tail), IsSettled-at_end ts tail)

module _ (scrubber : SecretScrubber) (valid : IsValid scrubber) where
  -- The loop takes a byte or a secret only where `rest` cannot change what it sees.
  IsSettled-of_test :
      (final : Bool) (rest tail : Bytes)
      → (final ≡ true → rest ≡ [])
      → (not final && ltb (length tail) scrubber.max_len) ≡ false
      → IsSettled scrubber.values rest tail
  IsSettled-of_test true rest tail h e =
      subst (λ r. IsSettled scrubber.values r tail) (sym (h refl))
        (IsSettled-at_end scrubber.values tail)
  IsSettled-of_test false rest tail h e =
      IsSettled-of_length scrubber.values rest tail scrubber.max_len valid.fits (ground arith)

  is_empty_of_IsLongest : (tail m : Bytes) → IsLongest scrubber.values tail m → is_empty m ≡ false
  is_empty_of_IsLongest tail [] l = absurd (omega (arith, l.filled))
  is_empty_of_IsLongest tail (c ∷ m) l = refl

  pub flush_loop-Pending :
      (final : Bool) (rest s : Bytes)
      → (final ≡ true → rest ≡ [])
      → (fuel : ℕ) (output tail : Bytes) → length tail ≤ fuel
      → Pending scrubber.values rest s output tail
      → let r = flush_loop fuel scrubber final output tail in Pending scrubber.values rest s r.0 r.1
  flush_loop-Pending final rest s h fuel output [] le p = rw flush_loop-nil p
  flush_loop-Pending final rest s h zero output (c ∷ tail) le p = absurd (omega arith)
  flush_loop-Pending final rest s h (suc fuel) output (c ∷ tail) le p =
      elim (Bool-cases (waits scrubber final (c ∷ tail))) [
        | inl wait ↦ rw (flush_loop-wait fuel scrubber final output c tail wait) p
        | inr go ↦
            let settled = IsSettled-of_test final rest (c ∷ tail) h go in
            let m = first_match scrubber.values (c ∷ tail) in
            elim (first_match-cases scrubber.values (c ∷ tail) valid.longest_first valid.filled) [
              | inl (missed, none_begins) ↦
                  rw (flush_loop-keep fuel scrubber final output c tail go (ap is_empty missed)) (
                    flush_loop-Pending final rest s h fuel (output ++ c ∷ []) tail (omega arith)
                      (Pending-keep scrubber.values rest s output c tail settled none_begins p))
              | inr l ↦
                  let full = is_empty_of_IsLongest (c ∷ tail) m l in
                  rw (flush_loop-hide fuel scrubber final output c tail go full) (
                    flush_loop-Pending final rest s h fuel (output ++ redacted)
                      (drop (length m) (c ∷ tail))
                      (length-drop_suc m c tail fuel full (omega arith))
                      (Pending-hide scrubber.values rest s output (c ∷ tail) m settled l p))
            ]
      ]
