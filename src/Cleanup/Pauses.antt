-- ===== src/Cleanup/Pauses.antt =====
-- When the attempts of a teardown succeed, and how long they wait for each other.
use ovek.Common.{
  ℕ, zero, suc, ◌+◌, ◌-◌, ◌*◌, ◌^◌, ◌<◌, ◌≤◌, ◌≡◌, ◌↔◌, refl, arith, Bool, true, false, Option,
  none, some, leb, leb→le, if◌then◌else◌, inl, inr, Bool-cases, Option-cases, ◌||◌, not, nat_eq,
  sym, ap, ◌∙◌,
}
use native.Mathlib.Nat.{one-le-pow, mul_assoc, le-mul_of_pos_right, le_trans}
use native.Mathlib.Omega.{pow_step}
use ovek.Runtime.{RuntimeError, ContextError, TeardownError, failed, Call}
use ovek.Cleanup.Retry.{
  is_retryable, double_delay, cleanup_runtime_teardown_retry_delay, retry_from,
  retry_runtime_teardown,
}

grown : (c m : ℕ) → 1 ≤ m → 600 ≤ c → 600 ≤ c * m
grown c m positive h = le_trans h (le-mul_of_pos_right c positive)

leb_of_le : (a b : ℕ) → a ≤ b → leb a b ≡ true
leb_of_le a b h = ground arith

lt_of_not_leb : (a b : ℕ) → leb a b ≡ false → b < a
lt_of_not_leb a b h = ground arith

doubled : (n d : ℕ) → d * 2 * 2 ^ n ≡ d * 2 ^ suc n
doubled n d = rw (pow_step 2 n) (mul_assoc d 2 (2 ^ n))

double_delay_closed :
    (n d : ℕ) → d < 600 → double_delay n d ≡ (if leb 600 (d * 2 ^ n) then 600 else d * 2 ^ n)
unfolding double_delay
double_delay_closed zero d h = ground arith
double_delay_closed (suc n) d h = elim (Bool-cases (leb 600 (d * 2))) [
  | inl e ↦
      rw
        (
          e,
          sym (doubled n d),
          leb_of_le _ _ (grown (d * 2) (2 ^ n) (one-le-pow n 2 (omega arith)) (leb→le _ _ e)),
        )
        refl
  | inr e ↦ rw (e, sym (doubled n d)) (double_delay_closed n (d * 2) (lt_of_not_leb _ _ e))
]

module _ {W : Type 0} (sleep : ℕ → Call ContextError W) (teardown : Call RuntimeError W) where
  -- From w, as many attempts fail with an error to retry and pause in full, and lead to u.
  abbrev pub Retries : ℕ → ℕ → W → W → Type 0
  Retries zero attempt w u = w ≡ u
  Retries (suc k) attempt w u =
      (e : RuntimeError) × (teardown w).0 ≡ some e
      × is_retryable e ≡ true
      × (sleep (cleanup_runtime_teardown_retry_delay attempt) (teardown w).1).0 ≡ none
      × Retries k (suc attempt)
          (sleep (cleanup_runtime_teardown_retry_delay attempt) (teardown w).1).1 u

  not_last : (attempt k left : ℕ) → left + attempt ≡ 5 → k < left → nat_eq attempt 5 ≡ false
  not_last attempt k left total h = ground arith

  retry_from_succeeds :
      (left attempt : ℕ) (last_error : Option TeardownError) (w u : W) (k : ℕ)
      → left + attempt ≡ 6
      → k < left
      → Retries k attempt w u
      → (teardown u).0 ≡ none
      → retry_from sleep teardown left attempt last_error w ≡ (none, (teardown u).1)
  unfolding retry_from
  retry_from_succeeds zero attempt last_error w u k total h r success = absurd (omega arith)
  retry_from_succeeds (suc left) attempt last_error w u zero total h r success =
      rw (ap (λ v. (teardown v).0) r ∙ success, retry_from) (ap (λ v. (none, (teardown v).1)) r)
  retry_from_succeeds (suc left) attempt last_error w u (suc k) total h (e, fails, again, pause, r)
        success =
      rw (fails, retry_from, again, not_last attempt k left (omega arith) (omega arith), pause)
        (retry_from_succeeds left (suc attempt) (some (failed e)) _ u k (omega arith) (omega arith)
          r success)

  retry_from_only :
      (left attempt : ℕ) (last_error : Option TeardownError) (w u' : W)
      → left + attempt ≡ 6
      → 1 ≤ left
      → retry_from sleep teardown left attempt last_error w ≡ (none, u')
      → (k : ℕ) × (u : W) × (k < left) × Retries k attempt w u × (teardown u ≡ (none, u'))
  unfolding retry_from
  retry_from_only zero attempt last_error w u' total some_left run = absurd (omega arith)
  retry_from_only (suc left) attempt last_error w u' total some_left run =
      elim (Option-cases (teardown w).0) [
        | inl e ↦ (zero, w, omega arith, refl, succeeded e (rw (e, retry_from) at run))
        | inr (e, fails) ↦ (elim (Bool-cases (not (is_retryable e) || nat_eq attempt 5)) [
          | inl last ↦ absurd (some_none (rw (fails, retry_from, last) at run))
          | inr more ↦
              (elim (Option-cases
                (sleep (cleanup_runtime_teardown_retry_delay attempt) (teardown w).1).0) [
                  | inr (c, cut) ↦ absurd (some_none (rw (fails, retry_from, more, cut) at run))
                  | inl pause ↦
                      let (k, u, below, r, done) =
                        retry_from_only left (suc attempt) (some (failed e)) _ u' (omega arith)
                          (more_left (is_retryable e) attempt left total more)
                          (rw (fails, retry_from, more, pause) at run) in
                      (suc k, u, omega arith, (e, fails, retryable _ _ more, pause, r), done)
                ])
        ])
      ]
    where
      succeeded :
          {w u' : W}
          → (teardown w).0 ≡ none
          → ◌≡◌ {A = Option TeardownError × W} (none, (teardown w).1) (none, u')
          → teardown w ≡ (none, u')
      succeeded e run = cc

      some_none :
          {x : TeardownError} {v u' : W}
          → ◌≡◌ {A = Option TeardownError × W} (some x, v) (none, u')
          → ⊥
      some_none run = cc

      more_left :
          (b : Bool) (attempt left : ℕ)
          → suc left + attempt ≡ 6
          → (not b || nat_eq attempt 5) ≡ false
          → 1 ≤ left
      more_left b attempt left total h = ground arith

      retryable : (b c : Bool) → (not b || c) ≡ false → b ≡ true
      retryable b c h = ground arith

  -- A teardown succeeds exactly when up to four attempts fail with an error to retry, each with
  -- its pause in full, and the attempt after them succeeds.
  pub retry-succeeds_iff :
      (w u' : W)
      → (retry_runtime_teardown sleep teardown w ≡ (none, u'))
        ↔ ((k : ℕ) × (u : W) × (k < 5) × Retries k 1 w u × (teardown u ≡ (none, u')))
  unfolding retry_runtime_teardown
  retry-succeeds_iff w u' = (
    retry_from_only 5 1 none w u' refl (omega arith),
    λ (k, u, below, r, success).
        retry_from_succeeds 5 1 none w u k refl below r (ap (λ x. x.0) success)
        ∙ ap (λ x. (none, x.1)) success,
  )

-- The pause after an attempt is 150 ms, doubled for each attempt before it, and 600 ms at most.
pub retry_delay_closed :
    (n : ℕ)
    → cleanup_runtime_teardown_retry_delay (suc n)
      ≡ (if leb 600 (150 * 2 ^ n) then 600 else 150 * 2 ^ n)
unfolding cleanup_runtime_teardown_retry_delay
retry_delay_closed n = rw (minus n) (double_delay_closed n 150 (omega arith))
  where
    minus : (n : ℕ) → suc n - 1 ≡ n
    minus n = omega arith
