-- ===== src/Cleanup/Retry.antt =====
-- The attempts of a teardown: retryRuntimeTeardown of cmd/brain/cleanup.go. A delay is in
-- milliseconds, and a pause may end because its context is done.
use ovek.Common.{
  ℕ, zero, suc, ◌-◌, ◌*◌, Bool, true, false, not, ◌||◌, Option, none, some, leb, nat_eq,
  if◌then◌else◌,
}
use ovek.Runtime.{RuntimeError, ContextError, TeardownError, failed, interrupted, Call}

abbrev pub cleanup_runtime_teardown_attempts : ℕ
cleanup_runtime_teardown_attempts = 5

abbrev pub cleanup_runtime_teardown_initial_retry_delay : ℕ
cleanup_runtime_teardown_initial_retry_delay = 150

abbrev pub cleanup_runtime_teardown_max_retry_delay : ℕ
cleanup_runtime_teardown_max_retry_delay = 600

abbrev pub is_retryable : RuntimeError → Bool
is_retryable e = e.is_conflict || (e.is_internal || (e.is_unknown || e.is_unavailable))

-- The loop of cleanupRuntimeTeardownRetryDelay, with the iterations that are left.
unfoldable pub double_delay : ℕ → ℕ → ℕ
double_delay zero delay = delay
double_delay (suc left) delay =
    let doubled = delay * 2 in
    let rest = double_delay left doubled in
    if leb cleanup_runtime_teardown_max_retry_delay doubled
    then cleanup_runtime_teardown_max_retry_delay
    else rest

unfoldable pub cleanup_runtime_teardown_retry_delay : ℕ → ℕ
cleanup_runtime_teardown_retry_delay attempt =
    double_delay (attempt - 1) cleanup_runtime_teardown_initial_retry_delay

module _ {W : Type 0} (sleep : ℕ → Call ContextError W) (teardown : Call RuntimeError W) where
  -- The loop, with the attempts that are left, the attempt and lastErr.
  unfoldable pub retry_from : ℕ → ℕ → Option TeardownError → Call TeardownError W
  retry_from zero attempt last_error w = (last_error, w)
  retry_from (suc left) attempt last_error w =
      let (error, w1) = teardown w in
      elim error [
        | none ↦ (none, w1)
        | some e ↦
            (elim (not (is_retryable e) || nat_eq attempt cleanup_runtime_teardown_attempts) [
              | true ↦ (some (failed e), w1)
              | false ↦
                  let (cut, w2) = sleep (cleanup_runtime_teardown_retry_delay attempt) w1 in
                  elim cut [
                    | some c ↦ (some (interrupted c e), w2)
                    | none ↦ retry_from left (suc attempt) (some (failed e)) w2
                  ]
            ])
      ]

  unfoldable pub retry_runtime_teardown : Call TeardownError W
  retry_runtime_teardown = retry_from cleanup_runtime_teardown_attempts 1 none
