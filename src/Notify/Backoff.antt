-- ===== src/Notify/Backoff.antt =====
-- backend/internal/notify/backoff.go: the delays between attempts.
use healthpage.Prelude.{
  ℕ, zero, suc, ◌-◌, ◌*◌, ◌||◌, Option, none, some, List, [], ◌∷◌, ltb, if◌then◌else◌,
  nat_comparable, string_comparable, length,
}

-- time.Minute, in nanoseconds
abbrev pub minute : ℕ
minute = 60000000000

-- retrySchedule
abbrev pub retry_schedule : List ℕ
retry_schedule = (1 * minute) ∷ (5 * minute) ∷ (30 * minute) ∷ []

abbrev pub max_attempts : ℕ
max_attempts = length retry_schedule

abbrev pub get_elem? : List ℕ → ℕ → Option ℕ
get_elem? [] i = none
get_elem? (x ∷ xs) zero = some x
get_elem? (x ∷ xs) (suc i) = get_elem? xs i

-- RetryBackoff; `none` is `(0, false)`
unfoldable pub retry_backoff : ℕ → Option ℕ
retry_backoff attempt =
    if ltb attempt 1 || ltb (length retry_schedule) attempt
    then none
    else get_elem? retry_schedule (attempt - 1)
