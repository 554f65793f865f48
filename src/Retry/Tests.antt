-- ===== src/Retry/Tests.antt =====
-- The backoff theorems at the handlers that cloudflared makes.

use cloudflared.Common.{ℕ, ◌*◌, ◌^◌, ◌≤◌, ◌<◌, ◌≡◌, refl, ◌≢◌, ◌↔◌, false, none, some, arith}
use cloudflared.Retry.Backoff.{
  BackoffHandler, nil, after, panics, shift_left, base_or_second, get_base_time,
  get_max_backoff_duration, draw_timer, backoff_timer,
}
use cloudflared.Retry.Bounds.{
  backoff_timer_bounded, get_max_backoff_duration-backoff_timer, after_calls,
  backoff_timer-after_calls,
}

-- The default of five retries, after two of them.
abbrev twice_tried : BackoffHandler
twice_tried = record {
  max_retries = 5;
  retry_forever = false;
  base_time = 0;
  retries = 2;
  reset_deadline = none;
}

third_wait : (backoff_timer twice_tried 100 9000000123).1 ≡ after 1000000123
unfolding backoff_timer base_or_second draw_timer shift_left
third_wait = refl

backoff_timer_bounded_example :
    let (b', t) = backoff_timer twice_tried 100 7 in
    (b'.retries ≤ b'.max_retries)
    × (t ≢ panics)
    × ((wait : ℕ) → t ≡ after wait → wait < get_base_time twice_tried * 2 ^ b'.retries)
unfolding base_or_second
backoff_timer_bounded_example =
    backoff_timer_bounded twice_tried 100 7 (omega arith) (omega arith) (omega arith)

get_max_backoff_duration-backoff_timer_example :
    ((get_max_backoff_duration twice_tried false 100 ≡ none)
      ↔ ((backoff_timer twice_tried 100 7).1 ≡ nil))
    × ((longest wait : ℕ)
        → get_max_backoff_duration twice_tried false 100 ≡ some longest
        → (backoff_timer twice_tried 100 7).1 ≡ after wait
        → wait < longest)
unfolding base_or_second
get_max_backoff_duration-backoff_timer_example =
    get_max_backoff_duration-backoff_timer twice_tried 100 7 refl (omega arith) (omega arith)

-- The same handler with a grace period that is over.
abbrev settled : BackoffHandler
settled = record twice_tried { reset_deadline = some 50 }

-- `--retries 40` after 33 failures.
abbrev patient : BackoffHandler
patient = record twice_tried { max_retries = 40; retries = 33 }

abbrev fresh : BackoffHandler
fresh = record twice_tried { retries = 0 }

backoff_timer-after_calls_example :
    let t = (backoff_timer (after_calls 5 (λ n. n) (λ n. n) fresh) 5 5).1 in
    (((wait : ℕ) × (t ≡ after wait)) ↔ (◌<◌ 5 5)) × ((t ≡ nil) ↔ (◌≤◌ 5 5))
unfolding base_or_second
backoff_timer-after_calls_example =
    backoff_timer-after_calls 5 (λ n. n) (λ n. n) fresh refl refl refl (omega arith) (omega arith)
