-- ===== src/Retry/Backoff.antt =====
-- retry/backoffhandler.go: BackoffHandler. Durations are int64 counts of nanoseconds whose products
-- and shifts wrap; `time.Time` is a count of nanoseconds and its zero value is `none`. The clock and
-- the draw of `rand.Int63n` are arguments.
use cloudflared.Common.{
  ℕ, ◌+◌, ◌*◌, ◌%◌, ◌^◌, Bool, false, ◌&&◌, not, Option, none, some, ltb, leb, ◌==◌, if◌then◌else◌,
}

pub record BackoffHandler : Type 0 where
  pub max_retries : ℕ
  pub retry_forever : Bool
  pub base_time : ℕ
  pub retries : ℕ
  pub reset_deadline : Option ℕ

-- time.Second
abbrev pub second : ℕ
second = 1000000000

abbrev pub two_63 : ℕ
two_63 = 9223372036854775808

abbrev pub two_64 : ℕ
two_64 = 18446744073709551616

-- The result of a call that draws from `rand.Int63n`, which panics unless its bound is positive.
pub data Timer : Type 0 where
  nil : Timer
  after : ℕ → Timer
  panics : Timer

-- `x << k` on an int64 that holds the pattern `x`: the low 64 bits.
unfoldable pub shift_left : ℕ → ℕ → ℕ
shift_left x k = (x * 2 ^ k) % two_64

-- An int64 pattern is positive if it is not 0 and its sign bit is clear.
abbrev pub is_positive : ℕ → Bool
is_positive x = ltb 0 x && ltb x two_63

-- rand.Int63n(n): any value below `n`, chosen by the draw.
unfoldable pub int63n : ℕ → ℕ → Option ℕ
int63n draw n = if is_positive n then some (draw % n) else none

abbrev pub is_after : ℕ → Option ℕ → Bool
is_after now none = false
is_after now (some deadline) = ltb deadline now

unfoldable pub base_or_second : ℕ → ℕ
base_or_second base = if base == 0 then second else base

abbrev pub get_base_time : BackoffHandler → ℕ
get_base_time b = base_or_second b.base_time

-- The pair of a duration and `true`, or `(0, false)`.
unfoldable pub get_max_backoff_duration : BackoffHandler → Bool → ℕ → Option ℕ
get_max_backoff_duration b done now =
    if done
    then none
    else if is_after now b.reset_deadline
    then some second
    else if leb b.max_retries b.retries && not b.retry_forever
    then none
    else some (shift_left (get_base_time b) (b.retries + 1))

abbrev pub cleared : BackoffHandler → BackoffHandler
cleared b = record b { retries = 0; reset_deadline = none }

-- The reset at the head of BackoffTimer.
unfoldable pub reset_if_due : BackoffHandler → ℕ → BackoffHandler
reset_if_due b now = if is_after now b.reset_deadline then cleared b else b

-- Clock.After(rand.Int63n(maxTimeToWait))
unfoldable pub draw_timer : ℕ → ℕ → Timer
unfolding int63n
draw_timer draw bound = elim (int63n draw bound) [ none ↦ panics | some wait ↦ after wait ]

-- The rest of BackoffTimer, from the test of `b.retries` on.
unfoldable pub backoff_timer_after_reset : BackoffHandler → ℕ → BackoffHandler × Timer
backoff_timer_after_reset b draw =
    if leb b.max_retries b.retries
    then if b.retry_forever
      then (b, draw_timer draw (shift_left (get_base_time b) b.retries))
      else (b, nil)
    else let b' = record b { retries = b.retries + 1 } in
      (b', draw_timer draw (shift_left (get_base_time b') b'.retries))

unfoldable pub backoff_timer : BackoffHandler → ℕ → ℕ → BackoffHandler × Timer
unfolding reset_if_due backoff_timer_after_reset
backoff_timer b now draw = backoff_timer_after_reset (reset_if_due b now) draw

-- Backoff: the `select` between the timer and the context, whose winner is an argument. `none` is
-- the panic of `rand.Int63n`.
unfoldable pub backoff : BackoffHandler → ℕ → ℕ → Bool → BackoffHandler × Option Bool
unfolding backoff_timer
backoff b now draw timer_fires =
    let (b', t) = backoff_timer b now draw in
    (b', elim t [ nil ↦ some false | after wait ↦ some timer_fires | panics ↦ none ])

-- SetGracePeriod; `none` is the panic of `rand.Int63n`.
unfoldable pub set_grace_period : BackoffHandler → ℕ → ℕ → Option BackoffHandler
unfolding int63n
set_grace_period b now draw =
    elim (int63n draw (shift_left ((get_base_time b * 2) % two_64) (b.retries + 1))) [
      | none ↦ none
      | some wait ↦ some (record b { reset_deadline = some (now + wait) })
    ]

unfoldable pub reached_max_retries : BackoffHandler → Bool
reached_max_retries b = b.retries == b.max_retries

unfoldable pub reset_now : BackoffHandler → ℕ → BackoffHandler
reset_now b now = record b { reset_deadline = some now }
