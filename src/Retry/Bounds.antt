-- ===== src/Retry/Bounds.antt =====
-- How long BackoffHandler waits, how often it retries, and when it panics.
use cloudflared.Common.{
  Bool-cases, ℕ, zero, suc, ◌+◌, ◌-◌, ◌*◌, ◌%◌, ◌^◌, ◌≤◌, ◌<◌, ◌≡◌, refl, sym, ap, ◌∙◌, ◌≢◌, ◌↔◌,
  ◌⊎◌, inl, inr, true, false, none, some, arith,
}
use cloudflared.Common.Powers.{two_pow_pos, mul_two_pow_le}
use cloudflared.Retry.Backoff.{
  BackoffHandler, second, two_63, two_64, Timer, nil, after, panics, shift_left, is_after,
  get_base_time, get_max_backoff_duration, cleared, reset_if_due, draw_timer,
  backoff_timer_after_reset, backoff_timer,
}
use Prim.Native.Nat.{min}
use native.Mathlib.Nat.{mod-lt, mul-pos, mod-eq_of_lt}

-- A shift that stays below 2^63 does not wrap.
shift_left_small : (x k : ℕ) → x * 2 ^ k < two_64 → shift_left x k ≡ x * 2 ^ k
unfolding shift_left
shift_left_small x k h = omega arith

draw_timer_small : (draw n : ℕ) → 0 < n → n < two_63 → draw_timer draw n ≡ after (draw % n)
unfolding draw_timer
draw_timer_small draw n h k = ground arith

draw_timer_large : (draw n : ℕ) → two_63 ≤ n → draw_timer draw n ≡ panics
unfolding draw_timer
draw_timer_large draw n h = ground arith

-- Where the shifted base time fits an int64, the timer waits less than it.
timer_fits :
    (draw x k : ℕ)
    → 0 < x
    → x * 2 ^ k < two_63
    → (draw_timer draw (shift_left x k) ≡ after (draw % (x * 2 ^ k)))
      × (draw % (x * 2 ^ k) < x * 2 ^ k)
timer_fits draw x k pos fits =
    let some_wait : 0 < x * 2 ^ k = mul-pos pos (two_pow_pos k) in
    (
      rw (shift_left_small x k (omega arith)) (draw_timer_small draw _ some_wait fits),
      mod-lt _ some_wait,
    )

abbrev Bounded : ℕ → BackoffHandler × Timer → Type 0
Bounded base (b, t) =
    (b.retries ≤ b.max_retries)
    × (t ≢ panics)
    × ((wait : ℕ) → t ≡ after wait → wait < base * 2 ^ b.retries)

after_reset-Bounded :
    (b : BackoffHandler) (draw : ℕ)
    → b.retries ≤ b.max_retries
    → 0 < get_base_time b
    → get_base_time b * 2 ^ b.max_retries < two_63
    → Bounded (get_base_time b) (backoff_timer_after_reset b draw)
unfolding backoff_timer_after_reset
after_reset-Bounded b draw h pos fits =
    let base : ℕ = get_base_time b in
    ground (
      arith,
      timer_fits draw base b.retries pos,
      timer_fits draw base (b.retries + 1) pos,
      mul_two_pow_le base b.retries b.max_retries,
      mul_two_pow_le base (b.retries + 1) b.max_retries,
    )

-- While the handler has not counted past its limit and the base time shifted by the limit fits an
-- int64, BackoffTimer does not panic, keeps the count within the limit and waits less than the base
-- time doubled once for each retry counted.
pub backoff_timer_bounded :
    (b : BackoffHandler) (now draw : ℕ)
    → b.retries ≤ b.max_retries
    → 0 < get_base_time b
    → get_base_time b * 2 ^ b.max_retries < two_63
    → let (b', t) = backoff_timer b now draw in
      (b'.retries ≤ b'.max_retries)
      × (t ≢ panics)
      × ((wait : ℕ) → t ≡ after wait → wait < get_base_time b * 2 ^ b'.retries)
unfolding backoff_timer
backoff_timer_bounded b now draw h pos fits = elim (Bool-cases (is_after now b.reset_deadline)) [
  | inl due ↦ rw (due, reset_if_due) (after_reset-Bounded (cleared b) draw (omega arith) pos fits)
  | inr live ↦ rw (live, reset_if_due) (after_reset-Bounded b draw h pos fits)
]

-- Where no reset is due and the doubled base time fits, GetMaxBackoffDuration with a live context
-- refuses exactly when BackoffTimer returns nil, and its duration is above every wait drawn.
pub get_max_backoff_duration-backoff_timer :
    (b : BackoffHandler) (now draw : ℕ)
    → is_after now b.reset_deadline ≡ false
    → 0 < get_base_time b
    → get_base_time b * 2 ^ (b.retries + 1) < two_63
    → ((get_max_backoff_duration b false now ≡ none) ↔ ((backoff_timer b now draw).1 ≡ nil))
      × ((longest wait : ℕ)
          → get_max_backoff_duration b false now ≡ some longest
          → (backoff_timer b now draw).1 ≡ after wait
          → wait < longest)
unfolding get_max_backoff_duration backoff_timer
get_max_backoff_duration-backoff_timer b now draw live pos fits =
    let base : ℕ = get_base_time b in
    ground (
      arith,
      timer_fits draw base b.retries pos,
      timer_fits draw base (b.retries + 1) pos,
      shift_left_small base (b.retries + 1),
      mul_two_pow_le base b.retries (b.retries + 1),
    )

-- When a reset is due and the base time is at least the default, GetMaxBackoffDuration promises at
-- most a second, while BackoffTimer can draw a longer wait.
pub get_max_backoff_duration_after_reset :
    (b : BackoffHandler) (now : ℕ)
    → is_after now b.reset_deadline ≡ true
    → 0 < b.max_retries
    → second ≤ get_base_time b
    → get_base_time b * 2 < two_63
    → (get_max_backoff_duration b false now ≡ some second)
      × ((draw : ℕ) × (wait : ℕ) × ((backoff_timer b now draw).1 ≡ after wait) × (second < wait))
unfolding get_max_backoff_duration backoff_timer
get_max_backoff_duration_after_reset b now due retry long fits =
    let base : ℕ = get_base_time b in
    let (fires, _) = timer_fits (base * 2 - 1) base 1 (omega arith) (omega arith) in
    (
      rw due,
      (
        base * 2 - 1,
        base * 2 - 1,
        ground (arith, fires, mod-eq_of_lt {n = base * 2 - 1} {m = base * 2 ^ 1} (omega arith)),
        omega arith,
      ),
    )

-- A retry whose shifted base time reaches the sign bit panics.
pub backoff_timer_overflow :
    (b : BackoffHandler) (now draw : ℕ)
    → is_after now b.reset_deadline ≡ false
    → b.retries < b.max_retries
    → two_63 ≤ get_base_time b * 2 ^ (b.retries + 1)
    → get_base_time b * 2 ^ (b.retries + 1) < two_64
    → (backoff_timer b now draw).1 ≡ panics
unfolding backoff_timer
backoff_timer_overflow b now draw live more large small = ground (
  arith,
  shift_left_small (get_base_time b) (b.retries + 1),
  draw_timer_large draw (get_base_time b * 2 ^ (b.retries + 1)),
)

-- The handler after a number of calls of BackoffTimer, at given times and with given draws.
pub after_calls : ℕ → (ℕ → ℕ) → (ℕ → ℕ) → BackoffHandler → BackoffHandler
after_calls zero times draws b = b
after_calls (suc n) times draws b =
    (backoff_timer (after_calls n times draws b) (times n) (draws n)).0

-- One call with no reset in sight: what it counts and what it leaves alone.
backoff_timer_counts :
    (b : BackoffHandler) (now draw n : ℕ)
    → b.retries ≡ min n b.max_retries
    → b.reset_deadline ≡ none
    → let b' = (backoff_timer b now draw).0 in
      (b'.retries ≡ min (suc n) b.max_retries)
      × (b'.reset_deadline ≡ none)
      × (b'.max_retries ≡ b.max_retries)
      × (b'.retry_forever ≡ b.retry_forever)
      × (b'.base_time ≡ b.base_time)
unfolding backoff_timer
backoff_timer_counts b now draw n counted unset = ground arith

retries-after_calls :
    (n : ℕ) (times draws : ℕ → ℕ) (b : BackoffHandler)
    → b.retries ≡ 0
    → b.reset_deadline ≡ none
    → let b' = after_calls n times draws b in
      (b'.retries ≡ min n b.max_retries)
      × (b'.reset_deadline ≡ none)
      × (b'.max_retries ≡ b.max_retries)
      × (b'.retry_forever ≡ b.retry_forever)
      × (b'.base_time ≡ b.base_time)
unfolding after_calls
retries-after_calls zero times draws b fresh unset = (omega arith, unset, refl, refl, refl)
retries-after_calls (suc n) times draws b fresh unset =
    let earlier = after_calls n times draws b in
    let (counted, still, limit, forever, base) = retries-after_calls n times draws b fresh unset in
    let (count, open_still, same, keeps, as_before) =
      backoff_timer_counts earlier (times n) (draws n) n (counted ∙ ap (min n) (sym limit)) still in
    (count ∙ ap (min (suc n)) limit, open_still, same ∙ limit, keeps ∙ forever, as_before ∙ base)

nil-after_calls :
    (n : ℕ) (times draws : ℕ → ℕ) (b : BackoffHandler)
    → b.retries ≡ 0
    → b.reset_deadline ≡ none
    → b.retry_forever ≡ false
    → ((backoff_timer (after_calls n times draws b) (times n) (draws n)).1 ≡ nil)
      ↔ (b.max_retries ≤ n)
unfolding backoff_timer draw_timer
nil-after_calls n times draws b fresh unset finite =
    ground (arith, retries-after_calls n times draws b fresh unset)

nil-ne-after : {wait : ℕ} → nil ≢ after wait
nil-ne-after e = cc

le_or_lt : (m n : ℕ) → (m ≤ n) ⊎ (n < m)
le_or_lt m n = ground arith

fires : (t : Timer) → t ≢ nil → t ≢ panics → (wait : ℕ) × (t ≡ after wait)
fires nil h k = absurd (h refl)
fires (after wait) h k = (wait, refl)
fires panics h k = absurd (k refl)

-- A fresh handler with no grace period set and no RetryForever, whose base time shifted by MaxRetries
-- fits an int64, gives a timer that fires for exactly the first MaxRetries calls of BackoffTimer,
-- whatever the times and draws, and nil for exactly the calls after them.
pub backoff_timer-after_calls :
    (n : ℕ) (times draws : ℕ → ℕ) (b : BackoffHandler)
    → b.retries ≡ 0
    → b.reset_deadline ≡ none
    → b.retry_forever ≡ false
    → 0 < get_base_time b
    → get_base_time b * 2 ^ b.max_retries < two_63
    → let t = (backoff_timer (after_calls n times draws b) (times n) (draws n)).1 in
      (((wait : ℕ) × (t ≡ after wait)) ↔ (n < b.max_retries)) × ((t ≡ nil) ↔ (b.max_retries ≤ n))
backoff_timer-after_calls n times draws b fresh unset finite pos fits =
    let b' = after_calls n times draws b in
    let (counted, still, limit, forever, base) = retries-after_calls n times draws b fresh unset in
    let refused = nil-after_calls n times draws b fresh unset finite in
    let (_, runs, _) =
      backoff_timer_bounded b' (times n) (draws n) (omega (arith, counted, limit)) (rw base pos)
        (rw (base, limit) fits) in
    (
      (
        (λ (wait, e). elim (le_or_lt b.max_retries n) [
          | inl late ↦ absurd (nil-ne-after (sym (refused.1 late) ∙ e))
          | inr early ↦ early
        ]),
        λ early. fires _ (λ e. absurd (omega (arith, refused.0 e, early))) runs,
      ),
      refused,
    )

-- A call leaves the limits alone.
pub backoff_timer-keeps :
    (b : BackoffHandler) (now draw : ℕ)
    → let b' = (backoff_timer b now draw).0 in
      (b.retries ≤ b.max_retries → b'.retries ≤ b'.max_retries)
      × (b'.max_retries ≡ b.max_retries)
      × (b'.base_time ≡ b.base_time)
unfolding backoff_timer reset_if_due backoff_timer_after_reset
backoff_timer-keeps b now draw = ground arith
