-- ===== src/Timer/Stamp.antt =====
-- timerfd/timer_stamp.h, and the arming of the timerfd in timerfd/timer_queue.cpp.
pub mod Text
use algo.Prelude.{ℕ, ◌+◌, ◌*◌, ◌/◌, ◌%◌, ◌≤◌, ◌<◌, ◌≡◌, max, Bool, if◌then◌else◌, arith}
use algo.Prelude.Int.{ℤ, pos, pos_part, ltb_ℤ, ◌+ℤ◌, ◌-ℤ◌}

-- A time stamp is its `micro_seconds_since_epoch_`; sums stay within an int64_t.
abbrev pub TimerStamp : Type 0
TimerStamp = ℤ

abbrev pub invalid : TimerStamp
invalid = pos 0

abbrev pub valid : TimerStamp → Bool
valid t = ltb_ℤ (pos 0) t

-- A double of seconds, by what the code observes of it: whether it is above 0.0, and its product
-- with 1000000 cut to an int64_t.
pub record Seconds : Type 0 where
  pub positive : Bool
  pub micros : ℤ

unfoldable pub add_time : TimerStamp → Seconds → TimerStamp
unfolding ◌+ℤ◌
add_time t s = t +ℤ s.micros

-- struct timespec.
pub record Timespec : Type 0 where
  pub sec : ℕ
  pub nsec : ℕ

abbrev pub micros_per_second : ℕ
micros_per_second = 1_000_000

-- The wait in microseconds, at least 100.
unfoldable pub clamped : ℤ → ℕ
clamped d = if ltb_ℤ d (pos 100) then 100 else pos_part d

unfoldable pub how_much_time_from_now : TimerStamp → TimerStamp → Timespec
unfolding clamped ◌-ℤ◌
how_much_time_from_now when now = record {
  sec = clamped (when -ℤ now) / micros_per_second;
  nsec = clamped (when -ℤ now) % micros_per_second * 1000;
}

-- The timespec is normalised and stands for the time until `when`, but for at least 100
-- microseconds: so it is never zero, which would disarm the timerfd.
pub how_much_time_from_now_lem :
    (when now : TimerStamp)
    → let ts = how_much_time_from_now when now in
      (ts.nsec < 1_000_000_000)
      × (ts.sec * 1_000_000_000 + ts.nsec ≡ 1000 * max 100 (pos_part (when -ℤ now)))
      × (100_000 ≤ ts.sec * 1_000_000_000 + ts.nsec)
unfolding how_much_time_from_now
how_much_time_from_now_lem when now = ground arith
