-- ===== src/Timer/Stamp/Text/Examples.antt =====
-- TimerStamp::ToString of timerfd/timer_stamp.cpp on small times, and its theorem at one.
use algo.Prelude.{ℕ, ◌+◌, ◌*◌, ◌≤◌, ◌≡◌, refl, arith, List, [], ◌∷◌, ◌++◌, length}
use algo.Prelude.Int.{pos, negsuc}
use algo.Timer.Stamp.Text.{decimal, to_string}
use algo.Timer.Stamp.Text.Digits.{AreDigits, value, to_string_lem}

to_string_lem_example :
    (seconds : List ℕ) × (micros : List ℕ) × (to_string (pos 12_000_345) ≡ seconds ++ b'.' ∷ micros)
    × AreDigits seconds
    × AreDigits micros
    × (length micros ≡ 6)
    × (value seconds * 1_000_000 + value micros ≡ 12_000_345)
    × (length (to_string (pos 12_000_345)) ≤ 20)
to_string_lem_example = to_string_lem 12_000_345 (omega arith)

-- 12.000345
text_runs :
    to_string (pos 12_000_345) ≡ b'1' ∷ b'2' ∷ b'.' ∷ b'0' ∷ b'0' ∷ b'0' ∷ b'3' ∷ b'4' ∷ b'5' ∷ []
unfolding to_string decimal
text_runs = refl

-- A time before the epoch has two signs: -1.-00005
before_epoch :
    to_string (negsuc 1_000_004) ≡ b'-' ∷ b'1' ∷ b'.' ∷ b'-' ∷ b'0' ∷ b'0' ∷ b'0' ∷ b'0' ∷ b'5' ∷ []
unfolding to_string decimal
before_epoch = refl
