-- ===== src/Timer/Stamp/Text.antt =====
-- TimerStamp::ToString of timerfd/timer_stamp.cpp.
pub mod Digits
mod Examples
use algo.Prelude.{
  ℕ, zero, suc, ◌+◌, ◌-◌, ◌*◌, ◌/◌, ◌%◌, List, [], ◌∷◌, ◌++◌, if◌then◌else◌, ltb, length, take,
  replicate,
}
use algo.Prelude.Int.{ℤ, pos, negsuc}
use algo.Timer.Stamp.{TimerStamp, micros_per_second}

-- The decimal digits of a number, so many at most.
unfoldable pub decimal : ℕ → ℕ → List ℕ
decimal zero n = []
decimal (suc most) n =
    let higher = decimal most (n / 10) in
    if ltb n 10 then (b'0' + n) ∷ [] else higher ++ (b'0' + n % 10) ∷ []

-- An int64_t has nineteen digits at most.
abbrev pub digits : ℕ → List ℕ
digits n = decimal 19 n

-- What `%ld` prints, and `%0` with a width, which counts the sign.
abbrev pub plain : ℤ → List ℕ
plain (pos n) = digits n
plain (negsuc n) = b'-' ∷ digits (n + 1)

abbrev pub zeros_to : ℕ → List ℕ → List ℕ
zeros_to width text = replicate (width - length text) b'0' ++ text

abbrev pub padded : ℕ → ℤ → List ℕ
padded width (pos n) = zeros_to width (digits n)
padded width (negsuc n) = b'-' ∷ zeros_to (width - 1) (digits (n + 1))

-- `/` and `%` of C++ by a positive number: the quotient is cut towards zero, and the remainder has
-- the sign of the dividend.
abbrev pub minus : ℕ → ℤ
minus zero = pos 0
minus (suc n) = negsuc n

abbrev pub div : ℤ → ℕ → ℤ
div (pos n) k = pos (n / k)
div (negsuc n) k = minus ((n + 1) / k)

abbrev pub mod_by : ℤ → ℕ → ℤ
mod_by (pos n) k = pos (n % k)
mod_by (negsuc n) k = minus ((n + 1) % k)

-- The text, of which snprintf keeps what fits into `buf` with a zero byte.
unfoldable pub to_string : TimerStamp → List ℕ
to_string t =
    take 31 (plain (div t micros_per_second) ++ b'.' ∷ padded 6 (mod_by t micros_per_second))
