-- ===== src/Timer/Stamp/Text/Digits.antt =====
-- What TimerStamp::ToString (timerfd/timer_stamp.cpp) prints of a time from the epoch on.
use native.Mathlib.Nat.{pow-suc}
use algo.Prelude.{
  ℕ, zero, suc, ◌+◌, ◌-◌, ◌*◌, ◌/◌, ◌%◌, ◌^◌, ◌≤◌, ◌<◌, ◌≡◌, refl, ◌∙◌, arith, inl, inr, Bool-cases,
  List, [], ◌∷◌, ◌++◌, ltb, lt→ltb, length, take, replicate, length-append, length-replicate,
  take_all,
}
use algo.Prelude.Int.{pos}
use algo.Timer.Stamp.Text.{decimal, digits, zeros_to, to_string}

-- The number that digits stand for, behind those read.
abbrev pub value_from : ℕ → List ℕ → ℕ
value_from acc [] = acc
value_from acc (d ∷ ds) = value_from (acc * 10 + (d - b'0')) ds

abbrev pub value : List ℕ → ℕ
value ds = value_from 0 ds

abbrev pub AreDigits : List ℕ → Type 0
AreDigits [] = Unit {0}
AreDigits (d ∷ ds) = (b'0' ≤ d) × (d ≤ b'9') × AreDigits ds

value_from-append :
    (acc : ℕ) (xs : List ℕ) (d : ℕ)
    → value_from acc (xs ++ d ∷ []) ≡ value_from acc xs * 10 + (d - b'0')
value_from-append acc [] d = refl
value_from-append acc (x ∷ xs) d = value_from-append (acc * 10 + (x - b'0')) xs d

AreDigits-append : (xs ys : List ℕ) → AreDigits xs → AreDigits ys → AreDigits (xs ++ ys)
AreDigits-append [] ys p q = q
AreDigits-append (x ∷ xs) ys p q = (p.0, p.1, AreDigits-append xs ys p.2 q)

AreDigits-zeros : (n : ℕ) → AreDigits (replicate n b'0')
AreDigits-zeros zero = tt
AreDigits-zeros (suc n) = (omega arith, omega arith, AreDigits-zeros n)

value_zeros : (n : ℕ) (xs : List ℕ) → value (replicate n b'0' ++ xs) ≡ value xs
value_zeros zero xs = refl
value_zeros (suc n) xs = value_zeros n xs

decimal_lem :
    (most n : ℕ) → n < 10 ^ most → AreDigits (decimal most n) × (value (decimal most n) ≡ n)
unfolding decimal
decimal_lem zero n h = (tt, omega arith)
decimal_lem (suc most) n h = elim (Bool-cases (ltb n 10)) [
  | inl one ↦ rw one ((ground arith, ground arith, tt), ground arith)
  | inr more ↦
      let (higher, v) = decimal_lem most (n / 10) (omega (arith, pow-suc 10 most)) in
      rw more (
        AreDigits-append (decimal most (n / 10)) ((b'0' + n % 10) ∷ []) higher
            (omega arith, omega arith, tt),
        value_from-append 0 (decimal most (n / 10)) (b'0' + n % 10) ∙ omega (arith, v),
      )
]

length-decimal : (most k n : ℕ) → n < 10 ^ suc k → length (decimal most n) ≤ suc k
unfolding decimal
length-decimal zero k n h = omega arith
length-decimal (suc most) zero n h = rw (lt→ltb n 10 (omega (arith, h))) (omega arith)
length-decimal (suc most) (suc k) n h =
    let shorter = length-decimal most k (n / 10) (omega (arith, pow-suc 10 (suc k))) in
    elim (Bool-cases (ltb n 10)) [
      | inl one ↦ rw one (omega arith)
      | inr more ↦
          rw more
            (omega (arith, shorter, length-append (decimal most (n / 10)) ((b'0' + n % 10) ∷ [])))
    ]

-- A time from the epoch on that fits an int64_t is printed as its seconds, a point, and its
-- microseconds in six digits: the digits before and behind the point stand for the time, and the
-- text fits into the buffer, so that nothing is cut off.
pub to_string_lem :
    (n : ℕ)
    → n < 2 ^ 63
    → (seconds : List ℕ) × (micros : List ℕ) × (to_string (pos n) ≡ seconds ++ b'.' ∷ micros)
      × AreDigits seconds
      × AreDigits micros
      × (length micros ≡ 6)
      × (value seconds * 1_000_000 + value micros ≡ n)
      × (length (to_string (pos n)) ≤ 20)
unfolding to_string
to_string_lem n h =
    let s = n / 1_000_000 in
    let m = n % 1_000_000 in
    let (sd, sv) = decimal_lem 19 s (omega (arith, h)) in
    let (md, mv) = decimal_lem 19 m (omega arith) in
    let sl = length-decimal 19 12 s (omega (arith, h)) in
    let ml = length-decimal 19 5 m (omega arith) in
    let micros = zeros_to 6 (digits m) in
    let six : length micros ≡ 6 = omega (
      arith,
      length-append (replicate (6 - length (digits m)) b'0') (digits m),
      length-replicate {A = ℕ} (6 - length (digits m)) b'0',
      ml,
    ) in
    let all = length-append (digits s) (b'.' ∷ micros) in
    let whole : take 31 (digits s ++ b'.' ∷ micros) ≡ digits s ++ b'.' ∷ micros =
      take_all 31 (digits s ++ b'.' ∷ micros) (omega (arith, all, six, sl)) in
    (
      digits s,
      micros,
      whole,
      sd,
      AreDigits-append (replicate (6 - length (digits m)) b'0') (digits m)
          (AreDigits-zeros (6 - length (digits m))) md,
      six,
      omega (arith, sv, mv, value_zeros (6 - length (digits m)) (digits m)),
      rw whole (omega (arith, all, six, sl)),
    )
