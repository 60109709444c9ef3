-- ===== src/RateLimiter/Examples.antt =====
-- Runs of the rate limiter (tools/rate_limiter) on doubles that are whole numbers, and the theorems
-- at one of them.
use algo.Prelude.{ℕ, ◌≡◌, refl, arith, Option, some, ◌>>=◌, ◌/◌}
use algo.Prelude.Int.{ℤ, pos, pos_part, ltb_ℤ, leb_ℤ, ◌+ℤ◌, ◌-ℤ◌, ◌*ℤ◌}
use algo.RateLimiter.{Doubles, TokenBucket, init, sync, claim_next, aquire, order_controller, allow}
use algo.RateLimiter.Waiting.{cost, aquire_lem, Requests, none_yet, request, refused_lem}

-- Doubles that are whole numbers, with division rounded down.
abbrev whole : Doubles
whole = record {
  D = ℤ;
  of_int = λ z. z;
  of_uint = λ n. pos n;
  to_uint = λ z. some (pos_part z);
  add = ◌+ℤ◌;
  sub = ◌-ℤ◌;
  mul = ◌*ℤ◌;
  div = λ a b. pos (pos_part a / pos_part b);
  less = ltb_ℤ;
  less_eq = leb_ℤ;
}

-- One request in 3 ms: after the one at 1 ms, those at 4 ms and 5 ms are both granted, the second of
-- them with an empty bucket, and the one at 6 ms is not.
abbrev four_requests : Option (ℕ × ℕ × ℕ × ℕ)
four_requests = allow whole (order_controller whole (pos 3) (pos 1)) 1 >>= λ a.
    allow whole a.0 4 >>= λ b.
    allow whole b.0 5 >>= λ c. allow whole c.0 6 >>= λ d. some (a.1, b.1, c.1, d.1)

four_requests_lem : four_requests ≡ some (1, 1, 1, 0)
unfolding allow order_controller init aquire claim_next sync ◌+ℤ◌ ◌-ℤ◌ ◌*ℤ◌
four_requests_lem = refl

-- After 4 ms.
abbrev empty_bucket : TokenBucket ℤ
empty_bucket = record {
  interval = pos 3000;
  max_permits = pos 1;
  stored_permits = pos 0;
  next_free = 4000;
}

abbrev later_bucket : TokenBucket ℤ
later_bucket = record {
  interval = pos 3000;
  max_permits = pos 1;
  stored_permits = pos 0;
  next_free = 7000;
}

empty_bucket-cost : cost whole empty_bucket (pos 1) 1000 ≡ some 3000
unfolding sync ◌-ℤ◌ ◌*ℤ◌
empty_bucket-cost = refl

empty_bucket-Requests : Requests whole empty_bucket later_bucket
unfolding aquire claim_next sync ◌-ℤ◌ ◌*ℤ◌
empty_bucket-Requests = request (pos 1) 1000 3000 0 refl (omega arith) refl none_yet

later_bucket-cost : cost whole later_bucket (pos 1) 3999 ≡ some 3000
unfolding sync ◌-ℤ◌ ◌*ℤ◌
later_bucket-cost = refl

aquire_lem_example :
    (l : TokenBucket ℤ) × (aquire whole empty_bucket (pos 1) 1000 ≡ some (l, 0))
    × (l.next_free ≡ 7000)
    × (l.max_permits ≡ pos 1)
    × (l.interval ≡ pos 3000)
aquire_lem_example = aquire_lem whole empty_bucket (pos 1) 1000 3000 empty_bucket-cost

refused_lem_example : (l : TokenBucket ℤ) × (aquire whole later_bucket (pos 1) 3999 ≡ some (l, 0))
refused_lem_example =
    refused_lem whole empty_bucket later_bucket (pos 1) 3999 3000 empty_bucket-Requests
      (omega arith) later_bucket-cost
