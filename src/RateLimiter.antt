-- ===== src/RateLimiter.antt =====
-- TokenBucketRateLimiter and its caller (tools/rate_limiter/token_bucket_limiter.cc, main.cc). The
-- arithmetic of double is a record of its operations. Each operation of the limiter stands under its
-- mutex and is one step.
pub mod Waiting
mod Examples
use algo.Prelude.{
  ℕ, ◌+◌, ◌-◌, ◌*◌, ◌%◌, ◌^◌, Bool, true, false, ◌≡◌, Option, none, some, ◌>>=◌, ◌==◌, ltb, leb,
  if◌then◌else◌,
}
use algo.Prelude.Int.{ℤ, pos, ◌*ℤ◌}

-- The operations on doubles. A conversion to uint64_t out of its range is undefined behaviour, and
-- none stands for it.
pub record Doubles : Type 1 where
  pub D : Type 0
  pub of_int : ℤ → D
  pub of_uint : ℕ → D
  pub to_uint : D → Option ℕ
  pub add : D → D → D
  pub sub : D → D → D
  pub mul : D → D → D
  pub div : D → D → D
  pub less : D → D → Bool
  pub less_eq : D → D → Bool

pub record TokenBucket (D : Type 0) : Type 0 where
  pub interval : D
  pub max_permits : D
  pub stored_permits : D
  pub next_free : ℕ

-- Sums and differences of uint64_t wrap around.
abbrev pub add_uint : ℕ → ℕ → ℕ
add_uint a b = (a + b) % 2 ^ 64

abbrev pub sub_uint : ℕ → ℕ → ℕ
sub_uint a b = if leb b a then a - b else a + 2 ^ 64 - b

-- A bool as an int32_t.
abbrev pub to_int : Bool → ℕ
to_int true = 1
to_int false = 0

module _ (F : Doubles) where
  -- std::min, which gives its first argument unless the second is less.
  abbrev pub min_double : F.D → F.D → F.D
  min_double a b = if F.less b a then b else a

  -- The constructor.
  abbrev pub fresh_bucket : TokenBucket F.D
  fresh_bucket = record {
    interval = F.div (F.of_int (pos 1000000)) (F.of_int (pos 1));
    max_permits = F.of_int (pos 1);
    stored_permits = F.of_int (pos 1);
    next_free = 0;
  }

  -- `timewindow * 1000` is taken to stay within an int.
  unfoldable pub init : TokenBucket F.D → ℤ → F.D → TokenBucket F.D
  init l timewindow permits =
      let m = if F.less_eq permits (F.of_int (pos 0)) then F.of_int (pos 1) else permits in
      record {
        interval = F.div (F.of_int (timewindow *ℤ pos 1000)) permits;
        max_permits = m;
        stored_permits = m;
        next_free = l.next_free;
      }

  unfoldable pub sync : TokenBucket F.D → ℕ → TokenBucket F.D
  sync l now =
      let step = F.div (F.of_uint (sub_uint now l.next_free)) l.interval in
      if ltb l.next_free now
      then record l {
        stored_permits = min_double l.max_permits (F.add l.stored_permits step);
        next_free = now;
      }
      else l

  -- The bucket after it, and the time to wait.
  unfoldable pub claim_next : TokenBucket F.D → F.D → ℕ → Option (TokenBucket F.D × ℕ)
  claim_next bucket permits now =
      let l = sync bucket now in
      let wait = sub_uint l.next_free now in
      let stored = min_double permits l.stored_permits in
      let fresh = F.sub permits stored in
      F.to_uint (F.mul fresh l.interval) >>= λ next_free. some (
        record l {
          next_free = add_uint l.next_free next_free;
          stored_permits = F.sub l.stored_permits stored;
        },
        wait,
      )

  -- The time, divided by 1000.0, is zero only if it is zero. The test of `permits` has no effect.
  unfoldable pub aquire : TokenBucket F.D → F.D → ℕ → Option (TokenBucket F.D × ℕ)
  aquire l permits now = claim_next l permits now >>= λ r. some (r.0, to_int (r.1 == 0))

  abbrev pub get_rate : TokenBucket F.D → F.D
  get_rate l = l.max_permits

  -- OrderController and its `allow`: the product of an unsigned int wraps around.
  unfoldable pub order_controller : ℤ → ℤ → TokenBucket F.D
  order_controller time_window upper_limit = init fresh_bucket time_window (F.of_int upper_limit)

  unfoldable pub allow : TokenBucket F.D → ℕ → Option (TokenBucket F.D × ℕ)
  allow l req_timestamp = aquire l (F.of_int (pos 1)) (req_timestamp * 1000 % 2 ^ 32)
