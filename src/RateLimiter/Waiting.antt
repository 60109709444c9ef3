-- ===== src/RateLimiter/Waiting.antt =====
-- When TokenBucketRateLimiter grants a request (tools/rate_limiter/token_bucket_limiter.cc).
use algo.Prelude.{
  ℕ, ◌+◌, ◌≤◌, ◌<◌, ◌^◌, max, ◌≡◌, refl, sym, ap, ◌∙◌, arith, Option, none, some, ◌==◌, leb,
  bind_some,
}
use algo.RateLimiter.{
  Doubles, TokenBucket, add_uint, sub_uint, to_int, min_double, sync, claim_next, aquire,
}

wait_lem : (t now : ℕ) → to_int (sub_uint (max t now) now == 0) ≡ to_int (leb t now)
wait_lem t now = ground arith

add_uint_mono : (t u n : ℕ) → t ≤ u → u + n < 2 ^ 64 → t ≤ add_uint u n
add_uint_mono t u n h small = ground arith

not_yet : (t now : ℕ) → now < t → to_int (leb t now) ≡ 0
not_yet t now h = ground arith

module _ (F : Doubles) where
  sync-next_free : (l : TokenBucket F.D) (now : ℕ) → (sync F l now).next_free ≡ max l.next_free now
  unfolding sync
  sync-next_free l now = ground arith

  -- What a request is to cost beyond what is stored.
  abbrev pub cost : TokenBucket F.D → F.D → ℕ → Option ℕ
  cost l permits now =
      let s = sync F l now in
      F.to_uint (F.mul (F.sub permits (min_double F permits s.stored_permits)) s.interval)

  sync-rates :
      (l : TokenBucket F.D) (now : ℕ)
      → ((sync F l now).max_permits ≡ l.max_permits) × ((sync F l now).interval ≡ l.interval)
  unfolding sync
  sync-rates l now = (ground arith, ground arith)

  granted_lem :
      (l : TokenBucket F.D) (now : ℕ)
      → to_int (sub_uint (sync F l now).next_free now == 0) ≡ to_int (leb l.next_free now)
  granted_lem l now = rw (sync-next_free l now) (wait_lem l.next_free now)

  -- If the cost of a request fits a uint64_t, then Aquire grants the request exactly when its time is
  -- not before `next_free_`. Granted or not, the request moves `next_free_` on from the later of the
  -- two times by its cost, and leaves the maximum and the interval alone.
  pub aquire_lem :
      (l : TokenBucket F.D) (permits : F.D) (now n : ℕ)
      → cost l permits now ≡ some n
      → (l' : TokenBucket F.D) × (aquire F l permits now ≡ some (l', to_int (leb l.next_free now)))
        × (l'.next_free ≡ add_uint (max l.next_free now) n)
        × (l'.max_permits ≡ l.max_permits)
        × (l'.interval ≡ l.interval)
  unfolding aquire claim_next
  aquire_lem l permits now n e =
      let s = sync F l now in
      let stored = min_double F permits s.stored_permits in
      let l' : TokenBucket F.D = record s {
        next_free = add_uint s.next_free n;
        stored_permits = F.sub s.stored_permits stored;
      } in
      let (same_max, same_interval) = sync-rates l now in
      (
        l',
        bind_some _ _ _ _ (bind_some _ _ _ _ e refl) (ap (λ r. some (l', r)) (granted_lem l now)),
        ap (λ t. add_uint t n) (sync-next_free l now),
        same_max,
        same_interval,
      )

  -- Any requests, one after another, whose costs keep `next_free_` within a uint64_t.
  pub data Requests : TokenBucket F.D → TokenBucket F.D → Type 0 where
    none_yet : {l : TokenBucket F.D} → Requests l l
    request :
        {l m q : TokenBucket F.D} (permits : F.D) (now n r : ℕ)
        → cost l permits now ≡ some n
        → max l.next_free now + n < 2 ^ 64
        → aquire F l permits now ≡ some (m, r)
        → Requests m q
        → Requests l q

  abbrev bucket_of : TokenBucket F.D → Option (TokenBucket F.D × ℕ) → TokenBucket F.D
  bucket_of d none = d
  bucket_of d (some r) = r.0

  Requests-mono : (l q : TokenBucket F.D) → Requests l q → l.next_free ≤ q.next_free
  Requests-mono l q none_yet = omega arith
  Requests-mono l q (request {m = m} permits now n r e small run more) =
      let (l', run', next, same, kept) = aquire_lem l permits now n e in
      let e' : l' ≡ m = ap (bucket_of l) (sym run' ∙ run) in
      let grows : l.next_free ≤ l'.next_free =
        rw next (add_uint_mono l.next_free (max l.next_free now) n (omega arith) small) in
      omega (arith, grows, ap (λ (b : TokenBucket F.D). b.next_free) e', Requests-mono m q more)

  -- Whatever requests come in between, a request whose time is before the `next_free_` that the
  -- bucket had is not granted, if the costs fit a uint64_t and keep `next_free_` within it.
  pub refused_lem :
      (l q : TokenBucket F.D) (permits : F.D) (now n : ℕ)
      → Requests l q
      → now < l.next_free
      → cost q permits now ≡ some n
      → (q' : TokenBucket F.D) × (aquire F q permits now ≡ some (q', 0))
  refused_lem l q permits now n rs early e =
      let (q', run, next, same, kept) = aquire_lem q permits now n e in
      (q', rw⁻¹ (not_yet q.next_free now (omega (arith, Requests-mono l q rs, early))) run)
