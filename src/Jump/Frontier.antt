-- ===== src/Jump/Frontier.antt =====
-- How far a number of jumps (test/45.cc) gets, for any longest jumps.
use algo.Prelude.{ℕ, zero, suc, ◌≤◌, ◌<◌, max, ◌≡◌, arith, dec_le}

-- The farthest of the first positions' ends.
unfoldable pub best : (ℕ → ℕ) → ℕ → ℕ
best far zero = 0
best far (suc b) = max (best far b) (far b)

-- The farthest position within a number of jumps.
unfoldable pub frontier : (ℕ → ℕ) → ℕ → ℕ
frontier far zero = 0
frontier far (suc k) = best far (suc (frontier far k))

-- A way forward from the start to a position, by its number of jumps.
pub data Way (far : ℕ → ℕ) : ℕ → ℕ → Type 0 where
  start : Way far 0 0
  leap : {k i : ℕ} (j : ℕ) → i ≤ j → j ≤ far i → Way far k i → Way far (suc k) j

far_best : (far : ℕ → ℕ) (i b : ℕ) → i < b → far i ≤ best far b
unfolding best
far_best far i zero h = absurd (omega arith)
far_best far i (suc b) h = elim (dec_le b i) [
  | yes p ↦ let e : i ≡ b = omega arith in rw e (omega arith)
  | no q ↦ omega (arith, far_best far i b (omega (arith, q)))
]

best_mono : (far : ℕ → ℕ) (a b : ℕ) → a ≤ b → best far a ≤ best far b
unfolding best
best_mono far a zero h = let e : a ≡ 0 = omega arith in rw e (omega arith)
best_mono far a (suc b) h = elim (dec_le a b) [
  | yes p ↦ omega (arith, best_mono far a b p)
  | no q ↦ let e : a ≡ suc b = omega (arith, q) in rw e (omega arith)
]

pub frontier_step : (far : ℕ → ℕ) (k : ℕ) → frontier far k ≤ frontier far (suc k)
unfolding frontier
frontier_step far zero = omega arith
frontier_step far (suc k) =
    best_mono far (suc (frontier far k)) (suc (frontier far (suc k)))
      (omega (arith, frontier_step far k))

pub frontier_mono : (far : ℕ → ℕ) (a b : ℕ) → a ≤ b → frontier far a ≤ frontier far b
frontier_mono far a zero h = let e : a ≡ 0 = omega arith in rw e (omega arith)
frontier_mono far a (suc b) h = elim (dec_le a b) [
  | yes p ↦ omega (arith, frontier_mono far a b p, frontier_step far b)
  | no q ↦ let e : a ≡ suc b = omega (arith, q) in rw e (omega arith)
]

-- Where one more jump gets no farther, no number of jumps does.
pub frontier_stuck :
    (far : ℕ → ℕ) (m k : ℕ)
    → frontier far (suc m) ≤ frontier far m
    → frontier far k ≤ frontier far m
unfolding frontier
frontier_stuck far m zero h = omega arith
frontier_stuck far m (suc k) h = omega (
  arith,
  h,
  best_mono far (suc (frontier far k)) (suc (frontier far m))
      (omega (arith, frontier_stuck far m k h)),
)

-- A way stays within the frontier.
pub Way-frontier : (far : ℕ → ℕ) (k j : ℕ) → Way far k j → j ≤ frontier far k
unfolding frontier
Way-frontier far k j start = omega arith
Way-frontier far k j (leap {k = k'} {i = i} j' up within w) =
    omega (
      arith,
      within,
      far_best far i (suc (frontier far k')) (omega (arith, Way-frontier far k' i w)),
    )

-- What reaches farthest among the first positions.
best_at : (far : ℕ → ℕ) (j b : ℕ) → 0 < j → j ≤ best far b → (i : ℕ) × (i < b) × (j ≤ far i)
unfolding best
best_at far j zero h g = absurd (omega arith)
best_at far j (suc b) h g = elim (dec_le j (far b)) [
  | yes p ↦ (b, omega arith, p)
  | no q ↦ let (i, l, r) = best_at far j b h (omega (arith, q)) in (i, omega arith, r)
]

-- A position within the frontier of k jumps has a way of k jumps at most.
pub frontier-Way : (far : ℕ → ℕ) (k j : ℕ) → j ≤ frontier far k → (k' : ℕ) × (k' ≤ k) × Way far k' j
unfolding frontier
frontier-Way far zero j h = let e : j ≡ 0 = omega arith in rw e (0, omega arith, start)
frontier-Way far (suc k) j h = elim (dec_le j (frontier far k)) [
  | yes p ↦ let (k', l, w) = frontier-Way far k j p in (k', omega arith, w)
  | no q ↦
      let (i, l, r) = best_at far j (suc (frontier far k)) (omega (arith, q)) h in
      let (k', m, w) = frontier-Way far k i (omega arith) in
      (suc k', omega arith, leap j (omega (arith, q)) r w)
]
