-- ===== src/Jump/Fewest.antt =====
-- The result of jump (test/45.cc) is the fewest jumps.
use algo.Prelude.{
  ℕ, zero, suc, ◌+◌, ◌≤◌, ◌<◌, max, ◌≡◌, refl, ap, ◌∙◌, subst, some, List, [], ◌∷◌, ◌==◌,
  if◌then◌else◌, true, arith, length, dec_le, dec_lt, ==_refl, ==_ne, ℕ_discrete,
}
use algo.Prelude.Int.{ℤ}
use algo.Jump.{farthest, jump_loop, jump}
use algo.Jump.Frontier.{
  best, frontier, Way, frontier_mono, frontier_stuck, Way-frontier, frontier-Way,
}

-- What holds before each round, the last one's end included.
record IsUnderWay (far : ℕ → ℕ) (last rounds i res end maxpos : ℕ) : Type 0 where
  at_end : end ≡ frontier far res
  seen : maxpos ≡ best far i
  inside : i ≤ end
  needed : (k : ℕ) → k < res → frontier far k < i
  left : i + rounds ≡ last

-- A position that is not the last one does not stop the frontier.
frontier_onward :
    (far : ℕ → ℕ) (last k res : ℕ)
    → last ≤ frontier far k
    → frontier far res < last
    → frontier far res < frontier far (suc res)
frontier_onward far last k res reach short =
    elim (dec_lt (frontier far res) (frontier far (suc res))) [
      | yes p ↦ p
      | no q ↦ absurd (omega (arith, frontier_stuck far res k (omega (arith, q))))
    ]

IsUnderWay-next :
    (far : ℕ → ℕ) (last rounds i res end maxpos k : ℕ)
    → last ≤ frontier far k
    → IsUnderWay far last (suc rounds) i res end maxpos
    → let m = max maxpos (far i) in
      IsUnderWay far last rounds
        (suc i)
        (if i == end then suc res else res)
        (if i == end then m else end)
        m
unfolding best frontier
IsUnderWay-next far last rounds i res end maxpos k reach v = elim (ℕ_discrete i end) [
  | yes e ↦
      let b : i ≡ frontier far res = e ∙ v.at_end in
      let m : max maxpos (far i) ≡ best far (suc i) = rw (v.seen) refl in
      let t : (i == end) ≡ true = rw e (==_refl end) in
      let grows = frontier_onward far last k res reach (omega (arith, b, v.left)) in
      let f : best far (suc i) ≡ frontier far (suc res) = ap (λ j. best far (suc j)) b in
      rw t record {
        at_end = m ∙ f;
        seen = m;
        inside = omega (arith, m, f, grows, b);
        needed = λ j h. omega (arith, frontier_mono far j res (omega arith), b);
        left = omega (arith, v.left);
      }
  | no ne ↦ rw (==_ne i end ne) record {
    at_end = v.at_end;
    seen = rw (v.seen) refl;
    inside = omega (arith, v.inside, ne);
    needed = λ j h. omega (arith, v.needed j h);
    left = omega (arith, v.left);
  }
]

jump_loop_lem :
    (nums : List ℤ) (last rounds i res end maxpos k : ℕ)
    → last ≤ frontier (farthest nums) k
    → IsUnderWay (farthest nums) last rounds i res end maxpos
    → let r = jump_loop nums rounds i res end maxpos in
      (last ≤ frontier (farthest nums) r) × ((j : ℕ) → j < r → frontier (farthest nums) j < last)
unfolding jump_loop
jump_loop_lem nums last zero i res end maxpos k reach v =
    (omega (arith, v.left, v.inside, v.at_end), λ j h. omega (arith, v.needed j h, v.left))
jump_loop_lem nums last (suc rounds) i res end maxpos k reach v =
    let m = max maxpos (farthest nums i) in
    jump_loop_lem nums last rounds (suc i) (if i == end then suc res else res)
      (if i == end then m else end) m k reach
      (IsUnderWay-next (farthest nums) last rounds i res end maxpos k reach v)

-- If some number of jumps gets from the first to the last element of a vector, then `jump` returns
-- the least such number.
pub jump_lem :
    (nums : List ℤ) (last k : ℕ)
    → length nums ≡ suc last
    → Way (farthest nums) k last
    → (r : ℕ) × (jump nums ≡ some r)
      × Way (farthest nums) r last
      × ((j : ℕ) → Way (farthest nums) j last → r ≤ j)
unfolding jump frontier best
jump_lem [] last k size w = absurd (omega arith)
jump_lem (x ∷ xs) last k size w =
    let nums = x ∷ xs in
    let far = farthest nums in
    let n = length xs in
    let begin : IsUnderWay far last n 0 0 0 0 = record {
      at_end = refl;
      seen = refl;
      inside = omega arith;
      needed = λ j h. absurd (omega arith);
      left = omega arith;
    } in
    let (enough, least) = jump_loop_lem nums last n 0 0 0 0 k (Way-frontier far k last w) begin in
    let r = jump_loop nums n 0 0 0 0 in
    let (r', fewer, way) = frontier-Way far r last enough in
    let fewest : (j : ℕ) → Way far j last → r ≤ j = λ j u. elim (dec_le r j) [
      | yes p ↦ p
      | no q ↦ absurd (omega (arith, least j (omega (arith, q)), Way-frontier far j last u))
    ] in
    let same : r' ≡ r = omega (arith, fewer, fewest r' way) in
    (r, refl, subst (λ j. Way far j last) same way, fewest)
