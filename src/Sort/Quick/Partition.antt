-- ===== src/Sort/Quick/Partition.antt =====
-- What ParititionSort of sort_algo/quick_sort.cc does: it splits a range at one of its elements.
use algo.Prelude.{
  ℕ, zero, suc, ◌+◌, ◌-◌, ◌≤◌, ◌<◌, ◌≡◌, ◌≢◌, ◌⊎◌, inl, inr, refl, sym, ◌∙◌, arith, tests, some,
  List, ◌&&◌, ◌==◌, if◌then◌else◌, ltb, length, set, length-set, Bool-cases,
}
use algo.Prelude.Int.{ℤ, ◌≤ℤ◌, leb_ℤ}
use algo.Sort.{at, at-set, swap, at-swap, length-swap}
use algo.Sort.Ranges.{Permutes, Permutes-refl, Permutes-trans, swap-Permutes, array_eq}
use algo.Sort.Quick.{quick_down, quick_up, partition_loop, partition}

-- Where the loop that comes from the end stops.
record IsDown (vec : List ℤ) (tmp : ℤ) (start end e : ℕ) : Type 0 where
  low : start ≤ e
  high : e ≤ end
  passed : (k : ℕ) → e < k → k ≤ end → tmp ≤ℤ at vec k
  stops : (e ≡ start) ⊎ (at vec e ≤ℤ tmp)

quick_down-IsDown :
    (vec : List ℤ) (tmp : ℤ) (start end : ℕ)
    → start ≤ end
    → IsDown vec tmp start end (quick_down vec tmp start end)
unfolding quick_down
quick_down-IsDown vec tmp start zero h = record {
  low = h;
  high = omega arith;
  passed = λ k p q. absurd (omega arith);
  stops = inl (omega arith);
}
quick_down-IsDown vec tmp start (suc e) h =
    elim (Bool-cases (ltb start (suc e) && leb_ℤ tmp (at vec (suc e)))) [
      | inl on ↦
          let d = quick_down-IsDown vec tmp start e (ground arith) in
          rw (on) (record {
            low = d.low;
            high = omega (arith, d.high);
            passed = λ k p q. elim (Bool-cases (k == suc e)) [
              | inl is ↦ let k_is : k ≡ suc e = ground arith in rw (k_is) (ground arith)
              | inr other ↦ d.passed k p (ground arith)
            ];
            stops = d.stops;
          })
      | inr off ↦ rw (off) (record {
        low = h;
        high = omega arith;
        passed = λ k p q. absurd (omega arith);
        stops = ground arith;
      })
    ]

-- Where the loop that comes from the start stops, `n` places before the end.
record IsUp (vec : List ℤ) (tmp : ℤ) (start n s : ℕ) : Type 0 where
  low : start ≤ s
  high : s ≤ start + n
  passed : (k : ℕ) → start ≤ k → k < s → at vec k ≤ℤ tmp
  moves : 0 < n → at vec start ≤ℤ tmp → start < s

quick_up-IsUp :
    (vec : List ℤ) (tmp : ℤ) (start n : ℕ) → IsUp vec tmp start n (quick_up vec tmp start n)
unfolding quick_up
quick_up-IsUp vec tmp start zero = record {
  low = omega arith;
  high = omega arith;
  passed = λ k p q. absurd (omega arith);
  moves = λ p q. absurd (omega arith);
}
quick_up-IsUp vec tmp start (suc n) = elim (Bool-cases (leb_ℤ (at vec start) tmp)) [
  | inl on ↦
      let u = quick_up-IsUp vec tmp (start + 1) n in
      rw (on) (record {
        low = omega (arith, u.low);
        high = omega (arith, u.high);
        passed = λ k p q. elim (Bool-cases (k == start)) [
          | inl is ↦ let k_is : k ≡ start = ground arith in rw (k_is) (ground arith)
          | inr other ↦ u.passed k (ground arith) q
        ];
        moves = λ p q. omega (arith, u.low);
      })
  | inr off ↦ rw (off) (record {
    low = omega arith;
    high = omega arith;
    passed = λ k p q. absurd (omega arith);
    moves = λ p q. ground arith;
  })
]

-- The loop's array `vec` has a hole at `hole`, where `full` has `tmp`.
record HasHole (vec full : List ℤ) (hole : ℕ) (tmp : ℤ) : Type 0 where
  size : length vec ≡ length full
  filled : at full hole ≡ tmp
  elsewhere : (k : ℕ) → k ≢ hole → at vec k ≡ at full k

-- The element at `j` moves into the hole.
move-HasHole :
    (vec full : List ℤ) (hole j : ℕ) (tmp : ℤ)
    → hole < length full
    → j < length full
    → HasHole vec full hole tmp
    → HasHole (set vec hole (at vec j)) (swap full hole j) j tmp
move-HasHole vec full hole j tmp hh hj v =
    let in_vec : hole < length vec = omega (arith, v.size) in
    record {
      size = length-set vec hole (at vec j) ∙ v.size ∙ sym (length-swap full hole j);
      filled = ground (arith, at-swap full hole j j hh hj, v.filled);
      elsewhere = λ k ne. ground (
        arith,
        at-set vec hole k (at vec j) in_vec,
        at-swap full hole j k hh hj,
        v.elsewhere k,
        v.elsewhere j,
      );
    }

fill_eq :
    (vec full : List ℤ) (hole : ℕ) (tmp : ℤ)
    → hole < length full
    → HasHole vec full hole tmp
    → set vec hole tmp ≡ full
fill_eq vec full hole tmp hh v =
    array_eq (set vec hole tmp) full (length-set vec hole tmp ∙ v.size)
      (λ k. ground (arith, at-set vec hole k tmp (omega (arith, v.size)), v.elsewhere k, v.filled))

-- The split range.
pub record IsSplit (lo hi : ℕ) (vec : List ℤ) (idx : ℕ) : Type 0 where
  pub low : lo ≤ idx
  pub high : idx < hi
  pub lesser : (k : ℕ) → lo ≤ k → k < idx → at vec k ≤ℤ at vec idx
  pub greater : (k : ℕ) → idx < k → k < hi → at vec idx ≤ℤ at vec k

-- The outer loop: `full` is the array with `tmp` put into the hole.
record Splits (lo hi : ℕ) (first vec full : List ℤ) (tmp : ℤ) (start end : ℕ) : Type 1 where
  hole : HasHole vec full start tmp
  permutes : Permutes lo hi first full
  low : lo ≤ start
  order : start ≤ end
  high : end < hi
  inside : hi ≤ length full
  left : (k : ℕ) → lo ≤ k → k < start → at full k ≤ℤ tmp
  right : (k : ℕ) → end < k → k < hi → tmp ≤ℤ at full k

module _ (lo hi : ℕ) (first vec full : List ℤ) (tmp : ℤ) (start end : ℕ)
    (v : Splits lo hi first vec full tmp start end) where
  abbrev down : ℕ
  down = quick_down vec tmp start end

  abbrev lowered : List ℤ
  lowered = set vec start (at vec down)

  abbrev up : ℕ
  up = quick_up lowered tmp start (down - start)

  abbrev raised : List ℤ
  raised = set lowered down (at lowered up)

  abbrev full1 : List ℤ
  full1 = swap full start down

  abbrev full2 : List ℤ
  full2 = swap full1 down up

  is_down : IsDown vec tmp start end down
  is_down = quick_down-IsDown vec tmp start end v.order

  is_up : IsUp lowered tmp start (down - start) up
  is_up = quick_up-IsUp lowered tmp start (down - start)

  round-Splits : Splits lo hi first raised full2 tmp up down
  round-Splits =
      let d = is_down in
      let u = is_up in
      let size1 = length-swap full start down in
      let size2 = length-swap full1 down up in
      let in_start : start < length full = omega (arith, v.order, v.high, v.inside) in
      let in_down : down < length full = omega (arith, d.high, v.high, v.inside) in
      let up_le : up ≤ down = omega (arith, u.high, d.low) in
      let hole1 : HasHole lowered full1 down tmp =
        move-HasHole vec full start down tmp in_start in_down v.hole in
      let at1 : (k : ℕ)
          → at full1 k ≡ (
              if k == down
              then at full start
              else (if k == start then at full down else at full k)) =
        λ k. at-swap full start down k in_start in_down in
      let at2 : (k : ℕ)
          → at full2 k
            ≡ (if k == up then at full1 down else (if k == down then at full1 up else at full1 k)) =
        λ k. at-swap full1 down up k (omega (arith, size1)) (omega (arith, size1)) in
      record {
        hole =
            move-HasHole lowered full1 down up tmp (omega (arith, size1)) (omega (arith, size1))
              hole1;
        permutes = Permutes-trans v.permutes (
            Permutes-trans
              (swap-Permutes full start down v.low (omega (arith, v.order, v.high))
                (omega (arith, v.low, d.low)) (omega (arith, d.high, v.high)) v.inside)
              (swap-Permutes full1 down up (omega (arith, v.low, d.low))
                (omega (arith, d.high, v.high)) (omega (arith, v.low, u.low))
                (omega (arith, d.high, v.high)) (omega (arith, size1, v.inside))));
        low = omega (arith, v.low, u.low);
        order = up_le;
        high = omega (arith, d.high, v.high);
        inside = omega (arith, size1, size2, v.inside);
        left = λ k p q. ground (arith, at2 k, at1 k, v.left k, u.passed k, hole1.elsewhere k);
        right = λ k p q.
            ground (arith, u.low, d.low, at2 k, at1 k, v.right k, d.passed k, v.hole.elsewhere k);
      }

  round_shrinks : start < end → down - up < end - start
  round_shrinks h =
      let d = is_down in
      let u = is_up in
      let in_start : start < length vec = omega (arith, v.hole.size, v.order, v.high, v.inside) in
      let first_read : at lowered start ≡ at vec down =
        ground (arith, at-set vec start start (at vec down) in_start) in
      ground (arith, d.low, d.high, d.stops, u.low, u.high, u.moves, first_read)

partition_loop-IsSplit :
    (fuel lo hi : ℕ) (first vec full : List ℤ) (tmp : ℤ) (start end : ℕ)
    → end - start < fuel
    → Splits lo hi first vec full tmp start end
    → (vec' : List ℤ) × (idx : ℕ) × (partition_loop fuel vec tmp start end ≡ some (vec', idx))
      × Permutes lo hi first vec'
      × IsSplit lo hi vec' idx
unfolding partition_loop
partition_loop-IsSplit zero lo hi first vec full tmp start end f v = absurd (omega arith)
partition_loop-IsSplit (suc fuel) lo hi first vec full tmp start end f v =
    elim (Bool-cases (ltb start end)) [
      | inl on ↦
          let less = round_shrinks lo hi first vec full tmp start end v (omega tests) in
          let (vec', idx, run, p, s) =
            partition_loop-IsSplit fuel lo hi first (raised lo hi first vec full tmp start end v)
              (full2 lo hi first vec full tmp start end v) tmp
              (up lo hi first vec full tmp start end v) (down lo hi first vec full tmp start end v)
              (omega (arith, less)) (round-Splits lo hi first vec full tmp start end v) in
          (vec', idx, rw (on) run, p, s)
      | inr off ↦
          let done : set vec start tmp ≡ full =
            fill_eq vec full start tmp (omega (arith, v.order, v.high, v.inside)) v.hole in
          (
            full,
            start,
            rw (off, done) refl,
            v.permutes,
            record {
              low = v.low;
              high = omega (arith, v.order, v.high);
              lesser = λ k p q. rw (v.hole.filled) (v.left k p q);
              greater = λ k p q. rw (v.hole.filled) (v.right k (ground (arith, v.order)) q);
            },
          )
    ]

-- ParititionSort of a range comes back with an index of it: nothing before that index in the
-- range is above its element, nothing after it below, and the range is rearranged.
pub partition-IsSplit :
    (vec : List ℤ) (start hi : ℕ)
    → start < hi
    → hi ≤ length vec
    → (vec' : List ℤ) × (idx : ℕ) × (partition vec start (hi - 1) ≡ some (vec', idx))
      × Permutes start hi vec vec'
      × IsSplit start hi vec' idx
unfolding partition
partition-IsSplit vec start hi h hc =
    partition_loop-IsSplit (hi - 1 + 1) start hi vec vec vec (at vec start) start (hi - 1)
      (omega arith)
      (record {
        hole = record { size = refl; filled = refl; elsewhere = λ k ne. refl };
        permutes = Permutes-refl vec;
        low = omega arith;
        order = omega arith;
        high = omega arith;
        inside = hc;
        left = λ k p q. absurd (omega arith);
        right = λ k p q. absurd (omega arith);
      })
