-- ===== src/Sort/Heap/Sinking.antt =====
-- What Heap of sort_algo/heap_sort.cc restores: the order of a heap with one element too low.
use algo.Prelude.{
  ℕ, zero, suc, ◌+◌, ◌-◌, ◌*◌, ◌/◌, ◌≤◌, ◌<◌, ◌≡◌, ◌≢◌, ◌⊎◌, inl, inr, refl, arith, tests, false,
  some, List, ◌&&◌, ◌==◌, if◌then◌else◌, ltb, length, Bool-cases,
}
use algo.Prelude.Int.{ℤ, ◌≤ℤ◌, ltb_ℤ}
use algo.Sort.{at, swap, at-swap, length-swap}
use algo.Sort.Ranges.{Permutes, Permutes-refl, Permutes-trans, swap-Permutes}
use algo.Sort.Heap.{larger_son, heap_loop, heap}

abbrev pub parent : ℕ → ℕ
parent c = (c - 1) / 2

-- Below `count`, no element whose parent is at `lo` or later is above that parent.
abbrev pub IsHeapFrom : ℕ → List ℤ → ℕ → Type 0
IsHeapFrom lo vec count =
    (c : ℕ) → 0 < c → c < count → lo ≤ parent c → at vec c ≤ℤ at vec (parent c)

-- The same, but for the sons of `i`, which are not above the parent of `i`.
pub record IsSinking (lo : ℕ) (vec : List ℤ) (i count : ℕ) : Type 0 where
  pub edges :
      (c : ℕ) → 0 < c → c < count → lo ≤ parent c → parent c ≢ i → at vec c ≤ℤ at vec (parent c)
  pub bridged :
      (c : ℕ)
      → 0 < c
      → c < count
      → parent c ≡ i
      → 0 < i
      → lo ≤ parent i
      → at vec c ≤ℤ at vec (parent i)

-- The son that the loop takes.
record IsLargerSon (vec : List ℤ) (i m count : ℕ) : Type 0 where
  inside : m < count
  child : (m ≡ i * 2 + 1) ⊎ (m ≡ i * 2 + 2)
  most : (c : ℕ) → 0 < c → c < count → parent c ≡ i → at vec c ≤ℤ at vec m

son_case :
    (vec : List ℤ) (son c : ℕ) (x : ℤ)
    → (c ≡ son) ⊎ (c ≡ son + 1)
    → at vec son ≤ℤ x
    → at vec (son + 1) ≤ℤ x
    → at vec c ≤ℤ x
son_case vec son c x (inl e) l r = rw (e) l
son_case vec son c x (inr e) l r = rw (e) r

son_case' :
    (vec : List ℤ) (son count c : ℕ)
    → (c ≡ son) ⊎ (c ≡ son + 1)
    → c < count
    → (ltb (son + 1) count && ltb_ℤ (at vec son) (at vec (son + 1))) ≡ false
    → at vec c ≤ℤ at vec son
son_case' vec son count c (inl e) q t = rw (e) (omega arith)
son_case' vec son count c (inr e) q t = rw (e) (ground arith)

larger_son-IsLargerSon :
    (vec : List ℤ) (i count : ℕ)
    → i * 2 + 1 < count
    → IsLargerSon vec i (larger_son vec (i * 2 + 1) count) count
larger_son-IsLargerSon vec i count h =
    elim (Bool-cases
      (ltb (i * 2 + 1 + 1) count && ltb_ℤ (at vec (i * 2 + 1)) (at vec (i * 2 + 1 + 1)))) [
        | inl e ↦ rw (e) (record {
          inside = ground arith;
          child = ground arith;
          most = λ c p q r.
              son_case vec (i * 2 + 1) c (at vec (i * 2 + 1 + 1)) (omega arith) (ground arith)
                (omega arith);
        })
        | inr e ↦ rw (e) (record {
          inside = ground arith;
          child = ground arith;
          most = λ c p q r. son_case' vec (i * 2 + 1) count c (omega arith) q e;
        })
      ]

swap-IsSinking :
    (lo : ℕ) (vec : List ℤ) (i m count : ℕ)
    → count ≤ length vec
    → lo ≤ i
    → IsSinking lo vec i count
    → IsLargerSon vec i m count
    → at vec i ≤ℤ at vec m
    → IsSinking lo (swap vec i m) m count
swap-IsSinking lo vec i m count hc hlo v s below =
    let in_i : i < length vec = omega (arith, s.inside, s.child) in
    let in_m : m < length vec = omega (arith, s.inside) in
    let after : (k : ℕ)
        → at (swap vec i m) k
          ≡ (if k == m then at vec i else (if k == i then at vec m else at vec k)) =
      λ k. at-swap vec i m k in_i in_m in
    record {
      edges = λ c p q r t.
          ground
            (arith, s.inside, s.child, after c, after (parent c), v.edges c, v.bridged m, s.most c);
      bridged =
          λ c p q r t u. ground (arith, s.inside, s.child, after c, after (parent m), v.edges c);
    }

-- What comes of sinking.
pub record Sunk (lo : ℕ) (vec vec' : List ℤ) (count : ℕ) : Type 1 where
  pub permutes : Permutes 0 count vec vec'
  pub heaped : IsHeapFrom lo vec' count

settles :
    (lo : ℕ) (vec : List ℤ) (i count : ℕ)
    → IsSinking lo vec i count
    → ((c : ℕ) → 0 < c → c < count → parent c ≡ i → at vec c ≤ℤ at vec i)
    → Sunk lo vec vec count
settles lo vec i count v h = record {
  permutes = Permutes-refl vec;
  heaped = λ c p q r. elim (Bool-cases (parent c == i)) [
    | inl e ↦ let is : parent c ≡ i = ground arith in rw (is) (h c p q is)
    | inr e ↦ v.edges c p q r (ground arith)
  ];
}

heap_loop-Sunk :
    (fuel lo : ℕ) (vec : List ℤ) (i count : ℕ)
    → count - i < fuel
    → count ≤ length vec
    → lo ≤ i
    → IsSinking lo vec i count
    → (vec' : List ℤ) × (heap_loop fuel vec i count ≡ some vec') × Sunk lo vec vec' count
unfolding heap_loop
heap_loop-Sunk zero lo vec i count f hc hlo v = absurd (omega arith)
heap_loop-Sunk (suc fuel) lo vec i count f hc hlo v = elim (Bool-cases (ltb (i * 2 + 1) count)) [
  | inr leaf ↦ (vec, rw (leaf) refl, settles lo vec i count v (λ c p q r. absurd (ground arith)))
  | inl sons ↦
      let son = larger_son vec (i * 2 + 1) count in
      let s = larger_son-IsLargerSon vec i count (omega tests) in
      elim (Bool-cases (ltb_ℤ (at vec son) (at vec i))) [
        | inl below ↦ (
          vec,
          rw (sons, below) refl,
          settles lo vec i count v (λ c p q r. ground (arith, s.most c p q r)),
        )
        | inr above ↦
            let in_i : i < count = omega (arith, s.inside, s.child) in
            let moved = swap-Permutes vec i son (omega arith) in_i (omega arith) s.inside hc in
            let (vec', run, t) =
              heap_loop-Sunk fuel lo (swap vec i son) son count (omega (arith, s.inside, s.child))
                (omega (arith, length-swap vec i son)) (omega (arith, s.child))
                (swap-IsSinking lo vec i son count hc hlo v s (ground arith)) in
            (
              vec',
              rw (sons, above) run,
              record { permutes = Permutes-trans moved t.permutes; heaped = t.heaped },
            )
      ]
]

-- Heap comes back, and puts the elements below `count` in heap order from `lo` on, if only the
-- element at `start` may be too low; it only rearranges them.
pub heap-Sunk :
    (lo : ℕ) (vec : List ℤ) (start count : ℕ)
    → count ≤ length vec
    → lo ≤ start
    → IsSinking lo vec start count
    → (vec' : List ℤ) × (heap vec start count ≡ some vec') × Sunk lo vec vec' count
unfolding heap
heap-Sunk lo vec start count hc hlo v =
    heap_loop-Sunk (count + 1) lo vec start count (omega arith) hc hlo v
