-- ===== src/Pairs/Smallest.antt =====
-- The loops of KSmallestPairs in test/373.cc: what they find.
use algo.Prelude.{
  ℕ, zero, suc, ◌+◌, ◌<◌, ◌≤◌, ◌≡◌, ◌⊎◌, inl, inr, refl, ap, arith, true, false, ◌&&◌, some, List,
  [], ◌∷◌, ◌==◌, if◌then◌else◌, leb, ltb, length, Bool-cases, Option-cases,
}
use algo.Prelude.Int.{ℤ, ltb_ℤ}
use algo.Pairs.{Item, PriorityQueue, cmp, Taken, fill, search}
use algo.Pairs.Front.{
  is_at, has, at, AreGood, held, IsFront, next, next_own, next_other, popped_there, floor, taken,
  taken_there, next-IsFront,
}

module _ (nums1 nums2 : List ℤ) (P : PriorityQueue (cmp nums1 nums2))
    (ascending : (i j j' : ℕ)
      → j ≤ j'
      → j' < length nums2
      → ltb_ℤ (at nums1 nums2 i j') (at nums1 nums2 i j) ≡ false) where
  -- What the second loop finds from a queue on: each pair stands behind one of the queue in its row;
  -- and what stands behind one of the queue is found, or `k` pairs are, whose sums are not above.
  pub record Finds (q : P.Queue) (k : ℕ) (ts : List Taken) : Type 0 where
    pub good : AreGood nums1 nums2 ts
    pub above :
        (i j : ℕ)
        → has i j ts ≡ true
        → (j0 : ℕ) × (0 < held nums1 nums2 P ascending q i j0) × (j0 ≤ j) × (j < length nums2)
    pub complete :
        (i j0 j : ℕ)
        → 0 < held nums1 nums2 P ascending q i j0
        → j0 ≤ j
        → j < length nums2
        → (has i j ts ≡ true)
          ⊎ ((length ts ≡ k)
              × ((i' j' : ℕ)
                  → has i' j' ts ≡ true
                  → ltb_ℤ (at nums1 nums2 i j) (at nums1 nums2 i' j') ≡ false))

  module _ (q q' : P.Queue) (x : Item) (f : IsFront nums1 nums2 P ascending q)
      (e : P.pop q ≡ some (x, q')) (k : ℕ) (ts : List Taken)
      (r : Finds (next nums1 nums2 P ascending q q' x f e) k ts) where
    -- What is found behind the item stood behind something in the queue.
    stood :
        (i j : ℕ)
        → has i j ts ≡ true
        → (j0 : ℕ) × (0 < held nums1 nums2 P ascending q i j0) × (j0 ≤ j) × (j < length nums2)
    stood i j h =
        let (j0, there, le, lt) = r.above i j h in
        elim (Bool-cases (x.row == i)) [
          | inl own ↦ (
            x.col,
            ground (arith, popped_there nums1 nums2 P ascending q q' x f e),
            ground (arith, next_own nums1 nums2 P ascending q q' x f e j0),
            lt,
          )
          | inr other ↦
              (j0, ground (arith, next_other nums1 nums2 P ascending q q' x f e i j0), le, lt)
        ]

    new_here : has x.row x.col ts ≡ false
    new_here = elim (Bool-cases (has x.row x.col ts)) [
      | inl again ↦
          let (j0, there, le, lt) = r.above x.row x.col again in
          absurd (ground (arith, next_own nums1 nums2 P ascending q q' x f e j0))
      | inr new ↦ new
    ]

    -- What is not found now stands behind something in the next queue.
    carried :
        (i j0 j : ℕ)
        → 0 < held nums1 nums2 P ascending q i j0
        → j0 ≤ j
        → j < length nums2
        → is_at i j (taken nums1 nums2 P ascending q q' x f e) ≡ false
        → (j1 : ℕ) × (0
            < held nums1 nums2 P ascending (next nums1 nums2 P ascending q q' x f e) i j1)
          × (j1 ≤ j)
    carried i j0 j h le lt not_now = elim (Bool-cases (x.row == i)) [
      | inl own ↦ (
        x.col + 1,
        ground (
          arith,
          f.alone i j0 x.col h,
          popped_there nums1 nums2 P ascending q q' x f e,
          next_own nums1 nums2 P ascending q q' x f e (x.col + 1),
        ),
        ground (arith, f.alone i j0 x.col h, popped_there nums1 nums2 P ascending q q' x f e),
      )
      | inr other ↦ (j0, ground (arith, next_other nums1 nums2 P ascending q q' x f e i j0), le)
    ]

    found-Finds : Finds q (suc k) (taken nums1 nums2 P ascending q q' x f e ∷ ts)
    found-Finds = record {
      good = (
        taken_there nums1 nums2 P ascending q q' x f e,
        new_here,
        (λ i j h.
            let (j0, there, le, lt) = stood i j h in
            floor nums1 nums2 P ascending q q' x f e i j0 j there le lt),
        r.good,
      );
      above = λ i j h. elim (Bool-cases (has i j ts)) [
        | inl later ↦ stood i j later
        | inr now ↦ (
          x.col,
          ground (arith, popped_there nums1 nums2 P ascending q q' x f e),
          ground arith,
          ground (arith, f.inside x.row x.col (popped_there nums1 nums2 P ascending q q' x f e)),
        )
      ];
      complete = λ i j0 j h le lt.
          elim (Bool-cases (is_at i j (taken nums1 nums2 P ascending q q' x f e))) [
            | inl now ↦ inl (ground arith)
            | inr not_now ↦
                let (j1, there, le') = carried i j0 j h le lt not_now in
                elim (r.complete i j1 j there le' lt) [
                  | inl later ↦ inl (ground arith)
                  | inr (all, below) ↦ inr (
                    ap suc all,
                    λ i' j' h'. elim (Bool-cases (has i' j' ts)) [
                      | inl later ↦ below i' j' later
                      | inr now ↦
                          ground (arith, floor nums1 nums2 P ascending q q' x f e i j0 j h le lt)
                    ],
                  )
                ]
          ];
    }

  pub search-Finds :
      (k : ℕ) (q : P.Queue)
      → IsFront nums1 nums2 P ascending q
      → (ts : List Taken) × (search nums1 nums2 P k q ≡ some ts) × (length ts ≤ k) × Finds q k ts
  unfolding search
  search-Finds zero q f = (
    [],
    refl,
    omega arith,
    record {
      good = tt;
      above = λ i j h. absurd (ground arith);
      complete = λ i j0 j h le lt. inr (refl, λ i' j' h'. absurd (ground arith));
    },
  )
  search-Finds (suc k) q f = elim (Option-cases (P.pop q)) [
    | inl nothing ↦ (
      [],
      rw (nothing, search) refl,
      omega arith,
      record {
        good = tt;
        above = λ i j h. absurd (ground arith);
        complete = λ i j0 j h le lt.
            absurd (ground (arith, P.pop_none q (record { row = i; col = j0 }) nothing));
      },
    )
    | inr ((x, q'), e) ↦
        let (ts, run, short, r) =
          search-Finds k (next nums1 nums2 P ascending q q' x f e)
            (next-IsFront nums1 nums2 P ascending q q' x f e) in
        (
          taken nums1 nums2 P ascending q q' x f e ∷ ts,
          rw (e, search, taken_there nums1 nums2 P ascending q q' x f e, run) refl,
          omega (arith, short),
          found-Finds q q' x f e k ts r,
        )
  ]

  -- The first loop puts the first column of the rows from `i` on into the queue.
  held-fill :
      (i left : ℕ) (q : P.Queue) (r c : ℕ)
      → held nums1 nums2 P ascending (fill nums1 nums2 P i left q) r c
        ≡ (if leb i r && ltb r (i + left) && (c == 0) then 1 else 0)
          + held nums1 nums2 P ascending q r c
  unfolding fill
  held-fill i zero q r c = ground arith
  held-fill i (suc left) q r c = ground (
    arith,
    held-fill (i + 1) left (P.emplace q (record { row = i; col = 0 })) r c,
    P.copies-emplace q (record { row = i; col = 0 }) (record { row = r; col = c }),
  )

  pub held-start :
      (rows r c : ℕ)
      → held nums1 nums2 P ascending (fill nums1 nums2 P 0 rows P.new) r c
        ≡ (if ltb r rows && (c == 0) then 1 else 0)
  held-start rows r c =
      ground (arith, held-fill 0 rows P.new r c, P.copies-new (record { row = r; col = c }))

  pub start-IsFront :
      (rows : ℕ)
      → rows ≤ length nums1
      → 0 < length nums2
      → IsFront nums1 nums2 P ascending (fill nums1 nums2 P 0 rows P.new)
  start-IsFront rows le some_col = record {
    once = λ i j. ground (arith, held-start rows i j);
    alone = λ i j j' h h'. ground (arith, held-start rows i j, held-start rows i j');
    inside = λ i j h. ground (arith, held-start rows i j);
  }
