-- ===== src/Pairs/Examples.antt =====
-- KSmallestPairs of test/373.cc with the vectors of its main, over a priority queue that is a list.
use algo.Prelude.{
  ℕ, zero, suc, ◌+◌, ◌<◌, ◌≤◌, ◌≡◌, ◌⊎◌, refl, arith, inl, inr, Bool, true, false, Option, none,
  some, List, [], ◌∷◌, if◌then◌else◌, length, Option-cases,
}
use algo.Prelude.Int.{ℤ, pos, ltb_ℤ, ◌+ℤ◌}
use algo.Pairs.{
  Item, one_if, PriorityQueue, cmp, sum, Taken, values, k_smallest_pairs, fill, search,
}
use algo.Pairs.Front.{has, at, AreGood, not_less_trans}
use algo.Pairs.Result.{IsAscending, k_smallest_pairs_lem}

abbrev count : List Item → Item → ℕ
count [] y = 0
count (x ∷ xs) y = one_if x y + count xs y

module _ (less : Item → Item → Bool) where
  abbrev keep : Item → List Item → Option (Item × List Item) → Option (Item × List Item)
  keep x xs none = some (x, xs)
  keep x xs (some (y, ys)) = if less x y then some (y, x ∷ ys) else some (x, xs)

  unfoldable pop_list : List Item → Option (Item × List Item)
  pop_list [] = none
  pop_list (x ∷ xs) = keep x xs (pop_list xs)

  pop_list-count :
      (q q' : List Item) (x y : Item)
      → pop_list q ≡ some (x, q')
      → count q y ≡ one_if x y + count q' y
  unfolding pop_list
  pop_list-count [] q' x y e = absurd (ground arith)
  pop_list-count (z ∷ zs) q' x y e = elim (Option-cases (pop_list zs)) [
    | inl nothing ↦ ground arith
    | inr ((w, ws), there) ↦ ground (arith, pop_list-count zs ws w y there)
  ]

  pop_list-none : (q : List Item) (y : Item) → pop_list q ≡ none → count q y ≡ 0
  unfolding pop_list
  pop_list-none [] y e = refl
  pop_list-none (z ∷ zs) y e = elim (Option-cases (pop_list zs)) [
    | inl nothing ↦ absurd (ground arith)
    | inr ((w, ws), there) ↦ absurd (ground arith)
  ]

  module _ (trans : (x y z : Item) → less x y ≡ false → less y z ≡ false → less x z ≡ false)
      (asym : (x y : Item) → less x y ≡ true → less y x ≡ false)
      (irrefl : (x : Item) → less x x ≡ false) where
    pop_list_greatest :
        (q q' : List Item) (x y : Item)
        → pop_list q ≡ some (x, q')
        → 0 < count q y
        → less x y ≡ false
    unfolding pop_list
    pop_list_greatest [] q' x y e h = absurd (omega (arith, h))
    pop_list_greatest (z ∷ zs) q' x y e h = elim (Option-cases (pop_list zs)) [
      | inl nothing ↦ ground (arith, pop_list-none zs y nothing, irrefl x)
      | inr ((w, ws), there) ↦
          ground (arith, pop_list_greatest zs ws w y there, trans x w y, asym z w, irrefl x)
    ]

abbrev list_queue : (nums1 nums2 : List ℤ) → PriorityQueue (cmp nums1 nums2)
list_queue nums1 nums2 = record {
  Queue = List Item;
  new = [];
  emplace = λ q x. x ∷ q;
  pop = pop_list (cmp nums1 nums2);
  copies = count;
  copies-new = λ x. refl;
  copies-emplace = λ q x y. refl;
  copies-pop = pop_list-count (cmp nums1 nums2);
  pop_none = pop_list-none (cmp nums1 nums2);
  pop_greatest =
      pop_list_greatest (cmp nums1 nums2)
        (λ x y z h k.
          not_less_trans (sum nums1 nums2 x) (sum nums1 nums2 y) (sum nums1 nums2 z) h k)
        (λ x y h. ground arith) (λ x. ground arith);
}

abbrev arr1 : List ℤ
arr1 = pos 1 ∷ pos 7 ∷ pos 11 ∷ []

abbrev arr2 : List ℤ
arr2 = pos 2 ∷ pos 4 ∷ pos 6 ∷ []

ascends_3 : (a b c : ℕ) → a ≤ b → b ≤ c → IsAscending (pos a ∷ pos b ∷ pos c ∷ [])
ascends_3 a b c h k zero zero le lt = ground arith
ascends_3 a b c h k zero (suc zero) le lt = ground arith
ascends_3 a b c h k zero (suc (suc zero)) le lt = ground arith
ascends_3 a b c h k (suc zero) zero le lt = ground arith
ascends_3 a b c h k (suc zero) (suc zero) le lt = ground arith
ascends_3 a b c h k (suc zero) (suc (suc zero)) le lt = ground arith
ascends_3 a b c h k (suc (suc zero)) zero le lt = ground arith
ascends_3 a b c h k (suc (suc zero)) (suc zero) le lt = ground arith
ascends_3 a b c h k (suc (suc zero)) (suc (suc zero)) le lt = ground arith
ascends_3 a b c h k (suc (suc (suc j))) j' le lt = absurd (omega arith)
ascends_3 a b c h k j (suc (suc (suc j'))) le lt = absurd (omega arith)

k_smallest_pairs_lem_example :
    (ts : List Taken) × (k_smallest_pairs arr1 arr2 (list_queue arr1 arr2) 4 ≡ some (values ts))
    × AreGood arr1 arr2 ts
    × (length ts ≤ 4)
    × ((i j : ℕ)
        → i < 3
        → j < 3
        → (has i j ts ≡ true)
          ⊎ ((length ts ≡ 4)
              × ((i' j' : ℕ)
                  → has i' j' ts ≡ true
                  → ltb_ℤ (at arr1 arr2 i j) (at arr1 arr2 i' j') ≡ false)))
k_smallest_pairs_lem_example =
    k_smallest_pairs_lem arr1 arr2 (list_queue arr1 arr2) 4
      (ascends_3 1 7 11 (omega arith) (omega arith)) (ascends_3 2 4 6 (omega arith) (omega arith))
      (omega arith)

four_pairs :
    k_smallest_pairs arr1 arr2 (list_queue arr1 arr2) 4
    ≡ some ((pos 1, pos 2) ∷ (pos 1, pos 4) ∷ (pos 1, pos 6) ∷ (pos 7, pos 2) ∷ [])
unfolding k_smallest_pairs fill search sum pop_list ◌+ℤ◌
four_pairs = refl

-- Without an element in the second vector the program reads outside it.
second_empty : k_smallest_pairs arr1 [] (list_queue arr1 []) 4 ≡ none
unfolding k_smallest_pairs fill search sum pop_list ◌+ℤ◌
second_empty = refl
