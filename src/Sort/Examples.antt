-- ===== src/Sort/Examples.antt =====
-- Tests of the sorts of sort_algo at the array of their programs, and their theorems there.
use algo.Prelude.{◌≡◌, refl, arith, some, List, [], ◌∷◌}
use algo.Prelude.Int.{ℤ, pos, negsuc}
use algo.Sort.{swap, IsSorted}
use algo.Sort.Heap.{heap_sort}
use algo.Sort.Heap.Sorting.{heap_sort-IsSorted}
use algo.Sort.Ranges.{SortsRange}
use algo.Sort.Quick.{quick_sort}
use algo.Sort.Quick.Sorting.{quick_sort-SortsRange}
use algo.Sort.Merge.{merge_sort}
use algo.Sort.Merge.Sorting.{merge_sort-SortsRange}
use algo.Sort.Bubble.{bubble_sort, bubble_sort-IsSorted}
use algo.Sort.Choose.{choose_sort, choose_sort-IsSorted}
use algo.Sort.Insert.{insert_sort, insert_sort-IsSorted}

-- The array of the programs, with two of its elements negated.
abbrev numbers : List ℤ
numbers =
    pos 2
    ∷ negsuc 42
    ∷ pos 54
    ∷ pos 1
    ∷ pos 8
    ∷ pos 5
    ∷ pos 0
    ∷ pos 2
    ∷ negsuc 31
    ∷ pos 78
    ∷ pos 10
    ∷ []

abbrev ordered : List ℤ
ordered =
    negsuc 42
    ∷ negsuc 31
    ∷ pos 0
    ∷ pos 1
    ∷ pos 2
    ∷ pos 2
    ∷ pos 5
    ∷ pos 8
    ∷ pos 10
    ∷ pos 54
    ∷ pos 78
    ∷ []

bubble_sort_test : bubble_sort numbers 0 11 ≡ ordered
unfolding bubble_sort swap
bubble_sort_test = refl

choose_sort_test : choose_sort numbers 0 11 ≡ ordered
unfolding choose_sort swap
choose_sort_test = refl

insert_sort_test : insert_sort numbers 0 11 ≡ ordered
unfolding insert_sort swap
insert_sort_test = refl

bubble_sort-IsSorted_example : IsSorted numbers (bubble_sort numbers 0 11) 11
bubble_sort-IsSorted_example = bubble_sort-IsSorted numbers 0 11 (omega arith)

choose_sort-IsSorted_example : IsSorted numbers (choose_sort numbers 0 11) 11
choose_sort-IsSorted_example = choose_sort-IsSorted numbers 0 11 (omega arith)

insert_sort-IsSorted_example : IsSorted numbers (insert_sort numbers 0 11) 11
insert_sort-IsSorted_example = insert_sort-IsSorted numbers 0 11 (omega arith)

heap_sort_test : heap_sort numbers 0 11 ≡ some ordered
unfolding heap_sort swap
heap_sort_test = refl

quick_sort_test : quick_sort 12 numbers 0 11 ≡ some ordered
unfolding quick_sort
quick_sort_test = refl

merge_sort_test : merge_sort 12 numbers 0 11 ≡ some ordered
unfolding merge_sort
merge_sort_test = refl

heap_sort-IsSorted_example :
    (vec' : List ℤ) × (heap_sort numbers 0 11 ≡ some vec') × IsSorted numbers vec' 11
heap_sort-IsSorted_example = heap_sort-IsSorted numbers 11 (omega arith)

-- The range of the eight elements from the third on.
quick_sort-SortsRange_example :
    (vec' : List ℤ) × (quick_sort 9 numbers 2 10 ≡ some vec') × SortsRange 2 10 numbers vec'
quick_sort-SortsRange_example = quick_sort-SortsRange 9 numbers 2 10 (omega arith) (omega arith)

merge_sort-SortsRange_example :
    (vec' : List ℤ) × (merge_sort 9 numbers 2 10 ≡ some vec') × SortsRange 2 10 numbers vec'
merge_sort-SortsRange_example = merge_sort-SortsRange 9 numbers 2 10 (omega arith) (omega arith)
