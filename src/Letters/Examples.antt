-- ===== src/Letters/Examples.antt =====
-- letterCombinations of test/17.cc on small inputs, and its theorem at one.
use algo.Prelude.{ℕ, ◌≡◌, refl, arith, none, some, List, [], ◌∷◌}
use algo.Letters.{all_letters, letter_combinations, core, each_string, each_char}
use algo.Letters.Words.{words, letter_combinations_lem}

letter_combinations_lem_example :
    (des : List (List ℕ)) × (all_letters (b'2' ∷ b'7' ∷ []) ≡ some des)
    × (letter_combinations (b'2' ∷ b'7' ∷ []) ≡ some (words des))
letter_combinations_lem_example =
    letter_combinations_lem (b'2' ∷ b'7' ∷ [])
      (omega arith, omega arith, (omega arith, omega arith, tt))

-- The bound of the inner loop is that of another string: for the key '1' behind another one the
-- program reads outside the string.
key_1_second : letter_combinations (b'2' ∷ b'1' ∷ []) ≡ none
unfolding letter_combinations core each_string each_char
key_1_second = refl
