-- ===== src/Letters.antt =====
-- letterCombinations of test/17.cc: the words that a sequence of telephone keys may stand for.
pub mod Words
mod Examples
use algo.Prelude.{
  get_elem?, ℕ, zero, suc, ◌>>=◌, ◌+◌, ◌-◌, Option, none, some, List, [], ◌∷◌, ◌++◌, if◌then◌else◌,
  leb, length,
}

-- The array `str`, of the keys from '1' on.
abbrev pub str : List (List ℕ)
str =
    []
    ∷ (b'a' ∷ b'b' ∷ b'c' ∷ [])
    ∷ (b'd' ∷ b'e' ∷ b'f' ∷ [])
    ∷ (b'g' ∷ b'h' ∷ b'i' ∷ [])
    ∷ (b'j' ∷ b'k' ∷ b'l' ∷ [])
    ∷ (b'm' ∷ b'n' ∷ b'o' ∷ [])
    ∷ (b'p' ∷ b'q' ∷ b'r' ∷ b's' ∷ [])
    ∷ (b't' ∷ b'u' ∷ b'v' ∷ [])
    ∷ (b'w' ∷ b'x' ∷ b'y' ∷ b'z' ∷ [])
    ∷ []

abbrev pub letters_of : ℕ → Option (List ℕ)
letters_of digit = if leb b'1' digit then get_elem? str (digit - b'1') else none

-- The vector `tmp`.
abbrev pub all_letters : List ℕ → Option (List (List ℕ))
all_letters [] = some []
all_letters (d ∷ ds) = do letters ← letters_of d; rest ← all_letters ds; some (letters ∷ rest)

-- `des[n][m]` of a std::string, which has a zero character behind its last one.
abbrev pub char_at : List ℕ → ℕ → Option ℕ
char_at [] zero = some 0
char_at [] (suc m) = none
char_at (c ∷ cs) zero = some c
char_at (c ∷ cs) (suc m) = char_at cs m

-- The loop over `m`, with how often it still runs; `core` is what it calls with the next word.
unfoldable pub each_char :
    (List ℕ → Option (List (List ℕ))) → List ℕ → ℕ → ℕ → List ℕ → Option (List (List ℕ))
each_char core des_n m zero s = some []
each_char core des_n m (suc left) s = do
  c ← char_at des_n m
  these ← core (s ++ c ∷ [])
  rest ← each_char core des_n (m + 1) left s
  some (these ++ rest)

-- The end of `core`.
abbrev pub push : ℕ → List ℕ → List (List ℕ)
push size s = if leb size (length s) then s ∷ [] else []

-- `des[i].size()`, where the loops run at all.
abbrev pub bound_at : List (List ℕ) → ℕ
bound_at [] = 0
bound_at (x ∷ xs) = length x

-- The loop over `n` of `core` with the bound for `m`, over the strings from `n` on. A call of `core`
-- for the strings behind is this loop from their first one on, and the push.
unfoldable pub each_string : ℕ → ℕ → List (List ℕ) → List ℕ → Option (List (List ℕ))
each_string size bound [] s = some []
each_string size bound (y ∷ ys) s = do
  these ←
      each_char (λ w. do found ← each_string size (bound_at ys) ys w; some (found ++ push size w)) y
        0 bound s
  rest ← each_string size bound ys s
  some (these ++ rest)

unfoldable pub core : ℕ → List (List ℕ) → List ℕ → Option (List (List ℕ))
core size des s = do found ← each_string size (bound_at des) des s; some (found ++ push size s)

unfoldable pub letter_combinations : List ℕ → Option (List (List ℕ))
letter_combinations digits = do des ← all_letters digits; core (length des) des []
