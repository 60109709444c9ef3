-- ===== src/Letters/Words.antt =====
-- What letterCombinations of test/17.cc returns.
use algo.Prelude.{
  get_elem?, ◌>>=◌, ℕ, zero, suc, ◌+◌, ◌-◌, ◌≤◌, ◌<◌, ◌≡◌, refl, sym, ap, arith, Option, some, List,
  [], ◌∷◌, ◌++◌, length, lt→leb_false, le→leb, append_assoc, append-nil, length-append,
}
use algo.Letters.{
  letters_of, str, all_letters, char_at, each_char, push, bound_at, each_string, core,
  letter_combinations,
}

-- A letter before each word.
abbrev pub with_first : ℕ → List (List ℕ) → List (List ℕ)
with_first c [] = []
with_first c (w ∷ ws) = (c ∷ w) ∷ with_first c ws

abbrev pub with_each : List ℕ → List (List ℕ) → List (List ℕ)
with_each [] ws = []
with_each (c ∷ cs) ws = with_first c ws ++ with_each cs ws

-- The words that have one letter of each of the sets, in the order of the letters.
abbrev pub words : List (List ℕ) → List (List ℕ)
words [] = [] ∷ []
words (y ∷ ys) = with_each y (words ys)

-- The same behind a beginning.
abbrev behind : List ℕ → List (List ℕ) → List (List ℕ)
behind s [] = []
behind s (w ∷ ws) = (s ++ w) ∷ behind s ws

behind_append :
    (s : List ℕ) (us ws : List (List ℕ)) → behind s (us ++ ws) ≡ behind s us ++ behind s ws
behind_append s [] ws = refl
behind_append s (u ∷ us) ws = ap (λ zs. (s ++ u) ∷ zs) (behind_append s us ws)

behind_first :
    (s : List ℕ) (c : ℕ) (ws : List (List ℕ)) → behind s (with_first c ws) ≡ behind (s ++ c ∷ []) ws
behind_first s c [] = refl
behind_first s c (w ∷ ws) = rw (behind_first s c ws, append_assoc s (c ∷ []) w) refl

behind_nothing : (ws : List (List ℕ)) → behind [] ws ≡ ws
behind_nothing [] = refl
behind_nothing (w ∷ ws) = ap (λ zs. w ∷ zs) (behind_nothing ws)

-- A character is there up to the zero character.
char_there : (y : List ℕ) (m : ℕ) → m ≤ length y → (c : ℕ) × (char_at y m ≡ some c)
char_there [] zero le = (0, refl)
char_there [] (suc m) le = absurd (omega arith)
char_there (c ∷ cs) zero le = (c, refl)
char_there (c ∷ cs) (suc m) le = char_there cs m (omega arith)

-- Where nothing is pushed for any next word, nothing is pushed.
each_char-none :
    (f : List ℕ → Option (List (List ℕ))) (y : List ℕ) (m left : ℕ) (s : List ℕ)
    → ((c : ℕ) → f (s ++ c ∷ []) ≡ some [])
    → m + left ≤ length y + 1
    → each_char f y m left s ≡ some []
unfolding each_char
each_char-none f y m zero s nothing le = refl
each_char-none f y m (suc left) s nothing le =
    let (c, there) = char_there y m (omega arith) in
    rw (there, each_char, nothing c, each_char-none f y (m + 1) left s nothing (omega arith)) refl

char_next : (pre : List ℕ) (c : ℕ) (post : List ℕ) → char_at (pre ++ c ∷ post) (length pre) ≡ some c
char_next [] c post = refl
char_next (x ∷ pre) c post = char_next pre c post

-- Where the words of `ws` are pushed behind each next word, those with each letter are.
each_char-some :
    (f : List ℕ → Option (List (List ℕ))) (pre post s : List ℕ) (ws : List (List ℕ))
    → ((c : ℕ) → f (s ++ c ∷ []) ≡ some (behind (s ++ c ∷ []) ws))
    → each_char f (pre ++ post) (length pre) (length post) s ≡ some (behind s (with_each post ws))
unfolding each_char
each_char-some f pre [] s ws each = refl
each_char-some f pre (c ∷ post) s ws each =
    let rest = each_char-some f (pre ++ c ∷ []) post s ws each in
    let rest' : each_char f (pre ++ c ∷ post) (length pre + 1) (length post) s
        ≡ some (behind s (with_each post ws)) =
      rw (sym (append_assoc pre (c ∷ []) post), sym (length-append pre (c ∷ []))) rest in
    rw
      (
        char_next pre c post,
        each c,
        rest',
        behind_append s (with_first c ws) (with_each post ws),
        behind_first s c ws,
      )
      refl

-- Keys with three or four letters.
abbrev AreFull : List (List ℕ) → Type 0
AreFull [] = Unit {0}
AreFull (y ∷ ys) = (3 ≤ length y) × (length y ≤ 4) × AreFull ys

bound_at_most : (ys : List (List ℕ)) → AreFull ys → bound_at ys ≤ 4
bound_at_most [] full = omega arith
bound_at_most (y ∷ ys) full = full.1

push_none : (size : ℕ) (s : List ℕ) → length s < size → push size s ≡ []
push_none size s lt = rw (lt→leb_false size (length s) lt) refl

-- A word that has passed over a key is too short to be pushed, whatever comes.
each_string-none :
    (size bound : ℕ) (ys : List (List ℕ)) (s : List ℕ)
    → AreFull ys
    → bound ≤ 4
    → length s + length ys < size
    → each_string size bound ys s ≡ some []
unfolding each_string
each_string-none size bound [] s full le short = refl
each_string-none size bound (y ∷ ys) s full le short =
    let inner =
      each_char-none
        (λ w. do found ← each_string size (bound_at ys) ys w; some (found ++ push size w)) y 0 bound
        s
        (λ c.
          let longer : length (s ++ c ∷ []) ≡ length s + 1 = length-append s (c ∷ []) in
          rw
            (
              each_string-none size (bound_at ys) ys (s ++ c ∷ []) full.2 (bound_at_most ys full.2)
                  (omega (arith, longer, short)),
              push_none size (s ++ c ∷ []) (omega (arith, longer, short)),
            )
            refl)
        (omega (arith, full.0, le)) in
    rw (inner, each_string-none size bound ys s full.2 le (omega (arith, short))) refl

core_all :
    (size : ℕ) (ys : List (List ℕ)) (s : List ℕ)
    → AreFull ys
    → length s + length ys ≡ size
    → core size ys s ≡ some (behind s (words ys))
unfolding core each_string
core_all size [] s full exact =
    rw (le→leb size (length s) (omega (arith, exact)), append-nil s) refl
core_all size (y ∷ ys) s full exact =
    let inner =
      each_char-some
        (λ w. do found ← each_string size (bound_at ys) ys w; some (found ++ push size w)) [] y s
        (words ys)
        (λ c.
          core_all size ys (s ++ c ∷ []) full.2 (omega (arith, length-append s (c ∷ []), exact))) in
    rw
      (
        inner,
        each_string-none size (length y) ys s full.2 full.1 (omega (arith, exact)),
        push_none size s (omega (arith, exact)),
        append-nil (behind s (with_each y (words ys))),
        append-nil (behind s (with_each y (words ys))),
      )
      refl

letters_there :
    (k : ℕ)
    → 1 ≤ k
    → k ≤ 8
    → (ls : List ℕ) × (get_elem? str k ≡ some ls) × (3 ≤ length ls) × (length ls ≤ 4)
letters_there zero low high = absurd (omega arith)
letters_there (suc zero) low high = (_, refl, omega arith, omega arith)
letters_there (suc (suc zero)) low high = (_, refl, omega arith, omega arith)
letters_there (suc (suc (suc zero))) low high = (_, refl, omega arith, omega arith)
letters_there (suc (suc (suc (suc zero)))) low high = (_, refl, omega arith, omega arith)
letters_there (suc (suc (suc (suc (suc zero))))) low high = (_, refl, omega arith, omega arith)
letters_there (suc (suc (suc (suc (suc (suc zero)))))) low high =
    (_, refl, omega arith, omega arith)
letters_there (suc (suc (suc (suc (suc (suc (suc zero))))))) low high =
    (_, refl, omega arith, omega arith)
letters_there (suc (suc (suc (suc (suc (suc (suc (suc zero)))))))) low high =
    (_, refl, omega arith, omega arith)
letters_there (suc (suc (suc (suc (suc (suc (suc (suc (suc n))))))))) low high =
    absurd (omega arith)

-- The keys from '2' to '9'.
abbrev pub AreKeys : List ℕ → Type 0
AreKeys [] = Unit {0}
AreKeys (d ∷ ds) = (b'2' ≤ d) × (d ≤ b'9') × AreKeys ds

letters_of_key :
    (d : ℕ)
    → b'2' ≤ d
    → d ≤ b'9'
    → (ls : List ℕ) × (letters_of d ≡ some ls) × (3 ≤ length ls) × (length ls ≤ 4)
letters_of_key d low high =
    let (ls, there, more, less) =
      letters_there (d - b'1') (omega (arith, low)) (omega (arith, high)) in
    (ls, rw (le→leb b'1' d (omega (arith, low))) there, more, less)

all_letters_of_keys :
    (ds : List ℕ) → AreKeys ds → (des : List (List ℕ)) × (all_letters ds ≡ some des) × AreFull des
all_letters_of_keys [] keys = ([], refl, tt)
all_letters_of_keys (d ∷ ds) keys =
    let (ls, there, more, less) = letters_of_key d keys.0 keys.1 in
    let (rest, found, full) = all_letters_of_keys ds keys.2 in
    (ls ∷ rest, rw (there, found) refl, (more, less, full))

-- For keys from '2' to '9', letterCombinations returns the words that have one letter of each key, all
-- of them, each once for each choice of the letters, and in the order of the letters.
pub letter_combinations_lem :
    (digits : List ℕ)
    → AreKeys digits
    → (des : List (List ℕ)) × (all_letters digits ≡ some des)
      × (letter_combinations digits ≡ some (words des))
unfolding letter_combinations
letter_combinations_lem digits keys =
    let (des, found, full) = all_letters_of_keys digits keys in
    (
      des,
      found,
      rw (found, core_all (length des) des [] full (omega arith), behind_nothing (words des)) refl,
    )
