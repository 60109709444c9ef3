-- ===== src/Sockets/Laws.antt =====
-- What a call on a socket does where it meets room (for the programs of socket).
use algo.Prelude.{
  ℕ, zero, suc, ◌≤◌, ◌≡◌, refl, ap, ◌∙◌, arith, some, List, [], ◌∷◌, ◌++◌, min, length, take, drop,
  take-append, drop-append, take_all,
}
use algo.SyncFile.Effects.{Turn, ready, Run, done}
use algo.Sockets.{read, write, ◌>>=◌}

-- A call of `read` that meets enough room takes what was sent in one piece.
pub read_whole :
    (n j : ℕ) (ts : List Turn) (xs ys sent : List ℕ)
    → length xs ≡ n
    → n ≤ j
    → read n (record { turns = ready j ∷ ts; incoming = xs ++ ys; sent = sent })
      ≡ done (some xs, record { turns = ts; incoming = ys; sent = sent })
unfolding read
read_whole n j ts xs ys sent e le =
    let m : min j n ≡ n = omega (arith, le) in
    rw (m, take-append n xs ys e, drop-append n xs ys e) refl

-- Within the first of two lists.
pub take_within : (n : ℕ) (xs ys : List ℕ) → n ≤ length xs → take n (xs ++ ys) ≡ take n xs
take_within zero xs ys le = refl
take_within (suc n) [] ys le = absurd (omega arith)
take_within (suc n) (x ∷ xs) ys le = ap (λ zs. x ∷ zs) (take_within n xs ys (omega arith))

pub drop_within : (n : ℕ) (xs ys : List ℕ) → n ≤ length xs → drop n (xs ++ ys) ≡ drop n xs ++ ys
drop_within zero xs ys le = refl
drop_within (suc n) [] ys le = absurd (omega arith)
drop_within (suc n) (x ∷ xs) ys le = drop_within n xs ys (omega arith)

-- One that may meet less takes a part.
pub read_part :
    (n j : ℕ) (ts : List Turn) (xs ys sent : List ℕ)
    → length xs ≡ n
    → read n (record { turns = ready j ∷ ts; incoming = xs ++ ys; sent = sent })
      ≡ done (
        some (take (min j n) xs),
        record { turns = ts; incoming = drop (min j n) xs ++ ys; sent = sent },
      )
unfolding read
read_part n j ts xs ys sent e =
    rw
      (
        take_within (min j n) xs ys (omega (arith, e)),
        drop_within (min j n) xs ys (omega (arith, e)),
      )
      refl

pub write_whole :
    (j : ℕ) (ts : List Turn) (bytes incoming sent : List ℕ)
    → length bytes ≤ j
    → write bytes (record { turns = ready j ∷ ts; incoming = incoming; sent = sent })
      ≡ done (record { turns = ts; incoming = incoming; sent = sent ++ bytes })
unfolding write
write_whole j ts bytes incoming sent le =
    let m : min j (length bytes) ≡ length bytes = omega (arith, le) in
    rw (m, take_all (length bytes) bytes (omega arith)) refl

pub bind_done :
    {A B : Type 0} (o : Run A) (f : A → Run B) (a : A) (r : Run B)
    → o ≡ done a
    → f a ≡ r
    → (o >>= f) ≡ r
bind_done o f a r e h = ap (λ q. q >>= f) e ∙ h
