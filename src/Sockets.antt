-- ===== src/Sockets.antt =====
-- Single calls on a blocking socket, and chains of code that may wait or run into undefined
-- behaviour, for the programs of socket. Nothing here models code of the repository.
pub mod Laws
use algo.Prelude.{ℕ, Option, none, some, List, [], ◌∷◌, ◌++◌, min, length, take, drop}
use algo.SyncFile.Effects.{Turn, ready, again, broken, Conn, Run, done, waiting, undefined}

-- One call of `read` or `recv` on a blocking socket; none stands for -1, and no bytes for the end.
unfoldable pub read : ℕ → Conn → Run (Option (List ℕ) × Conn)
read n c = elim c.turns [
  | [] ↦ waiting
  | ready k ∷ ts ↦ done (
    some (take (min k n) c.incoming),
    record c { turns = ts; incoming = drop (min k n) c.incoming },
  )
  | again ∷ ts ↦ done (none, record c { turns = ts })
  | broken ∷ ts ↦ done (none, record c { turns = ts })
]

-- One call of `write` or `send`, whose result the programs ignore.
unfoldable pub write : List ℕ → Conn → Run Conn
write bytes c = elim c.turns [
  | [] ↦ waiting
  | ready k ∷ ts ↦
      done (record c { turns = ts; sent = c.sent ++ take (min k (length bytes)) bytes })
  | again ∷ ts ↦ done (record c { turns = ts })
  | broken ∷ ts ↦ done (record c { turns = ts })
]

infixl 5 ◌>>=◌
abbrev pub ◌>>=◌ : {A B : Type 0} → Run A → (A → Run B) → Run B
done a >>= f = f a
waiting >>= f = waiting
undefined >>= f = undefined

-- The bytes that a `read` has put into a variable; -1 leaves it alone.
abbrev pub bytes_of : Option (List ℕ) → List ℕ
bytes_of none = []
bytes_of (some bytes) = bytes
