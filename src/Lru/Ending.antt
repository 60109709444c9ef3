-- ===== src/Lru/Ending.antt =====
-- The destructor of LRUCache (test/146.cc).
use algo.Prelude.{ℕ, suc, ◌≡◌, refl, ◌∙◌, arith, none, some, List, [], ◌∷◌, map, ==_refl}
use algo.Prelude.Int.{ℤ}
use algo.Lru.{LruCache, destroy_lru}
use algo.Lru.Chain.{Cell, first_or}
use algo.Lru.Entries.{Entries, entry, Stores}

first_of :
    (xs : List Cell) (e : ℕ × ℤ) (es : Entries)
    → map entry xs ≡ e ∷ es
    → (a : ℕ) × (first_or xs none ≡ some a)
first_of [] e es h = absurd (ground arith)
first_of (x ∷ xs) e es h = (x.address, refl)

-- The destructor of a cache with an entry reads a deleted node in the first round of its loop.
pub destroy_lru_lem :
    (c : LruCache) (e : ℕ × ℤ) (es : Entries) (fuel : ℕ)
    → Stores c (e ∷ es)
    → destroy_lru (suc fuel) c.nodes c.head ≡ none
unfolding destroy_lru
destroy_lru_lem c e es fuel s =
    let (a, first) = first_of s.cells e es s.entries in
    rw (destroy_lru, s.is_cache.list.head_is ∙ first, ==_refl a) refl
