-- ===== src/Lru/Getting.antt =====
-- `get` and showLRU of LRUCache (test/146.cc) against its entries.
use algo.Prelude.{
  ℕ, zero, suc, ◌≤◌, ◌≡◌, refl, sym, ap, ◌∙◌, subst, arith, Option, none, some, List, [], ◌∷◌,
  length, length-map, map,
}
use algo.Lru.{Nodes, show_lru, LruCache, get}
use algo.Lru.Chain.{Cell, first_or, IsLinked}
use algo.Lru.Cache.{cell_of, address_of, IsCache, cell_of-none, cell_of-split}
use algo.Lru.Entries.{
  Entries, get_spec, entry, Stores, lookup-absent, lookup-present, touch_lem, touch-Stores,
}

-- `get` returns, and the cache then stores what it is to leave.
abbrev pub GetLaw : LruCache → ℕ → Entries → Type 0
GetLaw c key es =
    (d : LruCache) × (get c key ≡ some (d, (get_spec key es).1))
    × (d.capacity ≡ c.capacity)
    × Stores d (get_spec key es).0

get_by :
    (c : LruCache) (key : ℕ) (xs : List Cell) (o : Option Cell)
    → IsCache c xs
    → length xs ≤ c.capacity
    → cell_of key xs ≡ o
    → GetLaw c key (map entry xs)
unfolding get
get_by c key xs none i room h =
    let found = i.mapped key ∙ cell_of-none key xs h in
    (
      c,
      rw (get_spec, lookup-absent key xs h, get, found) refl,
      refl,
      rw (get_spec, lookup-absent key xs h)
          record { cells = xs; is_cache = i; entries = refl; room = rw (length-map xs entry) room },
    )
get_by c key xs (some x) i room h =
    let (ys, zs, p, q, r, a) = cell_of-split key x xs h in
    let (d, e, e1, e2, k, m) = touch_lem c x xs i (ap (λ j. cell_of j xs) r ∙ h) in
    (
      e,
      rw (get_spec, lookup-present key x xs h, get, i.mapped key, a, e1, e2, k.list.chain.0) refl,
      m,
      rw (get_spec, lookup-present key x xs h, sym r)
          (touch-Stores c e x xs room (ap (λ j. address_of j xs) r ∙ a) k m),
    )

-- With the entries in the order of their last use, `get` returns the value of the key, or -1 when
-- the key has none. A key that is there moves to the front, and the other entries stay as they are;
-- the list, its two pointers and the map agree afterwards, and the capacity is the same.
pub get_lem : (c : LruCache) (key : ℕ) (es : Entries) → Stores c es → GetLaw c key es
get_lem c key es s = subst (GetLaw c key) s.entries (
    get_by c key s.cells (cell_of key s.cells) s.is_cache
      (omega (arith, length-map s.cells entry, ap length s.entries, s.room)) refl)

show_cells :
    (fuel : ℕ) (h : Nodes) (before : Option ℕ) (xs : List Cell)
    → IsLinked h before xs none
    → length xs ≤ fuel
    → show_lru fuel h (first_or xs none) ≡ some (map entry xs)
unfolding show_lru
show_cells zero h before [] l few = refl
show_cells (suc fuel) h before [] l few = refl
show_cells zero h before (x ∷ xs) l few = absurd (omega arith)
show_cells (suc fuel) h before (x ∷ xs) l few =
    rw (l.0, show_cells fuel h (some x.address) xs l.1 (omega arith)) refl

-- showLRU walks the list to its end and prints the entries in the order of their last use, and as
-- many rounds as the capacity are enough for it.
pub show_lru_lem :
    (c : LruCache) (es : Entries) → Stores c es → show_lru c.capacity c.nodes c.head ≡ some es
show_lru_lem c es s =
    let i = s.is_cache.list in
    let few : length s.cells ≤ c.capacity =
      omega (arith, length-map s.cells entry, ap length s.entries, s.room) in
    ap (show_lru c.capacity c.nodes) i.head_is
    ∙ show_cells c.capacity c.nodes none s.cells i.chain few
    ∙ ap (λ es. some es) s.entries
