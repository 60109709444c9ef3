-- ===== src/Lru/Entries.antt =====
-- The entries of LRUCache (test/146.cc): keys and values, the last used first.
use algo.Prelude.{
  ℕ, ◌-◌, ◌≤◌, ◌≡◌, refl, sym, ap, ◌∙◌, subst, arith, Option, none, some, List, [], ◌∷◌, ◌++◌, ◌==◌,
  if◌then◌else◌, length, length-map, map, take,
}
use algo.Prelude.Int.{ℤ, negsuc}
use algo.Lru.{LruCache, delete_node, insert_head}
use algo.Lru.Chain.{Cell, NotIn-join, AreDistinct-split}
use algo.Lru.Unlink.{IsChain, delete_node_lem, insert_head_lem}
use algo.Lru.Cache.{
  cell_of, address_of, without, IsCache, length-without, cell_of-split, IsCache-front,
}

abbrev pub Entries : Type 0
Entries = List (ℕ × ℤ)

unfoldable pub lookup : ℕ → Entries → Option ℤ
lookup k [] = none
lookup k ((j, v) ∷ es) = if j == k then some v else lookup k es

unfoldable pub forget : ℕ → Entries → Entries
forget k [] = []
forget k ((j, v) ∷ es) = if j == k then es else (j, v) ∷ forget k es

-- What `get` and `put` of the code do to the entries: `put` of a key that is there keeps its value,
-- though the comment above the class has it change.
abbrev pub get_spec : ℕ → Entries → Entries × ℤ
get_spec k es = elim (lookup k es) [ none ↦ (es, negsuc 0) | some v ↦ ((k, v) ∷ forget k es, v) ]

abbrev pub put_spec : ℕ → ℕ → ℤ → Entries → Entries
put_spec capacity k v es = elim (lookup k es) [
  | none ↦ (k, v) ∷ take (capacity - 1) es
  | some w ↦ (k, w) ∷ forget k es
]

abbrev pub entry : Cell → ℕ × ℤ
entry x = (x.key, x.val)

-- The cells of the cache hold the entries, no more than its capacity.
pub record Stores (c : LruCache) (es : Entries) : Type 0 where
  pub cells : List Cell
  pub is_cache : IsCache c cells
  pub entries : map entry cells ≡ es
  pub room : length es ≤ c.capacity

-- An address that no node of the list has.
abbrev pub IsFree : LruCache → ℕ → Type 0
IsFree c a = c.nodes a ≡ none

pub lookup-absent : (k : ℕ) (xs : List Cell) → cell_of k xs ≡ none → lookup k (map entry xs) ≡ none
unfolding cell_of lookup
lookup-absent k [] e = refl
lookup-absent k (x ∷ xs) e = ground (arith, lookup-absent k xs)

pub lookup-present :
    (k : ℕ) (x : Cell) (xs : List Cell)
    → cell_of k xs ≡ some x
    → lookup k (map entry xs) ≡ some x.val
unfolding cell_of lookup
lookup-present k x [] e = absurd (ground arith)
lookup-present k x (y ∷ xs) e = ground (arith, lookup-present k x xs)

pub forget-entries : (k : ℕ) (xs : List Cell) → forget k (map entry xs) ≡ map entry (without k xs)
unfolding forget without
forget-entries k [] = refl
forget-entries k (x ∷ xs) = ground (arith, forget-entries k xs)

-- A node that is there is moved to the front.
pub touch_lem :
    (c : LruCache) (x : Cell) (xs : List Cell)
    → IsCache c xs
    → cell_of x.key xs ≡ some x
    → (d e : LruCache) × (delete_node c x.address ≡ some d)
      × (insert_head d x.address ≡ some e)
      × IsCache e (x ∷ without x.key xs)
      × (e.capacity ≡ c.capacity)
touch_lem c x xs i h =
    let (ys, zs, p, q, r, s) = cell_of-split x.key x xs h in
    let l = subst (IsChain c) p i.list in
    let (u1, u2, a12, a21) = AreDistinct-split ys (x ∷ zs) l.distinct in
    let (d, e1, k1, holds, m1, f1) = delete_node_lem c ys x zs l in
    let (e, e2, k2, m2) =
      insert_head_lem d x (ys ++ zs) k1 (NotIn-join x.address ys zs a21.0 u2.0) holds in
    let front = subst (λ ws. IsChain e (x ∷ ws)) (sym q) k2 in
    (d, e, e1, e2, IsCache-front c e x xs i s front (m2.0 ∙ m1.0), m2.1 ∙ m1.1)

pub touch-Stores :
    (c e : LruCache) (x : Cell) (xs : List Cell)
    → length xs ≤ c.capacity
    → address_of x.key xs ≡ some x.address
    → IsCache e (x ∷ without x.key xs)
    → e.capacity ≡ c.capacity
    → Stores e ((x.key, x.val) ∷ forget x.key (map entry xs))
touch-Stores c e x xs room a i same = record {
  cells = x ∷ without x.key xs;
  is_cache = i;
  entries = ap (λ es. (x.key, x.val) ∷ es) (sym (forget-entries x.key xs));
  room =
      rw (forget-entries x.key xs, same)
        (omega (arith, length-map (without x.key xs) entry, length-without x.key x.address xs a));
}
