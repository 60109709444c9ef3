-- ===== src/Lru/Cache.antt =====
-- The keys of LRUCache (test/146.cc): the cells of the list against the map from keys to nodes.
use algo.Prelude.{
  ℕ, suc, ◌≡◌, refl, true, false, sym, ap, ==_refl, ==_iff, ◌∙◌, arith, Option, none, some, List,
  [], ◌∷◌, ◌++◌, ◌==◌, if◌then◌else◌, length, length-append, Bool-cases, inl, inr,
}
use algo.Timer.Containers.{find, map_erase}
use algo.Timer.Containers.Maps.{IsMap, find-map_erase, map_erase-IsMap, length-map_erase}
use algo.Lru.{LruCache, assign}
use algo.Lru.Chain.{Cell}
use algo.Lru.Unlink.{IsChain}

unfoldable pub cell_of : ℕ → List Cell → Option Cell
cell_of k [] = none
cell_of k (x ∷ xs) = if x.key == k then some x else cell_of k xs

unfoldable pub address_of : ℕ → List Cell → Option ℕ
address_of k [] = none
address_of k (x ∷ xs) = if x.key == k then some x.address else address_of k xs

unfoldable pub without : ℕ → List Cell → List Cell
without k [] = []
without k (x ∷ xs) = if x.key == k then xs else x ∷ without k xs

-- No key twice.
abbrev pub AreKeyed : List Cell → Type 0
AreKeyed [] = Unit {0}
AreKeyed (x ∷ xs) = (address_of x.key xs ≡ none) × AreKeyed xs

-- The list is linked both ways, and the map finds the node of each key.
pub record IsCache (c : LruCache) (xs : List Cell) : Type 0 where
  pub list : IsChain c xs
  pub keyed : AreKeyed xs
  pub mapped : (k : ℕ) → find k c.cache_mp ≡ address_of k xs
  pub is_map : IsMap c.cache_mp
  pub size : length c.cache_mp ≡ length xs

pub cell_of-none : (k : ℕ) (xs : List Cell) → cell_of k xs ≡ none → address_of k xs ≡ none
unfolding cell_of address_of
cell_of-none k [] e = refl
cell_of-none k (x ∷ xs) e = ground (arith, cell_of-none k xs)

-- Where a cell of a key stands.
pub cell_of-split :
    (k : ℕ) (x : Cell) (xs : List Cell)
    → cell_of k xs ≡ some x
    → (ys : List Cell) × (zs : List Cell) × (xs ≡ ys ++ x ∷ zs)
      × (without k xs ≡ ys ++ zs)
      × (x.key ≡ k)
      × (address_of k xs ≡ some x.address)
unfolding cell_of address_of without
cell_of-split k x [] e = absurd (ground arith)
cell_of-split k x (w ∷ xs) e = elim (Bool-cases (w.key == k)) [
  | inl t ↦
      let s : w ≡ x = ground arith in
      ([], xs, ap (λ u. u ∷ xs) s, rw t refl, ground arith, ground arith)
  | inr f ↦
      let (ys, zs, p, q, r, s) = cell_of-split k x xs (ground arith) in
      (w ∷ ys, zs, ap (λ u. w ∷ u) p, rw f (ap (λ u. w ∷ u) q), r, rw f s)
]

pub address_of-without :
    (j k : ℕ) (xs : List Cell)
    → AreKeyed xs
    → address_of j (without k xs) ≡ (if k == j then none else address_of j xs)
unfolding address_of without
address_of-without j k [] u = ground arith
address_of-without j k (x ∷ xs) u = ground (arith, address_of-without j k xs u.1)

pub without-AreKeyed : (k : ℕ) (xs : List Cell) → AreKeyed xs → AreKeyed (without k xs)
unfolding without
without-AreKeyed k [] u = tt
without-AreKeyed k (x ∷ xs) u =
    ground (arith, without-AreKeyed k xs u.1, address_of-without x.key k xs u.1)

pub length-without :
    (k a : ℕ) (xs : List Cell) → address_of k xs ≡ some a → suc (length (without k xs)) ≡ length xs
unfolding without address_of
length-without k a [] e = absurd (ground arith)
length-without k a (x ∷ xs) e = ground (arith, length-without k a xs)

address_of-last :
    (k : ℕ) (ws : List Cell) (y : Cell) → address_of k (ws ++ y ∷ []) ≡ none → (y.key == k) ≡ false
unfolding address_of
address_of-last k [] y e = ground arith
address_of-last k (x ∷ ws) y e = ground (arith, address_of-last k ws y)

pub address_of_last :
    (ws : List Cell) (y : Cell)
    → AreKeyed (ws ++ y ∷ [])
    → address_of y.key (ws ++ y ∷ []) ≡ some y.address
unfolding address_of
address_of_last [] y u = ground arith
address_of_last (x ∷ ws) y u =
    ground (arith, address_of_last ws y u.1, address_of-last x.key ws y u.0)

-- The cells before the last one.
pub address_of-before_last :
    (j : ℕ) (ws : List Cell) (y : Cell)
    → AreKeyed (ws ++ y ∷ [])
    → address_of j ws ≡ (if y.key == j then none else address_of j (ws ++ y ∷ []))
unfolding address_of
address_of-before_last j [] y u = ground arith
address_of-before_last j (x ∷ ws) y u =
    ground (arith, address_of-before_last j ws y u.1, address_of-last x.key ws y u.0)

pub before_last-AreKeyed : (ws : List Cell) (y : Cell) → AreKeyed (ws ++ y ∷ []) → AreKeyed ws
before_last-AreKeyed [] y u = tt
before_last-AreKeyed (x ∷ ws) y u =
    (ground (arith, address_of-before_last x.key ws y u.1), before_last-AreKeyed ws y u.1)

map_erase-absent : (k : ℕ) (m : List (ℕ × ℕ)) → find k m ≡ none → map_erase k m ≡ m
unfolding find map_erase
map_erase-absent k [] e = refl
map_erase-absent k ((j, a) ∷ m) e = ground (arith, map_erase-absent k m)

front_lem :
    (j k a : ℕ) (o : Option ℕ)
    → (k == j ≡ true → o ≡ some a)
    → o ≡ (if k == j then some a else if k == j then none else o)
front_lem j k a o h = ground (arith, h)

pub address_of-front :
    (j : ℕ) (x : Cell) (xs : List Cell)
    → AreKeyed xs
    → address_of x.key xs ≡ some x.address
    → address_of j xs ≡ address_of j (x ∷ without x.key xs)
unfolding address_of
address_of-front j x xs u e = rw (address_of-without j x.key xs u) (
    front_lem j x.key x.address (address_of j xs)
      (λ t. ap (λ k. address_of k xs) (sym ((==_iff x.key j).0 t)) ∙ e))

-- A cell moves to the front.
pub IsCache-front :
    (c d : LruCache) (x : Cell) (xs : List Cell)
    → IsCache c xs
    → address_of x.key xs ≡ some x.address
    → IsChain d (x ∷ without x.key xs)
    → d.cache_mp ≡ c.cache_mp
    → IsCache d (x ∷ without x.key xs)
IsCache-front c d x xs i e l m = record {
  list = l;
  keyed = (
    rw (address_of-without x.key x.key xs i.keyed, ==_refl x.key) refl,
    without-AreKeyed x.key xs i.keyed,
  );
  mapped = λ j. rw m (i.mapped j ∙ address_of-front j x xs i.keyed e);
  is_map = rw m i.is_map;
  size = rw m (i.size ∙ sym (length-without x.key x.address xs e));
}

-- A cell of a new key, in front of what the map has.
pub IsCache-assign :
    (d : LruCache) (x : Cell) (xs : List Cell)
    → IsChain d (x ∷ xs)
    → AreKeyed xs
    → ((j : ℕ) → find j d.cache_mp ≡ address_of j xs)
    → IsMap d.cache_mp
    → length d.cache_mp ≡ length xs
    → address_of x.key xs ≡ none
    → IsCache (assign x.key x.address d) (x ∷ xs)
unfolding find address_of
IsCache-assign d x xs l u h m n e =
    let f = h x.key ∙ e in
    let same = map_erase-absent x.key d.cache_mp f in
    record {
      list = record {
        chain = l.chain;
        head_is = l.head_is;
        tail_is = l.tail_is;
        distinct = l.distinct;
      };
      keyed = (e, u);
      mapped = λ j. rw same (ap (λ o. if x.key == j then some x.address else o) (h j));
      is_map = rw same (f, m);
      size = rw same (ap suc n);
    }

-- The last cell is gone from the map.
pub without_last :
    (c : LruCache) (ws : List Cell) (y : Cell)
    → IsCache c (ws ++ y ∷ [])
    → let m = map_erase y.key c.cache_mp in
      AreKeyed ws × ((j : ℕ) → find j m ≡ address_of j ws) × IsMap m × (length m ≡ length ws)
unfolding address_of
without_last c ws y i =
    let a = address_of_last ws y i.keyed in
    (
      before_last-AreKeyed ws y i.keyed,
      λ j.
          find-map_erase j y.key c.cache_mp i.is_map
          ∙ rw (i.mapped j) (sym (address_of-before_last j ws y i.keyed)),
      map_erase-IsMap y.key c.cache_mp i.is_map,
      omega (
        arith,
        length-map_erase y.key y.address c.cache_mp (i.mapped y.key ∙ a),
        i.size,
        length-append ws (y ∷ []),
      ),
    )
