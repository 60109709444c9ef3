-- ===== src/Lru/Putting.antt =====
-- `put` of LRUCache (test/146.cc) against its entries.
use algo.Prelude.{
  ℕ, zero, suc, ◌-◌, ◌≤◌, ◌<◌, ◌≡◌, refl, sym, ap, ◌∙◌, subst, true, arith, Option, none, some,
  List, [], ◌∷◌, ◌++◌, leb, length, length-append, length-map, map, take, append-nil, take_all,
  bind_some, dec_lt, lt→leb_false,
}
use algo.Prelude.Int.{ℤ}
use algo.Timer.Containers.{map_erase}
use algo.Lru.{
  ListNode, LruCache, store, delete_node, insert_head, put, assign, reuse_last, add_node,
}
use algo.Lru.Chain.{
  Cell, last_or, node_of, IsLinked, NotIn, AreDistinct-split, IsLinked-store, store-same,
  last_or-append, IsLinked-split,
}
use algo.Lru.Unlink.{IsChain, delete_node_lem, insert_head_lem}
use algo.Lru.Cache.{
  cell_of, address_of, IsCache, cell_of-none, cell_of-split, IsCache-assign, without_last,
}
use algo.Lru.Entries.{
  Entries, put_spec, entry, Stores, IsFree, lookup-absent, lookup-present, touch_lem, touch-Stores,
}

-- `put` returns, and the cache then stores what it is to leave.
abbrev pub PutLaw : LruCache → ℕ → ℕ → ℤ → Entries → Type 0
PutLaw c address key value es =
    (d : LruCache) × (put c address key value ≡ some d)
    × (d.capacity ≡ c.capacity)
    × Stores d (put_spec c.capacity key value es)

IsFree-NotIn :
    (c : LruCache) (a : ℕ) (before : Option ℕ) (xs : List Cell)
    → IsFree c a
    → IsLinked c.nodes before xs none
    → NotIn a xs
IsFree-NotIn c a before [] f l = tt
IsFree-NotIn c a before (x ∷ xs) f l =
    (λ e. cc (e, f, l.0), IsFree-NotIn c a (some x.address) xs f l.1)

address_of-ahead :
    (k : ℕ) (ws : List Cell) (y : Cell)
    → address_of k (ws ++ y ∷ []) ≡ none
    → address_of k ws ≡ none
unfolding address_of
address_of-ahead k [] y e = refl
address_of-ahead k (x ∷ ws) y e = ground (arith, address_of-ahead k ws y)

take_entries :
    (n : ℕ) (ws : List Cell) (y : Cell)
    → length ws ≡ n
    → take n (map entry (ws ++ y ∷ [])) ≡ map entry ws
take_entries zero [] y e = refl
take_entries zero (x ∷ ws) y e = absurd (omega arith)
take_entries (suc n) [] y e = absurd (omega arith)
take_entries (suc n) (x ∷ ws) y e = ap (λ es. entry x ∷ es) (take_entries n ws y (omega arith))

last_lem : (xs : List Cell) → 0 < length xs → (ws : List Cell) × (y : Cell) × (xs ≡ ws ++ y ∷ [])
last_lem [] h = elim h [ ]
last_lem (x ∷ []) h = ([], x, refl)
last_lem (x ∷ y ∷ xs) h =
    let (ws, z, e) = last_lem (y ∷ xs) (omega arith) in (x ∷ ws, z, ap (λ us. x ∷ us) e)

leb_refl : (n : ℕ) → leb n n ≡ true
leb_refl n = ground arith

put_old :
    (c : LruCache) (address key : ℕ) (value : ℤ) (x : Cell) (xs : List Cell)
    → IsCache c xs
    → length xs ≤ c.capacity
    → cell_of key xs ≡ some x
    → PutLaw c address key value (map entry xs)
unfolding put
put_old c address key value x xs i room h =
    let (ys, zs, p, q, r, a) = cell_of-split key x xs h in
    let (d, e, e1, e2, k, m) = touch_lem c x xs i (ap (λ j. cell_of j xs) r ∙ h) in
    (
      e,
      rw (put, i.mapped key, a, e1, e2) refl,
      m,
      rw (put_spec, lookup-present key x xs h, sym r)
          (touch-Stores c e x xs room (ap (λ j. address_of j xs) r ∙ a) k m),
    )

put_new_room :
    (c : LruCache) (address key : ℕ) (value : ℤ) (xs : List Cell)
    → IsCache c xs
    → length xs < c.capacity
    → IsFree c address
    → cell_of key xs ≡ none
    → PutLaw c address key value (map entry xs)
unfolding put add_node
put_new_room c address key value xs i room free h =
    let x : Cell = record { address = address; key = key; val = value } in
    let none_of = cell_of-none key xs h in
    let n = node_of none x none in
    let l = i.list in
    let few : length (map entry xs) ≤ c.capacity - 1 = omega (arith, length-map xs entry) in
    let c1 : LruCache = record c { nodes = store c.nodes address n } in
    let out = IsFree-NotIn c address none xs free l.chain in
    let l1 : IsChain c1 xs = record {
      chain = IsLinked-store c.nodes address n none none xs out l.chain;
      head_is = l.head_is;
      tail_is = l.tail_is;
      distinct = l.distinct;
    } in
    let (d, e1, k, m) = insert_head_lem c1 x xs l1 out (none, none, store-same c.nodes address n) in
    (
      assign key address d,
      rw (put, i.mapped key, none_of, i.size, lt→leb_false c.capacity (length xs) room, e1) refl,
      m.1,
      rw (put_spec, lookup-absent key xs h, take_all (c.capacity - 1) (map entry xs) few)
          record {
            cells = x ∷ xs;
            is_cache =
                IsCache-assign d x xs k i.keyed (λ j. rw m.0 (i.mapped j)) (rw m.0 i.is_map)
                  (rw m.0 i.size) none_of;
            entries = refl;
            room = omega (arith, length-map xs entry, m.1);
          },
    )

reuse_steps :
    (c : LruCache) (key a : ℕ) (value : ℤ) (n m : ListNode) (c1 d : LruCache)
    → c.tail ≡ some a
    → c.nodes a ≡ some n
    → delete_node (record c { cache_mp = map_erase n.key c.cache_mp }) a ≡ some c1
    → c1.nodes a ≡ some m
    → insert_head (record c1 { nodes = store c1.nodes a (record m { key = key; val = value }) }) a
      ≡ some d
    → reuse_last c key value ≡ some (assign key a d)
unfolding reuse_last
reuse_steps c key a value n m c1 d e0 e1 e2 e3 e4 =
    bind_some _ _ _ _ e0 (
      bind_some _ _ _ _ e1
        (bind_some _ _ _ _ e2 (bind_some _ _ _ _ e3 (bind_some _ _ _ _ e4 refl))))

reuse_last_lem :
    (c : LruCache) (key : ℕ) (value : ℤ) (ws : List Cell) (y : Cell)
    → IsChain c (ws ++ y ∷ [])
    → let x : Cell = record { address = y.address; key = key; val = value } in
      (d : LruCache) × (reuse_last c key value ≡ some (assign key y.address d))
      × IsChain d (x ∷ ws)
      × (d.cache_mp ≡ map_erase y.key c.cache_mp)
      × (d.capacity ≡ c.capacity)
reuse_last_lem c key value ws y l =
    let a = y.address in
    let x : Cell = record { address = a; key = key; val = value } in
    let (l1, l2) = IsLinked-split c.nodes none none ws (y ∷ []) l.chain in
    let (u1, u2, a12, a21) = AreDistinct-split ws (y ∷ []) l.distinct in
    let c0 : LruCache = record c { cache_mp = map_erase y.key c.cache_mp } in
    let l0 : IsChain c0 (ws ++ y ∷ []) = record {
      chain = l.chain;
      head_is = l.head_is;
      tail_is = l.tail_is;
      distinct = l.distinct;
    } in
    let (c1, e1, k1, (p, q, holds), m1, f1) = delete_node_lem c0 ws y [] l0 in
    let k2 = subst (IsChain c1) (append-nil ws) k1 in
    let n = node_of p x q in
    let c2 : LruCache = record c1 { nodes = store c1.nodes a n } in
    let k3 : IsChain c2 ws = record {
      chain = IsLinked-store c1.nodes a n none none ws a21.0 k2.chain;
      head_is = k2.head_is;
      tail_is = k2.tail_is;
      distinct = k2.distinct;
    } in
    let (d, e2, k, m2) = insert_head_lem c2 x ws k3 a21.0 (p, q, store-same c1.nodes a n) in
    (
      d,
      reuse_steps c key a value (node_of (last_or ws none) y none) (node_of p y q) c1 d
          (l.tail_is ∙ last_or-append ws (y ∷ []) none) l2.0 e1 holds e2,
      k,
      m2.0 ∙ m1.0,
      m2.1 ∙ m1.1,
    )

put_new_full :
    (c : LruCache) (address key : ℕ) (value : ℤ) (ws : List Cell) (y : Cell)
    → IsCache c (ws ++ y ∷ [])
    → length (ws ++ y ∷ []) ≡ c.capacity
    → cell_of key (ws ++ y ∷ []) ≡ none
    → PutLaw c address key value (map entry (ws ++ y ∷ []))
unfolding put
put_new_full c address key value ws y i full h =
    let xs = ws ++ y ∷ [] in
    let x : Cell = record { address = y.address; key = key; val = value } in
    let none_of = cell_of-none key xs h in
    let (keyed, mapped, is_map, size) = without_last c ws y i in
    let (d, e, k, m, same) = reuse_last_lem c key value ws y i.list in
    let count : length ws ≡ c.capacity - 1 = omega (arith, length-append ws (y ∷ []), full) in
    let not_there = address_of-ahead key ws y none_of in
    (
      assign key y.address d,
      rw (put, i.mapped key, none_of, i.size, full, leb_refl c.capacity) e,
      same,
      rw (put_spec, lookup-absent key xs h, take_entries (c.capacity - 1) ws y count)
          record {
            cells = x ∷ ws;
            is_cache =
                IsCache-assign d x ws k keyed (λ j. rw m (mapped j)) (rw m is_map) (rw m size)
                  not_there;
            entries = refl;
            room = omega (arith, length-map ws entry, same, length-append ws (y ∷ []), full);
          },
    )

put_by :
    (c : LruCache) (address key : ℕ) (value : ℤ) (xs : List Cell) (o : Option Cell)
    → IsCache c xs
    → length xs ≤ c.capacity
    → 0 < c.capacity
    → IsFree c address
    → cell_of key xs ≡ o
    → PutLaw c address key value (map entry xs)
put_by c address key value xs (some x) i room some_room free h =
    put_old c address key value x xs i room h
put_by c address key value xs none i room some_room free h = elim (dec_lt (length xs) c.capacity) [
  | yes less ↦ put_new_room c address key value xs i less free h
  | no more ↦
      let full : length xs ≡ c.capacity = omega (arith, more) in
      let (ws, y, e) = last_lem xs (omega arith) in
      subst (λ us. PutLaw c address key value (map entry us)) (sym e)
        (put_new_full c address key value ws y (subst (IsCache c) e i) (ap length (sym e) ∙ full)
          (ap (cell_of key) (sym e) ∙ h))
]

-- On a cache of positive capacity, and with an address for `new` that no node has, `put` moves a key
-- that is there to the front with its old value. A new key comes to the front with its value, and of
-- the other entries the `capacity - 1` last used ones stay. The list, its two pointers and the map
-- agree afterwards, and the cache does not exceed its capacity.
pub put_lem :
    (c : LruCache) (address key : ℕ) (value : ℤ) (es : Entries)
    → 0 < c.capacity
    → IsFree c address
    → Stores c es
    → PutLaw c address key value es
put_lem c address key value es some_room free s = subst (PutLaw c address key value) s.entries (
    put_by c address key value s.cells (cell_of key s.cells) s.is_cache
      (omega (arith, length-map s.cells entry, ap length s.entries, s.room)) some_room free refl)
