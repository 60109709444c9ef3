-- ===== src/Lru/Addresses.antt =====
-- The addresses that the methods of LRUCache (test/146.cc) allocate: none but that of a new node.
use algo.Prelude.{
  ℕ, ◌≡◌, ◌≢◌, refl, Option, none, some, ◌>>=◌, length, leb, Bool, true, false, if◌then◌else◌,
}
use algo.Prelude.Int.{ℤ}
use algo.Timer.Containers.{find}
use algo.Lru.{
  ListNode, Nodes, LruCache, store, set_head, set_tail, insert_head, point_after, point_before,
  delete_node, get, reuse_last, add_node, put,
}
use algo.Lru.Chain.{store-other}

-- What holds of a result, if there is one.
abbrev pub Yields {ℓ} : {B : Type ℓ} → (B → Type 0) → Option B → Type 0
Yields P none = Unit {0}
Yields P (some r) = P r

Yields-bind {ℓ κ} :
    {A : Type ℓ} {B : Type κ} (P : B → Type 0) (o : Option A) (f : A → Option B)
    → ((a : A) → o ≡ some a → Yields P (f a))
    → Yields P (o >>= f)
Yields-bind P none f h = tt
Yields-bind P (some a) f h = h a refl

module _ (b : ℕ) where
  abbrev pub Spares : LruCache → Type 0
  Spares c = c.nodes b ≡ none

  Yields-next {κ} :
      {B : Type κ} (P : B → Type 0) (o : Option LruCache) (f : LruCache → Option B)
      → Yields Spares o
      → ((d : LruCache) → Spares d → Yields P (f d))
      → Yields P (o >>= f)
  Yields-next P none f s h = tt
  Yields-next P (some d) f s h = h d s

  store-Spares :
      (h : Nodes) (a : ℕ) (n m : ListNode) → h b ≡ none → h a ≡ some m → store h a n b ≡ none
  store-Spares h a n m free found = rw (store-other h a b n (λ e. cc (e, free, found))) free

  set_head-Spares :
      (c : LruCache) (node : ℕ) (o : Option ℕ) → Spares c → Yields Spares (set_head c node o)
  set_head-Spares c node o s =
      Yields-bind Spares (c.nodes node)
        (λ n. some (record c { nodes = store c.nodes node (record n { head = o }) }))
        (λ n e. store-Spares c.nodes node (record n { head = o }) n s e)

  set_tail-Spares :
      (c : LruCache) (node : ℕ) (o : Option ℕ) → Spares c → Yields Spares (set_tail c node o)
  set_tail-Spares c node o s =
      Yields-bind Spares (c.nodes node)
        (λ n. some (record c { nodes = store c.nodes node (record n { tail = o }) }))
        (λ n e. store-Spares c.nodes node (record n { tail = o }) n s e)

  head_back-Spares :
      (c : LruCache) (now : ℕ) (o : Option ℕ)
      → Spares c
      → Yields Spares (elim o [ none ↦ some c | some first ↦ set_head c first (some now) ])
  head_back-Spares c now none s = s
  head_back-Spares c now (some first) s = set_head-Spares c first (some now) s

  pub insert_head-Spares : (c : LruCache) (now : ℕ) → Spares c → Yields Spares (insert_head c now)
  unfolding insert_head
  insert_head-Spares c now s = Yields-next Spares _ _ (set_tail-Spares c now c.head s) (λ c1 s1.
      Yields-next Spares _ _ (set_head-Spares c1 now none s1)
        (λ c2 s2. Yields-next Spares _ _ (head_back-Spares c2 now c2.head s2) (λ c3 s3. s3)))

  point_after-Spares :
      (c : LruCache) (p o : Option ℕ) → Spares c → Yields Spares (point_after c p o)
  point_after-Spares c none o s = s
  point_after-Spares c (some a) o s = set_tail-Spares c a o s

  point_before-Spares :
      (c : LruCache) (p o : Option ℕ) → Spares c → Yields Spares (point_before c p o)
  point_before-Spares c none o s = s
  point_before-Spares c (some a) o s = set_head-Spares c a o s

  pub delete_node-Spares : (c : LruCache) (node : ℕ) → Spares c → Yields Spares (delete_node c node)
  unfolding delete_node
  delete_node-Spares c node s = Yields-bind Spares (c.nodes node) _ (λ n e.
      Yields-next Spares _ _ (point_after-Spares c n.head n.tail s) (λ c1 s1.
        Yields-bind Spares (c1.nodes node) _ (λ m e1. point_before-Spares c1 m.tail m.head s1)))

  get_found-Spares :
      (c : LruCache) (key : ℕ) (o : Option ℕ)
      → find key c.cache_mp ≡ o
      → Spares c
      → Yields (λ r. Spares r.0) (get c key)
  unfolding get
  get_found-Spares c key none e s = rw (get, e) s
  get_found-Spares c key (some tmp) e s =
      rw (get, e)
        (Yields-next (λ r. Spares r.0) _ _ (delete_node-Spares c tmp s)
          (λ c1 s1.
            Yields-next (λ r. Spares r.0) _ _ (insert_head-Spares c1 tmp s1)
              (λ c2 s2. Yields-bind (λ r. Spares r.0) (c2.nodes tmp) _ (λ n e2. s2))))

  pub get-Spares : (c : LruCache) (key : ℕ) → Spares c → Yields (λ r. Spares r.0) (get c key)
  get-Spares c key s = get_found-Spares c key (find key c.cache_mp) refl s

  reuse_last-Spares :
      (c : LruCache) (key : ℕ) (value : ℤ) → Spares c → Yields Spares (reuse_last c key value)
  unfolding reuse_last
  reuse_last-Spares c key value s = Yields-bind Spares c.tail _ (λ tmp e.
      Yields-bind Spares (c.nodes tmp) _ (λ n e0.
        Yields-next Spares _ _ (delete_node-Spares _ tmp s) (λ c1 s1.
          Yields-bind Spares (c1.nodes tmp) _ (λ m e1.
            Yields-next Spares _ _ (insert_head-Spares _ tmp (store-Spares c1.nodes tmp _ m s1 e1))
              (λ c2 s2. s2)))))

  add_node-Spares :
      (c : LruCache) (address key : ℕ) (value : ℤ)
      → b ≢ address
      → Spares c
      → Yields Spares (add_node c address key value)
  unfolding add_node
  add_node-Spares c address key value ne s =
      Yields-next Spares _ _
        (insert_head-Spares _ address (rw (store-other c.nodes address b _ ne) s)) (λ c1 s1. s1)

  either-Spares :
      (t : Bool) (o p : Option LruCache)
      → Yields Spares o
      → Yields Spares p
      → Yields Spares (if t then o else p)
  either-Spares true o p s u = s
  either-Spares false o p s u = u

  put_found-Spares :
      (c : LruCache) (address key : ℕ) (value : ℤ) (o : Option ℕ)
      → b ≢ address
      → find key c.cache_mp ≡ o
      → Spares c
      → Yields Spares (put c address key value)
  unfolding put
  put_found-Spares c address key value none ne e s =
      rw (put, e)
        (either-Spares (leb c.capacity (length c.cache_mp)) _ _ (reuse_last-Spares c key value s)
          (add_node-Spares c address key value ne s))
  put_found-Spares c address key value (some tmp) ne e s =
      rw (put, e)
        (Yields-next Spares _ _ (delete_node-Spares c tmp s)
          (λ c1 s1. insert_head-Spares c1 tmp s1))

  pub put-Spares :
      (c : LruCache) (address key : ℕ) (value : ℤ)
      → b ≢ address
      → Spares c
      → Yields Spares (put c address key value)
  put-Spares c address key value ne s =
      put_found-Spares c address key value (find key c.cache_mp) ne refl s
