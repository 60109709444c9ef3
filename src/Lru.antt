-- ===== src/Lru.antt =====
-- LRUCache of test/146.cc: a doubly linked list of nodes on a heap, and a map from keys to nodes.
-- A key is a number, since keys are only compared. An operation returns none where the program
-- reads through a null pointer or one to nothing.
pub mod Chain
pub mod Unlink
pub mod Cache
pub mod Entries
pub mod Getting
pub mod Putting
pub mod Addresses
pub mod Commands
pub mod Ending
mod Examples
use algo.Prelude.{
  ℕ, zero, suc, ◌>>=◌, Option, none, some, List, [], ◌∷◌, ◌==◌, if◌then◌else◌, leb, length,
}
use algo.Prelude.Int.{ℤ, negsuc}
use algo.Timer.Containers.{find, map_erase}

pub record ListNode : Type 0 where
  pub head : Option ℕ
  pub key : ℕ
  pub val : ℤ
  pub tail : Option ℕ

abbrev pub Nodes : Type 0
Nodes = ℕ → Option ListNode

abbrev pub store : Nodes → ℕ → ListNode → Nodes
store h a n = λ b. if a == b then some n else h b

pub record LruCache : Type 0 where
  pub nodes : Nodes
  pub capacity : ℕ
  pub head : Option ℕ
  pub tail : Option ℕ
  pub cache_mp : List (ℕ × ℕ)

-- The constructor.
abbrev pub fresh_cache : ℕ → LruCache
fresh_cache capacity = record {
  nodes = λ a. none;
  capacity = capacity;
  head = none;
  tail = none;
  cache_mp = [];
}

-- `node->head = o` and `node->tail = o`.
abbrev pub set_head : LruCache → ℕ → Option ℕ → Option LruCache
set_head c node o =
    c.nodes node >>= λ n. some (record c { nodes = store c.nodes node (record n { head = o }) })

abbrev pub set_tail : LruCache → ℕ → Option ℕ → Option LruCache
set_tail c node o =
    c.nodes node >>= λ n. some (record c { nodes = store c.nodes node (record n { tail = o }) })

abbrev pub or_null : Option ℕ → Option ℕ → Option ℕ
or_null none p = p
or_null (some a) p = some a

unfoldable pub insert_head : LruCache → ℕ → Option LruCache
insert_head c now = do
  c1 ← set_tail c now c.head
  c2 ← set_head c1 now none
  c3 ← elim c2.head [ none ↦ some c2 | some first ↦ set_head c2 first (some now) ]
  some (record c3 { head = some now; tail = or_null c3.tail (some now) })

-- `if (before == nullptr) head_ = o; else before->tail = o;`, and the same with the other ends.
abbrev pub point_after : LruCache → Option ℕ → Option ℕ → Option LruCache
point_after c none o = some (record c { head = o })
point_after c (some before) o = set_tail c before o

abbrev pub point_before : LruCache → Option ℕ → Option ℕ → Option LruCache
point_before c none o = some (record c { tail = o })
point_before c (some after) o = set_head c after o

unfoldable pub delete_node : LruCache → ℕ → Option LruCache
delete_node c node = do
  n ← c.nodes node
  c1 ← point_after c n.head n.tail
  m ← c1.nodes node
  point_before c1 m.tail m.head

-- The cache after it, and the value; -1 stands for no value.
unfoldable pub get : LruCache → ℕ → Option (LruCache × ℤ)
get c key = elim (find key c.cache_mp) [
  | none ↦ some (c, negsuc 0)
  | some tmp ↦ do
    c1 ← delete_node c tmp
    c2 ← insert_head c1 tmp
    n ← c2.nodes tmp
    some (c2, n.val)
]

-- `cache_mp_[key] = tmp`
abbrev pub assign : ℕ → ℕ → LruCache → LruCache
assign key tmp c = record c { cache_mp = (key, tmp) ∷ map_erase key c.cache_mp }

-- A full cache gives its last node a new key and value.
unfoldable pub reuse_last : LruCache → ℕ → ℤ → Option LruCache
reuse_last c key value = do
  tmp ← c.tail
  n ← c.nodes tmp
  c1 ← delete_node (record c { cache_mp = map_erase n.key c.cache_mp }) tmp
  m ← c1.nodes tmp
  c2 ←
      insert_head (record c1 { nodes = store c1.nodes tmp (record m { key = key; val = value }) })
        tmp
  some (assign key tmp c2)

-- `new ListNode(key, value)` at an address.
unfoldable pub add_node : LruCache → ℕ → ℕ → ℤ → Option LruCache
add_node c address key value = do
  let n : ListNode = record { head = none; key = key; val = value; tail = none }
  c1 ← insert_head (record c { nodes = store c.nodes address n }) address
  some (assign key address c1)

-- With the address that `new` returns. The value of a key that is there is not changed.
unfoldable pub put : LruCache → ℕ → ℕ → ℤ → Option LruCache
put c address key value = elim (find key c.cache_mp) [
  | some tmp ↦ delete_node c tmp >>= λ c1. insert_head c1 tmp
  | none ↦
      let full = reuse_last c key value in
      let room = add_node c address key value in
      if leb c.capacity (length c.cache_mp) then full else room
]

-- The pairs that the program prints, from a node on. Fuel bounds the loop.
unfoldable pub show_lru : ℕ → Nodes → Option ℕ → Option (List (ℕ × ℤ))
show_lru fuel h none = some []
show_lru zero h (some tmp) = none
show_lru (suc fuel) h (some tmp) = do
  n ← h tmp
  rest ← show_lru fuel h n.tail
  some ((n.key, n.val) ∷ rest)

-- `delete tmp`, and a read of a deleted node is undefined behaviour.
abbrev pub release : Nodes → ℕ → Nodes
release h a = λ b. if a == b then none else h b

-- The destructor, whose loop deletes the node before it reads its `tail`. Fuel bounds the loop.
unfoldable pub destroy_lru : ℕ → Nodes → Option ℕ → Option (Unit {0})
destroy_lru fuel h none = some tt
destroy_lru zero h (some tmp) = none
destroy_lru (suc fuel) h (some tmp) = do
  n ← release h tmp tmp
  destroy_lru fuel (release h tmp) n.tail
