-- ===== src/Lru/Commands.antt =====
-- Sequences of calls of LRUCache (test/146.cc), from a fresh cache on.
use algo.Prelude.{
  ℕ, suc, ◌-◌, take, inl, inr, Option-cases, ◌≤◌, ◌<◌, ◌≡◌, refl, ap, ◌∙◌, subst, arith, Option,
  none, some, List, [], ◌∷◌, ◌>>=◌, bind_some,
}
use algo.Prelude.Int.{ℤ}
use algo.Lru.{LruCache, fresh_cache, get, put}
use algo.Timer.Containers.{find}
use algo.Lru.Cache.{address_of}
use algo.Lru.Entries.{Entries, lookup, forget, get_spec, put_spec, Stores, IsFree}
use algo.Lru.Getting.{get_lem}
use algo.Lru.Putting.{put_lem}
use algo.Lru.Addresses.{Yields, Spares, get-Spares, put-Spares}

pub data Command : Type 0 where
  get_key : ℕ → Command
  put_pair : ℕ → ℤ → Command

abbrev pub one_more : ℤ → Option (LruCache × List ℤ) → Option (LruCache × List ℤ)
one_more v none = none
one_more v (some r) = some (r.0, v ∷ r.1)

-- The calls, with the values of `get` in order. `new` gives one address after the other.
unfoldable pub run_commands : ℕ → LruCache → List Command → Option (LruCache × List ℤ)
run_commands address c [] = some (c, [])
run_commands address c (get_key k ∷ cs) =
    get c k >>= λ r. one_more r.1 (run_commands address r.0 cs)
run_commands address c (put_pair k v ∷ cs) =
    put c address k v >>= λ d. run_commands (suc address) d cs

-- The same calls on a list of entries.
unfoldable pub run_commands_spec : ℕ → Entries → List Command → Entries × List ℤ
run_commands_spec capacity es [] = (es, [])
run_commands_spec capacity es (get_key k ∷ cs) =
    let (fs, v) = get_spec k es in let (gs, vs) = run_commands_spec capacity fs cs in (gs, v ∷ vs)
run_commands_spec capacity es (put_pair k v ∷ cs) =
    run_commands_spec capacity (put_spec capacity k v es) cs

abbrev RunLaw : ℕ → ℕ → LruCache → Entries → List Command → Type 0
RunLaw capacity address c es cs =
    (d : LruCache) × (run_commands address c cs ≡ some (d, (run_commands_spec capacity es cs).1))
    × Stores d (run_commands_spec capacity es cs).0

run_from :
    (capacity address : ℕ) (c : LruCache) (es : Entries) (cs : List Command)
    → 0 < capacity
    → c.capacity ≡ capacity
    → ((b : ℕ) → address ≤ b → IsFree c b)
    → Stores c es
    → RunLaw capacity address c es cs
unfolding run_commands run_commands_spec
run_from capacity address c es [] room same free s = (c, refl, s)
run_from capacity address c es (get_key k ∷ cs) room same free s =
    let (d, e, kept, t) = get_lem c k es s in
    let free' : (b : ℕ) → address ≤ b → IsFree d b =
      λ b h. subst (Yields (λ r. Spares b r.0)) e (get-Spares b c k (free b h)) in
    let (f, e', u) = run_from capacity address d (get_spec k es).0 cs room (kept ∙ same) free' t in
    (f, bind_some _ _ _ _ e (ap (one_more (get_spec k es).1) e'), u)
run_from capacity address c es (put_pair k v ∷ cs) room same free s =
    let (d, e, kept, t) =
      put_lem c address k v es (omega (arith, room, same)) (free address (omega arith)) s in
    let t' = subst (λ n. Stores d (put_spec n k v es)) same t in
    let free' : (b : ℕ) → suc address ≤ b → IsFree d b = λ b h. subst (Yields (Spares b)) e (
      put-Spares b c address k v (λ q. absurd (omega (arith, q, h))) (free b (omega (arith, h)))) in
    let (f, e', u) =
      run_from capacity (suc address) d (put_spec capacity k v es) cs room (kept ∙ same) free' t' in
    (f, bind_some _ _ _ _ e e', u)

fresh_cache-Stores : (capacity : ℕ) → Stores (fresh_cache capacity) []
unfolding find address_of
fresh_cache-Stores capacity = record {
  cells = [];
  is_cache = record {
    list = record { chain = tt; head_is = refl; tail_is = refl; distinct = tt };
    keyed = tt;
    mapped = λ k. refl;
    is_map = tt;
    size = refl;
  };
  entries = refl;
  room = omega arith;
}

-- `put` as the comment above the class has it: a key that is there gets the new value and goes to
-- the front.
abbrev pub put_doc : ℕ → ℕ → ℤ → Entries → Entries
put_doc capacity k v es = elim (lookup k es) [
  | none ↦ (k, v) ∷ take (capacity - 1) es
  | some w ↦ (k, v) ∷ forget k es
]

unfoldable pub run_doc : ℕ → Entries → List Command → Entries × List ℤ
run_doc capacity es [] = (es, [])
run_doc capacity es (get_key k ∷ cs) =
    let (fs, v) = get_spec k es in let (gs, vs) = run_doc capacity fs cs in (gs, v ∷ vs)
run_doc capacity es (put_pair k v ∷ cs) = run_doc capacity (put_doc capacity k v es) cs

-- The value that a `put` of the code leaves for its key: the one that is there, if one is.
abbrev pub kept_value : ℕ → ℤ → Entries → ℤ
kept_value k v es = elim (lookup k es) [ none ↦ v | some w ↦ w ]

-- The calls with each `put` of a key that is there replaced by a `put` of its old value.
unfoldable pub with_old_values : ℕ → Entries → List Command → List Command
with_old_values capacity es [] = []
with_old_values capacity es (get_key k ∷ cs) =
    get_key k ∷ with_old_values capacity (get_spec k es).0 cs
with_old_values capacity es (put_pair k v ∷ cs) =
    put_pair k (kept_value k v es)
    ∷ with_old_values capacity (put_doc capacity k (kept_value k v es) es) cs

put_spec-put_doc :
    (capacity k : ℕ) (v : ℤ) (es : Entries)
    → put_spec capacity k v es ≡ put_doc capacity k (kept_value k v es) es
put_spec-put_doc capacity k v es = elim (Option-cases (lookup k es)) [
  | inl gone ↦ rw (gone, put_spec, put_doc) (rw (gone, kept_value) refl)
  | inr (w, there) ↦ rw (there, put_spec, put_doc) (rw (there, kept_value) refl)
]

run_commands_spec-run_doc :
    (capacity : ℕ) (es : Entries) (cs : List Command)
    → run_commands_spec capacity es cs ≡ run_doc capacity es (with_old_values capacity es cs)
unfolding run_commands_spec run_doc with_old_values
run_commands_spec-run_doc capacity es [] = refl
run_commands_spec-run_doc capacity es (get_key k ∷ cs) =
    ap (λ (r : Entries × List ℤ). (r.0, (get_spec k es).1 ∷ r.1))
      (run_commands_spec-run_doc capacity (get_spec k es).0 cs)
run_commands_spec-run_doc capacity es (put_pair k v ∷ cs) =
    ap (λ fs. run_commands_spec capacity fs cs) (put_spec-put_doc capacity k v es)
    ∙ run_commands_spec-run_doc capacity (put_doc capacity k (kept_value k v es) es) cs

-- Any sequence of calls of `get` and `put` on a fresh cache of positive capacity runs to its end and
-- reads through no bad pointer. Its values, and the entries that the cache then stores, are those of
-- the LRU cache that the comment above the class describes, for the same calls but for one
-- difference: each `put` of a key that is there stands for a `put` of its old value, since the code
-- drops the new one, contrary to that comment.
pub run_commands_lem :
    (capacity : ℕ) (cs : List Command)
    → 0 < capacity
    → let meant = run_doc capacity [] (with_old_values capacity [] cs) in
      (d : LruCache) × (run_commands 0 (fresh_cache capacity) cs ≡ some (d, meant.1))
      × Stores d meant.0
run_commands_lem capacity cs room =
    let e = run_commands_spec-run_doc capacity [] cs in
    let (d, run, stores) =
      run_from capacity 0 (fresh_cache capacity) [] cs room refl (λ b h. refl)
        (fresh_cache-Stores capacity) in
    (
      d,
      run ∙ ap (λ (m : Entries × List ℤ). some (d, m.1)) e,
      subst (λ (m : Entries × List ℤ). Stores d m.0) e stores,
    )
