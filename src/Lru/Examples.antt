-- ===== src/Lru/Examples.antt =====
-- Runs of LRUCache (test/146.cc) on small caches, and the theorems at them.
use algo.Prelude.{◌≡◌, refl, none, some, List, [], ◌∷◌, arith}
use algo.Prelude.Int.{negsuc, pos}
use algo.Timer.Containers.{find}
use algo.Lru.{LruCache, fresh_cache, store}
use algo.Lru.Chain.{Cell, node_of}
use algo.Lru.Cache.{address_of}
use algo.Lru.Entries.{Entries, Stores, lookup, forget}
use algo.Lru.Commands.{
  Command, get_key, put_pair, run_commands, run_commands_spec, run_doc, with_old_values,
  run_commands_lem,
}

-- Key 2 was put last, and key 1 before it.
abbrev first_cell : Cell
first_cell = record { address = 20; key = 2; val = pos 22 }

abbrev second_cell : Cell
second_cell = record { address = 10; key = 1; val = pos 11 }

abbrev two : LruCache
two = record {
  nodes =
      store (store (λ a. none) 10 (node_of (some 20) second_cell none)) 20
        (node_of none first_cell (some 10));
  capacity = 2;
  head = some 20;
  tail = some 10;
  cache_mp = (2, 20) ∷ (1, 10) ∷ [];
}

abbrev two_entries : Entries
two_entries = (2, pos 22) ∷ (1, pos 11) ∷ []

two-Stores : Stores two two_entries
unfolding address_of find
two-Stores = record {
  cells = first_cell ∷ second_cell ∷ [];
  is_cache = record {
    list = record {
      chain = (refl, (refl, tt));
      head_is = refl;
      tail_is = refl;
      distinct = ((omega arith, tt), (tt, tt));
    };
    keyed = (refl, (refl, tt));
    mapped = λ k. refl;
    is_map = (refl, (refl, tt));
    size = refl;
  };
  entries = refl;
  room = omega arith;
}

-- main of test/146.cc.
abbrev main_commands : List Command
main_commands =
    put_pair 1 (pos 1)
    ∷ put_pair 2 (pos 2)
    ∷ get_key 1
    ∷ put_pair 3 (pos 3)
    ∷ get_key 2
    ∷ put_pair 4 (pos 4)
    ∷ get_key 1
    ∷ get_key 3
    ∷ get_key 4
    ∷ []

main_answers :
    (run_commands_spec 2 [] main_commands).1 ≡ pos 1 ∷ negsuc 0 ∷ negsuc 0 ∷ pos 3 ∷ pos 4 ∷ []
unfolding run_commands_spec lookup forget
main_answers = refl

-- A key that is put twice keeps its first value.
abbrev put_twice : List Command
put_twice = put_pair 1 (pos 1) ∷ put_pair 1 (pos 9) ∷ get_key 1 ∷ []

run_commands_lem_example :
    (d : LruCache) × (run_commands 0 (fresh_cache 2) put_twice ≡ some (d, pos 1 ∷ []))
    × Stores d ((1, pos 1) ∷ [])
unfolding run_doc with_old_values lookup forget
run_commands_lem_example = run_commands_lem 2 put_twice (omega arith)
