-- ===== src/ThreadPool/Specification.antt =====
-- What ThreadPool of tools/sync_file/epoll_socket/threadpool.h promises: a queue of requests,
-- which are tasks under descriptors, and the events that its users see.
use algo.Prelude.{ℕ, Option, none, some, List, [], ◌∷◌, ◌++◌, ◌==◌, if◌then◌else◌}

pub data Event : Type 0 where
  submitted : ℕ → ℕ → Event
  closed started : ℕ → Event

-- The requests of the other descriptors.
abbrev pub keep : ℕ → List (ℕ × ℕ) → List (ℕ × ℕ)
keep fd [] = []
keep fd (r ∷ rs) = let rest = keep fd rs in if r.0 == fd then rest else r ∷ rest

-- A task starts only as the oldest one.
abbrev pub replay : Event → List (ℕ × ℕ) → Option (List (ℕ × ℕ))
replay (submitted fd task) rs = some (rs ++ (fd, task) ∷ [])
replay (closed fd) rs = some (keep fd rs)
replay (started task) [] = none
replay (started task) (r ∷ rs) = if r.1 == task then some rs else none

abbrev pub replay_all : List Event → List (ℕ × ℕ) → Option (List (ℕ × ℕ))
replay_all [] rs = some rs
replay_all (e ∷ es) rs = elim (replay e rs) [ none ↦ none | some ss ↦ replay_all es ss ]
