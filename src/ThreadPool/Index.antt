-- ===== src/ThreadPool/Index.antt =====
-- The nodes of `_tasks` by descriptor, as `fd_task_map` of ThreadPool keeps them
-- (tools/sync_file/epoll_socket/threadpool.h), and erasing through the iterators.
use algo.Prelude.{
  ℕ, ◌≡◌, ◌≢◌, refl, sym, inl, inr, some, List, [], ◌∷◌, ◌++◌, ◌==◌, if◌then◌else◌, arith,
  Bool-cases, Option-cases,
}
use algo.ThreadPool.{Node, erase, erase_all}

-- The addresses of the nodes of a descriptor, in order.
abbrev pub addresses_of : ℕ → List Node → List ℕ
addresses_of fd [] = []
addresses_of fd (n ∷ ns) =
    let rest = addresses_of fd ns in if n.fd == fd then n.address ∷ rest else rest

-- The nodes of the other descriptors.
abbrev pub without : ℕ → List Node → List Node
without fd [] = []
without fd (n ∷ ns) = let rest = without fd ns in if n.fd == fd then rest else n ∷ rest

abbrev pub NotAt : ℕ → List Node → Type 0
NotAt a [] = Unit {0}
NotAt a (n ∷ ns) = (n.address ≢ a) × NotAt a ns

abbrev pub AreDistinct : List Node → Type 0
AreDistinct [] = Unit {0}
AreDistinct (n ∷ ns) = NotAt n.address ns × AreDistinct ns

abbrev AllNe : ℕ → List ℕ → Type 0
AllNe a [] = Unit {0}
AllNe a (i ∷ is) = (i ≢ a) × AllNe a is

pub addresses_of-append :
    (fd : ℕ) (ns : List Node) (n : Node)
    → addresses_of fd (ns ++ n ∷ []) ≡ addresses_of fd ns ++ addresses_of fd (n ∷ [])
addresses_of-append fd [] n = refl
addresses_of-append fd (m ∷ ns) n = ground (arith, addresses_of-append fd ns n)

NotAt-append :
    (a : ℕ) (ns : List Node) (n : Node) → NotAt a ns → n.address ≢ a → NotAt a (ns ++ n ∷ [])
NotAt-append a [] n h k = (k, tt)
NotAt-append a (m ∷ ns) n h k = (h.0, NotAt-append a ns n h.1 k)

pub AreDistinct-append :
    (ns : List Node) (n : Node) → AreDistinct ns → NotAt n.address ns → AreDistinct (ns ++ n ∷ [])
AreDistinct-append [] n d h = (tt, tt)
AreDistinct-append (m ∷ ns) n d h =
    (NotAt-append m.address ns n d.0 (λ e. h.0 (sym e)), AreDistinct-append ns n d.1 h.1)

NotAt-without : (a fd : ℕ) (ns : List Node) → NotAt a ns → NotAt a (without fd ns)
NotAt-without a fd [] h = tt
NotAt-without a fd (n ∷ ns) h = elim (Bool-cases (n.fd == fd)) [
  | inl e ↦ rw (e) (NotAt-without a fd ns h.1)
  | inr e ↦ rw (e) ((h.0, NotAt-without a fd ns h.1))
]

pub AreDistinct-without : (fd : ℕ) (ns : List Node) → AreDistinct ns → AreDistinct (without fd ns)
AreDistinct-without fd [] d = tt
AreDistinct-without fd (n ∷ ns) d = elim (Bool-cases (n.fd == fd)) [
  | inl e ↦ rw (e) (AreDistinct-without fd ns d.1)
  | inr e ↦ rw (e) ((NotAt-without n.address fd ns d.0, AreDistinct-without fd ns d.1))
]

addresses_of-AllNe : (a fd : ℕ) (ns : List Node) → NotAt a ns → AllNe a (addresses_of fd ns)
addresses_of-AllNe a fd [] h = tt
addresses_of-AllNe a fd (n ∷ ns) h = elim (Bool-cases (n.fd == fd)) [
  | inl e ↦ rw (e) ((h.0, addresses_of-AllNe a fd ns h.1))
  | inr e ↦ rw (e) (addresses_of-AllNe a fd ns h.1)
]

erase_all-cons :
    (is : List ℕ) (n : Node) (ns ms : List Node)
    → AllNe n.address is
    → erase_all is ns ≡ some ms
    → erase_all is (n ∷ ns) ≡ some (n ∷ ms)
unfolding erase erase_all
erase_all-cons [] n ns ms h e = ground arith
erase_all-cons (i ∷ is) n ns ms h e = elim (Option-cases (erase i ns)) [
  | inl none_left ↦ ground arith
  | inr (ls, left) ↦
      let rest : erase_all is ls ≡ some ms = ground arith in
      ground (arith, erase_all-cons is n ls ms h.1 rest, h.0)
]

pub erase_all-addresses_of :
    (fd : ℕ) (ns : List Node)
    → AreDistinct ns
    → erase_all (addresses_of fd ns) ns ≡ some (without fd ns)
unfolding erase erase_all
erase_all-addresses_of fd [] d = refl
erase_all-addresses_of fd (n ∷ ns) d =
    let rest = erase_all-addresses_of fd ns d.1 in
    let other = addresses_of-AllNe n.address fd ns d.0 in
    ground (arith, rest, erase_all-cons (addresses_of fd ns) n ns (without fd ns) other rest)

pub addresses_of-without : (fd : ℕ) (ns : List Node) → addresses_of fd (without fd ns) ≡ []
addresses_of-without fd [] = refl
addresses_of-without fd (n ∷ ns) = ground (arith, addresses_of-without fd ns)

pub addresses_of-without_ne :
    (fd k : ℕ) (ns : List Node) → fd ≢ k → addresses_of k (without fd ns) ≡ addresses_of k ns
addresses_of-without_ne fd k [] h = refl
addresses_of-without_ne fd k (n ∷ ns) h = ground (arith, addresses_of-without_ne fd k ns h)
