-- ===== src/Lru/Chain.antt =====
-- The linked list of LRUCache (test/146.cc): what stands on the heap, and how single writes
-- change it.
use algo.Prelude.{
  ℕ, ◌≡◌, ◌≢◌, refl, sym, ap, ◌∙◌, Option, some, List, [], ◌∷◌, ◌++◌, ==_refl, ==_ne,
}
use algo.Prelude.Int.{ℤ}
use algo.Lru.{ListNode, Nodes, store}

-- A node by its address, with what it holds.
pub record Cell : Type 0 where
  pub address : ℕ
  pub key : ℕ
  pub val : ℤ

abbrev pub node_of : Option ℕ → Cell → Option ℕ → ListNode
node_of before x after = record { head = before; key = x.key; val = x.val; tail = after }

-- The address of the first cell, or the pointer behind the list; that of the last one, or the
-- pointer before it.
abbrev pub first_or : List Cell → Option ℕ → Option ℕ
first_or [] end = end
first_or (x ∷ xs) end = some x.address

abbrev pub last_or : List Cell → Option ℕ → Option ℕ
last_or [] before = before
last_or (x ∷ xs) before = last_or xs (some x.address)

-- The cells are linked both ways, from `before` to `end`.
abbrev pub IsLinked : Nodes → Option ℕ → List Cell → Option ℕ → Type 0
IsLinked h before [] end = Unit {0}
IsLinked h before (x ∷ xs) end =
    (h x.address ≡ some (node_of before x (first_or xs end))) × IsLinked h (some x.address) xs end

abbrev pub NotIn : ℕ → List Cell → Type 0
NotIn a [] = Unit {0}
NotIn a (x ∷ xs) = (x.address ≢ a) × NotIn a xs

abbrev pub AreDistinct : List Cell → Type 0
AreDistinct [] = Unit {0}
AreDistinct (x ∷ xs) = NotIn x.address xs × AreDistinct xs

pub store-other : (h : Nodes) (a b : ℕ) (n : ListNode) → b ≢ a → store h a n b ≡ h b
store-other h a b n ne = rw (==_ne a b (λ e. ne (sym e))) refl

pub store-same : (h : Nodes) (a : ℕ) (n : ListNode) → store h a n a ≡ some n
store-same h a n = rw (==_refl a) refl

pub IsLinked-store :
    (h : Nodes) (a : ℕ) (n : ListNode) (before end : Option ℕ) (xs : List Cell)
    → NotIn a xs
    → IsLinked h before xs end
    → IsLinked (store h a n) before xs end
IsLinked-store h a n before end [] out l = tt
IsLinked-store h a n before end (x ∷ xs) out l = (
  store-other h a x.address n out.0 ∙ l.0,
  IsLinked-store h a n (some x.address) end xs out.1 l.1,
)

pub first_or-append :
    (xs ys : List Cell) (end : Option ℕ) → first_or (xs ++ ys) end ≡ first_or xs (first_or ys end)
first_or-append [] ys end = refl
first_or-append (x ∷ xs) ys end = refl

pub last_or-append :
    (xs ys : List Cell) (before : Option ℕ)
    → last_or (xs ++ ys) before ≡ last_or ys (last_or xs before)
last_or-append [] ys before = refl
last_or-append (x ∷ xs) ys before = last_or-append xs ys (some x.address)

pub IsLinked-split :
    (h : Nodes) (before end : Option ℕ) (xs ys : List Cell)
    → IsLinked h before (xs ++ ys) end
    → IsLinked h before xs (first_or ys end) × IsLinked h (last_or xs before) ys end
IsLinked-split h before end [] ys l = (tt, l)
IsLinked-split h before end (x ∷ xs) ys l =
    let (left, right) = IsLinked-split h (some x.address) end xs ys l.1 in
    ((l.0 ∙ ap (λ p. some (node_of before x p)) (first_or-append xs ys end), left), right)

pub IsLinked-join :
    (h : Nodes) (before end : Option ℕ) (xs ys : List Cell)
    → IsLinked h before xs (first_or ys end)
    → IsLinked h (last_or xs before) ys end
    → IsLinked h before (xs ++ ys) end
IsLinked-join h before end [] ys l r = r
IsLinked-join h before end (x ∷ xs) ys l r = (
  l.0 ∙ ap (λ p. some (node_of before x p)) (sym (first_or-append xs ys end)),
  IsLinked-join h (some x.address) end xs ys l.1 r,
)

pub NotIn-split : (a : ℕ) (xs ys : List Cell) → NotIn a (xs ++ ys) → NotIn a xs × NotIn a ys
NotIn-split a [] ys n = (tt, n)
NotIn-split a (x ∷ xs) ys n = let (l, r) = NotIn-split a xs ys n.1 in ((n.0, l), r)

pub NotIn-join : (a : ℕ) (xs ys : List Cell) → NotIn a xs → NotIn a ys → NotIn a (xs ++ ys)
NotIn-join a [] ys l r = r
NotIn-join a (x ∷ xs) ys l r = (l.0, NotIn-join a xs ys l.1 r)

-- The address of the last of some cells.
abbrev pub last_address : Cell → List Cell → ℕ
last_address x [] = x.address
last_address x (y ∷ ys) = last_address y ys

pub last_or-cons :
    (x : Cell) (xs : List Cell) → last_or xs (some x.address) ≡ some (last_address x xs)
last_or-cons x [] = refl
last_or-cons x (y ∷ ys) = last_or-cons y ys

last_address_ne : (a : ℕ) (x : Cell) (xs : List Cell) → NotIn a (x ∷ xs) → last_address x xs ≢ a
last_address_ne a x [] n = n.0
last_address_ne a x (y ∷ ys) n = last_address_ne a y ys n.1

pub NotIn-last_address :
    (x : Cell) (xs ys : List Cell) → AreDistinct (x ∷ xs ++ ys) → NotIn (last_address x xs) ys
NotIn-last_address x [] ys d = d.0
NotIn-last_address x (y ∷ xs) ys d = NotIn-last_address y xs ys d.1

-- A write of the last cell's `tail`.
pub retarget :
    (h : Nodes) (before end end' : Option ℕ) (x : Cell) (xs : List Cell)
    → AreDistinct (x ∷ xs)
    → IsLinked h before (x ∷ xs) end
    → (n : ListNode) × (h (last_address x xs) ≡ some n)
      × IsLinked (store h (last_address x xs) (record n { tail = end' })) before (x ∷ xs) end'
retarget h before end end' x [] d l =
    (node_of before x end, l.0, (store-same h x.address (node_of before x end'), tt))
retarget h before end end' x (y ∷ ys) d l =
    let (n, found, r) = retarget h (some x.address) end end' y ys d.1 l.1 in
    (
      n,
      found,
      (
        store-other h (last_address y ys) x.address (record n { tail = end' })
              (λ e. last_address_ne x.address y ys d.0 (sym e))
            ∙ l.0,
        r,
      ),
    )

-- A write of the first cell's `head`.
pub rehead :
    (h : Nodes) (before before' end : Option ℕ) (x : Cell) (xs : List Cell)
    → AreDistinct (x ∷ xs)
    → IsLinked h before (x ∷ xs) end
    → IsLinked (store h x.address (node_of before' x (first_or xs end))) before' (x ∷ xs) end
rehead h before before' end x xs d l =
    let n = node_of before' x (first_or xs end) in
    (store-same h x.address n, IsLinked-store h x.address n (some x.address) end xs d.0 l.1)

-- No address of the first is one of the second.
abbrev pub AreApart : List Cell → List Cell → Type 0
AreApart [] ys = Unit {0}
AreApart (x ∷ xs) ys = NotIn x.address ys × AreApart xs ys

-- A heap that differs only at the addresses of other cells.
pub IsLinked-frame :
    (h h' : Nodes) (before end : Option ℕ) (xs ys : List Cell)
    → ((b : ℕ) → NotIn b ys → h' b ≡ h b)
    → AreApart xs ys
    → IsLinked h before xs end
    → IsLinked h' before xs end
IsLinked-frame h h' before end [] ys f a l = tt
IsLinked-frame h h' before end (x ∷ xs) ys f a l =
    (f x.address a.0 ∙ l.0, IsLinked-frame h h' (some x.address) end xs ys f a.1 l.1)

pub AreApart-nil : (xs : List Cell) → AreApart xs []
AreApart-nil [] = tt
AreApart-nil (x ∷ xs) = (tt, AreApart-nil xs)

AreApart-cons :
    (x : Cell) (xs ys : List Cell) → NotIn x.address xs → AreApart xs ys → AreApart xs (x ∷ ys)
AreApart-cons x [] ys n a = tt
AreApart-cons x (z ∷ xs) ys n a = ((λ e. n.0 (sym e), a.0), AreApart-cons x xs ys n.1 a.1)

pub AreApart-sym : (xs ys : List Cell) → AreApart xs ys → AreApart ys xs
AreApart-sym [] ys a = AreApart-nil ys
AreApart-sym (x ∷ xs) ys a = AreApart-cons x ys xs a.0 (AreApart-sym xs ys a.1)

-- The parts of distinct cells: each is distinct, and they are apart both ways.
pub AreDistinct-split :
    (xs ys : List Cell)
    → AreDistinct (xs ++ ys)
    → AreDistinct xs × AreDistinct ys × AreApart xs ys × AreApart ys xs
AreDistinct-split [] ys d = (tt, d, tt, AreApart-nil ys)
AreDistinct-split (x ∷ xs) ys d =
    let (dx, dy, a, b) = AreDistinct-split xs ys d.1 in
    let (nx, ny) = NotIn-split x.address xs ys d.0 in
    ((nx, dx), dy, (ny, a), AreApart-sym (x ∷ xs) ys (ny, a))

pub AreDistinct-join :
    (xs ys : List Cell) → AreDistinct xs → AreDistinct ys → AreApart xs ys → AreDistinct (xs ++ ys)
AreDistinct-join [] ys d e a = e
AreDistinct-join (x ∷ xs) ys d e a =
    (NotIn-join x.address xs ys d.0 a.0, AreDistinct-join xs ys d.1 e a.1)

pub last_address-NotIn :
    (b : ℕ) (x : Cell) (xs : List Cell) → NotIn b (x ∷ xs) → b ≢ last_address x xs
last_address-NotIn b x xs n = λ e. last_address_ne b x xs n (sym e)
