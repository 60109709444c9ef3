-- ===== src/Lru/Unlink.antt =====
-- DeleteNode and InsertHead of LRUCache (test/146.cc) on a list that is linked both ways.
use algo.Prelude.{ℕ, ◌≡◌, refl, sym, ◌∙◌, Option, none, some, List, [], ◌∷◌, ◌++◌}
use algo.Lru.{LruCache, store, point_after, point_before, insert_head, delete_node}
use algo.Lru.Chain.{
  Cell, node_of, first_or, last_or, IsLinked, NotIn, AreDistinct, store-other, store-same,
  IsLinked-store, first_or-append, last_or-append, IsLinked-split, IsLinked-join, last_address,
  last_or-cons, retarget, rehead, IsLinked-frame, AreDistinct-split, AreDistinct-join, AreApart-sym,
  NotIn-split, last_address-NotIn,
}

-- The fields that a write of the list leaves alone.
abbrev pub SameMap : LruCache → LruCache → Type 0
SameMap c d = (d.cache_mp ≡ c.cache_mp) × (d.capacity ≡ c.capacity)

-- Nodes outside some cells are not changed.
abbrev pub SameOutside : LruCache → LruCache → List Cell → Type 0
SameOutside c d xs = (b : ℕ) → NotIn b xs → d.nodes b ≡ c.nodes b

point_after_lem :
    (c : LruCache) (xs : List Cell) (end end' : Option ℕ)
    → AreDistinct xs
    → IsLinked c.nodes none xs end
    → c.head ≡ first_or xs end
    → (d : LruCache) × (point_after c (last_or xs none) end' ≡ some d)
      × IsLinked d.nodes none xs end'
      × (d.head ≡ first_or xs end')
      × (d.tail ≡ c.tail)
      × SameMap c d
      × SameOutside c d xs
point_after_lem c [] end end' u l h =
    (record c { head = end' }, refl, tt, refl, refl, (refl, refl), λ b n. refl)
point_after_lem c (x ∷ xs) end end' u l h =
    let (n, found, r) = retarget c.nodes none end end' x xs u l in
    let a = last_address x xs in
    (
      record c { nodes = store c.nodes a (record n { tail = end' }) },
      rw (last_or-cons x xs, found) refl,
      r,
      h,
      refl,
      (refl, refl),
      λ b out. store-other c.nodes a b (record n { tail = end' }) (last_address-NotIn b x xs out),
    )

point_before_lem :
    (c : LruCache) (xs : List Cell) (before before' : Option ℕ)
    → AreDistinct xs
    → IsLinked c.nodes before xs none
    → c.tail ≡ last_or xs before
    → (d : LruCache) × (point_before c (first_or xs none) before' ≡ some d)
      × IsLinked d.nodes before' xs none
      × (d.tail ≡ last_or xs before')
      × (d.head ≡ c.head)
      × SameMap c d
      × SameOutside c d xs
point_before_lem c [] before before' u l t =
    (record c { tail = before' }, refl, tt, refl, refl, (refl, refl), λ b n. refl)
point_before_lem c (x ∷ xs) before before' u l t =
    let n = node_of before' x (first_or xs none) in
    (
      record c { nodes = store c.nodes x.address n },
      rw l.0 refl,
      rehead c.nodes before before' none x xs u l,
      t,
      refl,
      (refl, refl),
      λ b out. store-other c.nodes x.address b n (λ e. out.0 (sym e)),
    )

-- The list of the cache, with what its two pointers are.
pub record IsChain (c : LruCache) (xs : List Cell) : Type 0 where
  pub chain : IsLinked c.nodes none xs none
  pub head_is : c.head ≡ first_or xs none
  pub tail_is : c.tail ≡ last_or xs none
  pub distinct : AreDistinct xs

-- The node of a cell, whatever its two pointers are.
abbrev pub Holds : LruCache → Cell → Type 0
Holds c x = (p : Option ℕ) × (q : Option ℕ) × (c.nodes x.address ≡ some (node_of p x q))

pub delete_node_lem :
    (c : LruCache) (xs : List Cell) (x : Cell) (ys : List Cell)
    → IsChain c (xs ++ x ∷ ys)
    → (d : LruCache) × (delete_node c x.address ≡ some d)
      × IsChain d (xs ++ ys)
      × Holds d x
      × SameMap c d
      × SameOutside c d (xs ++ ys)
unfolding delete_node
delete_node_lem c xs x ys i =
    let p = last_or xs none in
    let q = first_or ys none in
    let (u1, u2, a12, a21) = AreDistinct-split xs (x ∷ ys) i.distinct in
    let a = AreApart-sym ys xs (a21.1) in
    let (l1, l2) = IsLinked-split c.nodes none none xs (x ∷ ys) i.chain in
    let (c1, e1, k1, hd1, tl1, m1, f1) =
      point_after_lem c xs (some x.address) q u1 l1
        (i.head_is ∙ first_or-append xs (x ∷ ys) none) in
    let l3 = IsLinked-frame c.nodes c1.nodes p none (x ∷ ys) xs f1 a21 l2 in
    let (d, e2, k2, tl2, hd2, m2, f2) =
      point_before_lem c1 ys (some x.address) p u2.1 l3.1
        (tl1 ∙ i.tail_is ∙ last_or-append xs (x ∷ ys) none) in
    (
      d,
      rw (l2.0, e1, l3.0) e2,
      record {
        chain =
            IsLinked-join d.nodes none none xs ys
              (IsLinked-frame c1.nodes d.nodes none q xs ys f2 a k1) k2;
        head_is = hd2 ∙ hd1 ∙ sym (first_or-append xs ys none);
        tail_is = tl2 ∙ sym (last_or-append xs ys none);
        distinct = AreDistinct-join xs ys u1 u2.1 a;
      },
      (p, q, f2 x.address u2.0 ∙ l3.0),
      (m2.0 ∙ m1.0, m2.1 ∙ m1.1),
      λ b out. let (o1, o2) = NotIn-split b xs ys out in f2 b o2 ∙ f1 b o1,
    )

pub insert_head_lem :
    (c : LruCache) (x : Cell) (xs : List Cell)
    → IsChain c xs
    → NotIn x.address xs
    → Holds c x
    → (d : LruCache) × (insert_head c x.address ≡ some d) × IsChain d (x ∷ xs) × SameMap c d
unfolding insert_head
insert_head_lem c x [] i out (p, q, found) =
    let a = x.address in
    let h1 = store c.nodes a (node_of p x none) in
    let h2 = store h1 a (node_of none x none) in
    (
      record c { nodes = h2; head = some a; tail = some a },
      rw (found, i.head_is, store-same c.nodes a (node_of p x none), i.tail_is) refl,
      record {
        chain = (store-same h1 a (node_of none x none), tt);
        head_is = refl;
        tail_is = refl;
        distinct = (tt, tt);
      },
      (refl, refl),
    )
insert_head_lem c x (y ∷ ys) i out (p, q, found) =
    let a = x.address in
    let b = y.address in
    let n1 = node_of p x (some b) in
    let n2 = node_of none x (some b) in
    let n3 = node_of (some a) y (first_or ys none) in
    let h1 = store c.nodes a n1 in
    let h2 = store h1 a n2 in
    let l1 = IsLinked-store c.nodes a n1 none none (y ∷ ys) out i.chain in
    let l2 = IsLinked-store h1 a n2 none none (y ∷ ys) out l1 in
    (
      record c { nodes = store h2 b n3; head = some a; tail = c.tail },
      rw (found, i.head_is, store-same c.nodes a n1, l2.0, i.tail_is, last_or-cons y ys) refl,
      record {
        chain = (
          store-other h2 b a n3 (λ e. out.0 (sym e)) ∙ store-same h1 a n2,
          rehead h2 none (some a) none y ys i.distinct l2,
        );
        head_is = refl;
        tail_is = i.tail_is;
        distinct = (out, i.distinct);
      },
      (refl, refl),
    )
