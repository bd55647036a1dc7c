-- ===== src/DoublyLinked/Unlinking.antt =====
-- `UnlinkListItem` of include/list.h, followed by `free`, takes one item out of a list.
use acidblood.Common.{ℕ, ◌<◌, ◌≡◌, refl, sym, ◌≢◌, some, List, [], ◌∷◌, ◌++◌, arith}
use mathlib.Core.List.{append-nil}
use acidblood.DoublyLinked.{Node, Heap, with_next, with_prev, unlink_list_item}
use acidblood.DoublyLinked.Chain.{
  node, head, last, Chain, NotIn, Distinct, Holds, Chain-with_next, Chain-with_prev, Chain-at,
  NotIn-append, append-NotIn, NotIn-last,
}

module _ {ℓ} {A : Type ℓ} where
  Distinct-append : (l r : List (ℕ × A)) → Distinct (l ++ r) → Distinct l × Distinct r
  Distinct-append [] r d = (tt, d)
  Distinct-append ((a, x) ∷ l) r d =
      let (dl, dr) = Distinct-append l r d.1 in (((NotIn-append a l r d.0).0, dl), dr)

  pub Distinct-remove :
      (l : List (ℕ × A)) (a : ℕ) (x : A) (r : List (ℕ × A))
      → Distinct (l ++ (a, x) ∷ r)
      → NotIn a (l ++ r) × Distinct (l ++ r)
  Distinct-remove [] a x r d = d
  Distinct-remove ((b, y) ∷ l) a x r d =
      let (na, dr) = Distinct-remove l a x r d.1 in
      let (nl, nr) = NotIn-append b l ((a, x) ∷ r) d.0 in
      (((λ e. nr.0 (sym e)), na), (append-NotIn b l r nl nr.1, dr))

  -- The last node of the list is taken out.
  relink-end :
      (h : Heap A) (p c : ℕ) (y : A) (l : List (ℕ × A)) (a : ℕ) (x : A)
      → Chain h p ((c, y) ∷ l ++ (a, x) ∷ [])
      → Distinct ((c, y) ∷ l ++ (a, x) ∷ [])
      → Chain (with_next h (last c l) 0) p ((c, y) ∷ l)
  unfolding with_next
  relink-end h p c y [] a x k d = (k.0, ground arith, tt)
  relink-end h p c y ((b, z) ∷ l) a x k d = (
    k.0,
    ground (arith, NotIn-last c b l d.0.0 (NotIn-append c l ((a, x) ∷ []) d.0.1).0),
    relink-end h c b z l a x k.2 d.1,
  )

  -- A node between two others is taken out.
  relink-middle :
      (h : Heap A) (p c : ℕ) (y : A) (l : List (ℕ × A)) (a : ℕ) (x : A) (e : ℕ) (z : A)
      (r : List (ℕ × A))
      → Chain h p ((c, y) ∷ l ++ (a, x) ∷ (e, z) ∷ r)
      → Distinct ((c, y) ∷ l ++ (a, x) ∷ (e, z) ∷ r)
      → Chain (with_next (with_prev h e (last c l)) (last c l) e) p ((c, y) ∷ l ++ (e, z) ∷ r)
  unfolding with_next with_prev
  relink-middle h p c y [] a x e z r k d = (
    k.0,
    ground arith,
    (
      k.2.2.0,
      ground arith,
      Chain-with_next (with_prev h e c) c e e r d.0.1.1 (Chain-with_prev h e c e r d.1.1.0 k.2.2.2),
    ),
  )
  relink-middle h p c y ((b, w) ∷ l) a x e z r k d =
      let (nl, nr) = NotIn-append c l ((a, x) ∷ (e, z) ∷ r) d.0.1 in
      (k.0, ground (arith, NotIn-last c b l d.0.0 nl), relink-middle h c b w l a x e z r k.2 d.1)

  last-node :
      (h : Heap A) (p c : ℕ) (y : A) (l r : List (ℕ × A))
      → Chain h p ((c, y) ∷ l ++ r)
      → (n : Node A) × (h (last c l) ≡ some n) × (0 < last c l)
  last-node h p c y [] r k = (_, k.1, k.0)
  last-node h p c y ((b, z) ∷ l) r k = last-node h c b z l r k.2

  last-ne :
      (c : ℕ) (y : A) (l : List (ℕ × A)) (a : ℕ) (x : A) (r : List (ℕ × A))
      → Distinct ((c, y) ∷ l ++ (a, x) ∷ r)
      → a ≢ last c l
  last-ne c y l a x r d =
      let (na, _) = Distinct-remove ((c, y) ∷ l) a x r d in
      NotIn-last a c l na.0 (NotIn-append a l r na.1).0

  last-ne_next :
      (c : ℕ) (y : A) (l : List (ℕ × A)) (a : ℕ) (x : A) (e : ℕ) (z : A) (r : List (ℕ × A))
      → Distinct ((c, y) ∷ l ++ (a, x) ∷ (e, z) ∷ r)
      → e ≢ last c l
  last-ne_next c y [] a x e z r d = λ q. d.0.1.0 (sym q)
  last-ne_next c y ((b, w) ∷ l) a x e z r d = last-ne_next b w l a x e z r d.1

  next-at :
      (h : Heap A) (p : ℕ) (l : List (ℕ × A)) (a : ℕ) (x : A) (e : ℕ) (z : A) (r : List (ℕ × A))
      → Chain h p (l ++ (a, x) ∷ (e, z) ∷ r)
      → (0 < e) × (h e ≡ some (node a (head r) z))
  next-at h p [] a x e z r k = (k.2.0, k.2.1)
  next-at h p ((b, w) ∷ l) a x e z r k = next-at h b l a x e z r k.2

  next-ne :
      (a : ℕ) (l : List (ℕ × A)) (e : ℕ) (z : A) (r : List (ℕ × A))
      → NotIn a (l ++ (e, z) ∷ r)
      → a ≢ e
  next-ne a l e z r n = (NotIn-append a l ((e, z) ∷ r) n).1.0

  -- Whichever of the four cases of the macro applies, the memory that it leaves holds the list
  -- without the node, and the node itself is as it was.
  pub unlink-Chain :
      (h : Heap A) (l : List (ℕ × A)) (a : ℕ) (x : A) (r : List (ℕ × A))
      → Holds h (l ++ (a, x) ∷ r)
      → (h' : Heap A) × (unlink_list_item h a (head (l ++ (a, x) ∷ r)) ≡ some (h', head (l ++ r)))
        × Chain h' 0 (l ++ r)
        × (h' a ≡ h a)
  unfolding unlink_list_item with_next with_prev
  unlink-Chain h [] a x [] k = (h, ground arith, tt, refl)
  unlink-Chain h [] a x ((e, z) ∷ r) k = (
    with_prev h e 0,
    ground arith,
    (k.chain.2.0, ground arith, Chain-with_prev h e 0 e r k.distinct.1.0 k.chain.2.2),
    ground arith,
  )
  unlink-Chain h ((c, y) ∷ l) a x [] k =
      let (n, en, pn) = last-node h 0 c y l ((a, x) ∷ []) k.chain in
      (
        with_next h (last c l) 0,
        ground (arith, Chain-at h 0 ((c, y) ∷ l) a x [] k.chain),
        rw append-nil (relink-end h 0 c y l a x k.chain k.distinct),
        ground (arith, last-ne c y l a x [] k.distinct),
      )
  unlink-Chain h ((c, y) ∷ l) a x ((e, z) ∷ r) k =
      let (n, en, pn) = last-node h 0 c y l ((a, x) ∷ (e, z) ∷ r) k.chain in
      let (pa, ea) = Chain-at h 0 ((c, y) ∷ l) a x ((e, z) ∷ r) k.chain in
      (
        with_next (with_prev h e (last c l)) (last c l) e,
        ground (
          arith,
          next-at h 0 ((c, y) ∷ l) a x e z r k.chain,
          last-ne_next c y l a x e z r k.distinct,
        ),
        relink-middle h 0 c y l a x e z r k.chain k.distinct,
        ground (
          arith,
          last-ne c y l a x ((e, z) ∷ r) k.distinct,
          (Distinct-remove ((c, y) ∷ l) a x ((e, z) ∷ r) k.distinct).0,
          next-ne a ((c, y) ∷ l) e z r,
        ),
      )
