-- ===== src/DoublyLinked/Linking.antt =====
-- `FindEndOfList` and `LinkToList` of include/list.h append one item to a list.
use acidblood.Common.{
  ℕ, zero, suc, ◌<◌, ◌≡◌, refl, sym, ◌≢◌, none, some, List, [], ◌∷◌, ◌++◌, arith, length,
}
use acidblood.DoublyLinked.{
  Node, Heap, write, with_next, with_prev, load, set_next, set_prev, find_end_of_list, link_to_list,
}
use acidblood.DoublyLinked.Chain.{
  node, head, last, Chain, NotIn, Distinct, Holds, Chain-write, append-NotIn, NotIn-last,
}

module _ {ℓ} {A : Type ℓ} where
  free-NotIn :
      (h : Heap A) (p : ℕ) (l : List (ℕ × A)) (x : ℕ) → Chain h p l → h x ≡ none → NotIn x l
  free-NotIn h p [] x k e = tt
  free-NotIn h p ((a, y) ∷ l) x k e = ((λ q. ground arith), free-NotIn h a l x k.2 e)

  find_end-last :
      (fuel : ℕ) (h : Heap A) (p c : ℕ) (y : A) (l : List (ℕ × A))
      → length l < fuel
      → Chain h p ((c, y) ∷ l)
      → find_end_of_list fuel h c ≡ some (last c l)
  unfolding find_end_of_list load
  find_end-last zero h p c y l f k = absurd (omega arith)
  find_end-last (suc fuel) h p c y [] f k = ground arith
  find_end-last (suc fuel) h p c y ((b, z) ∷ l) f k =
      ground (arith, find_end-last fuel h c b z l (omega arith) k.2)

  Distinct-snoc :
      (l : List (ℕ × A)) (x : ℕ) (item : A)
      → NotIn x l
      → Distinct l
      → Distinct (l ++ (x, item) ∷ [])
  Distinct-snoc [] x item n d = (tt, tt)
  Distinct-snoc ((a, y) ∷ l) x item n d = (
    append-NotIn a l ((x, item) ∷ []) d.0 ((λ e. n.0 (sym e)), tt),
    Distinct-snoc l x item n.1 d.1,
  )

  Chain-snoc :
      (h : Heap A) (p c : ℕ) (y : A) (l : List (ℕ × A)) (x : ℕ) (item : A)
      → 0 < x
      → NotIn x ((c, y) ∷ l)
      → Distinct ((c, y) ∷ l)
      → h x ≡ some (node 0 0 item)
      → Chain h p ((c, y) ∷ l)
      → Chain (with_prev (with_next h (last c l) x) x (last c l)) p ((c, y) ∷ l ++ (x, item) ∷ [])
  unfolding with_next with_prev
  Chain-snoc h p c y [] x item z n d e k = (k.0, ground arith, (z, ground arith, tt))
  Chain-snoc h p c y ((b, w) ∷ l) x item z n d e k = (
    k.0,
    ground (arith, NotIn-last c b l d.0.0 d.0.1),
    Chain-snoc h c b w l x item z n.1 d.1 e k.2,
  )

  last-node :
      (h : Heap A) (p c : ℕ) (y : A) (l : List (ℕ × A))
      → Chain h p ((c, y) ∷ l)
      → (m : Node A) × (h (last c l) ≡ some m) × (0 < last c l)
  last-node h p c y [] k = (_, k.1, k.0)
  last-node h p c y ((b, z) ∷ l) k = last-node h c b z l k.2

  set_next_lem :
      (h : Heap A) (p q : ℕ) (m : Node A)
      → 0 < p
      → h p ≡ some m
      → set_next h p q ≡ some (with_next h p q)
  unfolding set_next
  set_next_lem h p q m z e = ground arith

  set_prev_lem :
      (h : Heap A) (p q : ℕ) (m : Node A)
      → 0 < p
      → h p ≡ some m
      → set_prev h p q ≡ some (with_prev h p q)
  unfolding set_prev
  set_prev_lem h p q m z e = ground arith

  at-fresh :
      (h : Heap A) (x b q : ℕ) (item : A)
      → x ≢ b
      → with_next (write h x (some (node 0 0 item))) b q x ≡ some (node 0 0 item)
  unfolding write with_next
  at-fresh h x b q item n = ground arith

  -- A fresh node at the end: the list variable then holds the same items and the new one behind
  -- them, whether the list was empty or not, with fuel for as many rounds as it has nodes.
  pub link-Holds :
      (fuel : ℕ) (h : Heap A) (l : List (ℕ × A)) (x : ℕ) (item : A)
      → length l < fuel
      → 0 < x
      → h x ≡ none
      → Holds h l
      → (h' : Heap A) × (link_to_list fuel h x item (head l)
          ≡ some (h', head (l ++ (x, item) ∷ [])))
        × Holds h' (l ++ (x, item) ∷ [])
  unfolding link_to_list write
  link-Holds fuel h [] x item f z e k = (
    write h x (some (node 0 0 item)),
    refl,
    record { chain = (z, ground arith, tt); distinct = (tt, tt) },
  )
  link-Holds fuel h ((c, y) ∷ l) x item f z e k =
      let h₁ : Heap A = write h x (some (node 0 0 item)) in
      let n = free-NotIn h 0 ((c, y) ∷ l) x k.chain e in
      let k₁ = Chain-write h x (some (node 0 0 item)) 0 ((c, y) ∷ l) n k.chain in
      let (m, em, pm) = last-node h₁ 0 c y l k₁ in
      let ex = at-fresh h x (last c l) x item (NotIn-last x c l n.0 n.1) in
      (
        with_prev (with_next h₁ (last c l) x) x (last c l),
        ground (
          arith,
          find_end-last fuel h₁ 0 c y l (omega arith) k₁,
          set_next_lem h₁ (last c l) x m pm em,
          set_prev_lem (with_next h₁ (last c l) x) x (last c l) (node 0 0 item) z ex,
        ),
        record {
          chain = Chain-snoc h₁ 0 c y l x item z n k.distinct (ground arith) k₁;
          distinct = Distinct-snoc ((c, y) ∷ l) x item n k.distinct;
        },
      )
