-- ===== src/DoublyLinked/Chain.antt =====
-- What it means for a list variable of include/list.h to hold a list of items, and how the
-- writes to memory keep it.
use acidblood.Common.{ℕ, ◌<◌, ◌≡◌, ◌≢◌, Option, some, List, [], ◌∷◌, ◌++◌, arith}
use acidblood.DoublyLinked.{Node, Heap, write, with_next, with_prev}

module _ {ℓ} {A : Type ℓ} where
  abbrev pub node : ℕ → ℕ → A → Node A
  node p n x = record { prev = p; next = n; item = x }

  -- The list variable: the address of the first node, or NULL.
  abbrev pub head : List (ℕ × A) → ℕ
  head [] = 0
  head ((a, x) ∷ l) = a

  -- The address of the last node, or `p`.
  abbrev pub last : ℕ → List (ℕ × A) → ℕ
  last p [] = p
  last p ((a, x) ∷ l) = last a l

  -- The nodes stand at their addresses, linked both ways, behind a node at `p`.
  abbrev pub Chain : Heap A → ℕ → List (ℕ × A) → Type ℓ
  Chain h p [] = Unit
  Chain h p ((a, x) ∷ l) = (0 < a) × (h a ≡ some (node p (head l) x)) × Chain h a l

  abbrev pub NotIn : ℕ → List (ℕ × A) → Type 0
  NotIn b [] = Unit
  NotIn b ((a, x) ∷ l) = (b ≢ a) × NotIn b l

  abbrev pub Distinct : List (ℕ × A) → Type 0
  Distinct [] = Unit
  Distinct ((a, x) ∷ l) = NotIn a l × Distinct l

  -- The list variable with address `head l` holds the items of `l`, in order.
  pub record Holds (h : Heap A) (l : List (ℕ × A)) : Type ℓ where
    pub chain : Chain h 0 l
    pub distinct : Distinct l

  pub Chain-write :
      (h : Heap A) (b : ℕ) (c : Option (Node A)) (p : ℕ) (l : List (ℕ × A))
      → NotIn b l
      → Chain h p l
      → Chain (write h b c) p l
  unfolding write
  Chain-write h b c p [] n k = tt
  Chain-write h b c p ((a, x) ∷ l) n k = (k.0, ground arith, Chain-write h b c a l n.1 k.2)

  pub Chain-with_next :
      (h : Heap A) (b q p : ℕ) (l : List (ℕ × A))
      → NotIn b l
      → Chain h p l
      → Chain (with_next h b q) p l
  unfolding with_next
  Chain-with_next h b q p [] n k = tt
  Chain-with_next h b q p ((a, x) ∷ l) n k = (k.0, ground arith, Chain-with_next h b q a l n.1 k.2)

  pub Chain-with_prev :
      (h : Heap A) (b q p : ℕ) (l : List (ℕ × A))
      → NotIn b l
      → Chain h p l
      → Chain (with_prev h b q) p l
  unfolding with_prev
  Chain-with_prev h b q p [] n k = tt
  Chain-with_prev h b q p ((a, x) ∷ l) n k = (k.0, ground arith, Chain-with_prev h b q a l n.1 k.2)

  -- The node in the middle of a list.
  pub Chain-at :
      (h : Heap A) (p : ℕ) (l : List (ℕ × A)) (a : ℕ) (x : A) (r : List (ℕ × A))
      → Chain h p (l ++ (a, x) ∷ r)
      → (0 < a) × (h a ≡ some (node (last p l) (head r) x))
  Chain-at h p [] a x r k = (k.0, k.1)
  Chain-at h p ((b, y) ∷ l) a x r k = Chain-at h b l a x r k.2

  pub last-pos :
      (h : Heap A) (p : ℕ) (l r : List (ℕ × A)) → 0 < p → Chain h p (l ++ r) → 0 < last p l
  last-pos h p [] r z k = z
  last-pos h p ((b, y) ∷ l) r z k = last-pos h b l r k.0 k.2

  pub NotIn-append : (b : ℕ) (l r : List (ℕ × A)) → NotIn b (l ++ r) → NotIn b l × NotIn b r
  NotIn-append b [] r n = (tt, n)
  NotIn-append b ((a, x) ∷ l) r n = let (hl, hr) = NotIn-append b l r n.1 in ((n.0, hl), hr)

  pub append-NotIn : (b : ℕ) (l r : List (ℕ × A)) → NotIn b l → NotIn b r → NotIn b (l ++ r)
  append-NotIn b [] r n m = m
  append-NotIn b ((a, x) ∷ l) r n m = (n.0, append-NotIn b l r n.1 m)

  pub NotIn-last : (b a : ℕ) (l : List (ℕ × A)) → b ≢ a → NotIn b l → b ≢ last a l
  NotIn-last b a [] n m = n
  NotIn-last b a ((c, x) ∷ l) n m = NotIn-last b c l m.0 m.1
