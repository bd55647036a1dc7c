-- ===== src/DoublyLinked/Visits.antt =====
-- What a walk over a list in memory calls.
use acidblood.Common.{
  ℕ, zero, suc, ◌<◌, ◌≡◌, refl, ap, Bool, some, List, [], ◌∷◌, ◌++◌, arith, length, keep,
}
use acidblood.DoublyLinked.{Heap, load, visit}
use acidblood.DoublyLinked.Chain.{head, Chain}

module _ {ℓ} {A : Type ℓ} where
  pub items : List (ℕ × A) → List A
  items [] = []
  items ((a, x) ∷ l) = x ∷ items l

  pub items-end : (l : List (ℕ × A)) (a : ℕ) (x : A) → items (l ++ (a, x) ∷ []) ≡ items l ++ x ∷ []
  unfolding items
  items-end [] a x = refl
  items-end ((b, y) ∷ l) a x = ap (◌∷◌ y) (items-end l a x)

  pub keep-append : (p : A → Bool) (l m : List A) → keep p (l ++ m) ≡ keep p l ++ keep p m
  keep-append p [] m = refl
  keep-append p (x ∷ l) m = ground (arith, keep-append p l m)

  pub visit-Chain :
      (fuel : ℕ) (test : A → Bool) (h : Heap A) (p : ℕ) (l : List (ℕ × A))
      → length l < fuel
      → Chain h p l
      → visit fuel test h (head l) ≡ some (keep test (items l))
  unfolding visit items load
  visit-Chain zero test h p l f k = absurd (omega arith)
  visit-Chain (suc fuel) test h p [] f k = refl
  visit-Chain (suc fuel) test h p ((a, x) ∷ l) f k =
      let rest = visit-Chain fuel test h a l (omega arith) (k.2) in ground arith
