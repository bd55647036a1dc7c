-- ===== src/DoublyLinked/Walks.antt =====
-- The loops that take items out of a list: what they leave, and where they read freed memory.
use acidblood.Common.{
  ℕ, zero, suc, ◌<◌, ◌≡◌, refl, sym, ◌∙◌, subst, inl, inr, Bool, false, ◌||◌, none, some, List, [],
  ◌∷◌, ◌++◌, arith, if◌then◌else◌, Bool-cases, length,
}
use mathlib.Core.List.{append_assoc}
use acidblood.DoublyLinked.{
  Heap, write, load, free, unlink_list_item, del_first, del_all, del_all_next,
}
use acidblood.DoublyLinked.Chain.{head, Holds, Chain-write, Chain-at}
use acidblood.DoublyLinked.Unlinking.{unlink-Chain, Distinct-remove}

module _ {ℓ} {A : Type ℓ} where
  -- The list without the first item that passes the test.
  pub remove_first : (A → Bool) → List (ℕ × A) → List (ℕ × A)
  remove_first test [] = []
  remove_first test ((a, x) ∷ l) = if test x then l else (a, x) ∷ remove_first test l

  -- The list without all of them.
  pub remove_all : (A → Bool) → List (ℕ × A) → List (ℕ × A)
  remove_all test [] = []
  remove_all test ((a, x) ∷ l) = if test x then remove_all test l else (a, x) ∷ remove_all test l

  pub any_item : (A → Bool) → List (ℕ × A) → Bool
  any_item test [] = false
  any_item test ((a, x) ∷ l) = test x || any_item test l

  -- A node is unlinked and freed.
  unlink_free :
      (h : Heap A) (l : List (ℕ × A)) (a : ℕ) (x : A) (r : List (ℕ × A))
      → Holds h (l ++ (a, x) ∷ r)
      → (h' : Heap A) × (h'' : Heap A) × (unlink_list_item h a (head (l ++ (a, x) ∷ r))
          ≡ some (h', head (l ++ r)))
        × (free h' a ≡ some h'')
        × (load h'' a ≡ none)
        × Holds h'' (l ++ r)
  unfolding free write load
  unlink_free h l a x r k =
      let (h', e, c, same) = unlink-Chain h l a x r k in
      let (n, d) = Distinct-remove l a x r k.distinct in
      let (pos, at) = Chain-at h 0 l a x r k.chain in
      (
        h',
        write h' a none,
        e,
        ground arith,
        ground arith,
        record { chain = Chain-write h' a none 0 (l ++ r) n c; distinct = d },
      )

  -- The lists as they stand when the loop has passed `l`: `w` is the whole list, `w'` the result.
  del_first-loop :
      (fuel : ℕ) (test : A → Bool) (h : Heap A) (l r w w' : List (ℕ × A))
      → length r < fuel
      → w ≡ l ++ r
      → w' ≡ l ++ remove_first test r
      → Holds h w
      → (h' : Heap A) × (del_first fuel test h (head r) (head w) ≡ some (h', head w')) × Holds h' w'
  unfolding del_first remove_first load
  del_first-loop zero test h l r w w' f e e' k = absurd (omega arith)
  del_first-loop (suc fuel) test h l [] w w' f e e' k = (h, cc, subst (Holds h) (e ∙ sym e') k)
  del_first-loop (suc fuel) test h l ((a, x) ∷ r) w w' f e e' k =
      let k₁ : Holds h (l ++ (a, x) ∷ r) = subst (Holds h) e k in
      let (pos, at) = Chain-at h 0 l a x r k₁.chain in
      elim (Bool-cases (test x)) [
        | inl t ↦
            let e₁ : w' ≡ l ++ r = rw t at e' in
            let (h', h'', eu, ef, _, k') = unlink_free h l a x r k₁ in
            (h'', rw (e, e₁) (ground arith), rw e₁ k')
        | inr t ↦
            let e₁ : w' ≡ l ++ (a, x) ∷ remove_first test r = rw t at e' in
            let (h', eh, k') =
              del_first-loop fuel test h (l ++ (a, x) ∷ []) r w w' (omega arith)
                (e ∙ sym (append_assoc l _ r)) (e₁ ∙ sym (append_assoc l _ _)) k in
            (h', ground arith, k')
      ]

  -- The loop of `delcommand` on a list: it leaves the list without the first item that passes the
  -- test, all other items in order, with fuel for as many rounds as there are nodes.
  pub del_first-Holds :
      (fuel : ℕ) (test : A → Bool) (h : Heap A) (l : List (ℕ × A))
      → length l < fuel
      → Holds h l
      → (h' : Heap A) × (del_first fuel test h (head l) (head l)
          ≡ some (h', head (remove_first test l)))
        × Holds h' (remove_first test l)
  del_first-Holds fuel test h l f k =
      del_first-loop fuel test h [] l l (remove_first test l) f refl refl k

  del_all_next-loop :
      (fuel : ℕ) (test : A → Bool) (h : Heap A) (l r w w' : List (ℕ × A))
      → length r < fuel
      → w ≡ l ++ r
      → w' ≡ l ++ remove_all test r
      → Holds h w
      → (h' : Heap A) × (del_all_next fuel test h (head r) (head w) ≡ some (h', head w'))
        × Holds h' w'
  unfolding del_all_next remove_all load
  del_all_next-loop zero test h l r w w' f e e' k = absurd (omega arith)
  del_all_next-loop (suc fuel) test h l [] w w' f e e' k = (h, cc, subst (Holds h) (e ∙ sym e') k)
  del_all_next-loop (suc fuel) test h l ((a, x) ∷ r) w w' f e e' k =
      let k₁ : Holds h (l ++ (a, x) ∷ r) = subst (Holds h) e k in
      let (pos, at) = Chain-at h 0 l a x r k₁.chain in
      elim (Bool-cases (test x)) [
        | inl t ↦
            let e₁ : w' ≡ l ++ remove_all test r = rw t at e' in
            let (h', h'', eu, ef, _, k') = unlink_free h l a x r k₁ in
            let (h₃, eh, k₃) =
              del_all_next-loop fuel test h'' l r (l ++ r) w' (omega arith) refl e₁ k' in
            (h₃, rw e (ground arith), k₃)
        | inr t ↦
            let e₁ : w' ≡ l ++ (a, x) ∷ remove_all test r = rw t at e' in
            let (h', eh, k') =
              del_all_next-loop fuel test h (l ++ (a, x) ∷ []) r w w' (omega arith)
                (e ∙ sym (append_assoc l _ r)) (e₁ ∙ sym (append_assoc l _ _)) k in
            (h', ground arith, k')
      ]

  -- The loop of `deltimermodule` on a list: it leaves the list without any of the items that pass
  -- the test, all other items in order, with fuel for as many rounds as there are nodes.
  pub del_all_next-Holds :
      (fuel : ℕ) (test : A → Bool) (h : Heap A) (l : List (ℕ × A))
      → length l < fuel
      → Holds h l
      → (h' : Heap A) × (del_all_next fuel test h (head l) (head l)
          ≡ some (h', head (remove_all test l)))
        × Holds h' (remove_all test l)
  del_all_next-Holds fuel test h l f k =
      del_all_next-loop fuel test h [] l l (remove_all test l) f refl refl k

  del_all-loop :
      (fuel : ℕ) (test : A → Bool) (h : Heap A) (l r w : List (ℕ × A))
      → length r < fuel
      → w ≡ l ++ r
      → Holds h w
      → del_all fuel test h (head r) (head w) ≡ (if any_item test r then none else some (h, head w))
  unfolding del_all any_item load
  del_all-loop zero test h l r w f e k = absurd (omega arith)
  del_all-loop (suc fuel) test h l [] w f e k = refl
  del_all-loop (suc fuel) test h l ((a, x) ∷ r) w f e k =
      let k₁ : Holds h (l ++ (a, x) ∷ r) = subst (Holds h) e k in
      let (pos, at) = Chain-at h 0 l a x r k₁.chain in
      elim (Bool-cases (test x)) [
        | inl t ↦ let (h', h'', eu, ef, gone, k') = unlink_free h l a x r k₁ in rw e (ground arith)
        | inr t ↦
            let ih =
              del_all-loop fuel test h (l ++ (a, x) ∷ []) r w (omega arith)
                (e ∙ sym (append_assoc l _ r)) k in
            ground arith
      ]

  -- The loop of `delcommandmodule`, `deltriggermodule` and `delnumericmodule` on a list: where no
  -- item passes the test it changes nothing, and where one does it reads `next` in a node that it
  -- has just freed.
  pub del_all_lem :
      (fuel : ℕ) (test : A → Bool) (h : Heap A) (l : List (ℕ × A))
      → length l < fuel
      → Holds h l
      → del_all fuel test h (head l) (head l) ≡ (if any_item test l then none else some (h, head l))
  del_all_lem fuel test h l f k = del_all-loop fuel test h [] l l f refl k
