-- ===== src/Examples/Lists.antt =====
-- Runs of the list macros in memory, and their theorems at a list of three items.
use acidblood.Common.{
  ℕ, ◌≡◌, refl, none, some, List, [], ◌∷◌, ◌++◌, arith, ltb, ◌==◌, if◌then◌else◌,
}
use acidblood.DoublyLinked.{
  Heap, unlink_list_item, link_to_list, del_first, del_all, write, with_next, with_prev, free,
}
use acidblood.DoublyLinked.Chain.{node, head, Chain, Holds}
use acidblood.DoublyLinked.Unlinking.{unlink-Chain}
use acidblood.DoublyLinked.Linking.{link-Holds}
use acidblood.DoublyLinked.Walks.{remove_first, any_item, del_first-Holds, del_all_lem}

-- The items 5, 6 and 7 at the addresses 10, 30 and 20.
abbrev three : List (ℕ × ℕ)
three = (10, 5) ∷ (30, 6) ∷ (20, 7) ∷ []

abbrev memory : Heap ℕ
memory p =
    if p == 10
    then some (node 0 30 5)
    else if p == 30
    then some (node 10 20 6)
    else if p == 20
    then some (node 30 0 7)
    else none

memory-Holds : Holds memory three
memory-Holds = record {
  chain = (omega arith, refl, (omega arith, refl, (omega arith, refl, tt)));
  distinct = omega arith;
}

unlink-Chain_example :
    (h' : Heap ℕ) × (unlink_list_item memory 30 10 ≡ some (h', 10))
    × Chain h' 0 ((10, 5) ∷ (20, 7) ∷ [])
    × (h' 30 ≡ memory 30)
unlink-Chain_example = unlink-Chain memory ((10, 5) ∷ []) 30 6 ((20, 7) ∷ []) memory-Holds

link-Holds_example :
    (h' : Heap ℕ) × (link_to_list 4 memory 40 8 10 ≡ some (h', 10))
    × Holds h' (three ++ (40, 8) ∷ [])
link-Holds_example = link-Holds 4 memory three 40 8 (omega arith) (omega arith) refl memory-Holds

del_first-Holds_example :
    (h' : Heap ℕ) × (del_first 4 (λ x. ltb 5 x) memory 10 10
      ≡ some (h', head (remove_first (λ x. ltb 5 x) three)))
    × Holds h' (remove_first (λ x. ltb 5 x) three)
del_first-Holds_example = del_first-Holds 4 (λ x. ltb 5 x) memory three (omega arith) memory-Holds

del_all_lem_example :
    del_all 4 (λ x. x == 6) memory 10 10
    ≡ (if any_item (λ x. x == 6) three then none else some (memory, 10))
del_all_lem_example = del_all_lem 4 (λ x. x == 6) memory three (omega arith) memory-Holds

after_free : del_all 4 (λ x. x == 6) memory 10 10 ≡ none
unfolding del_all unlink_list_item free write with_prev with_next
after_free = refl
