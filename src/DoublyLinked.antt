-- ===== src/DoublyLinked.antt =====
-- The macros of include/list.h on doubly linked nodes in memory, and the loops of src/list.c,
-- src/timer.c, src/events.c and src/numeric.c that walk such a list. A pointer is a number, NULL
-- is 0, and an address holds a node or nothing; `none` as a result is a read or a write through
-- NULL or through a pointer whose node has been freed.
pub mod Chain
pub mod Unlinking
pub mod Linking
pub mod Walks
pub mod Visits
use mathlib.Core.Option
use acidblood.Common.{
  ℕ, zero, suc, ◌+◌, ◌-◌, ◌*◌, ◌/◌, ◌%◌, ◌≤◌, ◌<◌, ◌≡◌, refl, sym, ap, ◌∙◌, subst, ◌≢◌, ◌↔◌, ◌⊎◌,
  inl, inr, Bool, true, false, not, ◌&&◌, ◌||◌, Option, none, some, List, [], ◌∷◌, ◌++◌, map, arith,
  ltb, leb, ◌==◌, if◌then◌else◌, ltb→lt, lt→ltb, leb→le, ==_iff, ==_refl, ◌>>=◌, Bool-cases,
  Option-cases, codes, length, take, drop, length-append, take-append-drop, length-take,
  length-drop, keep, All, length-map,
}

pub record Node {ℓ} (A : Type ℓ) : Type ℓ where
  pub prev : ℕ
  pub next : ℕ
  pub item : A

abbrev pub Heap {ℓ} : Type ℓ → Type ℓ
Heap A = ℕ → Option (Node A)

module _ {ℓ} {A : Type ℓ} where
  unfoldable pub write : Heap A → ℕ → Option (Node A) → Heap A
  write h p c b = if b == p then c else h b

  -- The memory after `p->next = q`, and after `p->prev = q`.
  unfoldable pub with_next : Heap A → ℕ → ℕ → Heap A
  with_next h p q b =
      if b == p then Option.map {A = Node A} (λ n. record n { next = q }) (h b) else h b

  unfoldable pub with_prev : Heap A → ℕ → ℕ → Heap A
  with_prev h p q b =
      if b == p then Option.map {A = Node A} (λ n. record n { prev = q }) (h b) else h b

  unfoldable pub load : Heap A → ℕ → Option (Node A)
  load h p = if p == 0 then none else h p

  unfoldable pub set_next : Heap A → ℕ → ℕ → Option (Heap A)
  unfolding load
  set_next h p q = do _ ← load h p; some (with_next h p q)

  unfoldable pub set_prev : Heap A → ℕ → ℕ → Option (Heap A)
  unfolding load
  set_prev h p q = do _ ← load h p; some (with_prev h p q)

  -- `free`
  unfoldable pub free : Heap A → ℕ → Option (Heap A)
  unfolding load
  free h p = do _ ← load h p; some (write h p none)

  -- `UnlinkListItem(x, list)`: the memory and the list variable after it.
  unfoldable pub unlink_list_item : Heap A → ℕ → ℕ → Option (Heap A × ℕ)
  unfolding load set_next set_prev
  unlink_list_item h x list = do
    n ← load h x
    if n.prev == 0 && n.next == 0
        then some (h, 0)
        else if n.next == 0
        then (do h' ← set_next h n.prev 0; some (h', list))
        else if n.prev == 0
        then (do h' ← set_prev h n.next 0; some (h', n.next))
        else (do h' ← set_prev h n.next n.prev; h'' ← set_next h' n.prev n.next; some (h'', list))

  -- `FindEndOfList(x)`, with fuel for its rounds.
  unfoldable pub find_end_of_list : ℕ → Heap A → ℕ → Option ℕ
  find_end_of_list zero h x = none
  find_end_of_list (suc fuel) h x = elim (load h x) [
    | none ↦ none
    | some n ↦ let rest = find_end_of_list fuel h n.next in if n.next == 0 then some x else rest
  ]

  -- A node that `malloc` gives at the free address `x`, linked at the end of `list`: what
  -- `LinkToList` does, and `addcommand` and `insert_channels` in their own words.
  unfoldable pub link_to_list : ℕ → Heap A → ℕ → A → ℕ → Option (Heap A × ℕ)
  link_to_list fuel h x item list =
      let h' = write h x (some (record { prev = 0; next = 0; item = item })) in
      if list == 0 then some (h', x) else (do
        y ← find_end_of_list fuel h' list
        h₁ ← set_next h' y x
        h₂ ← set_prev h₁ x y
        some (h₂, list))

  -- The loop of `delcommand`, `deltimer`, `deltrigger` and `delnumeric`: the first node that
  -- passes the test is unlinked and freed.
  unfoldable pub del_first : ℕ → (A → Bool) → Heap A → ℕ → ℕ → Option (Heap A × ℕ)
  del_first zero test h p list = none
  del_first (suc fuel) test h p list = if p == 0 then some (h, list) else elim (load h p) [
    | none ↦ none
    | some n ↦ elim (test n.item) [
      | true ↦ (do (h', list') ← unlink_list_item h p list; h'' ← free h' p; some (h'', list'))
      | false ↦ del_first fuel test h n.next list
    ]
  ]

  -- The loop of `delcommandmodule`, `deltriggermodule` and `delnumericmodule`: each node that
  -- passes the test is unlinked and freed, and then its `next` is read.
  unfoldable pub del_all : ℕ → (A → Bool) → Heap A → ℕ → ℕ → Option (Heap A × ℕ)
  del_all zero test h p list = none
  del_all (suc fuel) test h p list = if p == 0 then some (h, list) else elim (load h p) [
    | none ↦ none
    | some n ↦ elim (test n.item) [
      | true ↦ (do
        (h', list') ← unlink_list_item h p list
        h'' ← free h' p
        freed ← load h'' p
        del_all fuel test h'' freed.next list')
      | false ↦ del_all fuel test h n.next list
    ]
  ]

  -- The loop of `deltimermodule`, which reads `next` before it frees the node.
  unfoldable pub del_all_next : ℕ → (A → Bool) → Heap A → ℕ → ℕ → Option (Heap A × ℕ)
  del_all_next zero test h p list = none
  del_all_next (suc fuel) test h p list = if p == 0 then some (h, list) else elim (load h p) [
    | none ↦ none
    | some n ↦ elim (test n.item) [
      | true ↦ (do
        (h', list') ← unlink_list_item h p list
        h'' ← free h' p
        del_all_next fuel test h'' n.next list')
      | false ↦ del_all_next fuel test h n.next list
    ]
  ]

  -- The loop of `botevent` and `handle_numeric`: the items that pass the test, whose functions are
  -- called; these leave the list alone.
  unfoldable pub visit : ℕ → (A → Bool) → Heap A → ℕ → Option (List A)
  visit zero test h p = none
  visit (suc fuel) test h p = if p == 0 then some [] else elim (load h p) [
    | none ↦ none
    | some n ↦ (do
      rest ← visit fuel test h n.next
      some (if test n.item then n.item ∷ rest else rest))
  ]
