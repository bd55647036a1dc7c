-- ===== src/Triggers.antt =====
-- src/events.c, and the table of numerics of src/numeric.c, as lists in memory. A function and a
-- module are addresses, and `x` is the address that `malloc` gives.
pub mod Calls
use acidblood.Common.{
  ℕ, zero, suc, ◌+◌, ◌-◌, ◌*◌, ◌/◌, ◌%◌, ◌≤◌, ◌<◌, ◌≡◌, refl, sym, ap, ◌∙◌, subst, ◌≢◌, ◌↔◌, ◌⊎◌,
  inl, inr, Bool, true, false, not, ◌&&◌, ◌||◌, Option, none, some, List, [], ◌∷◌, ◌++◌, map, arith,
  ltb, leb, ◌==◌, if◌then◌else◌, ltb→lt, lt→ltb, leb→le, ==_iff, ==_refl, ◌>>=◌, Bool-cases,
  Option-cases, codes, length, take, drop, length-append, take-append-drop, length-take,
  length-drop, keep, All, length-map, After, After-bind, After-search, After-elim, After-if,
  After-some, ℤ, pos, negsuc, pos_part, neg_part, leb_ℤ, ltb_ℤ,
}
use acidblood.DoublyLinked.{Heap, link_to_list, del_first, del_all, visit}

pub record TriggerStruct : Type 0 where
  pub event : ℕ
  pub function : ℕ
  pub module_handle : ℕ

unfoldable pub addtrigger :
    ℕ → Heap TriggerStruct → ℕ → ℕ → ℕ → ℕ → ℕ → Option (Heap TriggerStruct × ℕ)
addtrigger fuel h x bottriggers handle event function =
    link_to_list fuel h x (record { event = event; function = function; module_handle = handle })
      bottriggers

unfoldable pub deltrigger : ℕ → Heap TriggerStruct → ℕ → ℕ → ℕ → Option (Heap TriggerStruct × ℕ)
deltrigger fuel h bottriggers handle event =
    del_first fuel (λ t. t.module_handle == handle && t.event == event) h bottriggers bottriggers

unfoldable pub deltriggermodule : ℕ → Heap TriggerStruct → ℕ → ℕ → Option (Heap TriggerStruct × ℕ)
deltriggermodule fuel h bottriggers handle =
    del_all fuel (λ t. t.module_handle == handle) h bottriggers bottriggers

-- The functions that are called, in order.
unfoldable pub botevent : ℕ → Heap TriggerStruct → ℕ → ℕ → Option (List TriggerStruct)
botevent fuel h bottriggers event = visit fuel (λ t. t.event == event) h bottriggers

pub record Numerics : Type 0 where
  pub numeric : ℕ
  pub module_handle : ℕ
  pub function : ℕ

unfoldable pub addnumeric : ℕ → Heap Numerics → ℕ → ℕ → ℕ → ℕ → ℕ → Option (Heap Numerics × ℕ)
addnumeric fuel h x numerics handle numeric function =
    link_to_list fuel h x
      (record { numeric = numeric; module_handle = handle; function = function }) numerics

unfoldable pub delnumeric : ℕ → Heap Numerics → ℕ → ℕ → ℕ → Option (Heap Numerics × ℕ)
delnumeric fuel h numerics handle numeric =
    del_first fuel (λ t. t.module_handle == handle && t.numeric == numeric) h numerics numerics

unfoldable pub delnumericmodule : ℕ → Heap Numerics → ℕ → ℕ → Option (Heap Numerics × ℕ)
delnumericmodule fuel h numerics handle =
    del_all fuel (λ t. t.module_handle == handle) h numerics numerics

-- `numeric` is what `atoi` makes of the command.
unfoldable pub handle_numeric : ℕ → Heap Numerics → ℕ → ℕ → Option (List Numerics)
handle_numeric fuel h numerics numeric = visit fuel (λ t. t.numeric == numeric) h numerics
