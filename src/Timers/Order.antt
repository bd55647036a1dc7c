-- ===== src/Timers/Order.antt =====
-- The order in which src/timer.c keeps its timers.
use acidblood.Common.{
  ℕ, ◌≤◌, ◌≡◌, refl, inl, inr, List, [], ◌∷◌, arith, leb, ◌==◌, leb→le, Bool-cases,
}
use mathlib.Core.List.{Perm}
use mathlib.Core.List.Perm
use acidblood.Timers.{Timer, insert_behind, addtimer, deltimermodule}

-- Deadlines do not fall along the list, and none is earlier than `d`.
abbrev pub SortedFrom : ℕ → List Timer → Type 0
SortedFrom d [] = Unit
SortedFrom d (x ∷ timers) = (d ≤ x.deadline) × SortedFrom x.deadline timers

-- In order behind the first timer.
abbrev pub IsOrdered : List Timer → Type 0
IsOrdered [] = Unit
IsOrdered (x ∷ timers) = SortedFrom 0 timers

SortedFrom-mono :
    (d e : ℕ) (timers : List Timer) → d ≤ e → SortedFrom e timers → SortedFrom d timers
SortedFrom-mono d e [] h s = tt
SortedFrom-mono d e (x ∷ timers) h s = (omega (arith, s.0), s.1)

insert_behind-SortedFrom :
    (d : ℕ) (t : Timer) (timers : List Timer)
    → d ≤ t.deadline
    → SortedFrom d timers
    → SortedFrom d (insert_behind t timers)
unfolding insert_behind
insert_behind-SortedFrom d t [] h s = (h, tt)
insert_behind-SortedFrom d t (x ∷ timers) h s = elim (Bool-cases (leb x.deadline t.deadline)) [
  | inl e ↦ rw e (s.0, insert_behind-SortedFrom x.deadline t timers (leb→le _ _ e) s.1)
  | inr e ↦ rw e (h, (ground arith, s.1))
]

insert_behind-perm : (t : Timer) (timers : List Timer) → Perm (insert_behind t timers) (t ∷ timers)
unfolding insert_behind
insert_behind-perm t [] = Perm.refl _
insert_behind-perm t (x ∷ timers) = elim (Bool-cases (leb x.deadline t.deadline)) [
  | inl e ↦ rw e (Perm.trans (Perm.cons x (insert_behind-perm t timers)) (Perm.swap t x timers))
  | inr e ↦ rw e (Perm.refl _)
]

-- The first timer, if any, is the first of the other list.
abbrev pub SameFirst : List Timer → List Timer → Type 0
SameFirst [] list = Unit
SameFirst (x ∷ timers) list = (rest : List Timer) × (list ≡ x ∷ rest)

-- `addtimer` keeps the timers that were there and adds the one, keeps the first in its place, and
-- keeps the rest in the order of their deadlines.
pub addtimer-IsOrdered :
    (t : Timer) (timers : List Timer)
    → IsOrdered timers
    → IsOrdered (addtimer t timers)
      × Perm (addtimer t timers) (t ∷ timers)
      × SameFirst timers (addtimer t timers)
unfolding addtimer
addtimer-IsOrdered t [] s = (tt, Perm.refl _, tt)
addtimer-IsOrdered t (x ∷ timers) s = (
  insert_behind-SortedFrom 0 t timers (omega arith) s,
  Perm.trans (Perm.cons x (insert_behind-perm t timers)) (Perm.swap t x timers),
  (insert_behind t timers, refl),
)

-- The whole list stays in order where the new deadline is not before that of the first timer.
addtimer-SortedFrom :
    (d : ℕ) (x t : Timer) (timers : List Timer)
    → SortedFrom d (x ∷ timers)
    → x.deadline ≤ t.deadline
    → SortedFrom d (addtimer t (x ∷ timers))
unfolding addtimer
addtimer-SortedFrom d x t timers s h = (s.0, insert_behind-SortedFrom x.deadline t timers h s.1)

deltimermodule-SortedFrom :
    (d m : ℕ) (timers : List Timer) → SortedFrom d timers → SortedFrom d (deltimermodule m timers)
unfolding deltimermodule
deltimermodule-SortedFrom d m [] s = tt
deltimermodule-SortedFrom d m (x ∷ timers) s = elim (Bool-cases (x.module_handle == m)) [
  | inl e ↦
      rw e (SortedFrom-mono d x.deadline _ s.0 (deltimermodule-SortedFrom x.deadline m timers s.1))
  | inr e ↦ rw e (s.0, deltimermodule-SortedFrom x.deadline m timers s.1)
]
