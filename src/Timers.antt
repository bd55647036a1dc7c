-- ===== src/Timers.antt =====
-- The timers of src/timer.c, in the order of the list: `addtimer`, `schedulein`, `deltimer`,
-- `deltimermodule` and `CheckTimers`.
pub mod Order
pub mod Check
use acidblood.Common.{
  ℕ, zero, suc, ◌+◌, ◌-◌, ◌*◌, ◌/◌, ◌%◌, ◌≤◌, ◌<◌, ◌≡◌, refl, sym, ap, ◌∙◌, subst, ◌≢◌, ◌↔◌, ◌⊎◌,
  inl, inr, Bool, true, false, not, ◌&&◌, ◌||◌, Option, none, some, List, [], ◌∷◌, ◌++◌, map, arith,
  ltb, leb, ◌==◌, if◌then◌else◌, ltb→lt, lt→ltb, leb→le, ==_iff, ==_refl, ◌>>=◌, Bool-cases,
  Option-cases, codes, length, take, drop, length-append, take-append-drop, length-take,
  length-drop, keep, All, length-map, ℤ, pos, negsuc, pos_part, neg_part, leb_ℤ, ltb_ℤ,
}

pub record Timer : Type 0 where
  pub deadline : ℕ
  pub function : ℕ
  pub module_handle : ℕ

-- The `while` loop: behind the last timer in a row whose deadline is not later.
unfoldable pub insert_behind : Timer → List Timer → List Timer
insert_behind t [] = t ∷ []
insert_behind t (x ∷ timers) =
    if leb x.deadline t.deadline then x ∷ insert_behind t timers else t ∷ x ∷ timers

-- The loop starts at the first timer and compares those behind it.
unfoldable pub addtimer : Timer → List Timer → List Timer
unfolding insert_behind
addtimer t [] = t ∷ []
addtimer t (x ∷ timers) = x ∷ insert_behind t timers

unfoldable pub schedulein : ℕ → ℕ → ℕ → ℕ → List Timer → List Timer
unfolding addtimer
schedulein now handle delay function timers =
    addtimer (record { deadline = now + delay; function = function; module_handle = handle }) timers

unfoldable pub deltimer : ℕ → ℕ → List Timer → List Timer
deltimer handle deadline [] = []
deltimer handle deadline (x ∷ timers) =
    if x.module_handle == handle && x.deadline == deadline
    then timers
    else x ∷ deltimer handle deadline timers

unfoldable pub deltimermodule : ℕ → List Timer → List Timer
deltimermodule handle [] = []
deltimermodule handle (x ∷ timers) =
    if x.module_handle == handle
    then deltimermodule handle timers
    else x ∷ deltimermodule handle timers

-- The timers whose functions are called, in this order, and those that are left, where no function
-- that is called adds or deletes timers.
unfoldable pub check_timers : ℕ → List Timer → List Timer × List Timer
check_timers now [] = ([], [])
check_timers now (x ∷ timers) =
    let (fired, left) = check_timers now timers in
    if leb x.deadline now then (x ∷ fired, left) else ([], x ∷ timers)
