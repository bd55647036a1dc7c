-- ===== src/Examples/Timing.antt =====
-- The theorems on timers at lists of two or three.
use acidblood.Common.{ℕ, ◌≡◌, refl, [], ◌∷◌, arith}
use mathlib.Core.List.{Perm}
use acidblood.Timers.{Timer, addtimer, check_timers}
use acidblood.Timers.Order.{IsOrdered, SameFirst, addtimer-IsOrdered}
use acidblood.Timers.Check.{addtimer-blocked}

abbrev at : ℕ → Timer
at d = record { deadline = d; function = d; module_handle = 0 }

fires_front : check_timers 20 (at 10 ∷ at 30 ∷ at 15 ∷ []) ≡ (at 10 ∷ [], at 30 ∷ at 15 ∷ [])
unfolding check_timers
fires_front = refl

addtimer-IsOrdered_example :
    IsOrdered (addtimer (at 15) (at 30 ∷ at 10 ∷ at 20 ∷ []))
    × Perm (addtimer (at 15) (at 30 ∷ at 10 ∷ at 20 ∷ [])) (at 15 ∷ at 30 ∷ at 10 ∷ at 20 ∷ [])
    × SameFirst (at 30 ∷ at 10 ∷ at 20 ∷ []) (addtimer (at 15) (at 30 ∷ at 10 ∷ at 20 ∷ []))
addtimer-IsOrdered_example =
    addtimer-IsOrdered (at 15) (at 30 ∷ at 10 ∷ at 20 ∷ []) (omega arith, (omega arith, tt))

addtimer-blocked_example :
    check_timers 20 (addtimer (at 5) (at 30 ∷ [])) ≡ ([], addtimer (at 5) (at 30 ∷ []))
addtimer-blocked_example = addtimer-blocked 20 (at 5) (at 30) [] (omega arith)
