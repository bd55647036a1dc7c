-- ===== src/Timers/Check.antt =====
-- Which timers `CheckTimers` of src/timer.c fires.
use acidblood.Common.{
  ℕ, ◌≤◌, ◌<◌, ◌≡◌, refl, ap, inl, inr, List, [], ◌∷◌, ◌++◌, arith, leb, leb→le, Bool-cases, All,
}
use acidblood.Timers.{Timer, addtimer, check_timers}
use acidblood.Timers.Order.{SortedFrom}

abbrev pub IsDue : ℕ → Timer → Type 0
IsDue now t = t.deadline ≤ now

abbrev pub NotDueFirst : ℕ → List Timer → Type 0
NotDueFirst now [] = Unit {0}
NotDueFirst now (x ∷ timers) = now < x.deadline

-- The timers in front of the first that is not due are fired, in order, and the others are kept.
check_timers-front :
    (now : ℕ) (timers : List Timer)
    → ((check_timers now timers).0 ++ (check_timers now timers).1 ≡ timers)
      × All (IsDue now) (check_timers now timers).0
      × NotDueFirst now (check_timers now timers).1
unfolding check_timers
check_timers-front now [] = (refl, tt, tt)
check_timers-front now (x ∷ timers) =
    let (whole, due, first) = check_timers-front now timers in
    elim (Bool-cases (leb x.deadline now)) [
      | inl e ↦ rw e (ap (◌∷◌ x) whole, (leb→le _ _ e, due), first)
      | inr e ↦ rw e (refl, tt, ground arith)
    ]

All-late :
    (now d : ℕ) (timers : List Timer)
    → now < d
    → SortedFrom d timers
    → All (λ t. now < t.deadline) timers
All-late now d [] h s = tt
All-late now d (x ∷ timers) h s =
    (omega (arith, s.0), All-late now x.deadline timers (omega (arith, s.0)) s.1)

-- Where the list is in order, no timer that is due is kept.
check_timers-late :
    (now d : ℕ) (timers : List Timer)
    → SortedFrom d timers
    → All (λ t. now < t.deadline) (check_timers now timers).1
unfolding check_timers
check_timers-late now d [] s = tt
check_timers-late now d (x ∷ timers) s = elim (Bool-cases (leb x.deadline now)) [
  | inl e ↦ rw e (check_timers-late now x.deadline timers s.1)
  | inr e ↦ rw e (All-late now x.deadline (x ∷ timers) (ground arith) (omega arith, s.1))
]

-- A timer that is added behind a first timer which is not due is not fired, however early its own
-- deadline is: `addtimer` never puts a timer in front of the first.
pub addtimer-blocked :
    (now : ℕ) (t x : Timer) (timers : List Timer)
    → now < x.deadline
    → check_timers now (addtimer t (x ∷ timers)) ≡ ([], addtimer t (x ∷ timers))
unfolding check_timers addtimer
addtimer-blocked now t x timers h = ground arith
