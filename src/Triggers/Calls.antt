-- ===== src/Triggers/Calls.antt =====
-- What `botevent` of src/events.c calls when a trigger has been added or taken away.
use acidblood.Common.{
  ℕ, ◌+◌, ◌<◌, ◌≡◌, ap, ◌∙◌, none, some, List, [], ◌∷◌, ◌++◌, arith, ◌==◌, if◌then◌else◌, length,
  length-append, keep,
}
use acidblood.DoublyLinked.{Heap}
use acidblood.DoublyLinked.Chain.{head, Holds}
use acidblood.DoublyLinked.Linking.{link-Holds}
use acidblood.DoublyLinked.Visits.{items, items-end, keep-append, visit-Chain}
use acidblood.Triggers.{TriggerStruct, addtrigger, botevent}

-- The calls of a list of triggers.
calls_of : ℕ → List TriggerStruct → List TriggerStruct
calls_of event = keep (λ t. t.event == event)

-- After `addtrigger` with a fresh node, `botevent` calls the functions that it called before, in
-- order, and behind them the new one, where its event is the one that happens.
botevent-addtrigger :
    (fuel : ℕ) (h : Heap TriggerStruct) (l : List (ℕ × TriggerStruct))
    (x handle event function happens : ℕ)
    → length l + 1 < fuel
    → 0 < x
    → h x ≡ none
    → Holds h l
    → (h' : Heap TriggerStruct) × (bottriggers : ℕ) × (addtrigger fuel h x
          (head l)
          handle
          event
          function
        ≡ some (h', bottriggers))
      × (botevent fuel h (head l) happens ≡ some (calls_of happens (items l)))
      × (botevent fuel h' bottriggers happens
          ≡ some (
              calls_of happens (items l)
              ++ (if event == happens
                  then (record { event = event; function = function; module_handle = handle }) ∷ []
                  else [])))
unfolding addtrigger botevent calls_of
botevent-addtrigger fuel h l x handle event function happens f z e k =
    let t : TriggerStruct = record { event = event; function = function; module_handle = handle } in
    let (h', g, k') = link-Holds fuel h l x t (omega arith) z e k in
    (
      h',
      head (l ++ (x, t) ∷ []),
      g,
      visit-Chain fuel _ h 0 l (omega arith) (k.chain),
      visit-Chain fuel _ h' 0 (l ++ (x, t) ∷ []) (omega (arith, length-append l ((x, t) ∷ [])))
            (k'.chain)
          ∙ ap (λ w. some (calls_of happens w)) (items-end l x t)
          ∙ ap some (keep-append (λ u. u.event == happens) (items l) (t ∷ [])),
    )
