-- ===== src/Match/Certain.antt =====
-- What `match` of src/match.c says of names too long for its rounds, and on an empty mask.
use acidblood.Common.{
  ℕ, zero, suc, ◌≡◌, ◌≢◌, Bool, true, false, Option, none, some, [], ◌∷◌, arith, All,
}
use acidblood.Text.{Text}
use acidblood.Match.{State, Next, done, again, fault, round, loop, at_start, match_max_calls, match}
use acidblood.Match.Wildcard.{Matches}
use acidblood.Match.Loop.{IsClean, Inv, measure, Good}
use acidblood.Match.Decides.{round-Good, start-Inv}

-- Where the 512 rounds may not do, a 1 is still right, for masks and names of any length.
abbrev pub Sound : Type 0 → Option Bool → Type 0
Sound G none = ⊥
Sound G (some true) = G
Sound G (some false) = Unit {0}

loop-Sound :
    {G : Type 0} {k : ℕ} (f : ℕ) (s : State) (con : Text) → Inv G k s con → Sound G (loop f s)
unfolding loop
loop-Sound zero s con i = tt
loop-Sound {G} {k} (suc f) s con i =
    go (round s) (round-Good s con i) (λ s' con' i'. loop-Sound f s' con' i')
  where
    go :
        (n : Next)
        → Good G k (measure k s) n
        → ((s' : State) (con' : Text) → Inv G k s' con' → Sound G (loop f s'))
        → Sound G (elim n [ done b ↦ some b | again s' ↦ loop f s' | fault ↦ none ])
    go (done true) g ih = g
    go (done false) g ih = tt
    go (again s') (con', i', l') ih = ih s' con' i'
    go fault g ih = g

-- For a mask that is not empty and holds no `\`, and a name of any length, `match` reads outside
-- neither string, and returns 1 only if the name fits the mask.
match-Sound :
    (mask name : Text)
    → mask ≢ []
    → All IsClean mask
    → All (λ c. c ≢ 0) name
    → Sound (Matches mask name) (match mask name)
unfolding match
match-Sound mask name n clean text =
    loop-Sound match_max_calls (at_start mask name) [] (start-Inv mask name n clean text)

-- On the empty mask and a name that is not empty, `match` reads the byte in front of the mask.
match-empty_mask : (c : ℕ) (s : Text) → c ≢ 0 → match [] (c ∷ s) ≡ none
unfolding match
match-empty_mask c s h = ground arith
