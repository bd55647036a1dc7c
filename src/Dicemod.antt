-- ===== src/Dicemod.antt =====
-- The module dmodules/dicemod/dicemod.c: rolls of two dice. What `rand` returns is given.
pub mod Rolls
use acidblood.Common.{
  ℕ, zero, suc, ◌+◌, ◌-◌, ◌*◌, ◌/◌, ◌%◌, ◌≤◌, ◌<◌, ◌≡◌, refl, sym, ap, ◌∙◌, subst, ◌≢◌, ◌↔◌, ◌⊎◌,
  inl, inr, Bool, true, false, not, ◌&&◌, ◌||◌, Option, none, some, List, [], ◌∷◌, ◌++◌, map, arith,
  ltb, leb, ◌==◌, if◌then◌else◌, ltb→lt, lt→ltb, leb→le, ==_iff, ==_refl, ◌>>=◌, Bool-cases,
  Option-cases, codes, length, take, drop, length-append, take-append-drop, length-take,
  length-drop, keep, All, All-append, All-parts, length-map, After, After-bind, After-map,
  After-then, After-search, After-elim, After-if, After-some, ℤ, pos, negsuc, pos_part, neg_part,
  leb_ℤ, ltb_ℤ,
}
use acidblood.Text.{Text, strtok, at_byte}
use acidblood.Sending.{msgreply}
use acidblood.Settings.{atoi}

pub record DieReturn : Type 0 where
  pub d1 : ℕ
  pub d2 : ℕ
  pub result : ℕ

-- What one die adds.
abbrev pub points : ℕ → ℕ
points d = if d == 20 then 2 else if leb 15 d then 1 else 0

abbrev pub damage : ℕ → ℕ → ℕ
damage d1 d2 = if d1 == 20 && d2 == 20 then 5 else points d1 + points d2

unfoldable pub attroll : ℕ → ℕ → DieReturn
attroll rand rand' =
    let d1 = 1 + rand % 20 in
    let d2 = 1 + rand' % 20 in record { d1 = d1; d2 = d2; result = damage d1 d2 }

-- Whether `strtok` has found a number for `atoi`, and what `cnt` is: `none` where `atoi` reads
-- through NULL.
unfoldable pub attack_count : Text → Option ℤ
unfolding atoi
attack_count text = elim (strtok (at_byte b' ') text).0 [ none ↦ none | some t ↦ some (atoi t) ]

unfoldable pub in_range : ℤ → Option ℕ
in_range (negsuc n) = none
in_range (pos n) = if ltb n 1 || ltb 10 n then none else some n

-- The loop that fills `dice[1]` to `dice[cnt]` of 11 entries: `none` is a write behind the end.
unfoldable pub fill_dice : (ℕ → ℕ) → ℕ → ℕ → Option (List DieReturn)
unfolding attroll
fill_dice rand i zero = some []
fill_dice rand i (suc left) = do
  rest ← fill_dice rand (suc i) left
  if ltb i 11 then some (attroll (rand (2 * i)) (rand (2 * i + 1)) ∷ rest) else none

abbrev pub roll_all : (ℕ → ℕ) → Option ℕ → Option (List DieReturn)
roll_all rand none = some []
roll_all rand (some n) = fill_dice rand 1 n

-- The dice of `dicemod_attack`, where it comes to roll them.
unfoldable pub dicemod_attack : (ℕ → ℕ) → Option Text → Option (List DieReturn)
unfolding attack_count fill_dice in_range
dicemod_attack rand none = some []
dicemod_attack rand (some text) = do cnt ← attack_count text; roll_all rand (in_range cnt)
