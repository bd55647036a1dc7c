-- ===== src/Match.antt =====
-- `match` of src/match.c: does a mask with `*`, `?` and `\` match a name.
pub mod Wildcard
pub mod Loop
pub mod Ends
pub mod Decides
pub mod Certain
use acidblood.Common.{
  ℕ, zero, suc, ◌+◌, ◌-◌, ◌*◌, ◌/◌, ◌%◌, ◌≤◌, ◌<◌, ◌≡◌, refl, sym, ap, ◌∙◌, subst, ◌≢◌, ◌↔◌, ◌⊎◌,
  inl, inr, Bool, true, false, not, ◌&&◌, ◌||◌, Option, none, some, List, [], ◌∷◌, ◌++◌, map, arith,
  ltb, leb, ◌==◌, if◌then◌else◌, ltb→lt, lt→ltb, leb→le, ==_iff, ==_refl, ◌>>=◌, Bool-cases,
  Option-cases, codes, length, take, drop, length-append, take-append-drop, length-take,
  length-drop, keep, All, length-map,
}
use acidblood.Text.{Text, tolower}

-- A pointer into a string that ends in NUL: the bytes in front of it, the nearest first, and the
-- bytes from it up to the NUL.
pub record Ptr : Type 0 where
  pub before : Text
  pub rest : Text

abbrev pub ptr : Text → Text → Ptr
ptr b r = record { before = b; rest = r }

-- `*p`, which is NUL at the end.
abbrev pub byte_at : Text → ℕ
byte_at [] = 0
byte_at (c ∷ r) = c

-- `p++`, which faults behind the NUL, and `p--`, which faults in front of the string.
abbrev pub incr_at : Text → Text → Option Ptr
incr_at b [] = none
incr_at b (c ∷ r) = some (ptr (c ∷ b) r)

abbrev pub incr : Ptr → Option Ptr
incr p = incr_at p.before p.rest

abbrev pub decr_at : Text → Text → Option Ptr
decr_at [] r = none
decr_at (c ∷ b) r = some (ptr b (c ∷ r))

abbrev pub backslash : ℕ
backslash = 92

-- `while (*m == '*') m++;`
unfoldable pub skip_stars : Text → Text → Ptr
skip_stars b [] = ptr b []
skip_stars b (c ∷ r) = if c == b'*' then skip_stars (c ∷ b) r else ptr b (c ∷ r)

-- `for (...; m > mask && *m == '?'; m--);`
unfoldable pub back_over : Text → Text → Ptr
back_over [] r = ptr [] r
back_over (x ∷ b) r = if byte_at r == b'?' then back_over b (x ∷ r) else ptr (x ∷ b) r

-- `m > mask`
abbrev pub inside : Text → Bool
inside [] = false
inside (x ∷ b) = true

-- The variables of the loop.
pub record State : Type 0 where
  pub m : Ptr
  pub n : Ptr
  pub ma : Ptr
  pub na : Ptr
  pub wild : Bool
  pub quote : ℕ

-- What a round of the loop does: it returns, goes on, or reads or moves outside a string.
pub data Next : Type 0 where
  done : Bool → Next
  again : State → Next
  fault : Next

abbrev pub and_then : Option State → (State → Next) → Next
and_then none k = fault
and_then (some s) k = k s

-- `m = ma; n = ++na;`
unfoldable pub retry : State → Option State
retry s = do na ← incr s.na; some (record s { m = s.ma; n = na; na = na })

-- `if (*p) p++;`
abbrev pub advance : Ptr → Ptr
advance p = elim p.rest [ [] ↦ p | c ∷ r ↦ ptr (c ∷ p.before) r ]

-- The test of the last `if` of the loop, on the bytes at `m` and `n`.
unfoldable pub differs : ℕ → ℕ → ℕ → Bool
unfolding tolower
differs quote c d = not (tolower c == tolower d) && not (quote == 0 && c == b'?')

-- The last `if` of the loop: the bytes at `m` and `n` are compared.
unfoldable pub compare_bytes : State → Next
compare_bytes s =
    if differs s.quote (byte_at s.m.rest) (byte_at s.n.rest)
    then (if s.wild then and_then (retry s) again else done false)
    else again (record s { m = advance s.m; n = advance s.n })

-- The mask is used up and the name is not.
unfoldable pub mask_ended : State → Next
mask_ended s = if not (s.quote == 0) then done false else elim (decr_at s.m.before s.m.rest) [
  | none ↦ fault
  | some p ↦
      let q = back_over p.before p.rest in
      if byte_at q.rest == b'*' && inside q.before
      then done true
      else if s.wild
      then and_then (retry s) compare_bytes
      else done false
]

-- The test for the end of the mask and that for the end of the name.
unfoldable pub test_ends : State → Next
test_ends s =
    if byte_at s.m.rest == 0
    then (if byte_at s.n.rest == 0 then done true else mask_ended s)
    else if byte_at s.n.rest == 0
    then (if s.quote == 0
        then done (byte_at (skip_stars s.m.before s.m.rest).rest == 0)
        else done false)
    else compare_bytes s

-- A run of stars is passed, and the place behind it is kept, together with that in the name.
unfoldable pub pass_stars : State → Next
pass_stars s =
    let p = skip_stars s.m.before s.m.rest in
    if byte_at p.rest == backslash
    then elim (incr p) [
      | none ↦ fault
      | some p' ↦
          if byte_at p'.rest == 0
          then done false
          else test_ends (record s { m = p'; ma = p'; na = s.n; wild = true; quote = 2 })
    ]
    else test_ends (record s { m = p; ma = p; na = s.n; wild = true })

-- `if (quote) quote++; if (quote == 3) quote = 0;`
unfoldable pub count_quote : ℕ → ℕ
count_quote q = if q == 0 then 0 else if q + 1 == 3 then 0 else q + 1

unfoldable pub round : State → Next
round s₀ =
    let s : State = record s₀ { quote = count_quote s₀.quote } in
    if byte_at s.m.rest == backslash && s.quote == 0
    then elim (incr s.m) [ none ↦ fault | some p ↦ again (record s { m = p; quote = 1 }) ]
    else if s.quote == 0 && byte_at s.m.rest == b'*'
    then pass_stars s
    else test_ends s

-- `while (calls++ < MATCH_MAX_CALLS)`: the answer is 0 when the calls are used up.
unfoldable pub loop : ℕ → State → Option Bool
loop zero s = some false
loop (suc calls) s = elim (round s) [ done b ↦ some b | again s' ↦ loop calls s' | fault ↦ none ]

abbrev pub match_max_calls : ℕ
match_max_calls = 512

abbrev pub at_start : Text → Text → State
at_start mask name = record {
  m = ptr [] mask;
  n = ptr [] name;
  ma = ptr [] mask;
  na = ptr [] name;
  wild = false;
  quote = 0;
}

unfoldable pub match : Text → Text → Option Bool
unfolding loop round pass_stars test_ends mask_ended compare_bytes count_quote differs retry
    back_over skip_stars
match mask name = loop match_max_calls (at_start mask name)
