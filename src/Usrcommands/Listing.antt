-- ===== src/Usrcommands/Listing.antt =====
-- The rows that LIST of src/usrcommands.c shows.
use acidblood.Common.{
  ℕ, ◌≤◌, ◌<◌, ◌≡◌, refl, ap, ◌∙◌, inl, inr, false, List, [], ◌∷◌, ◌++◌, map, arith, ◌==◌, ==_iff,
  Bool-cases, length, length-append, keep, ℤ, leb_ℤ,
}
use acidblood.Text.{Text}
use mathlib.Core.List.{append_assoc}
use acidblood.Commands.{Command}
use acidblood.Usrcommands.{list_rows, msg_list}

-- The commands that a user may call, in the order of the list.
abbrev pub allowed : ℤ → List Command → List Text
allowed access list = map Command.cmd (keep (λ c. leb_ℤ access c.access) list)

abbrev pub join : List (List Text) → List Text
join [] = []
join (row ∷ rows) = row ++ join rows

-- The rows in front of the last are full, and the last is not.
abbrev pub AreFull : List (List Text) → Type 0
AreFull [] = Unit {0}
AreFull (row ∷ []) = length row < 4
AreFull (row ∷ next ∷ rows) = (length row ≡ 4) × AreFull (next ∷ rows)

-- The shown rows, `row` being begun.
abbrev Shows : ℤ → List Text → List Command → Type 0
Shows access row list =
    (head : List Text) × (rest : List (List Text)) × (list_rows access row list ≡ head ∷ rest)
    × AreFull (head ∷ rest)
    × (join (head ∷ rest) ≡ row ++ allowed access list)

not-full : (n : ℕ) → n ≤ 4 → (n == 4) ≡ false → n < 4
not-full n l h = ground arith

rows-Shows :
    (access : ℤ) (row : List Text) (list : List Command) → length row < 4 → Shows access row list
unfolding list_rows
rows-Shows access row [] h = (row, [], refl, h, refl)
rows-Shows access row (c ∷ list) h = elim (Bool-cases (leb_ℤ access c.access)) [
  | inr e ↦
      let (head, rest, g, k, j) = rows-Shows access row list h in
      let short : (length row == 4) ≡ false = ground arith in
      (head, rest, rw (list_rows, e, short) (rw e g), k, rw e j)
  | inl e ↦ elim (Bool-cases (length (row ++ c.cmd ∷ []) == 4)) [
    | inl f ↦
        let (head, rest, g, k, j) = rows-Shows access [] list (omega arith) in
        (
          row ++ c.cmd ∷ [],
          head ∷ rest,
          rw (list_rows, e, f) (rw e (ap (◌∷◌ (row ++ c.cmd ∷ [])) g)),
          ((==_iff (length (row ++ c.cmd ∷ [])) 4).0 f, k),
          rw e (
              ap (λ x. (row ++ c.cmd ∷ []) ++ x) j
              ∙ append_assoc row (c.cmd ∷ []) (allowed access list)),
        )
    | inr f ↦
        let longer : length (row ++ c.cmd ∷ []) < 4 =
          not-full (length (row ++ c.cmd ∷ [])) (omega (arith, h, length-append row (c.cmd ∷ [])))
            f in
        let (head, rest, g, k, j) = rows-Shows access (row ++ c.cmd ∷ []) list longer in
        (
          head,
          rest,
          rw (list_rows, e, f) (rw e g),
          k,
          rw e (j ∙ append_assoc row (c.cmd ∷ []) (allowed access list)),
        )
  ]
]

-- LIST shows the commands that the user's access allows, each once and in the order of the list, in
-- rows of four, and behind them one row more with what is left, which has less than four.
pub msg_list-all :
    (access : ℤ) (list : List Command)
    → AreFull (msg_list access list) × (join (msg_list access list) ≡ allowed access list)
unfolding msg_list
msg_list-all access list =
    let (head, rest, e, f, j) = rows-Shows access [] list (omega arith) in rw e (f, j)
