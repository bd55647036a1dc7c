-- ===== src/Access/Channel.antt =====
-- `check_chan` of src/list.c: a channel is looked up in a list with commas.
use acidblood.Common.{
  ◌<◌, ◌≡◌, inl, inr, Bool, false, ◌||◌, some, List, [], ◌∷◌, ◌++◌, arith, ◌==◌, if◌then◌else◌,
  Bool-cases, codes, length, length-append, All,
}
use acidblood.Text.{Text, strcaseeq}
use acidblood.Access.{buffer_size, check_pieces, check_chan}

-- The texts between the commas; `temp` belongs to the first.
unfoldable pub pieces : Text → Text → List Text
pieces temp [] = temp ∷ []
pieces temp (c ∷ s) = if c == b',' then temp ∷ pieces [] s else pieces (temp ++ c ∷ []) s

pub any_eq : Text → List Text → Bool
any_eq name [] = false
any_eq name (t ∷ ts) = strcaseeq (some t) (some name) || any_eq name ts

abbrev pub IsShort : Text → Type 0
IsShort t = length t < buffer_size

first_piece : (temp s : Text) → All IsShort (pieces temp s) → length temp < buffer_size
unfolding pieces
first_piece temp [] h = h.0
first_piece temp (c ∷ s) h = elim (Bool-cases (c == b',')) [
  | inl e ↦ (rw e at h).0
  | inr e ↦ omega (arith, first_piece (temp ++ c ∷ []) s (rw e at h), length-append temp (c ∷ []))
]

check_pieces-any :
    (temp s name : Text)
    → All IsShort (pieces temp s)
    → check_pieces temp s name ≡ some (any_eq name (pieces temp s))
unfolding check_pieces any_eq pieces
check_pieces-any temp [] name h = ground arith
check_pieces-any temp (c ∷ s) name h =
    let l = first_piece temp (c ∷ s) h in
    elim (Bool-cases (c == b',')) [
      | inl e ↦
          let h' : IsShort temp × All IsShort (pieces [] s) = rw e at h in
          rw e (ground (arith, check_pieces-any [] s name h'.1))
      | inr e ↦
          let h' : All IsShort (pieces (temp ++ c ∷ []) s) = rw e at h in
          rw e (ground (arith, check_pieces-any (temp ++ c ∷ []) s name h'))
    ]

-- `check_chan` returns 1 exactly when the user's channels are `all`, or are the channel, or hold
-- the channel between commas, in either case of letters; where each of them fits the buffer.
pub check_chan-any :
    (userchan name : Text)
    → All IsShort (pieces [] userchan)
    → check_chan userchan name
      ≡ some (
          strcaseeq (some userchan) (some (codes "all"))
          || (strcaseeq (some userchan) (some name) || any_eq name (pieces [] userchan)))
unfolding check_chan
check_chan-any userchan name h = ground (arith, check_pieces-any [] userchan name h)
