-- ===== src/Config.antt =====
-- src/readconf.c: the table of keywords of the configuration, and what a line of the file calls. A
-- function is an address, and `isalpha` and `strtok` are those of the C library.

pub mod Lines
use acidblood.Common.{
  ℕ, zero, suc, ◌+◌, ◌-◌, ◌*◌, ◌/◌, ◌%◌, ◌≤◌, ◌<◌, ◌≡◌, refl, sym, ap, ◌∙◌, subst, ◌≢◌, ◌↔◌, ◌⊎◌,
  inl, inr, Bool, true, false, not, ◌&&◌, ◌||◌, Option, none, some, List, [], ◌∷◌, ◌++◌, map, arith,
  ltb, leb, ◌==◌, if◌then◌else◌, ltb→lt, lt→ltb, leb→le, ==_iff, ==_refl, ◌>>=◌, Bool-cases,
  Option-cases, codes, length, take, drop, length-append, take-append-drop, length-take,
  length-drop, keep, All, length-map, After, After-bind, After-search, After-elim, After-if,
  After-some, ℤ, pos, negsuc, pos_part, neg_part, leb_ℤ, ltb_ℤ,
}
use acidblood.Text.{Text, strcaseeq, strtok, at_byte, at_end}

pub record Cnfs : Type 0 where
  pub command : Text
  pub function : ℕ

unfoldable pub addconf : List Cnfs → Text → ℕ → List Cnfs
addconf configs name function = configs ++ (record { command = name; function = function }) ∷ []

unfoldable pub clearconf : List Cnfs → List Cnfs
clearconf configs = []

-- The call of `tmpconf->function(data)`, if any.
unfoldable pub execconf : List Cnfs → Option Text → Option Text → Option (ℕ × Option Text)
execconf [] command value = none
execconf (c ∷ configs) command value =
    if strcaseeq command (some c.command)
    then some (c.function, value)
    else execconf configs command value

-- The loop of `cleanup`: `len` is one less than what is left.
unfoldable pub skip_spaces : Text → Text
skip_spaces [] = []
skip_spaces (c ∷ []) = c ∷ []
skip_spaces (c ∷ d ∷ s) = if c == b' ' then skip_spaces (d ∷ s) else c ∷ d ∷ s

abbrev pub is_eol : ℕ → Bool
is_eol c = c == 10 || c == 13

-- `len > 1 && (data[len] == '\n' || data[len] == '\r')`, of a text of `len + 1` bytes.
unfoldable pub ends_line : Text → Bool
ends_line [] = false
ends_line (c ∷ []) = is_eol c
ends_line (c ∷ d ∷ s) = ends_line (d ∷ s)

unfoldable pub cut_eol : Text → Text
unfolding ends_line
cut_eol s = if ltb 2 (length s) && ends_line s then take (length s - 1) s else s

unfoldable pub cleanup : Option Text → Option Text
unfolding skip_spaces cut_eol
cleanup none = none
cleanup (some value) =
    let s = cut_eol (cut_eol (skip_spaces value)) in if ltb (length s) 2 then none else some s

abbrev pub isalpha : Text → Bool
isalpha [] = false
isalpha (c ∷ s) = (leb b'A' c && leb c b'Z') || (leb b'a' c && leb c b'z')

abbrev pub long_enough : Option Text → Option Text
long_enough none = none
long_enough (some value) = if leb (length value) 1 then none else some value

-- A round of the loop of `read_config`: the call that the line leads to, if any.
unfoldable pub read_line : List Cnfs → Text → Option (ℕ × Option Text)
read_line configs line =
    if isalpha line
    then (let (command, more) = strtok (at_byte b'=') line in
        let (value, _) = strtok at_end more in
        execconf configs (cleanup command) (cleanup (long_enough value)))
    else none

-- The calls of `read_config` on the lines that `fgets` reads, in order.
unfoldable pub read_config : List Cnfs → List Text → List (ℕ × Option Text)
unfolding read_line
read_config configs [] = []
read_config configs (line ∷ lines) = elim (read_line configs line) [
  | none ↦ read_config configs lines
  | some call ↦ call ∷ read_config configs lines
]
