-- ===== src/Text.antt =====
-- The string routines of src/parser.c. A C string is the list of the bytes before its NUL, and a
-- pointer that may be NULL is an `Option`.
pub mod Equality
pub mod Strip
pub mod Tokens
use mathlib.Core.Option
use acidblood.Common.{
  ℕ, ◌+◌, ◌==◌, Bool, true, false, ◌&&◌, List, [], ◌∷◌, map, Option, none, some, leb, if◌then◌else◌,
}

abbrev pub Text : Type 0
Text = List ℕ

-- `tolower` of the C locale.
unfoldable pub tolower : ℕ → ℕ
tolower c = if leb b'A' c && leb c b'Z' then c + 32 else c

-- One round of the `do` loop for each byte of `str1`, under the bytes' comparison; where `str2`
-- has ended its NUL differs from the byte of `str1`.
unfoldable pub same_bytes : Text → Text → Bool
same_bytes [] [] = true
same_bytes [] (b ∷ t) = false
same_bytes (a ∷ s) [] = false
same_bytes (a ∷ s) (b ∷ t) = a == b && same_bytes s t

unfoldable pub same_bytes_nocase : Text → Text → Bool
unfolding tolower
same_bytes_nocase [] [] = true
same_bytes_nocase [] (b ∷ t) = false
same_bytes_nocase (a ∷ s) [] = false
same_bytes_nocase (a ∷ s) (b ∷ t) = tolower a == tolower b && same_bytes_nocase s t

unfoldable pub streq : Option Text → Option Text → Bool
unfolding same_bytes
streq none q = false
streq (some s) none = false
streq (some []) (some t) = false
streq (some (a ∷ s)) (some []) = false
streq (some (a ∷ s)) (some (b ∷ t)) = same_bytes (a ∷ s) (b ∷ t)

unfoldable pub strcaseeq : Option Text → Option Text → Bool
unfolding same_bytes_nocase
strcaseeq none q = false
strcaseeq (some s) none = false
strcaseeq (some []) (some t) = false
strcaseeq (some (a ∷ s)) (some []) = false
strcaseeq (some (a ∷ s)) (some (b ∷ t)) = same_bytes_nocase (a ∷ s) (b ∷ t)

-- `lowerstring` overwrites each byte; the model returns the new text.
unfoldable pub lowerstring : Text → Text
unfolding tolower
lowerstring = map tolower

-- The `while` loop that shifts the text down by one byte drops the first.
unfoldable pub drop_first : ℕ → Text → Text
drop_first strip [] = []
drop_first strip (c ∷ s) = if c == strip then s else c ∷ s

-- `data[len] = '\0'` at the last byte, if that is `strip`. On an empty text `data[-1]` is read,
-- in front of the string: `none`.
unfoldable pub drop_last : ℕ → Text → Option Text
drop_last strip [] = none
drop_last strip (c ∷ []) = some (if c == strip then [] else c ∷ [])
drop_last strip (c ∷ d ∷ s) = Option.map (◌∷◌ c) (drop_last strip (d ∷ s))

unfoldable pub strip_char_from_end : ℕ → Text → Option Text
unfolding drop_first drop_last
strip_char_from_end strip s = drop_last strip (drop_first strip s)

-- `strtok` of the C library, with its saved position as an argument and a result: it skips
-- delimiters, and returns NULL at the end of the text, or the bytes up to the next delimiter.
skip : (ℕ → Bool) → Text → Text
skip d [] = []
skip d (c ∷ s) = if d c then skip d s else c ∷ s

pub token : (ℕ → Bool) → Text → Text × Text
token d [] = ([], [])
token d (c ∷ s) = let (t, r) = token d s in if d c then ([], s) else (c ∷ t, r)

abbrev pub found : Text × Text → Option Text × Text
found ([], r) = (none, r)
found (c ∷ t, r) = (some (c ∷ t), r)

unfoldable pub strtok : (ℕ → Bool) → Text → Option Text × Text
unfolding skip token
strtok d s = found (token d (skip d s))

-- The delimiter strings of one byte, and the empty one.
abbrev pub at_byte : ℕ → ℕ → Bool
at_byte b c = c == b

abbrev pub at_end : ℕ → Bool
at_end c = false
