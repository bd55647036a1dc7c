-- ===== src/Parser/Input.antt =====
-- `SplitInput` of src/parser.c on a well-formed line of the server.
use acidblood.Common.{ℕ, ◌≡◌, ◌≢◌, none, some, ◌∷◌, ◌++◌, arith}
use acidblood.Text.{Text, at_byte}
use acidblood.Text.Tokens.{Free, strtok-stop, strtok-last, strtok-nil}
use acidblood.Parser.{split_input}

-- A line with a prefix is taken apart at the first two spaces, and the parameters end at the
-- carriage return: prefix, command and parameters come back as they were written, where the
-- prefix and the command hold no space and the parameters no carriage return.
split_input-prefix :
    (p : Text) (c : ℕ) (cs : Text) (a : ℕ) (as' rest : Text)
    → Free (at_byte b' ') p
    → Free (at_byte b' ') (c ∷ cs)
    → Free (at_byte 13) (a ∷ as')
    → split_input (b':' ∷ p ++ b' ' ∷ (c ∷ cs ++ b' ' ∷ (a ∷ as' ++ 13 ∷ rest)))
      ≡ record { prefix = some (b':' ∷ p); command = some (c ∷ cs); params = some (a ∷ as') }
unfolding split_input
split_input-prefix p c cs a as' rest hp hc ha = ground (
  arith,
  strtok-stop (at_byte b' ') b':' p b' ' (c ∷ cs ++ b' ' ∷ (a ∷ as' ++ 13 ∷ rest)),
  strtok-stop (at_byte b' ') c cs b' ' (a ∷ as' ++ 13 ∷ rest),
  strtok-stop (at_byte 13) a as' 13 rest,
)

-- A line with no prefix and no parameters is a command alone.
split_input-command :
    (c : ℕ) (cs : Text)
    → c ≢ b':'
    → Free (at_byte b' ') (c ∷ cs)
    → split_input (c ∷ cs) ≡ record { prefix = none; command = some (c ∷ cs); params = none }
unfolding split_input
split_input-command c cs h f =
    ground (arith, strtok-last (at_byte b' ') c cs f, strtok-nil (at_byte 13))
