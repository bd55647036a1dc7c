-- ===== src/Examples/Strings.antt =====
-- Runs of the string routines and of the parsers, and their theorems at concrete texts.
use acidblood.Common.{◌≡◌, refl, true, false, Option, none, some, List, [], ◌∷◌, arith, codes, All}
use acidblood.Text.{Text, streq, strcaseeq, strip_char_from_end, strtok}
use acidblood.Parser.{split_input, parse_channels}
use acidblood.Parser.Channels.{IsEntry, parse_channels-show}
use acidblood.Sending.{prefix_of, privmsg}
use acidblood.Sending.Chunks.{IsCut, privmsg-IsCut}

nocase_run : strcaseeq (some (codes "NickServ")) (some (codes "nickserv")) ≡ true
unfolding strcaseeq
nocase_run = refl

case_run : streq (some (codes "NickServ")) (some (codes "nickserv")) ≡ false
unfolding streq
case_run = refl

strip_run : strip_char_from_end b':' (codes ":#chan") ≡ some (codes "#chan")
unfolding strip_char_from_end
strip_run = refl

line_run : split_input (codes "PING :irc.example.net") ≡ record {
  prefix = none;
  command = some (codes "PING");
  params = some (codes ":irc.example.net");
}
unfolding split_input strtok
line_run = refl

channels_run :
    parse_channels (codes "#a(key),#b")
    ≡ some ((codes "#a", some (codes "key")) ∷ (codes "#b", none) ∷ [])
unfolding parse_channels
channels_run = refl

open_key_run : parse_channels (codes "#a(key") ≡ none
unfolding parse_channels
open_key_run = refl

abbrev two_channels : List (Text × Option Text)
two_channels = (codes "#a", some (codes "key")) ∷ (codes "#b", none) ∷ []

parse_channels-show_example : parse_channels (codes "#a(key),#b") ≡ some two_channels
parse_channels-show_example =
    parse_channels-show (codes "#a", some (codes "key")) ((codes "#b", none) ∷ []) entries
  where
    entries : All IsEntry two_channels
    entries = (
      (ground arith, omega arith, (ground arith, omega arith)),
      ((ground arith, omega arith, tt), tt),
    )

privmsg-IsCut_example :
    (lines : List Text) × (privmsg (codes "#a") (codes "hello") ≡ some lines)
    × IsCut (prefix_of (codes "#a")) (codes "hello") lines
privmsg-IsCut_example = privmsg-IsCut (codes "#a") (codes "hello") (omega arith)
