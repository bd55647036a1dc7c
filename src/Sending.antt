-- ===== src/Sending.antt =====
-- Lines to the server: `irc_sprintf`, `send_notice`, `privmsg`, `msguser` and `msgreply` of
-- src/sendmsg.c, on text that `vsprintf` has put together. `privmsg` has its buffer; the commands call
-- `send_private`, `msguser` and `msgreply`, as their texts are made from a line of at most 1500 bytes
-- and fit.
pub mod Chunks
use acidblood.Common.{
  ℕ, zero, suc, ◌+◌, ◌-◌, ◌*◌, ◌/◌, ◌%◌, ◌≤◌, ◌<◌, ◌≡◌, refl, sym, ap, ◌∙◌, subst, ◌≢◌, ◌↔◌, ◌⊎◌,
  inl, inr, Bool, true, false, not, ◌&&◌, ◌||◌, Option, none, some, List, [], ◌∷◌, ◌++◌, map, arith,
  ltb, leb, ◌==◌, if◌then◌else◌, ltb→lt, lt→ltb, leb→le, ==_iff, ==_refl, ◌>>=◌, Bool-cases,
  Option-cases, codes, length, take, drop, length-append, take-append-drop, length-take,
  length-drop, keep, All, length-map, ℤ, pos, negsuc, pos_part, neg_part, leb_ℤ, ltb_ℤ,
}
use acidblood.Text.{Text}

-- `snprintf(output, size, "%s", text)`: at most `size - 1` bytes and the NUL.
abbrev pub snprintf : ℕ → Text → Text
snprintf size text = take (size - 1) text

unfoldable pub irc_sprintf : Text → Text
irc_sprintf input = snprintf 255 input

-- What the `botevent` triggers are told, and the line that is sent.
unfoldable pub send_notice : Text → Text → Text × Text
send_notice target inbuf =
    let output = snprintf 255 (codes "NOTICE " ++ target ++ codes " :" ++ inbuf) in
    (output, output ++ codes "\n")

abbrev pub prefix_of : Text → Text
prefix_of nick = snprintf 100 (codes "PRIVMSG " ++ nick ++ codes " :")

-- The loop of `privmsg`: `lenmod` is 253 less the length of the prefix, and the model has fuel for
-- its rounds.
unfoldable pub send_chunks : ℕ → Text → ℕ → Text → List Text
send_chunks zero prefix lenmod buffout = []
send_chunks (suc fuel) prefix lenmod [] = []
send_chunks (suc fuel) prefix lenmod (c ∷ buffout) =
    (snprintf 254 (prefix ++ c ∷ buffout) ++ codes "\n")
    ∷ send_chunks fuel prefix lenmod (drop lenmod (c ∷ buffout))

-- `pos < msgsize` is that the text behind `buffout` is not used up, as both go on by `lenmod`.
unfoldable pub send_private : Text → Text → List Text
unfolding send_chunks
send_private nick buff =
    send_chunks (length buff) (prefix_of nick) (253 - length (prefix_of nick)) buff

-- `none` where `vsprintf` writes behind `buff[4096]`.
unfoldable pub privmsg : Text → Text → Option (List Text)
unfolding send_private
privmsg nick text = if ltb (length text) 4096 then some (send_private nick text) else none

unfoldable pub msguser : Text → Text → List Text
unfolding send_chunks
msguser nick buff = send_chunks (length buff) (prefix_of nick) (253 - length (prefix_of nick)) buff

unfoldable pub msgreply : Text → Text → List Text
unfolding send_chunks
msgreply replyto buff =
    send_chunks (length buff) (prefix_of replyto) (253 - length (prefix_of replyto)) buff
