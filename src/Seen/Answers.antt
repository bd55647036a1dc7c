-- ===== src/Seen/Answers.antt =====
-- What the command SEEN of dmodules/seen/seen.c answers.
use acidblood.Common.{
  ℕ, ◌≤◌, ◌<◌, ◌≡◌, refl, ap, ◌∙◌, true, false, ◌&&◌, Option, none, some, List, [], ◌∷◌, ◌++◌,
  arith, ltb, if◌then◌else◌, lt→ltb, ==_refl, codes, length,
}
use acidblood.Text.{Text, lowerstring, strtok, at_byte}
use acidblood.Text.Tokens.{Free, strtok-last}
use acidblood.Sending.{msgreply}
use acidblood.Seen.{
  ChUsers, Files, badnickstart, same_text, seen_text, logseen, seen_is_inchannel, begins_channel,
  fgets, seen_cmd,
}

same_refl : (t : Text) → same_text t t ≡ true
same_refl [] = refl
same_refl (c ∷ t) = ground (arith, same_refl t, ==_refl c)

abbrev answer : Text → Text → Option (List Text)
answer replyto line =
    if ltb 0 (length line) && ltb (length line) 200
    then some (msgreply replyto (line ++ codes "\n"))
    else none

short-answer :
    (replyto line : Text)
    → 0 < length line
    → length line < 200
    → answer replyto line ≡ some (msgreply replyto (line ++ codes "\n"))
short-answer replyto line z l = rw (lt→ltb 0 (length line) z, lt→ltb (length line) 200 l) refl

long-answer : (replyto line : Text) → 200 ≤ length line → answer replyto line ≡ none
long-answer replyto line l =
    let h : ltb (length line) 200 ≡ false = ground arith in
    rw (lt→ltb 0 (length line) (omega arith), h) refl

seen_cmd-file :
    (f : Files) (users : List ChUsers) (nick replyto text rest : Text)
    → strtok (at_byte b' ') nick ≡ (some nick, rest)
    → badnickstart (lowerstring nick) ≡ false
    → begins_channel replyto ≡ true
    → seen_is_inchannel (lowerstring nick) (some replyto) users ≡ false
    → f.chdir ≡ true
    → f.file (lowerstring nick) ≡ some text
    → seen_cmd f users replyto (some nick) ≡ answer replyto (fgets 511 text)
unfolding seen_cmd
seen_cmd-file f users nick replyto text rest w b r i c e =
    rw (seen_cmd, r, ap (λ x. x.0) w, b, i, c, e) refl

logseen-file :
    (f : Files) (nick channel : Text)
    → badnickstart nick ≡ false
    → f.chdir ≡ true
    → f.makes (lowerstring nick) ≡ true
    → ((logseen nick channel f).chdir ≡ true)
      × ((logseen nick channel f).file (lowerstring nick)
          ≡ some (seen_text nick (lowerstring channel) f.timestr))
unfolding logseen
logseen-file f nick channel b c m =
    (rw (c, b, m) refl, rw (c, b, m) (rw (same_refl (lowerstring nick)) refl))

-- A nick for which there is a file: one word that is not empty and does not begin with a byte that
-- badnickstart refuses, in a directory that can be written.
abbrev pub IsLoggable : Files → ℕ → Text → Type 0
IsLoggable f a as' =
    Free (at_byte b' ') (a ∷ as')
    × (badnickstart (a ∷ as') ≡ false)
    × (badnickstart (lowerstring (a ∷ as')) ≡ false)
    × (f.chdir ≡ true)
    × (f.makes (lowerstring (a ∷ as')) ≡ true)

-- The line of the file.
abbrev pub seen_line : Files → Text → Text → Text
seen_line f nick channel = fgets 511 (seen_text nick (lowerstring channel) f.timestr)

-- After logseen has written the file of a nick, SEEN with the nick answers in a channel where the
-- nick is not with the line that was written, where that has less than 200 bytes, is not empty and
-- the nick is one word that names a file.
pub seen_cmd-left :
    (f : Files) (users : List ChUsers) (a : ℕ) (as' channel replyto : Text)
    → IsLoggable f a as'
    → begins_channel replyto ≡ true
    → seen_is_inchannel (lowerstring (a ∷ as')) (some replyto) users ≡ false
    → length (seen_line f (a ∷ as') channel) < 200
    → 0 < length (seen_line f (a ∷ as') channel)
    → seen_cmd (logseen (a ∷ as') channel f) users replyto (some (a ∷ as'))
      ≡ some (msgreply replyto (seen_line f (a ∷ as') channel ++ codes "\n"))
seen_cmd-left f users a as' channel replyto (w, b, b', c, m) r i l z =
    let (c', e) = logseen-file f (a ∷ as') channel b c m in
    let line = seen_line f (a ∷ as') channel in
    seen_cmd-file (logseen (a ∷ as') channel f) users (a ∷ as') replyto
      (seen_text (a ∷ as') (lowerstring channel) f.timestr) [] (strtok-last (at_byte b' ') a as' w)
      b' r i c' e
    ∙ short-answer replyto line z l

-- SEEN writes outside its buffer, or reads what is not set, wherever it comes to a file whose first
-- line has 200 bytes or more, or that is empty.
seen_cmd-overflow :
    (f : Files) (users : List ChUsers) (a : ℕ) (as' replyto text : Text)
    → Free (at_byte b' ') (a ∷ as')
    → badnickstart (lowerstring (a ∷ as')) ≡ false
    → begins_channel replyto ≡ true
    → seen_is_inchannel (lowerstring (a ∷ as')) (some replyto) users ≡ false
    → f.chdir ≡ true
    → f.file (lowerstring (a ∷ as')) ≡ some text
    → 200 ≤ length (fgets 511 text)
    → seen_cmd f users replyto (some (a ∷ as')) ≡ none
seen_cmd-overflow f users a as' replyto text w b r i c e l =
    seen_cmd-file f users (a ∷ as') replyto text [] (strtok-last (at_byte b' ') a as' w) b r i c e
    ∙ long-answer replyto (fgets 511 text) l
