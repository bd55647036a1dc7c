-- ===== src/Seen.antt =====
-- The module dmodules/seen/seen.c: who is in which channel, and when each was last seen. The list
-- is kept in order; a file is its name's text. `none` as a result is a loop that has used up its
-- fuel, or a read or a write outside a text or a buffer.
pub mod Lists
pub mod Answers
use acidblood.Common.{
  ℕ, zero, suc, ◌+◌, ◌-◌, ◌*◌, ◌/◌, ◌%◌, ◌≤◌, ◌<◌, ◌≡◌, refl, sym, ap, ◌∙◌, subst, ◌≢◌, ◌↔◌, ◌⊎◌,
  inl, inr, Bool, true, false, not, ◌&&◌, ◌||◌, Option, none, some, List, [], ◌∷◌, ◌++◌, map, arith,
  ltb, leb, ◌==◌, if◌then◌else◌, ltb→lt, lt→ltb, leb→le, ==_iff, ==_refl, ◌>>=◌, Bool-cases,
  Option-cases, codes, length, take, drop, length-append, take-append-drop, length-take,
  length-drop, keep, All, All-append, All-parts, length-map, After, After-bind, After-map,
  After-then, After-search, After-elim, After-if, After-some, ℤ, pos, negsuc, pos_part, neg_part,
  leb_ℤ, ltb_ℤ,
}
use acidblood.Text.{Text, strcaseeq, lowerstring, strtok, at_byte}
use acidblood.Sending.{msgreply}

pub record ChUsers : Type 0 where
  pub nick : Text
  pub channel : Text

-- The files of the directory, and what the system does: whether `chdir` succeeds, whether a file of
-- a name can be made, and what `strftime` gives.
pub record Files : Type 0 where
  pub file : Text → Option Text
  pub chdir : Bool
  pub makes : Text → Bool
  pub timestr : Text

-- The first byte of the nick, which is NUL at the end.
unfoldable pub badnickstart : Text → Bool
badnickstart [] = false
badnickstart (s ∷ nick) = s == b'~' || (s == b'.' || s == b'/')

abbrev pub same_text : Text → Text → Bool
same_text [] [] = true
same_text [] (b ∷ t) = false
same_text (a ∷ s) [] = false
same_text (a ∷ s) (b ∷ t) = a == b && same_text s t

abbrev pub seen_text : Text → Text → Text → Text
seen_text nick channel timestr =
    nick ++ codes " was last seen in " ++ channel ++ codes " on " ++ timestr ++ codes "\n"

-- The channel is in lower case from here on.
unfoldable pub logseen : Text → Text → Files → Files
unfolding badnickstart
logseen nick channel f =
    if f.chdir && (not (badnickstart nick) && f.makes (lowerstring nick))
    then record f {
      file = λ name.
          if same_text name (lowerstring nick)
          then some (seen_text nick (lowerstring channel) f.timestr)
          else f.file name;
    }
    else f

unfoldable pub in_channel : Text → Option Text → ChUsers → Bool
in_channel nick none c = strcaseeq (some nick) (some c.nick)
in_channel nick (some channel) c =
    strcaseeq (some nick) (some c.nick) && strcaseeq (some channel) (some c.channel)

-- The first entry, the entries in front of it and those behind.
unfoldable pub seen_find_inchannel :
    Text → Option Text → List ChUsers → Option (List ChUsers × ChUsers × List ChUsers)
unfolding in_channel
seen_find_inchannel nick channel [] = none
seen_find_inchannel nick channel (c ∷ users) =
    let rest = seen_find_inchannel nick channel users in
    if in_channel nick channel c
    then some ([], c, users)
    else elim rest [ none ↦ none | some (front, x, back) ↦ some (c ∷ front, x, back) ]

unfoldable pub seen_is_inchannel : Text → Option Text → List ChUsers → Bool
unfolding seen_find_inchannel
seen_is_inchannel nick channel users = elim (seen_find_inchannel nick channel users) [
  | none ↦ false
  | some _ ↦ true
]

unfoldable pub seen_user_arrive : Text → Text → List ChUsers → List ChUsers
unfolding seen_find_inchannel
seen_user_arrive nick channel users = elim (seen_find_inchannel nick (some channel) users) [
  | some _ ↦ users
  | none ↦ users ++ (record { nick = nick; channel = channel }) ∷ []
]

-- `fuel` is for the rounds of the loop.
unfoldable pub seen_user_leave :
    ℕ → Text → Option Text → Files → List ChUsers → Option (Files × List ChUsers)
unfolding seen_find_inchannel logseen
seen_user_leave zero nick channel f users = none
seen_user_leave (suc fuel) nick channel f users = elim (seen_find_inchannel nick channel users) [
  | none ↦ some (f, users)
  | some (front, c, back) ↦
      seen_user_leave fuel nick channel (logseen nick c.channel f) (front ++ back)
]

unfoldable pub seen_user_rename :
    ℕ → Text → Text → Files → List ChUsers → Option (Files × List ChUsers)
unfolding seen_find_inchannel logseen
seen_user_rename zero nick newnick f users = none
seen_user_rename (suc fuel) nick newnick f users = elim (seen_find_inchannel nick none users) [
  | none ↦ some (f, users)
  | some (front, c, back) ↦
      seen_user_rename fuel nick newnick (logseen c.nick c.channel f)
        (front ++ (record { nick = newnick; channel = lowerstring c.channel }) ∷ back)
]

-- Nothing is done where only the case of letters changes.
unfoldable pub seen_nick : ℕ → Text → Text → Files → List ChUsers → Option (Files × List ChUsers)
unfolding seen_user_rename
seen_nick fuel nick info f users =
    if strcaseeq (some nick) (some info)
    then some (f, users)
    else seen_user_rename fuel nick info f users

-- The first line of a text, with its newline, as `fgets` reads it: up to `size - 1` bytes.
abbrev pub fgets : ℕ → Text → Text
fgets zero text = []
fgets (suc n) [] = []
fgets (suc n) (c ∷ text) = if c == b'\n' then c ∷ [] else c ∷ fgets n text

abbrev pub begins_channel : Text → Bool
begins_channel [] = false
begins_channel (c ∷ s) = c == b'#'

abbrev pub first_word : Option Text → Option Text
first_word none = none
first_word (some text) = (strtok (at_byte b' ') text).0

-- Without a nick `lowerstring` reads through NULL. The buffer `line` has 200 bytes, and `fgets` is
-- told 512. An empty file leaves `line` as it is, which is not set.
unfoldable pub seen_cmd : Files → List ChUsers → Text → Option Text → Option (List Text)
unfolding seen_is_inchannel badnickstart
seen_cmd f users replyto request =
    if not (begins_channel replyto) then some [] else elim (first_word request) [
      | none ↦ none
      | some first ↦
          let targnick = lowerstring first in
          if badnickstart targnick
          then some (msgreply replyto (codes "invalid nick\n"))
          else if seen_is_inchannel targnick (some replyto) users
          then some (msgreply replyto (targnick ++ codes " is here\n"))
          else if not f.chdir
          then some []
          else elim (f.file targnick) [
            | none ↦ some (msgreply replyto (codes "I have never met " ++ targnick ++ codes "\n"))
            | some text ↦
                let line = fgets 511 text in
                if ltb 0 (length line) && ltb (length line) 200
                then some (msgreply replyto (line ++ codes "\n"))
                else none
          ]
    ]

unfoldable pub clearmem : List ChUsers → List ChUsers
clearmem users = []
