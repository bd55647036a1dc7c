-- ===== src/Access.antt =====
-- The table of known users of src/list.c and the access that it gives: `insert_users`,
-- `free_list`, `check_chan`, `check_pass`, `SetAccess` and `SetChanAccess`.
pub mod Channel
pub mod Grant
use acidblood.Common.{
  ℕ, zero, suc, ◌+◌, ◌-◌, ◌*◌, ◌/◌, ◌%◌, ◌≤◌, ◌<◌, ◌≡◌, refl, sym, ap, ◌∙◌, subst, ◌≢◌, ◌↔◌, ◌⊎◌,
  inl, inr, Bool, true, false, not, ◌&&◌, ◌||◌, Option, none, some, List, [], ◌∷◌, ◌++◌, map, arith,
  ltb, leb, ◌==◌, if◌then◌else◌, ltb→lt, lt→ltb, leb→le, ==_iff, ==_refl, ◌>>=◌, Bool-cases,
  Option-cases, codes, length, take, drop, length-append, take-append-drop, length-take,
  length-drop, keep, All, length-map, ℤ, pos, negsuc, pos_part, neg_part, leb_ℤ, ltb_ℤ,
}
use acidblood.Text.{Text, strcaseeq, streq, lowerstring}
use acidblood.Match.{match}

pub record UserData : Type 0 where
  pub usernick : Text
  pub userip : Text
  pub userstatus : ℤ
  pub userchan : Text
  pub userpass : Option Text

-- `conf_userdata`, in the order of the list. `status` is what `atoi` makes of the field.
unfoldable pub insert_users : List UserData → Text → Text → ℤ → Text → Option Text → List UserData
insert_users conf nick ip status channels password =
    conf
    ++ (record {
      usernick = nick;
      userip = lowerstring ip;
      userstatus = status;
      userchan = channels;
      userpass = password;
    })
      ∷ []

unfoldable pub free_list : List UserData → List UserData
free_list conf = []

abbrev pub buffer_size : ℕ
buffer_size = 100

-- The loop of `check_chan`: `temp` holds the bytes since the last comma, and `none` is a write
-- behind its end.
unfoldable pub check_pieces : Text → Text → Text → Option Bool
check_pieces temp [] serverchan =
    if ltb (length temp) buffer_size then some (strcaseeq (some temp) (some serverchan)) else none
check_pieces temp (c ∷ userchan) serverchan =
    let next = check_pieces [] userchan serverchan in
    let more = check_pieces (temp ++ c ∷ []) userchan serverchan in
    if ltb (length temp) buffer_size
    then (if c == b','
        then (if strcaseeq (some temp) (some serverchan) then some true else next)
        else more)
    else none

unfoldable pub check_chan : Text → Text → Option Bool
unfolding check_pieces
check_chan userchan serverchan =
    if strcaseeq (some userchan) (some (codes "all"))
    then some true
    else if strcaseeq (some userchan) (some serverchan)
    then some true
    else check_pieces [] userchan serverchan

unfoldable pub check_pass : Option Text → Option Text → Bool
unfolding streq
check_pass none serverpass = true
check_pass (some userpass) none = false
check_pass (some userpass) (some serverpass) = streq (some userpass) (some serverpass)

-- The user that access is set for, with the fields that are read.
pub record Person : Type 0 where
  pub nick : Text
  pub address : Option Text

abbrev pub default_access : ℤ
default_access = pos 99

abbrev pub userhost : Text → Text
userhost nick = codes "USERHOST " ++ nick ++ codes "\n"

-- The tests on the password, when an entry of the table is for this user.
unfoldable pub grant : Bool → Option Text → UserData → ℤ
unfolding streq
grant reqpass password u = elim u.userpass [
  | none ↦ u.userstatus
  | some pass ↦ if reqpass && not (streq (some pass) password) then default_access else u.userstatus
]

-- The access that `SetAccess` gives, and the lines that it sends. `none` is a fault of `match`.
unfoldable pub set_access : List UserData → Bool → Person → Option Text → Option (ℤ × List Text)
set_access [] reqpass user password = some (default_access, [])
set_access (u ∷ conf) reqpass user password =
    let rest = set_access conf reqpass user password in
    do
      by_nick ← match u.usernick user.nick
      if by_nick
          then elim user.address [
            | none ↦ some (default_access, userhost user.nick ∷ [])
            | some address ↦ (do
              by_ip ← match u.userip address
              if by_ip
                  then (do
                    all ← match (codes "all") u.userchan
                    some ((if all then grant reqpass password u else default_access), []))
                  else rest)
          ]
          else rest

-- The same for `SetChanAccess`, on a channel that exists and that the user is in.
unfoldable pub set_chan_access :
    List UserData → Bool → Person → Text → Option Text → Option (ℤ × List Text)
set_chan_access [] reqpass user channel password = some (default_access, [])
set_chan_access (u ∷ conf) reqpass user channel password =
    let rest = set_chan_access conf reqpass user channel password in
    do
      by_nick ← match u.usernick user.nick
      if by_nick
          then elim user.address [
            | none ↦ some (default_access, userhost user.nick ∷ [])
            | some address ↦ (do
              by_ip ← match u.userip address
              if by_ip
                  then (do
                    all ← match (codes "all") u.userchan
                    here ← (if all then some true else check_chan u.userchan channel)
                    some ((if here then grant reqpass password u else default_access), []))
                  else rest)
          ]
          else rest
