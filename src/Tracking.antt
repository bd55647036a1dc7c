-- ===== src/Tracking.antt =====
-- src/tracking.c: what the bot knows of a server's users and channels, with `UpdateAccess` of
-- src/list.c. A `struct auser` and a `struct achannel` stand at addresses, and both the server's
-- lists and those of each other hold these addresses. `none` as a result is a read through NULL
-- or of freed memory, or a loop that has used up its fuel.
pub mod Changes
pub mod Servers
pub mod Sockets
pub mod Removal
pub mod Counting
pub mod Sound
pub mod Same
pub mod Adding
pub mod Joining
pub mod Memberships
pub mod Searching
pub mod Leaving
pub mod Parting
pub mod Quitting
pub mod Freeing
pub mod Gone
pub mod Closing
pub mod Dropping
pub mod Reaping
pub mod Renaming
use mathlib.Core.Option
use acidblood.Common.{
  ℕ, zero, suc, ◌+◌, ◌-◌, ◌*◌, ◌/◌, ◌%◌, ◌≤◌, ◌<◌, ◌≡◌, refl, sym, ap, ◌∙◌, subst, ◌≢◌, ◌↔◌, ◌⊎◌,
  inl, inr, Bool, true, false, not, ◌&&◌, ◌||◌, Option, none, some, List, [], ◌∷◌, ◌++◌, map, arith,
  ltb, leb, ◌==◌, if◌then◌else◌, ltb→lt, lt→ltb, leb→le, ==_iff, ==_refl, ◌>>=◌, Bool-cases,
  Option-cases, codes, length, take, drop, length-append, take-append-drop, length-take,
  length-drop, keep, All, length-map, ℤ, pos, negsuc, pos_part, neg_part, leb_ℤ, ltb_ℤ,
}
use acidblood.Text.{Text, strcaseeq}
use acidblood.Access.{UserData, set_access, set_chan_access}

-- `struct userlist`: an item of the users of a server or of a channel, with the access there.
pub record Entry : Type 0 where
  pub userinfo : ℕ
  pub access : ℤ

pub record User : Type 0 where
  pub nick : Text
  pub ident : Option Text
  pub address : Option Text
  pub lastmsg : ℕ
  pub channels : List ℕ

pub record Channel : Type 0 where
  pub name : Text
  pub users : List Entry

-- `struct server_list`, and the memory that its users and channels stand in.
pub record Server : Type 0 where
  pub nick : Text
  pub ulist : List Entry
  pub clist : List ℕ
  pub user_at : ℕ → Option User
  pub channel_at : ℕ → Option Channel

-- `conf_userdata` and `botinfo->reqpass`.
pub record Policy : Type 0 where
  pub userdata : List UserData
  pub reqpass : Bool

module _ {A : Type 0} where
  unfoldable pub put : (ℕ → Option A) → ℕ → Option A → ℕ → Option A
  put f p v q = if q == p then v else f q

  abbrev pub with_first : A → Option (Option (A × List A)) → Option (Option (A × List A))
  with_first x none = none
  with_first x (some none) = some none
  with_first x (some (some (y, ys))) = some (some (y, x ∷ ys))

  -- The loop that compares the names of a list's items with one: the first item that has it, and
  -- the list when that is unlinked.
  unfoldable pub look : (A → Option Text) → Text → List A → Option (Option (A × List A))
  look by name [] = some none
  look by name (x ∷ xs) =
      let rest = look by name xs in
      elim (by x) [
        | none ↦ none
        | some n ↦ if strcaseeq (some n) (some name) then some (some (x, xs)) else with_first x rest
      ]

unfoldable pub nick_of : (ℕ → Option User) → Entry → Option Text
nick_of user_at e = Option.map User.nick (user_at e.userinfo)

unfoldable pub name_of : (ℕ → Option Channel) → ℕ → Option Text
name_of channel_at c = Option.map Channel.name (channel_at c)

abbrev pub put_user : Server → ℕ → User → Server
put_user s u v = record s { user_at = put s.user_at u (some v) }

abbrev pub put_channel : Server → ℕ → Channel → Server
put_channel s c v = record s { channel_at = put s.channel_at c (some v) }

unfoldable pub get_user : Server → Text → Option (Option (Entry × List Entry))
unfolding look
get_user s nick = look (nick_of s.user_at) nick s.ulist

unfoldable pub get_channel : Server → Text → Option (Option (ℕ × List ℕ))
unfolding look
get_channel s name = look (name_of s.channel_at) name s.clist

unfoldable pub get_from_channel : Server → Text → Text → Option (Option Entry)
unfolding get_channel
get_from_channel s nick channel = do
  found ← get_channel s channel
  elim found [
    | none ↦ some none
    | some (c, _) ↦ (do
      ch ← s.channel_at c
      member ← look (nick_of s.user_at) nick ch.users
      some (Option.map (λ (m : Entry × List Entry). m.0) member))
  ]

unfoldable pub is_in_channel : Server → Text → Text → Option Bool
unfolding get_from_channel
is_in_channel s nick channel = do
  member ← get_from_channel s nick channel
  some (elim member [ none ↦ false | some e ↦ true ])

unfoldable pub access_in : ℕ → List Entry → ℤ
access_in u [] = negsuc 0
access_in u (e ∷ es) = if e.userinfo == u then e.access else access_in u es

unfoldable pub get_channel_access : Server → ℕ → Text → Option ℤ
unfolding get_channel access_in
get_channel_access s u channel = do
  found ← get_channel s channel
  elim found [
    | none ↦ some (negsuc 0)
    | some (c, _) ↦ (do ch ← s.channel_at c; some (access_in u ch.users))
  ]

-- The items of a list with a new access for those of one user, or for the first with one name.
unfoldable pub put_access : ℕ → ℤ → List Entry → List Entry
put_access u a [] = []
put_access u a (e ∷ es) =
    (if e.userinfo == u then record e { access = a } else e) ∷ put_access u a es

unfoldable pub put_first_access : (Entry → Option Text) → Text → ℤ → List Entry → List Entry
put_first_access by nick a [] = []
put_first_access by nick a (e ∷ es) =
    if strcaseeq (by e) (some nick)
    then record e { access = a } ∷ es
    else e ∷ put_first_access by nick a es

-- `SetAccess` on an item of the server's list, with the lines that are sent.
unfoldable pub set_access_of : Policy → Server → ℕ → Option Text → Option (Server × List Text)
unfolding set_access put_access
set_access_of p s u password = do
  v ← s.user_at u
  (a, out) ←
      set_access p.userdata p.reqpass (record { nick = v.nick; address = v.address }) password
  some (record s { ulist = put_access u a s.ulist }, out)

-- `SetChanAccess`
unfoldable pub set_chan_access_of :
    Policy → Server → ℕ → Text → Option Text → Option (Server × List Text)
unfolding set_chan_access get_channel look put_first_access nick_of
set_chan_access_of p s u channel password = do
  v ← s.user_at u
  found ← get_channel s channel
  elim found [
    | none ↦ some (s, [])
    | some (c, _) ↦ (do
      ch ← s.channel_at c
      member ← look (nick_of s.user_at) v.nick ch.users
      elim member [
        | none ↦ none
        | some _ ↦ (do
          (a, out) ←
              set_chan_access p.userdata p.reqpass (record { nick = v.nick; address = v.address })
                channel password
          some (
            put_channel s c
                (record ch { users = put_first_access (nick_of s.user_at) v.nick a ch.users }),
            out,
          ))
      ])
  ]

-- The loop of `UpdateAccess` over the channels of a user.
unfoldable pub update_channels :
    Policy → Server → ℕ → Option Text → List ℕ → Option (Server × List Text)
unfolding set_chan_access_of
update_channels p s u password [] = some (s, [])
update_channels p s u password (c ∷ cs) = do
  ch ← s.channel_at c
  (s', out) ← set_chan_access_of p s u ch.name password
  (s'', more) ← update_channels p s' u password cs
  some (s'', out ++ more)

unfoldable pub update_access : Policy → Server → ℕ → Option Text → Option (Server × List Text)
unfolding set_access_of update_channels
update_access p s u password = do
  v ← s.user_at u
  (s', out) ← set_access_of p s u password
  (s'', more) ← update_channels p s' u password v.channels
  some (s'', out ++ more)
