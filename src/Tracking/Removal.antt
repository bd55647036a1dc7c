-- ===== src/Tracking/Removal.antt =====
-- The operations of src/tracking.c that take users and channels away.
use acidblood.Common.{
  ℕ, zero, suc, ◌+◌, ◌*◌, Bool, true, false, ◌&&◌, Option, none, some, List, [], ◌∷◌, ltb, ◌==◌,
  if◌then◌else◌, ◌>>=◌, ℤ, pos, leb_ℤ,
}
use acidblood.Text.{Text, strcaseeq}
use acidblood.Tracking.{
  Entry, User, Server, put, look, nick_of, name_of, put_user, put_channel, get_user, get_channel,
}

unfoldable pub drop_entry : ℕ → List Entry → List Entry
drop_entry u [] = []
drop_entry u (e ∷ es) = if e.userinfo == u then es else e ∷ drop_entry u es

-- `DelUser`: the item is unlinked from the server's list, and the user is freed.
unfoldable pub del_user : Server → ℕ → Server
unfolding drop_entry put
del_user s u = record s { ulist = drop_entry u s.ulist; user_at = put s.user_at u none }

-- The item of the channel's list is unlinked first, and then the item of the user's list with a
-- channel of that name.
unfoldable pub leave_channel : Server → Text → Text → Option Server
leave_channel s nick channel = do
  found ← get_user s nick
  (e, _) ← found
  v ← s.user_at e.userinfo
  joined ← look (name_of s.channel_at) channel v.channels
  (_, rest) ← joined
  some (put_user s e.userinfo (record v { channels = rest }))

unfoldable pub del_user_from_channel : Server → Text → Text → Option Server
del_user_from_channel s nick channel = if strcaseeq (some nick) (some s.nick) then some s else (do
  found ← get_channel s channel
  elim found [
    | none ↦ some s
    | some (c, _) ↦ (do
      ch ← s.channel_at c
      member ← look (nick_of s.user_at) nick ch.users
      elim member [
        | none ↦ some s
        | some (_, rest) ↦ leave_channel (put_channel s c (record ch { users = rest })) nick channel
      ])
  ])

-- The loop of `QuitUser`, for the user at `u`.
unfoldable pub leave_all : ℕ → Server → Text → ℕ → Option Server
leave_all zero s nick u = none
leave_all (suc fuel) s nick u = do
  v ← s.user_at u
  elim v.channels [
    | [] ↦ some s
    | c ∷ _ ↦ (do
      ch ← s.channel_at c
      s' ← del_user_from_channel s nick ch.name
      leave_all fuel s' nick u)
  ]

unfoldable pub quit_user : ℕ → Server → Text → Option Server
quit_user fuel s nick = do
  found ← get_user s nick
  elim found [
    | none ↦ some s
    | some (e, _) ↦ (do s' ← leave_all fuel s nick e.userinfo; some (del_user s' e.userinfo))
  ]

-- The loop of `DelChannel`, for the channel at `c`.
unfoldable pub empty_channel : ℕ → Server → ℕ → Option Server
empty_channel zero s c = none
empty_channel (suc fuel) s c = do
  ch ← s.channel_at c
  elim ch.users [
    | [] ↦ some s
    | e ∷ _ ↦ (do
      v ← s.user_at e.userinfo
      s' ← del_user_from_channel s v.nick ch.name
      empty_channel fuel s' c)
  ]

unfoldable pub drop_id : ℕ → List ℕ → List ℕ
drop_id c [] = []
drop_id c (d ∷ ds) = if d == c then ds else d ∷ drop_id c ds

unfoldable pub del_channel : ℕ → Server → ℕ → Option Server
del_channel fuel s c = do
  s' ← empty_channel fuel s c
  some (record s' { clist = drop_id c s'.clist; channel_at = put s'.channel_at c none })

-- The tests of `ReapUserList` on one user, with the subtractions moved to the other side.
unfoldable pub is_reaped : ℕ → ℤ → User → Bool
is_reaped ct access v = elim v.channels [
  | _ ∷ _ ↦ false
  | [] ↦
      if leb_ℤ (pos 0) access && ltb (v.lastmsg + 60 * 5) ct then true else ltb (v.lastmsg + 30) ct
]

-- The inner loop, over the items of a server's list.
unfoldable pub reap_users : ℕ → Server → List Entry → Option Server
reap_users ct s [] = some s
reap_users ct s (e ∷ es) = do
  v ← s.user_at e.userinfo
  reap_users ct (if is_reaped ct e.access v then del_user s e.userinfo else s) es

unfoldable pub reap_user_list : ℕ → List Server → Option (List Server)
reap_user_list ct [] = some []
reap_user_list ct (s ∷ slist) = do
  s' ← reap_users ct s s.ulist
  slist' ← reap_user_list ct slist
  some (s' ∷ slist')
