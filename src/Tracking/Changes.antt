-- ===== src/Tracking/Changes.antt =====
-- The operations of src/tracking.c that add, rename and remove users and channels. Their argument
-- `nick` is `client->nick`, and `s` is `client->server`; what `malloc` gives is an argument.
use acidblood.Common.{
  ℕ, Option, none, some, List, [], ◌∷◌, ◌++◌, if◌then◌else◌, ◌>>=◌, ℤ, pos, negsuc, ltb_ℤ,
}
use acidblood.Text.{Text, strcaseeq}
use acidblood.Tracking.{
  Server, Policy, put, put_user, put_channel, get_user, get_channel, access_in, set_access_of,
  set_chan_access_of,
}

-- The new user of `UpdateUser`, at the address `x`.
unfoldable pub add_user : ℕ → ℕ → Server → Text → Server
unfolding put
add_user now x s nick = record s {
  ulist = s.ulist ++ (record { userinfo = x; access = negsuc 0 }) ∷ [];
  user_at =
      put s.user_at x
        (some (record { nick = nick; ident = none; address = none; lastmsg = now; channels = [] }));
}

-- The ident and the address are filled in, and the access is set, where that is still to be done.
-- Without an address `strdup` reads through NULL.
unfoldable pub fill_in :
    Policy → Server → ℕ → Option Text → Option Text → Option (Server × List Text)
unfolding put set_access_of access_in
fill_in p s u ident address = do
  v ← s.user_at u
  elim ident [
    | none ↦ some (s, [])
    | some i ↦ elim v.ident [
      | some _ ↦ some (s, [])
      | none ↦ (do
        a ← address
        let s' = put_user s u (record v { ident = some i; address = some a })
        if ltb_ℤ (access_in u s.ulist) (pos 0) then set_access_of p s' u none else some (s', []))
    ]
  ]

-- The user's address is returned, or NULL for the bot itself.
unfoldable pub update_user :
    Policy
    → ℕ
    → ℕ
    → Server
    → Text
    → Option Text
    → Option Text
    → Option (Server × List Text × Option ℕ)
unfolding get_user add_user fill_in strcaseeq
update_user p now x s nick ident address =
    if strcaseeq (some nick) (some s.nick) then some (s, [], none) else (do
      found ← get_user s nick
      elim found [
        | none ↦ (do
          (s', out) ← fill_in p (add_user now x s nick) x ident address
          some (s', out, some x))
        | some (e, _) ↦ (do
          (s', out) ← fill_in p s e.userinfo ident address
          some (s', out, some e.userinfo))
      ])

unfoldable pub rename_user : Server → Text → Text → Option Server
unfolding get_user put strcaseeq
rename_user s nick newnick = if strcaseeq (some newnick) (some s.nick) then some s else (do
  found ← get_user s nick
  elim found [
    | none ↦ some s
    | some (e, _) ↦ (do
      v ← s.user_at e.userinfo
      some (put_user s e.userinfo (record v { nick = newnick })))
  ])

unfoldable pub update_msg_time : ℕ → Server → ℕ → Option Server
unfolding put
update_msg_time now s u = do v ← s.user_at u; some (put_user s u (record v { lastmsg = now }))

-- `AddChannel`, with the new channel at the address `x`.
unfoldable pub add_channel : ℕ → Server → Text → Server
unfolding put
add_channel x s name = record s {
  clist = s.clist ++ x ∷ [];
  channel_at = put s.channel_at x (some (record { name = name; users = [] }));
}

-- The channel of the name, which is added where there is none.
unfoldable pub ensure_channel : ℕ → Server → Text → Option (Server × ℕ)
unfolding get_channel add_channel
ensure_channel x s name = do
  found ← get_channel s name
  some (elim found [ none ↦ (add_channel x s name, x) | some (c, _) ↦ (s, c) ])

-- Both lists get an item: that of the channel for the user, whose access is `junk` until
-- `SetChanAccess` sets it, and that of the user for the channel.
unfoldable pub join_lists : Policy → ℤ → Server → ℕ → ℕ → Text → Option (Server × List Text)
unfolding put set_chan_access_of
join_lists p junk s u c name = do
  ch ← s.channel_at c
  let s' =
      put_channel s c
        (record ch { users = ch.users ++ (record { userinfo = u; access = junk }) ∷ [] })
  (s'', out) ← set_chan_access_of p s' u name none
  v ← s''.user_at u
  some (put_user s'' u (record v { channels = v.channels ++ c ∷ [] }), out)

unfoldable pub link_user_to_channel :
    Policy → ℤ → ℕ → Server → ℕ → Text → Option (Server × List Text)
unfolding ensure_channel join_lists
link_user_to_channel p junk x s u name = do
  (s', c) ← ensure_channel x s name
  join_lists p junk s' u c name

-- `x` and `y` are the addresses for a new user and a new channel.
unfoldable pub add_user_to_channel :
    Policy
    → ℕ
    → ℤ
    → ℕ
    → ℕ
    → Server
    → Text
    → Option Text
    → Option Text
    → Option Text
    → Option (Server × List Text)
unfolding update_user link_user_to_channel
add_user_to_channel p now junk x y s nick ident address channel = do
  (s', out, user) ← update_user p now x s nick ident address
  elim user [
    | none ↦ some (s', out)
    | some u ↦ elim channel [
      | none ↦ some (s', out)
      | some name ↦ (do
        (s'', more) ← link_user_to_channel p junk y s' u name
        some (s'', out ++ more))
    ]
  ]
