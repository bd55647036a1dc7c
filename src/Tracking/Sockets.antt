-- ===== src/Tracking/Sockets.antt =====
-- What is found in the list of servers of src/tracking.c by a socket.
use acidblood.Common.{
  ℕ, ◌≡◌, refl, ◌≢◌, ◌↔◌, Bool, true, none, some, List, [], ◌∷◌, ◌++◌, arith, ◌==◌, ==_refl,
}
use acidblood.Text.{Text}
use acidblood.Tracking.Servers.{
  ServerItem, first_server, get_server_by_socket, add_server, get_nick, del_server_by_socket,
}

first-append :
    (test : ServerItem → Bool) (servers : List ServerItem) (s : ServerItem)
    → first_server test servers ≡ none
    → test s ≡ true
    → first_server test (servers ++ s ∷ []) ≡ some (s, servers)
unfolding first_server
first-append test [] s h t = ground arith
first-append test (x ∷ xs) s h t = let rest = first-append test xs s in ground arith

-- `GetNick` reads through NULL exactly where there are servers and none has the socket.
get_nick-none_iff :
    (servers : List ServerItem) (sinfo : ℕ)
    → (get_nick servers sinfo ≡ none)
      ↔ ((servers ≢ []) × (get_server_by_socket servers sinfo ≡ none))
unfolding get_nick
get_nick-none_iff [] sinfo = (λ h. cc, λ (n, _). absurd (n refl))
get_nick-none_iff (x ∷ xs) sinfo = (λ h. (λ e. cc, ground arith), λ (_, e). ground arith)

found-nil :
    (sinfo : ℕ) (s : ServerItem) (rest : List ServerItem)
    → get_server_by_socket [] sinfo ≢ some (s, rest)
unfolding get_server_by_socket first_server
found-nil sinfo s rest h = cc

get_nick-found :
    (servers : List ServerItem) (sinfo : ℕ) (s : ServerItem) (rest : List ServerItem)
    → get_server_by_socket servers sinfo ≡ some (s, rest)
    → get_nick servers sinfo ≡ some (some s.tracked.nick)
unfolding get_nick
get_nick-found [] sinfo s rest h = absurd (found-nil sinfo s rest h)
get_nick-found (x ∷ xs) sinfo s rest h = ground (arith, h)

abbrev new_item : ℕ → Text → Text → ServerItem
new_item sinfo name nick = record {
  name = name;
  sinfo = sinfo;
  tracked = record {
    nick = nick;
    ulist = [];
    clist = [];
    user_at = λ u. none;
    channel_at = λ c. none;
  };
}

-- A server that is added on a socket which has none is the one that the socket finds, with its
-- nick, and is what `DelServerBySocket` takes away again, and nothing else.
add_server-socket :
    (servers : List ServerItem) (sinfo : ℕ) (name nick : Text)
    → get_server_by_socket servers sinfo ≡ none
    → (get_nick (add_server servers sinfo name nick) sinfo ≡ some (some nick))
      × (del_server_by_socket (add_server servers sinfo name nick) sinfo ≡ servers)
unfolding get_server_by_socket add_server del_server_by_socket
add_server-socket servers sinfo name nick h =
    let f =
      first-append (λ s. s.sinfo == sinfo) servers (new_item sinfo name nick) h (==_refl sinfo) in
    (
      get_nick-found (servers ++ new_item sinfo name nick ∷ []) sinfo _ _ f,
      rw (del_server_by_socket, f) refl,
    )
