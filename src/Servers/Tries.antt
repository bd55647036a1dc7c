-- ===== src/Servers/Tries.antt =====
-- What is left of a failed attempt to connect to a server of src/server.c.
use acidblood.Common.{
  ℕ, ◌≡◌, refl, ◌∙◌, inl, inr, Bool, true, false, Option, some, List, [], ◌∷◌, ◌++◌, arith, ◌==◌,
  Bool-cases, Option-cases, length, All,
}
use acidblood.Network.{SocketInfo}
use acidblood.Network.Returns.{Returns}
use acidblood.Tracking.Servers.{ServerItem, first_server, get_server_by_socket}
use acidblood.Servers.{ServerConf, Given, reap_conf_servers}
use acidblood.Servers.Steps.{IsUsable, check_server-step}
use acidblood.Servers.Rounds.{rounds, attempts, IsFor, rounds-added}

-- What the rounds leave of a server: not to be removed, and where it has once been registered with
-- no attempts counted.
rounds-left :
    (g : Given) (times : List ℕ) (c : ServerConf) (s : SocketInfo) (servers : List ServerItem)
    → Returns g.outside
    → IsUsable c s
    → (s.registered ≡ true → c.conatt ≡ 0)
    → (c' : ServerConf) × (s' : SocketInfo) × (servers' : List ServerItem) × (rounds g times c s
          servers
        ≡ some (c', s', servers'))
      × (c'.reap ≡ false)
      × (s'.unconnectable ≡ false)
      × (s.registered ≡ true → c'.conatt ≡ 0)
unfolding rounds
rounds-left g [] c s servers r u z = (c, s, servers, refl, u.1, u.3, z)
rounds-left g (t ∷ times) c s servers r u z =
    let (c1, s1, servers1, f, u1, k, z1, d) = check_server-step g t c s servers r u in
    let (c2, s2, servers2, f2, p, q, z2) = rounds-left g times c1 s1 servers1 r u1 z1 in
    (c2, s2, servers2, rw f f2, p, q, λ e. z2 (k ∙ e))

-- However many attempts fail, and whatever `maxtries` is, a server whose socket has once been
-- registered has no attempts counted and is not marked to be removed: where the handlers return,
-- its rounds end without a fault with `conatt` 0, and with `reap` and `net_unconnectable` not set.
rounds-unlimited :
    (g : Given) (times : List ℕ) (c : ServerConf) (s : SocketInfo) (servers : List ServerItem)
    → Returns g.outside
    → IsUsable c s
    → s.registered ≡ true
    → c.conatt ≡ 0
    → (c' : ServerConf) × (s' : SocketInfo) × (servers' : List ServerItem) × (rounds g times c s
          servers
        ≡ some (c', s', servers'))
      × (c'.reap ≡ false)
      × (s'.unconnectable ≡ false)
      × (c'.conatt ≡ 0)
rounds-unlimited g times c s servers r u e z =
    let (c', s', servers', f, p, q, z') = rounds-left g times c s servers r u (λ _. z) in
    (c', s', servers', f, p, q, z' e)

-- No number of failed attempts marks a server to be removed, whatever `maxtries` is: where the
-- handlers return, and for a server whose `server` is NULL, whose socket has a handler, and neither
-- of which is marked, the rounds end without a fault with `reap` and `net_unconnectable` not set,
-- and ReapConfServers then keeps it.
pub rounds-kept :
    (g : Given) (times : List ℕ) (c : ServerConf) (s : SocketInfo) (servers : List ServerItem)
    (socket_pool : List SocketInfo)
    → Returns g.outside
    → IsUsable c s
    → (c' : ServerConf) × (s' : SocketInfo) × (servers' : List ServerItem) × (rounds g times c s
          servers
        ≡ some (c', s', servers'))
      × (s'.unconnectable ≡ false)
      × (reap_conf_servers (c' ∷ []) socket_pool ≡ some (c' ∷ [], socket_pool))
unfolding rounds reap_conf_servers
rounds-kept g [] c s servers socket_pool r u = (c, s, servers, refl, u.3, ground (arith, u.1))
rounds-kept g (t ∷ times) c s servers socket_pool r u =
    let (c1, s1, servers1, f, u1, k, z, d) = check_server-step g t c s servers r u in
    let (c2, s2, servers2, f2, q, p) = rounds-kept g times c1 s1 servers1 socket_pool r u1 in
    (c2, s2, servers2, rw f f2, q, p)

-- The first server that passes the test.
abbrev First : (ServerItem → Bool) → List ServerItem → ServerItem → Type 0
First test servers s = (rest : List ServerItem) × (first_server test servers ≡ some (s, rest))

First-kept :
    (test : ServerItem → Bool) (servers more : List ServerItem) (s : ServerItem)
    → First test servers s
    → First test (servers ++ more) s
unfolding first_server
First-kept test [] more s (rest, h) = absurd (ground (arith, h))
First-kept test (x ∷ servers) more s (rest, h) = elim (Bool-cases (test x)) [
  | inl e ↦
      let h' : Path (Option (ServerItem × List ServerItem)) (some (x, servers)) (some (s, rest)) =
        rw e at h in
      (servers ++ more, rw e cc)
  | inr e ↦ elim (Option-cases (first_server test servers)) [
    | inl f ↦ absurd (ground (arith, e, f, h))
    | inr ((y, ys), f) ↦
        let h' : Path (Option (ServerItem × List ServerItem)) (some (y, x ∷ ys)) (some (s, rest)) =
          rw (e, f) at h in
        let (zs, k) = First-kept test servers more y (ys, f) in (x ∷ zs, rw (e, k) cc)
  ]
]

-- The server that a socket finds.
abbrev pub Finds : List ServerItem → ℕ → ServerItem → Type 0
Finds servers sinfo old =
    (rest : List ServerItem) × (get_server_by_socket servers sinfo ≡ some (old, rest))

-- Each round that comes to an attempt adds one server for the connection behind the others, the other
-- rounds add none, and none is taken away; so once a socket finds a server, it is the one that the
-- socket finds after any rounds, with the users and channels of its time. The handlers return, and
-- the server of the rounds has NULL for `server`, a socket with a handler, and neither is marked as
-- to be removed.
pub rounds-stale :
    (g : Given) (times : List ℕ) (sinfo : ℕ) (c : ServerConf) (s : SocketInfo)
    (servers : List ServerItem) (old : ServerItem)
    → Returns g.outside
    → IsUsable c s
    → Finds servers sinfo old
    → (c' : ServerConf) × (s' : SocketInfo) × (more : List ServerItem) × (rounds g times c s servers
        ≡ some (c', s', servers ++ more))
      × (length more ≡ attempts g times c s servers)
      × All (IsFor c) more
      × Finds (servers ++ more) sinfo old
unfolding get_server_by_socket
rounds-stale g times sinfo c s servers old r u h =
    let (c', s', more, e, l, a) = rounds-added g times c s servers r u in
    (c', s', more, e, l, a, First-kept (λ x. x.sinfo == sinfo) servers more old h)
