-- ===== src/Servers/Rounds.antt =====
-- The rounds of the loop of `CheckConfServers` in src/server.c for one server, and what they add to
-- the list of servers.
use acidblood.Common.{
  ℕ, ◌+◌, ◌≡◌, refl, sym, ap, ◌∙◌, inl, inr, Bool, true, false, Option, none, some, List, [], ◌∷◌,
  ◌++◌, arith, if◌then◌else◌, ◌>>=◌, length, length-append, All, All-append,
}
use mathlib.Core.List.{append_assoc, append-nil}
use acidblood.Network.{SocketInfo}
use acidblood.Network.Returns.{Returns}
use acidblood.Tracking.Servers.{ServerItem, add_server}
use acidblood.Servers.{ServerConf, Given, check_server}
use acidblood.Servers.Steps.{IsUsable, tries, Spaced, check_server-step}

-- The loop of `CheckConfServers` for one server, at one time after the other.
unfoldable pub rounds :
    Given
    → List ℕ
    → ServerConf
    → SocketInfo
    → List ServerItem
    → Option (ServerConf × SocketInfo × List ServerItem)
rounds g [] c s servers = some (c, s, servers)
rounds g (t ∷ times) c s servers = do
  (c', s', servers') ← check_server g t c s servers
  rounds g times c' s' servers'

-- How many of these rounds come to an attempt to connect.
unfoldable pub attempts : Given → List ℕ → ServerConf → SocketInfo → List ServerItem → ℕ
attempts g [] c s servers = 0
attempts g (t ∷ times) c s servers =
    (if tries g t c s then 1 else 0) + (elim (check_server g t c s servers) [
      | none ↦ 0
      | some (c', s', servers') ↦ attempts g times c' s' servers'
    ])

-- What a round adds: a server behind the others for an attempt, and else nothing.
abbrev added : Given → ServerConf → Bool → List ServerItem
added g c true = add_server [] c.sinfo c.address g.nick
added g c false = []

added-step :
    (g : Given) (now : ℕ) (c c' : ServerConf) (s : SocketInfo) (servers servers' : List ServerItem)
    → Spaced g now c s servers c' servers'
    → servers' ≡ servers ++ added g c (tries g now c s)
unfolding add_server
added-step g now c c' s servers servers' (k, inl (x, e, l)) = rw x (l ∙ sym (append-nil servers))
added-step g now c c' s servers servers' (k, inr (x, a, e, l)) = rw x l

-- The server that is added for the connection of `c`.
abbrev pub IsFor : ServerConf → ServerItem → Type 0
IsFor c x = (x.sinfo ≡ c.sinfo) × (x.name ≡ c.address)

added-IsFor :
    (g : Given) (c : ServerConf) (b : Bool)
    → (length (added g c b) ≡ (if b then 1 else 0)) × All (IsFor c) (added g c b)
unfolding add_server
added-IsFor g c true = (refl, ((refl, refl), tt))
added-IsFor g c false = (refl, tt)

IsFor-All :
    (c c' : ServerConf) (xs : List ServerItem)
    → c'.sinfo ≡ c.sinfo
    → c'.address ≡ c.address
    → All (IsFor c') xs
    → All (IsFor c) xs
IsFor-All c c' [] a b h = tt
IsFor-All c c' (x ∷ xs) a b ((p, q), h) = ((p ∙ a, q ∙ b), IsFor-All c c' xs a b h)

-- The rounds end without a fault, and add a server for each attempt behind the others.
pub rounds-added :
    (g : Given) (times : List ℕ) (c : ServerConf) (s : SocketInfo) (servers : List ServerItem)
    → Returns g.outside
    → IsUsable c s
    → (c' : ServerConf) × (s' : SocketInfo) × (more : List ServerItem) × (rounds g times c s servers
        ≡ some (c', s', servers ++ more))
      × (length more ≡ attempts g times c s servers)
      × All (IsFor c) more
unfolding rounds attempts
rounds-added g [] c s servers r u =
    (c, s, [], ap (λ l. some (c, s, l)) (sym (append-nil servers)), refl, tt)
rounds-added g (t ∷ times) c s servers r u =
    let (c1, s1, servers1, f, u1, _, _, d) = check_server-step g t c s servers r u in
    let here = added g c (tries g t c s) in
    let e : servers1 ≡ servers ++ here = added-step g t c c1 s servers servers1 d in
    let (c2, s2, more, f2, l2, a2) = rounds-added g times c1 s1 servers1 r u1 in
    let (l, a) = added-IsFor g c (tries g t c s) in
    let joined : servers1 ++ more ≡ servers ++ (here ++ more) =
      ap (λ l. l ++ more) e ∙ append_assoc servers here more in
    (
      c2,
      s2,
      here ++ more,
      rw f (f2 ∙ ap (λ l. some (c2, s2, l)) joined),
      rw f (omega (arith, length-append here more, l, l2)),
      All-append (IsFor c) here more a (IsFor-All c c1 more d.0.0 d.0.1 a2),
    )
