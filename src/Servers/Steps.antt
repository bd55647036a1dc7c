-- ===== src/Servers/Steps.antt =====
-- What a round of the loop of `CheckConfServers` in src/server.c does with a server.
use acidblood.Common.{
  ℕ, suc, ◌+◌, ◌*◌, ◌%◌, ◌≤◌, ◌≡◌, refl, ◌∙◌, ◌≢◌, ◌⊎◌, inl, inr, Bool, true, false, not, ◌&&◌,
  none, some, List, [], ◌∷◌, ◌++◌, arith, ltb, leb, ◌==◌, if◌then◌else◌, leb→le, Bool-cases, length,
  length-append,
}
use native.Mathlib.Nat.{mul-le-mul}
use acidblood.Text.{Text}
use acidblood.Network.{SocketInfo}
use acidblood.Network.Returns.{
  Returns, SameMarks, marks_trans, marks-handled, disconnectonidle-Returns, connect-Returns,
}
use acidblood.Tracking.Servers.{ServerItem, add_server}
use acidblood.Servers.{
  ServerConf, Given, int_mod, is_negative, at_least, later, calc_con_delay, try_connect,
  check_missing, check_server,
}

-- While the attempts are few enough for their square to fit, the next is 10 seconds off or more.
pub later-calc_con_delay : (now a : ℕ) → a ≤ 46340 → now + 10 ≤ later now (calc_con_delay a)
unfolding calc_con_delay
later-calc_con_delay now a h =
    let small : is_negative a ≡ false = ground (arith, h) in
    elim (Bool-cases (ltb 3 a)) [
      | inr e ↦ rw (small, e) (omega arith)
      | inl e ↦
          let four : 4 ≤ a = ground (arith, e) in
          let squares : 4 * 4 ≤ a * a = mul-le-mul four four in
          let most : a * a ≤ 46340 * 46340 = mul-le-mul h h in
          let fits : (a * a) % int_mod ≡ a * a = omega (arith, most) in
          let small' : is_negative (a * a) ≡ false = ground (arith, most) in
          rw (small, e) (rw fits (rw small' (omega (arith, squares))))
    ]

-- The tests that an attempt to connect comes behind.
abbrev pub maxed : Given → ServerConf → Bool
maxed g c = not (g.maxtries == 0) && at_least c.conatt g.maxtries

abbrev pub tries : Given → ℕ → ServerConf → SocketInfo → Bool
tries g now c s = not s.connected && (not s.connecting && leb c.nexttry now && not (maxed g c))

-- `server` is NULL, the socket has a handler, and neither is marked as to be removed.
abbrev pub IsUsable : ServerConf → SocketInfo → Type 0
IsUsable c s = (c.server ≡ none) × (c.reap ≡ false) × (s.handler ≢ 0) × (s.unconnectable ≡ false)

-- The server once an attempt has been made.
abbrev tried : ℕ → ServerConf → ServerConf
tried now c = record c {
  conatt = suc c.conatt % int_mod;
  nexttry = later now (calc_con_delay (suc c.conatt % int_mod));
}

try_connect-Returns :
    (g : Given) (now : ℕ) (c : ServerConf) (s : SocketInfo) (servers : List ServerItem)
    → Returns g.outside
    → s.handler ≢ 0
    → (s' : SocketInfo) × SameMarks s s'
      × (try_connect g now c s servers
          ≡ some (tried now c, s', add_server servers c.sinfo c.address g.nick))
unfolding try_connect
try_connect-Returns g now c s servers r h =
    let o = g.outside in
    let (s1, f, k) = disconnectonidle-Returns o now (record s { timeout = g.timeout * 60 }) r h in
    let (n, s2, f', k') =
      connect-Returns o now (g.has_host c.address) (g.socket c.address) (g.connect c.address c.port)
        s1 r (marks-handled s s1 k h) in
    (s2, marks_trans s s1 s2 k k', rw f (rw f' refl))

-- A step without an attempt, or with one, which adds a server behind the others.
abbrev pub Spaced :
    Given → ℕ → ServerConf → SocketInfo → List ServerItem → ServerConf → List ServerItem → Type 0
Spaced g now c s servers c' servers' =
    ((c'.sinfo ≡ c.sinfo) × (c'.address ≡ c.address) × (c'.conatt ≤ suc c.conatt))
    × (((tries g now c s ≡ false) × (c'.nexttry ≡ c.nexttry) × (servers' ≡ servers))
        ⊎ ((tries g now c s ≡ true)
            × (c.nexttry ≤ now)
            × (c'.nexttry ≡ later now (calc_con_delay (suc c.conatt % int_mod)))
            × (servers' ≡ add_server servers c.sinfo c.address g.nick)))

-- What the loop of `CheckConfServers` writes behind the attempt.
abbrev pub marked : ServerConf → SocketInfo → ServerConf
marked c s =
    let c' = if s.registered && not (c.conatt == 0) then record c { conatt = 0 } else c in
    if s.unconnectable then record c' { reap = true } else c'

marked-kept :
    (c : ServerConf) (s : SocketInfo)
    → ((marked c s).nexttry ≡ c.nexttry)
      × (IsUsable c s → IsUsable (marked c s) s)
      × (s.registered ≡ true → (marked c s).conatt ≡ 0)
      × ((marked c s).sinfo ≡ c.sinfo)
      × ((marked c s).address ≡ c.address)
      × ((marked c s).conatt ≤ c.conatt)
marked-kept c s = (
  ground arith,
  λ (n, p, h, q). (ground (arith, n), ground (arith, p, q), h, q),
  λ e. ground (arith, e),
  ground arith,
  ground arith,
  ground arith,
)

length-snoc : {A : Type 0} (xs : List A) (x : A) → length (xs ++ x ∷ []) ≡ suc (length xs)
length-snoc xs x = omega (arith, length-append xs (x ∷ []))

pub length-add :
    (servers : List ServerItem) (n : ℕ) (name nick : Text)
    → length (add_server servers n name nick) ≡ suc (length servers)
unfolding add_server
length-add servers n name nick = length-snoc servers _

check_missing-tries :
    (g : Given) (now : ℕ) (c : ServerConf) (s : SocketInfo) (servers : List ServerItem)
    → not s.connecting && leb c.nexttry now ≡ true
    → c.server ≡ none
    → not (g.maxtries == 0) && at_least c.conatt g.maxtries ≡ false
    → check_missing g now c s servers ≡ try_connect g now c s servers
unfolding check_missing
check_missing-tries g now c s servers e n m = simp (e, n, m) refl

check_missing-step :
    (g : Given) (now : ℕ) (c : ServerConf) (s : SocketInfo) (servers : List ServerItem)
    → Returns g.outside
    → IsUsable c s
    → s.connected ≡ false
    → (c' : ServerConf) × (s' : SocketInfo) × (servers' : List ServerItem) × (check_missing g now c
          s servers
        ≡ some (c', s', servers'))
      × IsUsable c' s'
      × (s'.registered ≡ s.registered)
      × Spaced g now c s servers c' servers'
unfolding check_missing
check_missing-step g now c s servers r (n, p, h, q) w =
    let (s', m', f) = try_connect-Returns g now c s servers r h in
    let wraps : suc c.conatt % int_mod ≤ suc c.conatt = omega arith in
    elim (Bool-cases (not s.connecting && leb c.nexttry now)) [
      | inr e ↦ (
        c,
        s,
        servers,
        simp e refl,
        (n, p, h, q),
        refl,
        ((refl, refl, omega arith), inl (rw (w, e) refl, refl, refl)),
      )
      | inl e ↦ elim (Bool-cases (maxed g c)) [
        | inl m ↦ (
          c,
          record s { unconnectable = false },
          servers,
          simp (e, n, m) refl,
          (n, p, h, refl),
          refl,
          ((refl, refl, omega arith), inl (rw (w, e, m) refl, refl, refl)),
        )
        | inr m ↦ (
          tried now c,
          s',
          add_server servers c.sinfo c.address g.nick,
          check_missing-tries g now c s servers e n m ∙ f,
          (n, p, marks-handled s s' m' h, m'.2 ∙ q),
          m'.1,
          (
            (refl, refl, wraps),
            inr (rw (w, e, m) refl, leb→le c.nexttry now (ground (arith, e)), refl, refl),
          ),
        )
      ]
    ]

Spaced-marked :
    (g : Given) (now : ℕ) (c c1 : ServerConf) (s s1 : SocketInfo)
    (servers servers1 : List ServerItem)
    → Spaced g now c s servers c1 servers1
    → Spaced g now c s servers (marked c1 s1) servers1
Spaced-marked g now c c1 s s1 servers servers1 ((a, b, k), d) =
    let (t, w, z, a', b', k') = marked-kept c1 s1 in
    (
      (a' ∙ a, b' ∙ b, omega (arith, k, k')),
      elim d [ inl (x, e, l) ↦ inl (x, t ∙ e, l) | inr (x, y, e, l) ↦ inr (x, y, t ∙ e, l) ],
    )

pub check_server-step :
    (g : Given) (now : ℕ) (c : ServerConf) (s : SocketInfo) (servers : List ServerItem)
    → Returns g.outside
    → IsUsable c s
    → (c' : ServerConf) × (s' : SocketInfo) × (servers' : List ServerItem) × (check_server g now c s
          servers
        ≡ some (c', s', servers'))
      × IsUsable c' s'
      × (s'.registered ≡ s.registered)
      × (s'.registered ≡ true → c'.conatt ≡ 0)
      × Spaced g now c s servers c' servers'
unfolding check_server
check_server-step g now c s servers r u = elim (Bool-cases s.connected) [
  | inl e ↦
      let (t, w, z, _, _, _) = marked-kept c s in
      (
        marked c s,
        s,
        servers,
        simp e refl,
        w u,
        refl,
        z,
        Spaced-marked g now c c s s servers servers
            ((refl, refl, omega arith), inl (rw e refl, refl, refl)),
      )
  | inr e ↦
      let (c1, s1, servers1, f, u1, k, d) = check_missing-step g now c s servers r u e in
      let (t, w, z, _, _, _) = marked-kept c1 s1 in
      (
        marked c1 s1,
        s1,
        servers1,
        simp (e, f) refl,
        w u1,
        k,
        z,
        Spaced-marked g now c c1 s s1 servers servers1 d,
      )
]
