-- ===== src/Network/Idle.antt =====
-- When `pingonidle` of src/network.c ends a connection, and when `check_connections` calls it.
use acidblood.Common.{
  ℕ, suc, ◌+◌, ◌<◌, ◌≡◌, refl, ◌≢◌, ◌⊎◌, inl, inr, Bool, true, false, Option, some, List, [], ◌∷◌,
  ◌++◌, arith, ltb, ◌==◌, if◌then◌else◌, lt→ltb, ◌>>=◌, Bool-cases, codes,
}
use acidblood.Text.{Text}
use acidblood.Sending.{irc_sprintf}
use acidblood.Network.{
  net_error, SocketInfo, Outside, disconnected, send_packet, disconnect, pingonidle,
}

-- `pingonidle` at one time after the other, with no PONG between.
unfoldable pub pings : Outside → (ℕ → Text) → List ℕ → SocketInfo → Option SocketInfo
pings o ping [] s = some s
pings o ping (t ∷ times) s = do s' ← pingonidle o ping t s; pings o ping times s'

-- The handlers take note of the end of a connection and change nothing, as `server_action` does.
abbrev pub IgnoresErrors : Outside → Type 0
IgnoresErrors o = (h : ℕ) (s : SocketInfo) → o.run h net_error s ≡ some s

-- The socket when its connection has ended.
abbrev pub down : SocketInfo → SocketInfo
down s = record s {
  connected = false;
  connecting = false;
  writeable = false;
  readable = false;
  pingtimeout = 0;
}

-- The socket once `send` has been called.
abbrev counted : SocketInfo → SocketInfo
counted s = record s { sent = suc s.sent }

-- The connection has ended, or the answer to a PING is waited for up to `limit`.
abbrev Waits : ℕ → SocketInfo → Type 0
Waits limit s = (s.handler ≢ 0) × ((s.connected ≡ false) ⊎ (s.pingtimeout ≡ limit))

handled : (n : ℕ) → n ≢ 0 → (n == 0) ≡ false
handled n h = ground arith

disconnected-down :
    (o : Outside) (s : SocketInfo)
    → IgnoresErrors o
    → s.handler ≢ 0
    → disconnected o s ≡ some (down s)
unfolding disconnected
disconnected-down o s i h = rw (handled s.handler h) (i s.handler (down s))

send-down :
    (o : Outside) (now : ℕ) (s : SocketInfo) (line : Text)
    → IgnoresErrors o
    → s.handler ≢ 0
    → send_packet o now s line
      ≡ some (record (if o.sends s.sent line then counted s else down (counted s)) {
        lastsndpacket = now;
      })
unfolding send_packet
send-down o now s line i h = elim (Bool-cases (o.sends s.sent line)) [
  | inl e ↦ rw e refl
  | inr e ↦ rw e (rw (disconnected-down o (counted s) i h) refl)
]

disconnect-down :
    (o : Outside) (now : ℕ) (reason : Text) (s : SocketInfo)
    → IgnoresErrors o
    → s.handler ≢ 0
    → disconnect o now reason s ≡ some (record (down (counted s)) { lastsndpacket = now })
unfolding disconnect
disconnect-down o now reason s i h =
    let line = irc_sprintf (codes "QUIT :" ++ reason ++ codes "\n") in
    elim (Bool-cases (o.sends s.sent line)) [
      | inl e ↦
          rw (send-down o now s line i h)
            (rw e (disconnected-down o (record (counted s) { lastsndpacket = now }) i h))
      | inr e ↦
          rw (send-down o now s line i h)
            (rw e (disconnected-down o (record (down (counted s)) { lastsndpacket = now }) i h))
    ]

ended-down :
    (b : Bool) (now : ℕ) (s : SocketInfo)
    → s.handler ≢ 0
    → s.connected ≡ false
    → ((if b then s else down s).handler ≢ 0) × ((if b then s else down s).connected ≡ false)
ended-down true now s h c = (h, c)
ended-down false now s h c = (h, refl)

Waits-down :
    (b : Bool) (now : ℕ) (s : SocketInfo)
    → s.handler ≢ 0
    → Waits s.pingtimeout (record (if b then s else down s) { lastsndpacket = now })
Waits-down true now s h = (h, inr refl)
Waits-down false now s h = (h, inl refl)

-- A connection that has ended stays so.
ended-step :
    (o : Outside) (ping : ℕ → Text) (now : ℕ) (s : SocketInfo)
    → IgnoresErrors o
    → s.handler ≢ 0
    → s.connected ≡ false
    → (s' : SocketInfo) × (pingonidle o ping now s ≡ some s')
      × ((s'.handler ≢ 0) × (s'.connected ≡ false))
unfolding pingonidle
ended-step o ping now s i h c =
    let asks = record s { pingtimeout = now + s.timeout } in
    let over = record (down (counted s)) { lastsndpacket = now } in
    let b = o.sends s.sent (ping now) in
    elim (Bool-cases (ltb 0 s.pingtimeout)) [
      | inl e ↦ elim (Bool-cases (ltb s.pingtimeout now)) [
        | inl l ↦ (over, rw (e, l) (disconnect-down o now (codes "ping timeout") s i h), (h, refl))
        | inr l ↦ (s, rw (e, l) refl, (h, c))
      ]
      | inr e ↦ (
        record (if b then counted asks else down (counted asks)) { lastsndpacket = now },
        rw e (send-down o now asks (ping now) i h),
        ended-down b now (counted asks) h c,
      )
    ]

Waits-step :
    (o : Outside) (ping : ℕ → Text) (limit now : ℕ) (s : SocketInfo)
    → IgnoresErrors o
    → 0 < limit
    → Waits limit s
    → (s' : SocketInfo) × (pingonidle o ping now s ≡ some s') × Waits limit s'
unfolding pingonidle
Waits-step o ping limit now s i z (h, inl c) =
    let (s', e, (h', c')) = ended-step o ping now s i h c in (s', e, (h', inl c'))
Waits-step o ping limit now s i z (h, inr w) =
    let over = record (down (counted s)) { lastsndpacket = now } in
    let asked = lt→ltb 0 s.pingtimeout (omega (arith, w)) in
    elim (Bool-cases (ltb s.pingtimeout now)) [
      | inl l ↦
          (over, rw (asked, l) (disconnect-down o now (codes "ping timeout") s i h), (h, inl refl))
      | inr l ↦ (s, rw (asked, l) refl, (h, inr w))
    ]

late-step :
    (o : Outside) (ping : ℕ → Text) (limit late : ℕ) (s : SocketInfo)
    → IgnoresErrors o
    → 0 < limit
    → limit < late
    → Waits limit s
    → (s' : SocketInfo) × (pingonidle o ping late s ≡ some s') × (s'.connected ≡ false)
unfolding pingonidle
late-step o ping limit late s i z l (h, inl c) =
    let (s', e, (h', c')) = ended-step o ping late s i h c in (s', e, c')
late-step o ping limit late s i z l (h, inr w) = (
  record (down (counted s)) { lastsndpacket = late },
  rw (lt→ltb 0 s.pingtimeout (omega (arith, w)), lt→ltb s.pingtimeout late (omega (arith, w)))
      (disconnect-down o late (codes "ping timeout") s i h),
  refl,
)

Waits-pings :
    (o : Outside) (ping : ℕ → Text) (limit late : ℕ) (times : List ℕ) (s : SocketInfo)
    → IgnoresErrors o
    → 0 < limit
    → limit < late
    → Waits limit s
    → (s' : SocketInfo) × (pings o ping (times ++ late ∷ []) s ≡ some s') × (s'.connected ≡ false)
unfolding pings
Waits-pings o ping limit late [] s i z l w =
    let (s', e, c) = late-step o ping limit late s i z l w in (s', rw e refl, c)
Waits-pings o ping limit late (t ∷ times) s i z l w =
    let (s', e, w') = Waits-step o ping limit t s i z w in
    let (s2, e2, c) = Waits-pings o ping limit late times s' i z l w' in (s2, rw e e2, c)

-- On a socket in use with no ping pending, whose handler leaves it alone at NET_ERROR, pingonidle is
-- called at a time that is not 0, then at any times, and then later than `timeout` seconds after the
-- first, and no PONG comes: the calls end without a fault and the socket is not connected, whether
-- the lines could be sent or not.
pub pings-end :
    (o : Outside) (ping : ℕ → Text) (first late : ℕ) (times : List ℕ) (s : SocketInfo)
    → IgnoresErrors o
    → s.handler ≢ 0
    → s.pingtimeout ≡ 0
    → 0 < first
    → first + s.timeout < late
    → (s' : SocketInfo) × (pings o ping (first ∷ times ++ late ∷ []) s ≡ some s')
      × (s'.connected ≡ false)
unfolding pings pingonidle
pings-end o ping first late times s i h z p l =
    let asks = record s { pingtimeout = first + s.timeout } in
    let b = o.sends s.sent (ping first) in
    let s1 = record (if b then counted asks else down (counted asks)) { lastsndpacket = first } in
    let (s', e, c) =
      Waits-pings o ping (first + s.timeout) late times s1 i (omega arith) l
        (Waits-down b first (counted asks) h) in
    let asking : ltb 0 s.pingtimeout ≡ false = ground (arith, z) in
    (s', rw (asking, send-down o first asks (ping first) i h) e, c)
