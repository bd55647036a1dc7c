-- ===== src/Network/Rounds.antt =====
-- What `check_connections` of src/network.c does to sockets in use and to those that are free.
use acidblood.Common.{
  ℕ, ◌+◌, ◌<◌, ◌≡◌, refl, ◌≢◌, inl, inr, true, false, Option, none, some, List, [], ◌∷◌, map, arith,
  ltb, ◌>>=◌, Option-cases, codes, All, After, After-if,
}
use acidblood.Network.{
  Event, net_read, net_write, net_error, SocketInfo, Outside, disconnected, send_packet,
  free_socket,
}
use acidblood.Network.Idle.{down}
use acidblood.Network.Connections.{
  Selected, watch, call_handler, call_idle, call_keepalive, serve, serve_all, check_connections,
}

-- A handler that is told something at `now` leaves a socket as heard of then.
abbrev pub KeepsTime : Outside → ℕ → Type 0
KeepsTime o now =
    (h : ℕ) (e : Event) (s s' : SocketInfo)
    → s.lastrcvpacket ≡ now
    → o.run h e s ≡ some s'
    → s'.lastrcvpacket ≡ now

-- The same outside with other idle functions.
abbrev pub with_idle : Outside → (ℕ → ℕ → SocketInfo → Option SocketInfo) → Outside
with_idle o f = record o { run_idle = f }

abbrev pub IsHeard : SocketInfo → Type 0
IsHeard s = (s.handler ≢ 0) × (s.readable ≡ true)

same-bind :
    {A B : Type 0} (P : A → Type 0) (a : Option A) (f g : A → Option B)
    → After P a
    → ((x : A) → P x → f x ≡ g x)
    → (a >>= f) ≡ (a >>= g)
same-bind P none f g h e = refl
same-bind P (some x) f g h e = e x h

call-time :
    (o : Outside) (now : ℕ) (e : Event) (s : SocketInfo)
    → KeepsTime o now
    → s.lastrcvpacket ≡ now
    → After (λ s'. s'.lastrcvpacket ≡ now) (call_handler o e s)
unfolding call_handler
call-time o now e s k t = elim (Option-cases (o.run s.handler e s)) [
  | inl c ↦ ground (arith, c)
  | inr (s', c) ↦ ground (arith, c, k s.handler e s s' t c)
]

error-time :
    (o : Outside) (now : ℕ) (s : SocketInfo)
    → KeepsTime o now
    → s.lastrcvpacket ≡ now
    → After (λ s'. s'.lastrcvpacket ≡ now) (disconnected o s)
unfolding disconnected
error-time o now s k t = elim (Option-cases (o.run s.handler net_error (down s))) [
  | inl c ↦ ground (arith, c)
  | inr (s', c) ↦ ground (arith, c, k s.handler net_error (down s) s' t c)
]

idle-quiet :
    (o : Outside) (now : ℕ) (s : SocketInfo) → s.lastrcvpacket ≡ now → call_idle o now s ≡ some s
unfolding call_idle
idle-quiet o now s t =
    let quiet : ltb (s.timeout + s.lastrcvpacket) now ≡ false = ground (arith, t) in
    rw quiet (ground arith)

serve-idle :
    (o : Outside) (f : ℕ → ℕ → SocketInfo → Option SocketInfo) (now : ℕ) (ready : Selected)
    (s : SocketInfo)
    → KeepsTime o now
    → s.lastrcvpacket ≡ now
    → serve o now ready s ≡ serve (with_idle o f) now ready s
unfolding serve call_handler disconnected call_keepalive send_packet
serve-idle o f now ready s k t =
    let P : SocketInfo → Type 0 = λ s'. s'.lastrcvpacket ≡ now in
    same-bind P _ _ _ (After-if P (ready.errorfd s.fd) _ _ (λ e. error-time o now s k t) (λ e. t))
      (λ s1 t1.
        same-bind P _ _ _
          (After-if P (ready.infd s1.fd) _ _ (λ e. call-time o now net_read s1 k t1) (λ e. t1))
          (λ s2 t2.
            same-bind P _ _ _
              (After-if P (ready.outfd s2.fd) _ _
                (λ e. call-time o now net_write (record s2 { readable = true }) k t2) (λ e. t2))
              (λ s3 t3. rw (idle-quiet o now s3 t3, idle-quiet (with_idle o f) now s3 t3) refl)))

watched-time : (now : ℕ) (s : SocketInfo) → IsHeard s → (watch now s).lastrcvpacket ≡ now
unfolding watch
watched-time now s (h, r) = rw r (ground (arith, h))

serve_all-idle :
    (o : Outside) (f : ℕ → ℕ → SocketInfo → Option SocketInfo) (now : ℕ) (ready : Selected)
    (socket_pool : List SocketInfo)
    → KeepsTime o now
    → All IsHeard socket_pool
    → serve_all o now ready (map (watch now) socket_pool)
      ≡ serve_all (with_idle o f) now ready (map (watch now) socket_pool)
unfolding serve_all
serve_all-idle o f now ready [] k h = refl
serve_all-idle o f now ready (s ∷ socket_pool) k (g, h) =
    rw (serve-idle o f now ready (watch now s) k (watched-time now s g))
      (rw (serve_all-idle o f now ready socket_pool k h) refl)

-- In a pool whose sockets are all in use and readable, and where the handlers do not take
-- `lastrcvpacket` away from the current time, check_connections never calls an idle function: what
-- these are makes no difference.
pub check_connections-idle :
    (o : Outside) (f : ℕ → ℕ → SocketInfo → Option SocketInfo) (now : ℕ)
    (selected : Option Selected) (socket_pool : List SocketInfo)
    → KeepsTime o now
    → All IsHeard socket_pool
    → check_connections o now selected socket_pool
      ≡ check_connections (with_idle o f) now selected socket_pool
unfolding check_connections
check_connections-idle o f now none socket_pool k h = refl
check_connections-idle o f now (some ready) socket_pool k h =
    serve_all-idle o f now ready socket_pool k h

-- A socket that has been freed keeps its `keepalive`: where that is not 0 and has passed, and the
-- line cannot be sent on the closed descriptor, its handler is called through NULL.
serve-freed :
    (o : Outside) (now : ℕ) (ready : Selected) (s : SocketInfo)
    → 0 < s.keepalive
    → s.keepalive + s.lastsndpacket < now
    → o.sends s.sent (codes "\n") ≡ false
    → serve o now ready (watch now (free_socket s)) ≡ none
unfolding serve free_socket watch call_keepalive call_idle call_handler send_packet disconnected
serve-freed o now ready s k l n = ground (arith, n)
