-- ===== src/Network/States.antt =====
-- The states that a connection of src/network.c can be in.
use acidblood.Common.{
  ℕ, suc, ◌+◌, ◌≡◌, refl, ◌∙◌, ◌⊎◌, inl, inr, Bool, true, false, not, ◌&&◌, Option, none, some, ltb,
  ◌==◌, if◌then◌else◌, ◌>>=◌, Bool-cases, codes, After, After-then, After-if, After-some, ℤ, negsuc,
}
use acidblood.Text.{Text}
use acidblood.Network.{
  Event, net_read, net_write, net_error, SocketInfo, Outside, clear_flags, free_socket,
  disconnected, send_packet, disconnect, disconnectonidle,
}
use acidblood.Network.Connections.{
  Connect, done, pending, refused, Selected, watch, run_handler, connect_to_host, call_handler,
  call_idle, call_keepalive, serve,
}

-- What is connected is no longer connecting, is read from, and does not wait to be written to.
abbrev pub IsConsistent : SocketInfo → Type 0
IsConsistent s =
    (s.connected ≡ false) ⊎ ((s.connecting ≡ false) × (s.readable ≡ true) × (s.writeable ≡ false))

-- The handlers and the idle functions keep that: NET_WRITE on a socket that is readable.
abbrev pub KeepsConsistent : Outside → Type 0
KeepsConsistent o =
    ((h : ℕ) (s : SocketInfo) (e : Event)
      → (e ≡ net_write → s.readable ≡ true)
      → IsConsistent s
      → After IsConsistent (o.run h e s))
    × ((i now : ℕ) (s : SocketInfo) → IsConsistent s → After IsConsistent (o.run_idle i now s))

pub disconnected-IsConsistent :
    (o : Outside) (s : SocketInfo) → KeepsConsistent o → After IsConsistent (disconnected o s)
unfolding disconnected
disconnected-IsConsistent o s k =
    After-if IsConsistent (s.handler == 0) _ _ (λ e. tt)
      (λ e. k.0 s.handler _ net_error (λ q. cc) (inl refl))

pub send-IsConsistent :
    (o : Outside) (now : ℕ) (s : SocketInfo) (line : Text)
    → KeepsConsistent o
    → IsConsistent s
    → After IsConsistent (send_packet o now s line)
unfolding send_packet
send-IsConsistent o now s line k c =
    let s1 = record s { sent = suc s.sent } in
    After-then IsConsistent IsConsistent
      (if o.sends s.sent line then some s1 else disconnected o s1) _
      (After-if IsConsistent (o.sends s.sent line) _ _ (λ q. c)
        (λ q. disconnected-IsConsistent o s1 k))
      (λ s' c'. c')

idle-IsConsistent :
    (o : Outside) (now : ℕ) (s : SocketInfo)
    → KeepsConsistent o
    → IsConsistent s
    → After IsConsistent (disconnectonidle o now s)
unfolding disconnectonidle disconnect
idle-IsConsistent o now s k c =
    After-then IsConsistent IsConsistent (send_packet o now s _) _ (send-IsConsistent o now s _ k c)
      (λ s' c'. disconnected-IsConsistent o s' k)

-- The state that `connect_to_host` leaves.
abbrev Left : ℤ × SocketInfo → Type 0
Left r = IsConsistent r.1

failed-Left :
    (o : Outside) (s : SocketInfo)
    → KeepsConsistent o
    → After Left (disconnected o s >>= (λ s'. some (negsuc 0, s')))
failed-Left o s k =
    After-then IsConsistent Left (disconnected o s) _ (disconnected-IsConsistent o s k) (λ s' c. c)

connect-Left :
    (o : Outside) (now : ℕ) (host : Bool) (socket : Option ℕ) (c : Connect) (s : SocketInfo)
    → KeepsConsistent o
    → After Left (connect_to_host o now host socket c s)
unfolding connect_to_host run_handler
connect-Left o now false socket c s k = failed-Left o _ k
connect-Left o now true none c s k = failed-Left o _ k
connect-Left o now true (some n) pending s k = inl refl
connect-Left o now true (some n) refused s k = failed-Left o _ k
connect-Left o now true (some n) done s k =
    After-then IsConsistent Left (run_handler o net_write _) _
      (After-if IsConsistent (s.handler == 0) none _ (λ e. tt)
        (λ e. k.0 s.handler _ net_write (λ q. refl) (inl refl)))
      (λ s' c. c)

call-IsConsistent :
    (o : Outside) (e : Event) (s : SocketInfo)
    → KeepsConsistent o
    → (e ≡ net_write → s.readable ≡ true)
    → IsConsistent s
    → After IsConsistent (call_handler o e s)
unfolding call_handler
call-IsConsistent o e s k r c =
    After-if IsConsistent (s.handler == 0) _ _ (λ q. c) (λ q. k.0 s.handler s e r c)

watch-IsConsistent : (now : ℕ) (s : SocketInfo) → IsConsistent s → IsConsistent (watch now s)
unfolding watch
watch-IsConsistent now s c = elim (Bool-cases (not (s.handler == 0) && s.readable)) [
  | inl e ↦ rw e c
  | inr e ↦ rw e c
]

call_idle-IsConsistent :
    (o : Outside) (now : ℕ) (s : SocketInfo)
    → KeepsConsistent o
    → IsConsistent s
    → After IsConsistent (call_idle o now s)
unfolding call_idle
call_idle-IsConsistent o now s k c =
    After-if IsConsistent (not (s.idle == 0) && ltb (s.timeout + s.lastrcvpacket) now) _ _
      (λ e. k.1 s.idle now s c) (λ e. c)

call_keepalive-IsConsistent :
    (o : Outside) (now : ℕ) (s : SocketInfo)
    → KeepsConsistent o
    → IsConsistent s
    → After IsConsistent (call_keepalive o now s)
unfolding call_keepalive
call_keepalive-IsConsistent o now s k c =
    After-if IsConsistent (ltb 0 s.keepalive && ltb (s.keepalive + s.lastsndpacket) now) _ _
      (λ e. send-IsConsistent o now s (codes "\n") k c) (λ e. c)

readable-IsConsistent :
    (s : SocketInfo) → IsConsistent s → IsConsistent (record s { readable = true })
readable-IsConsistent s (inl c) = inl c
readable-IsConsistent s (inr (a, b, c)) = inr (a, refl, c)

serve-IsConsistent :
    (o : Outside) (now : ℕ) (ready : Selected) (s : SocketInfo)
    → KeepsConsistent o
    → IsConsistent s
    → After IsConsistent (serve o now ready s)
unfolding serve
serve-IsConsistent o now ready s k c =
    let P : SocketInfo → Type 0 = IsConsistent in
    After-then P P (if ready.errorfd s.fd then disconnected o s else some s) _
      (After-if P (ready.errorfd s.fd) _ _ (λ e. disconnected-IsConsistent o s k) (λ e. c))
      (λ s1 c1.
        After-then P P (if ready.infd s1.fd then call_handler o net_read s1 else some s1) _
          (After-if P (ready.infd s1.fd) _ _ (λ e. call-IsConsistent o net_read s1 k (λ q. cc) c1)
            (λ e. c1))
          (λ s2 c2.
            After-then P P _ _
              (After-if P (ready.outfd s2.fd) _ _
                (λ e.
                  call-IsConsistent o net_write (record s2 { readable = true }) k (λ q. refl)
                    (readable-IsConsistent s2 c2))
                (λ e. c2))
              (λ s3 c3.
                After-then P P (call_idle o now s3) (call_keepalive o now)
                  (call_idle-IsConsistent o now s3 k c3)
                  (λ s4 c4. call_keepalive-IsConsistent o now s4 k c4))))

-- The states that the operations lead to, from a socket that is handed out. `others` is what the rest
-- of the program writes, which leaves these four flags alone: SetIrcProtocol in AddServerConf, the
-- timeout in CheckMissing, SetRegistered, `keepalive` and `idle` in complete_connect, and `pingtimeout`
-- in sm_pong and pingonidle.
pub data Reached (o : Outside) : SocketInfo → Type 0 where
  new : (s : SocketInfo) → Reached o (clear_flags s)
  connects :
      (s s' : SocketInfo) (r : ℤ) (now : ℕ) (host : Bool) (socket : Option ℕ) (c : Connect)
      → Reached o s
      → connect_to_host o now host socket c s ≡ some (r, s')
      → Reached o s'
  served :
      (s s' : SocketInfo) (now : ℕ) (ready : Selected)
      → Reached o s
      → serve o now ready (watch now s) ≡ some s'
      → Reached o s'
  idles :
      (s s' : SocketInfo) (now : ℕ)
      → Reached o s
      → disconnectonidle o now s ≡ some s'
      → Reached o s'
  sends :
      (s s' : SocketInfo) (now : ℕ) (line : Text)
      → Reached o s
      → send_packet o now s line ≡ some s'
      → Reached o s'
  ends : (s s' : SocketInfo) → Reached o s → disconnected o s ≡ some s' → Reached o s'
  others :
      (s s' : SocketInfo)
      → Reached o s
      → s'.connected ≡ s.connected
      → s'.connecting ≡ s.connecting
      → s'.readable ≡ s.readable
      → s'.writeable ≡ s.writeable
      → Reached o s'
  freed : (s : SocketInfo) → Reached o s → Reached o (free_socket s)

others-IsConsistent :
    (s s' : SocketInfo)
    → s'.connected ≡ s.connected
    → s'.connecting ≡ s.connecting
    → s'.readable ≡ s.readable
    → s'.writeable ≡ s.writeable
    → IsConsistent s
    → IsConsistent s'
others-IsConsistent s s' a b c d (inl x) = inl (a ∙ x)
others-IsConsistent s s' a b c d (inr (x, y, z)) = inr (b ∙ x, c ∙ y, d ∙ z)

-- In every state that a socket reaches from when it is handed out, by connecting, being served,
-- sending, being disconnected and freed, and by what the rest of the program writes to its other
-- fields, one that is connected is not connecting, is read from, and does not wait to be written to;
-- where the handlers and the idle functions keep that.
pub Reached-IsConsistent :
    (o : Outside) (s : SocketInfo) → KeepsConsistent o → Reached o s → IsConsistent s
unfolding free_socket
Reached-IsConsistent o s k (new _) = inl refl
Reached-IsConsistent o s k (connects s0 _ n now host socket c r e) =
    After-some Left _ _ (connect-Left o now host socket c _ k) e
Reached-IsConsistent o s k (served s0 _ now ready r e) =
    After-some IsConsistent _ s
      (serve-IsConsistent o now ready _ k (watch-IsConsistent now _ (Reached-IsConsistent o _ k r)))
      e
Reached-IsConsistent o s k (idles s0 _ now r e) =
    After-some IsConsistent _ s (idle-IsConsistent o now _ k (Reached-IsConsistent o _ k r)) e
Reached-IsConsistent o s k (sends s0 _ now line r e) =
    After-some IsConsistent _ s (send-IsConsistent o now _ line k (Reached-IsConsistent o _ k r)) e
Reached-IsConsistent o s k (ends s0 _ r e) =
    After-some IsConsistent _ s (disconnected-IsConsistent o _ k) e
Reached-IsConsistent o s k (others s0 _ r a b c d) =
    others-IsConsistent s0 s a b c d (Reached-IsConsistent o s0 k r)
Reached-IsConsistent o s k (freed s0 r) = inl refl
