-- ===== src/Network/Returns.antt =====
-- Where the handlers return, the operations of src/network.c on a socket that has one do so too.
use acidblood.Common.{
  ℕ, suc, ◌≡◌, refl, sym, ◌∙◌, ◌≢◌, inl, inr, Bool, true, false, Option, none, some, ◌++◌, arith,
  Bool-cases, codes, ℤ, pos, negsuc,
}
use acidblood.Text.{Text}
use acidblood.Sending.{irc_sprintf}
use acidblood.Network.{
  Event, net_read, net_write, net_error, SocketInfo, Outside, disconnected, send_packet, disconnect,
  disconnectonidle,
}
use acidblood.Network.Connections.{Connect, done, pending, refused, run_handler, connect_to_host}

-- The same handler, and the same of the flags that only replies of the server change.
abbrev pub SameMarks : SocketInfo → SocketInfo → Type 0
SameMarks s s' =
    (s'.handler ≡ s.handler) × (s'.registered ≡ s.registered) × (s'.unconnectable ≡ s.unconnectable)

pub marks_trans : (s s1 s2 : SocketInfo) → SameMarks s s1 → SameMarks s1 s2 → SameMarks s s2
marks_trans s s1 s2 (a, b, c) (a', b', c') = (a' ∙ a, b' ∙ b, c' ∙ c)

pub marks-handled : (s s' : SocketInfo) → SameMarks s s' → s.handler ≢ 0 → s'.handler ≢ 0
marks-handled s s' m h z = h (sym m.0 ∙ z)

abbrev pub Kept : SocketInfo → Option SocketInfo → Type 0
Kept s r = (s' : SocketInfo) × (r ≡ some s') × SameMarks s s'

-- The handlers return, do not free their socket, and unless there is something to read leave these
-- flags alone.
abbrev pub Returns : Outside → Type 0
Returns o = (h : ℕ) (e : Event) (s : SocketInfo) → e ≢ net_read → Kept s (o.run h e s)

run_handler-Returns :
    (o : Outside) (e : Event) (s : SocketInfo)
    → e ≢ net_read
    → Returns o
    → s.handler ≢ 0
    → Kept s (run_handler o e s)
unfolding run_handler
run_handler-Returns o e s n r h =
    let (s', f, k) = r s.handler e s n in (s', ground (arith, h, f), k)

disconnected-Returns :
    (o : Outside) (s : SocketInfo) → Returns o → s.handler ≢ 0 → Kept s (disconnected o s)
unfolding disconnected
disconnected-Returns o s r h =
    let over = record s {
      connected = false;
      connecting = false;
      writeable = false;
      readable = false;
      pingtimeout = 0;
    } in
    let (s', f, k) = r s.handler net_error over (λ q. cc) in (s', ground (arith, h, f), k)

send_packet-Returns :
    (o : Outside) (now : ℕ) (s : SocketInfo) (line : Text)
    → Returns o
    → s.handler ≢ 0
    → Kept s (send_packet o now s line)
unfolding send_packet
send_packet-Returns o now s line r h =
    let s1 = record s { sent = suc s.sent } in
    let (s', f, k) = disconnected-Returns o s1 r h in
    elim (Bool-cases (o.sends s.sent line)) [
      | inl e ↦ (record s1 { lastsndpacket = now }, rw e refl, (refl, refl, refl))
      | inr e ↦ (record s' { lastsndpacket = now }, rw e (rw f refl), k)
    ]

pub disconnectonidle-Returns :
    (o : Outside) (now : ℕ) (s : SocketInfo)
    → Returns o
    → s.handler ≢ 0
    → Kept s (disconnectonidle o now s)
unfolding disconnect disconnectonidle
disconnectonidle-Returns o now s r h =
    let line = irc_sprintf (codes "QUIT :" ++ codes "connection timed out" ++ codes "\n") in
    let (s1, f, k) = send_packet-Returns o now s line r h in
    let (s2, f', k') = disconnected-Returns o s1 r (marks-handled s s1 k h) in
    (s2, rw f f', marks_trans s s1 s2 k k')

abbrev begun : ℕ → ℕ → SocketInfo → SocketInfo
begun now n s = record s {
  connected = false;
  connecting = true;
  fd = pos n;
  lastsndpacket = now;
  lastrcvpacket = now;
}

pub connect-Returns :
    (o : Outside) (now : ℕ) (host : Bool) (socket : Option ℕ) (c : Connect) (s : SocketInfo)
    → Returns o
    → s.handler ≢ 0
    → (r : ℤ) × (s' : SocketInfo) × (connect_to_host o now host socket c s ≡ some (r, s'))
      × SameMarks s s'
unfolding connect_to_host
connect-Returns o now false socket c s r h =
    let (s', f, k) =
      disconnected-Returns o (record s { connected = false; connecting = true }) r h in
    (negsuc 0, s', rw f refl, k)
connect-Returns o now true none c s r h =
    let (s', f, k) =
      disconnected-Returns o (record s { connected = false; connecting = true; fd = negsuc 0 }) r
        h in
    (negsuc 0, s', rw f refl, k)
connect-Returns o now true (some n) pending s r h = (pos 0, _, refl, (refl, refl, refl))
connect-Returns o now true (some n) refused s r h =
    let (s', f, k) = disconnected-Returns o (begun now n s) r h in (negsuc 0, s', rw f refl, k)
connect-Returns o now true (some n) done s r h =
    let (s', f, k) =
      run_handler-Returns o net_write (record (begun now n s) { readable = true }) (λ q. cc) r h in
    (pos 0, s', rw f refl, k)
