-- ===== src/Servers/Consistent.antt =====
-- `server_action` of src/server.c keeps the states of connections consistent.
use acidblood.Common.{
  ℕ, suc, ◌≡◌, refl, inl, inr, Bool, true, false, Option, List, [], ◌∷◌, ltb, ◌==◌, Option-cases,
  After, After-bind, After-then, After-if, After-some,
}
use acidblood.Text.{Text}
use acidblood.Parser.{InputStruct}
use acidblood.Settings.{BotStruct}
use acidblood.Network.{Event, net_read, net_write, net_error, SocketInfo, Outside, disconnected}
use acidblood.Network.Buffer.{
  Received, failed, closed, byte, store, get_at, cut_line, read_round, getline_server,
}
use acidblood.Network.States.{
  IsConsistent, KeepsConsistent, disconnected-IsConsistent, send-IsConsistent,
}
use acidblood.Tracking.Servers.{ServerItem}
use acidblood.Servers.Action.{
  nick_by_socket, send_lines, register_to_server, parse_server, server_action,
}

abbrev Round : Bool × SocketInfo → Type 0
Round r = IsConsistent r.1

abbrev Line : ℕ × SocketInfo × ℕ × List Received → Type 0
Line r = IsConsistent r.1

Round-IsConsistent :
    (o : Outside) (now : ℕ) (r : Received) (s : SocketInfo)
    → KeepsConsistent o
    → IsConsistent s
    → After Round (read_round o now r s)
unfolding read_round
Round-IsConsistent o now r s k c = After-bind Round (store s.buffpos r s.buff) _ (λ buff e.
    After-bind Round (get_at s.buffpos buff) _ (λ b e'.
      After-if Round (b == b'\n') _ _
        (λ q. After-bind Round (cut_line s.buffpos buff) _ (λ line e2. c))
        (λ q.
          After-if Round (ltb 1500 s.buffpos) _ _
            (λ q2.
              After-then IsConsistent Round (disconnected o (record s { buff = buff; buffpos = 0 }))
                _ (disconnected-IsConsistent o _ k) (λ s' c'. c'))
            (λ q2. c))))

Line-IsConsistent :
    (o : Outside) (now t : ℕ) (rs : List Received) (s : SocketInfo)
    → KeepsConsistent o
    → IsConsistent s
    → After Line (getline_server o now s t rs)
unfolding getline_server
Line-IsConsistent o now t [] s k c = c
Line-IsConsistent o now t (failed ∷ rs) s k c = c
Line-IsConsistent o now t (closed ∷ rs) s k c =
    let h = Round-IsConsistent o now closed s k c in
    elim (Option-cases (read_round o now closed s)) [
      | inl e ↦ rw (getline_server, e) tt
      | inr ((true, s'), e) ↦
          rw (getline_server, e) (After-some Round (read_round o now closed s) (true, s') h e)
      | inr ((false, s'), e) ↦
          rw (getline_server, e)
            (Line-IsConsistent o now (suc t) rs s' k
              (After-some Round (read_round o now closed s) (false, s') h e))
    ]
Line-IsConsistent o now t (byte b ∷ rs) s k c =
    let h = Round-IsConsistent o now (byte b) s k c in
    elim (Option-cases (read_round o now (byte b) s)) [
      | inl e ↦ rw (getline_server, e) tt
      | inr ((true, s'), e) ↦
          rw (getline_server, e) (After-some Round (read_round o now (byte b) s) (true, s') h e)
      | inr ((false, s'), e) ↦
          rw (getline_server, e)
            (Line-IsConsistent o now (suc t) rs s' k
              (After-some Round (read_round o now (byte b) s) (false, s') h e))
    ]

lines-IsConsistent :
    (o : Outside) (now : ℕ) (lines : List Text) (s : SocketInfo)
    → KeepsConsistent o
    → IsConsistent s
    → After IsConsistent (send_lines o now lines s)
unfolding send_lines
lines-IsConsistent o now [] s k c = c
lines-IsConsistent o now (line ∷ lines) s k c =
    After-then IsConsistent IsConsistent _ (send_lines o now lines)
      (send-IsConsistent o now s line k c) (λ s' c'. lines-IsConsistent o now lines s' k c')

-- What server_action does with an event keeps a connection that is connected from connecting and
-- from waiting to be written to, and readable: for NET_WRITE where it is readable before; where
-- other handlers, and what is done with a line, keep that too.
pub server_action-IsConsistent :
    (o : Outside) (now : ℕ) (botinfo : BotStruct) (servers : List ServerItem) (n : ℕ)
    (received : List Received) (handle : Bool × InputStruct → SocketInfo → Option SocketInfo)
    (event : Event) (s : SocketInfo)
    → KeepsConsistent o
    → ((line : Bool × InputStruct) (s : SocketInfo)
        → IsConsistent s
        → After IsConsistent (handle line s))
    → (event ≡ net_write → s.readable ≡ true)
    → IsConsistent s
    → After IsConsistent (server_action o now botinfo servers n received handle event s)
unfolding server_action register_to_server
server_action-IsConsistent o now botinfo servers n received handle net_read s k h w c =
    After-then Line IsConsistent (getline_server o now s 0 received) _
      (Line-IsConsistent o now 0 received s k c)
      (λ (r, s', t, rs) c'.
        After-if IsConsistent (r == 1) _ _
          (λ e. After-bind IsConsistent (parse_server s'.buff) _ (λ line e'. h line s' c'))
          (λ e. c'))
server_action-IsConsistent o now botinfo servers n received handle net_write s k h w c =
    let s1 = record s { connecting = false; connected = true; writeable = false } in
    After-if IsConsistent s.connecting _ _
      (λ e.
        After-bind IsConsistent (nick_by_socket servers n) _
          (λ nick e'. lines-IsConsistent o now _ s1 k (inr (refl, w refl, refl))))
      (λ e. c)
server_action-IsConsistent o now botinfo servers n received handle net_error s k h w c = c
