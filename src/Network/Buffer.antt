-- ===== src/Network/Buffer.antt =====
-- `getline_server` of src/network.c on the results of `recv`. The buffer is the list of its bytes.
use acidblood.Common.{
  ℕ, zero, suc, Bool, true, false, Option, none, some, List, [], ◌∷◌, ltb, ◌==◌, if◌then◌else◌,
  ◌>>=◌,
}
use acidblood.Text.{Text}
use acidblood.Network.{SocketInfo, Outside, disconnected}

-- `recv` returns -1 where nothing can be read, 0 at the end of the stream, or stores one byte.
pub data Received : Type 0 where
  failed : Received
  closed : Received
  byte : ℕ → Received

unfoldable pub get_at : ℕ → Text → Option ℕ
get_at n [] = none
get_at zero (b ∷ buff) = some b
get_at (suc n) (b ∷ buff) = get_at n buff

unfoldable pub set_at : ℕ → ℕ → Text → Option Text
set_at n c [] = none
set_at zero c (b ∷ buff) = some (c ∷ buff)
set_at (suc n) c (b ∷ buff) = do rest ← set_at n c buff; some (b ∷ rest)

-- What `recv` leaves in the buffer; the end of the stream leaves it alone.
unfoldable pub store : ℕ → Received → Text → Option Text
unfolding set_at
store at failed buff = some buff
store at closed buff = some buff
store at (byte c) buff = set_at at c buff

-- The newline at `pos` and a carriage return in front of it become NUL. At the front of the buffer
-- the byte before it is read.
unfoldable pub cut_line : ℕ → Text → Option Text
unfolding get_at set_at
cut_line zero buff = none
cut_line (suc p) buff = do
  ended ← set_at (suc p) 0 buff
  c ← get_at p ended
  if c == b'\r' then set_at p 0 ended else some ended

-- One round of the loop behind `recv`: whether a line has ended, and the socket.
unfoldable pub read_round : Outside → ℕ → Received → SocketInfo → Option (Bool × SocketInfo)
unfolding get_at store cut_line
read_round o currtime r s = do
  buff ← store s.buffpos r s.buff
  c ← get_at s.buffpos buff
  if c == b'\n'
      then (do
        line ← cut_line s.buffpos buff
        some (true, record s { buff = line; lastrcvpacket = currtime }))
      else if ltb 1500 s.buffpos
      then (do
        s' ← disconnected o (record s { buff = buff; buffpos = 0 })
        some (false, record s' { buffpos = suc s'.buffpos }))
      else some (false, record s { buff = buff; buffpos = suc s.buffpos })

-- The result, the socket, `totalbytes`, and the results of `recv` that are still to come. Behind
-- the last of them `recv` fails.
unfoldable pub getline_server :
    Outside → ℕ → SocketInfo → ℕ → List Received → Option (ℕ × SocketInfo × ℕ × List Received)
unfolding read_round
getline_server o currtime s totalbytes [] = some (0, s, totalbytes, [])
getline_server o currtime s totalbytes (failed ∷ rs) = some (0, s, totalbytes, rs)
getline_server o currtime s totalbytes (closed ∷ rs) = elim (read_round o currtime closed s) [
  | none ↦ none
  | some (true, s') ↦ some (1, record s' { buffpos = 0 }, suc totalbytes, rs)
  | some (false, s') ↦ getline_server o currtime s' (suc totalbytes) rs
]
getline_server o currtime s totalbytes (byte c ∷ rs) = elim (read_round o currtime (byte c) s) [
  | none ↦ none
  | some (true, s') ↦ some (1, record s' { buffpos = 0 }, suc totalbytes, rs)
  | some (false, s') ↦ getline_server o currtime s' (suc totalbytes) rs
]
