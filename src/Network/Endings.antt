-- ===== src/Network/Endings.antt =====
-- The end of a line in `getline_server` of src/network.c.
use acidblood.Common.{
  ℕ, zero, suc, ◌+◌, ◌≤◌, ◌<◌, ◌≡◌, refl, sym, ap, ◌∙◌, true, some, List, [], ◌∷◌, ◌++◌, map, arith,
  length, take, drop, take-append-drop, length-take,
}
use acidblood.Text.{Text}
use acidblood.Network.{SocketInfo, Outside}
use acidblood.Network.Buffer.{
  Received, byte, get_at, set_at, store, cut_line, read_round, getline_server,
}
use acidblood.Network.Lines.{
  at-front, get-front, getline-bytes, round-byte, set-front, holding, NoNewline,
}

set-second :
    (front back : Text) (a b c : ℕ)
    → set_at (suc (length front)) c (front ++ a ∷ b ∷ back) ≡ some (front ++ a ∷ c ∷ back)
unfolding set_at
set-second [] back a b c = refl
set-second (d ∷ front) back a b c = rw (set-second front back a b c) refl

get-second :
    (front back : Text) (a c : ℕ) → get_at (suc (length front)) (front ++ a ∷ c ∷ back) ≡ some c
unfolding get_at
get-second [] back a c = refl
get-second (d ∷ front) back a c = get-second front back a c

cut-front :
    (front back : Text) (b : ℕ)
    → cut_line (suc (length front)) (front ++ b'\r' ∷ b ∷ back) ≡ some (front ++ 0 ∷ 0 ∷ back)
unfolding cut_line
cut-front front back b =
    rw (set-second front back b'\r' b 0, get-front front (0 ∷ back) b'\r')
      (set-front front (0 ∷ back) b'\r' 0)

drop-two :
    (n : ℕ) (xs : Text)
    → n + 2 ≤ length xs
    → (b : ℕ) × (b' : ℕ) × (drop n xs ≡ b ∷ b' ∷ drop 2 (drop n xs))
drop-two n [] h = absurd (omega (arith, h))
drop-two zero (b ∷ []) h = absurd (omega (arith, h))
drop-two zero (b ∷ b' ∷ xs) h = (b, b', refl)
drop-two (suc n) (b ∷ xs) h = drop-two n xs (omega (arith, h))

round-line :
    (o : Outside) (now : ℕ) (s : SocketInfo) (front back : Text) (b : ℕ)
    → read_round o now
        (byte b'\n')
        (record s { buff = front ++ b'\r' ∷ b ∷ back; buffpos = suc (length front) })
      ≡ some (
        true,
        record s {
          buff = front ++ 0 ∷ 0 ∷ back;
          buffpos = suc (length front);
          lastrcvpacket = now;
        },
      )
unfolding read_round store
round-line o now s front back b =
    rw (set-second front back b'\r' b b'\n', get-second front back b'\r' b'\n')
      (rw (cut-front front back b'\n') refl)

getline-end :
    (o : Outside) (now t : ℕ) (s : SocketInfo) (front back : Text) (b b' : ℕ) (rs : List Received)
    → length front < 1500
    → getline_server o now (holding s front (b ∷ b' ∷ back)) t (byte b'\r' ∷ byte b'\n' ∷ rs)
      ≡ some (
        1,
        record s { buff = front ++ 0 ∷ 0 ∷ back; buffpos = 0; lastrcvpacket = now },
        t + 2,
        rs,
      )
unfolding getline_server
getline-end o now t s front back b b' rs n =
    let z : suc (suc t) ≡ t + 2 = omega arith in
    rw (getline_server, round-byte o now s front (b' ∷ back) b b'\r' refl (omega arith))
      (rw (getline_server, round-line o now s front back b') (rw z refl))

-- A line that ends in a carriage return and a newline is read whole, with a NUL for each of them,
-- where it fits the buffer of 1500 bytes with both.
pub getline-line :
    (o : Outside) (now t : ℕ) (s : SocketInfo) (line : Text) (rs : List Received)
    → s.buffpos ≡ 0
    → length s.buff ≡ 1500
    → NoNewline line
    → length line + 2 ≤ 1500
    → getline_server o now s t (map byte line ++ byte b'\r' ∷ byte b'\n' ∷ rs)
      ≡ some (
        1,
        record s {
          buff = line ++ 0 ∷ 0 ∷ drop 2 (drop (length line) s.buff);
          buffpos = 0;
          lastrcvpacket = now;
        },
        t + length line + 2,
        rs,
      )
getline-line o now t s line rs z l h n =
    let (b, b', d) = drop-two (length line) s.buff (omega (arith, l)) in
    let over = take (length line) s.buff in
    let back = drop 2 (drop (length line) s.buff) in
    let whole : s.buff ≡ over ++ b ∷ b' ∷ back =
      sym (take-append-drop (length line) s.buff) ∙ ap (λ r. over ++ r) d in
    let m : length over ≡ length line = omega (arith, l, length-take (length line) s.buff) in
    let next =
      getline-bytes o now s [] line over (b ∷ b' ∷ back) t (byte b'\r' ∷ byte b'\n' ∷ rs) h m
        (omega arith) in
    (rw (at-front s (over ++ b ∷ b' ∷ back) whole z) at next)
    ∙ getline-end o now (t + length line) s line back b b' rs (omega arith)
