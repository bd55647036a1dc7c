-- ===== src/Servers/Reading.antt =====
-- A line of the server from the bytes that come in to the parts that are handled: `server_action`,
-- `getline_server`, `parse_server` and `SplitInput` together.
use acidblood.Common.{
  ℕ, ◌+◌, ◌≤◌, ◌≡◌, refl, ap, ◌∙◌, ◌↔◌, ◌⊎◌, inl, inr, Bool, true, false, ◌&&◌, ◌||◌, Option, some,
  List, [], ◌∷◌, ◌++◌, map, arith, leb, ◌==◌, Bool-cases, length, drop, All,
}
use acidblood.Text.{Text, at_byte}
use acidblood.Text.Tokens.{Free, strtok-stop, strtok-last}
use acidblood.Parser.{InputStruct, split_input}
use acidblood.Settings.{BotStruct}
use acidblood.Network.{net_read, SocketInfo, Outside}
use acidblood.Network.Buffer.{Received, byte}
use acidblood.Network.Lines.{NoNewline}
use acidblood.Network.Endings.{getline-line}
use acidblood.Tracking.Servers.{ServerItem}
use acidblood.Servers.Action.{line_of, second_is_letter, parse_server, server_action}

line-before :
    (line more : Text) → All (λ c. (c == 0) ≡ false) line → line_of (line ++ 0 ∷ more) ≡ line
line-before [] more h = refl
line-before (c ∷ line) more (g, h) = rw g (ap (◌∷◌ c) (line-before line more h))

-- A line as the server writes it.
abbrev pub written : Text → Text → Text → Text
written p c a = b':' ∷ p ++ b' ' ∷ (c ++ b' ' ∷ a)

split-written :
    (p : Text) (c : ℕ) (cs : Text) (a : ℕ) (as' : Text)
    → Free (at_byte b' ') p
    → Free (at_byte b' ') (c ∷ cs)
    → Free (at_byte 13) (a ∷ as')
    → split_input (written p (c ∷ cs) (a ∷ as'))
      ≡ record { prefix = some (b':' ∷ p); command = some (c ∷ cs); params = some (a ∷ as') }
unfolding split_input
split-written p c cs a as' hp hc ha = ground (
  arith,
  strtok-stop (at_byte b' ') b':' p b' ' (c ∷ cs ++ b' ' ∷ (a ∷ as')),
  strtok-stop (at_byte b' ') c cs b' ' (a ∷ as'),
  strtok-last (at_byte 13) a as',
)

parse-line :
    (buff line command : Text) (prefix params : Option Text)
    → line_of buff ≡ line
    → split_input line ≡ record { prefix = prefix; command = some command; params = params }
    → parse_server buff
      ≡ some (
        second_is_letter command,
        record { prefix = prefix; command = some command; params = params },
      )
unfolding parse_server
parse-line buff line command prefix params e f =
    let g = ap split_input e ∙ f in
    let h : (split_input (line_of buff)).command ≡ some command = ap InputStruct.command g in
    rw (parse_server, h) (ap (λ is. some (second_is_letter command, is)) g)

-- A letter of the C locale.
abbrev pub IsLetter : ℕ → Type 0
IsLetter b = ((65 ≤ b) × (b ≤ 90)) ⊎ ((97 ≤ b) × (b ≤ 122))

-- The first of the bytes is a letter.
abbrev pub Starts : Text → Type 0
Starts [] = ⊥
Starts (b ∷ bs) = IsLetter b

IsLetter-range : (b : ℕ) → ((leb 65 b && leb b 90) || (leb 97 b && leb b 122) ≡ true) ↔ IsLetter b
IsLetter-range b = (
  λ e. elim (Bool-cases (leb 65 b && leb b 90)) [
    | inl h ↦ inl (ground (arith, h), ground (arith, h))
    | inr h ↦ inr (ground (arith, e, h), ground (arith, e, h))
  ],
  λ h. elim h [ inl (p, q) ↦ ground (arith, p, q) | inr (p, q) ↦ ground (arith, p, q) ],
)

second_is_letter_iff : (c : ℕ) (cs : Text) → (second_is_letter (c ∷ cs) ≡ true) ↔ Starts cs
second_is_letter_iff c [] = (λ e. cc, λ h. absurd h)
second_is_letter_iff c (b ∷ bs) = IsLetter-range b

-- A line of a prefix, a command and parameters that is received whole, with a carriage return and a
-- newline, is handled with these three, and as one for handle_server_command exactly where the
-- second byte of the command is a letter; where the line fits the buffer with both, nothing else is
-- in the buffer, the prefix and the command hold no space, and the line no carriage return, newline
-- or NUL.
pub server_action-line :
    (o : Outside) (now : ℕ) (botinfo : BotStruct) (servers : List ServerItem) (n : ℕ)
    (handle : Bool × InputStruct → SocketInfo → Option SocketInfo) (s : SocketInfo) (p : Text)
    (c : ℕ) (cs : Text) (a : ℕ) (as' : Text) (more : List Received)
    → s.buffpos ≡ 0
    → length s.buff ≡ 1500
    → length (written p (c ∷ cs) (a ∷ as')) + 2 ≤ 1500
    → NoNewline (written p (c ∷ cs) (a ∷ as'))
    → All (λ b. (b == 0) ≡ false) (written p (c ∷ cs) (a ∷ as'))
    → Free (at_byte b' ') p
    → Free (at_byte b' ') (c ∷ cs)
    → Free (at_byte 13) (a ∷ as')
    → (buff : Text) × (letter : Bool) × ((letter ≡ true) ↔ Starts cs)
      × (server_action o now botinfo servers n
            (map byte (written p (c ∷ cs) (a ∷ as')) ++ byte b'\r' ∷ byte b'\n' ∷ more)
            handle
            net_read
            s
          ≡ handle
              (
                letter,
                record {
                  prefix = some (b':' ∷ p);
                  command = some (c ∷ cs);
                  params = some (a ∷ as');
                },
              )
              (record s { buff = buff; buffpos = 0; lastrcvpacket = now }))
unfolding server_action
server_action-line o now botinfo servers n handle s p c cs a as' more z l m h f hp hc ha =
    let line = written p (c ∷ cs) (a ∷ as') in
    let back = 0 ∷ drop 2 (drop (length line) s.buff) in
    (
      line ++ 0 ∷ back,
      second_is_letter (c ∷ cs),
      second_is_letter_iff c cs,
      rw (getline-line o now 0 s line more z l h m) (
          rw
            (parse-line (line ++ 0 ∷ back) line (c ∷ cs) _ _ (line-before line back f)
              (split-written p c cs a as' hp hc ha))
            refl),
    )
