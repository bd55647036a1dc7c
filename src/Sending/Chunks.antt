-- ===== src/Sending/Chunks.antt =====
-- Long messages are cut up and lose nothing: `privmsg` of src/sendmsg.c.
use acidblood.Common.{
  ℕ, zero, suc, ◌+◌, ◌≤◌, ◌<◌, ◌≡◌, refl, sym, ap, ◌∙◌, ◌≢◌, List, [], ◌∷◌, ◌++◌, map, arith, codes,
  length, take, drop, take-append-drop, length-drop, All, some, lt→ltb,
}
use mathlib.Core.List.{append_assoc}
use mathlib.Core.Path.{ap₂}
use acidblood.Text.{Text}
use acidblood.Sending.{prefix_of, send_chunks, send_private, privmsg}

abbrev pub join : List Text → Text
join [] = []
join (part ∷ parts) = part ++ join parts

-- A line holds the prefix, a part of the message and a newline.
abbrev pub line_of : Text → Text → Text
line_of prefix part = prefix ++ (part ++ codes "\n")

-- The message is cut into parts that are not empty, none too long for its line, each is sent once
-- in its own line, and in order they are the message.
abbrev pub IsCut : Text → Text → List Text → Type 0
IsCut prefix message lines =
    (parts : List Text) × (lines ≡ map (line_of prefix) parts)
    × (join parts ≡ message)
    × All (λ part. (part ≢ []) × (length prefix + length part ≤ 253)) parts

take-append : (m n : ℕ) (p b : Text) → m ≡ length p + n → take m (p ++ b) ≡ p ++ take n b
take-append m n [] b e = let e' : m ≡ n = omega arith in rw e'
take-append zero n (x ∷ p) b e = absurd (omega arith)
take-append (suc m) n (x ∷ p) b e = ap (◌∷◌ x) (take-append m n p b (omega arith))

take-le : (n : ℕ) (s : Text) → length (take n s) ≤ n
take-le zero s = omega arith
take-le (suc n) [] = omega arith
take-le (suc n) (x ∷ s) = omega (arith, take-le n s)

take-ne : (n c : ℕ) (s : Text) → 0 < n → take n (c ∷ s) ≢ []
take-ne zero c s h = absurd (omega arith)
take-ne (suc n) c s h = λ e. cc

drop-lt : (n c : ℕ) (s : Text) → 0 < n → length (drop n (c ∷ s)) ≤ length s
drop-lt n c s h = omega (arith, length-drop n (c ∷ s))

send_chunks-IsCut :
    (fuel : ℕ) (prefix : Text) (lenmod : ℕ) (message : Text)
    → length message ≤ fuel
    → 0 < lenmod
    → length prefix + lenmod ≡ 253
    → IsCut prefix message (send_chunks fuel prefix lenmod message)
unfolding send_chunks
send_chunks-IsCut zero prefix lenmod [] f z e = ([], refl, refl, tt)
send_chunks-IsCut zero prefix lenmod (c ∷ s) f z e = absurd (omega arith)
send_chunks-IsCut (suc fuel) prefix lenmod [] f z e = ([], refl, refl, tt)
send_chunks-IsCut (suc fuel) prefix lenmod (c ∷ s) f z e =
    let (parts, lines, whole, good) =
      send_chunks-IsCut fuel prefix lenmod (drop lenmod (c ∷ s))
        (omega (arith, drop-lt lenmod c s z)) z e in
    (
      take lenmod (c ∷ s) ∷ parts,
      ap₂ ◌∷◌
          (ap (λ l. l ++ codes "\n") (take-append 253 lenmod prefix (c ∷ s) (sym e))
            ∙ append_assoc prefix _ _)
          lines,
      ap (◌++◌ (take lenmod (c ∷ s))) whole ∙ take-append-drop lenmod (c ∷ s),
      ((take-ne lenmod c s z, omega (arith, take-le lenmod (c ∷ s), e)), good),
    )

-- A message of at most 4095 bytes, what the buffer of `privmsg` holds, is sent whole, in lines of at
-- most 254 bytes that begin with `PRIVMSG`, the target and a colon, cut off at 99 bytes; and the loop
-- ends.
pub privmsg-IsCut :
    (nick buff : Text)
    → length buff < 4096
    → (lines : List Text) × (privmsg nick buff ≡ some lines) × IsCut (prefix_of nick) buff lines
unfolding privmsg send_private
privmsg-IsCut nick buff h = (
  send_private nick buff,
  rw (lt→ltb (length buff) 4096 h) refl,
  send_chunks-IsCut (length buff) (prefix_of nick) _ buff (omega arith)
      (omega (arith, take-le 99 (codes "PRIVMSG " ++ nick ++ codes " :")))
      (omega (arith, take-le 99 (codes "PRIVMSG " ++ nick ++ codes " :"))),
)
