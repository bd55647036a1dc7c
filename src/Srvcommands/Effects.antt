-- ===== src/Srvcommands/Effects.antt =====
-- What QUIT, PART and KICK of src/srvcommands.c leave of a server's users and channels.
use acidblood.Common.{
  ℕ, ◌<◌, ◌≡◌, refl, sym, subst, ◌≢◌, inl, inr, true, false, Option, none, some, [], ◌∷◌, ◌++◌,
  Bool-cases, length, After, After-bind, After-then, After-elim, After-if,
}
use acidblood.Text.{Text, strcaseeq, at_byte}
use acidblood.Text.Tokens.{Free}
use acidblood.Parser.{InputStruct}
use acidblood.Parser.Prefix.{convert_clientinfo-full}
use acidblood.Tracking.{User, Server, get_user}
use acidblood.Tracking.Removal.{del_user_from_channel}
use acidblood.Tracking.Sound.{IsSound, nick_at, joins}
use acidblood.Tracking.Quitting.{del_user_from_channel-ends}
use acidblood.Tracking.Gone.{quit_user-ends}
use acidblood.Srvcommands.{
  told, client_of, strip_at, first_and_rest, part_by, sm_part, sm_quit, kick_words, sm_kick,
}

-- A prefix as servers write it.
abbrev pub prefix_of : Text → Text → Text → Text
prefix_of nick ident address = b':' ∷ (nick ++ b'!' ∷ (ident ++ b'@' ∷ address))

-- QUIT in the line of a server, with a prefix :nick!ident@address of three parts that are not empty,
-- the nick without an exclamation mark, the ident without an at sign and the address without a colon
-- at its end, of a nick that is not the bot's: it ends without a fault with fuel above the number of
-- the user's channels, no user of that nick is found any more, the users of other nicks are in the
-- channels they were in, the invariant holds as before, and the triggers of QUIT are told the nick
-- and the parameters.
pub sm_quit-gone :
    (fuel : ℕ) (s : Server) (n : ℕ) (ns : Text) (i : ℕ) (is a : Text) (z : ℕ)
    (command params : Option Text)
    → IsSound s
    → Free (at_byte b'!') (n ∷ ns)
    → Free (at_byte b'@') (i ∷ is)
    → z ≢ b':'
    → strcaseeq (some (n ∷ ns)) (some s.nick) ≡ false
    → ((u : ℕ) (v : User)
        → s.user_at u ≡ some v
        → strcaseeq (some v.nick) (some (n ∷ ns)) ≡ true
        → length v.channels < fuel)
    → (s' : Server) × (sm_quit fuel s (record {
      prefix = some (prefix_of (n ∷ ns) (i ∷ is) (a ++ z ∷ []));
      command = command;
      params = params;
    })
        ≡ some (s', told 4 (some (n ∷ ns)) none params ∷ []))
      × IsSound s'
      × (get_user s' (n ∷ ns) ≡ some none)
      × ((t d : ℕ)
          → strcaseeq (nick_at s.user_at t) (some (n ∷ ns)) ≡ false
          → joins s'.user_at t d ≡ joins s.user_at t d)
unfolding sm_quit
sm_quit-gone fuel s n ns i is a z command params sound hn hi hz o l =
    let (s', e, k, g, j) = quit_user-ends fuel s (n ∷ ns) sound o l in
    (s', rw (convert_clientinfo-full (some s) n ns i is a z hn hi hz) (rw e refl), k, g, j)

abbrev SoundFirst : {A : Type 0} → Server × A → Type 0
SoundFirst r = IsSound r.0

part-IsSound :
    (s : Server) (nick channel : Text)
    → IsSound s
    → After IsSound (del_user_from_channel s nick channel)
unfolding del_user_from_channel
part-IsSound s nick channel i = elim (Bool-cases (strcaseeq (some nick) (some s.nick))) [
  | inl o ↦ rw (del_user_from_channel, o) i
  | inr o ↦
      let (s', e, k, same, j) = del_user_from_channel-ends s nick channel i o in
      subst (After IsSound) (sym e) k
]

part_by-IsSound :
    (s : Server) (nick : Option Text) (channel : Text)
    → IsSound s
    → After IsSound (part_by s nick channel)
part_by-IsSound s none channel i = i
part_by-IsSound s (some nick) channel i = part-IsSound s nick channel i

-- PART and KICK keep the invariant, whatever the line is, the bot's own included: wherever they do
-- not read through NULL or outside a text.
sm_part-IsSound :
    (s : Server) (is : InputStruct)
    → IsSound s
    → After (λ r. IsSound r.0) (sm_part s is) × After (λ r. IsSound r.0) (sm_kick s is)
unfolding sm_part sm_kick
sm_part-IsSound s is i = (
  After-bind _ (client_of s is) _ (λ client e.
      After-bind _ (strip_at b':' (first_and_rest is.params).0) _ (λ t e1.
        After-bind _ (strip_at b'\r' (some t)) _ (λ channel e2.
          After-if _ (strcaseeq client.nick (some s.nick)) _ _ (λ o. i)
            (λ o.
              After-then IsSound _ (part_by s client.nick channel) _
                (part_by-IsSound s client.nick channel i) (λ s' k. k))))),
  After-bind _ (client_of s is) _ (λ client e.
      After-bind _ (strip_at b' ' (kick_words is.params).1) _ (λ nick e1.
        After-then IsSound _ _ _
          (After-elim IsSound (kick_words is.params).0 (some s)
            (λ c. del_user_from_channel s nick c) i (λ c e2. part-IsSound s nick c i))
          (λ s' k. After-bind _ (kick_words is.params).2 _ (λ why e3. k)))),
)
