-- ===== src/Chanop/Safety.antt =====
-- Who makes the bot do what in dmodules/chanop/chanop.c.
use acidblood.Common.{
  ℕ, zero, suc, ◌≡◌, refl, ap, true, false, ◌&&◌, Option, none, some, List, [], ◌∷◌, ◌++◌, arith,
  codes, length, drop, All, All-append, After, After-bind, After-elim, ℤ, pos, negsuc, leb_ℤ, ltb_ℤ,
}
use acidblood.Text.{Text, strcaseeq}
use acidblood.Sending.{prefix_of, send_chunks, send_private, msgreply}
use acidblood.Settings.{BotStruct}
use acidblood.Tracking.{Entry, Server, Policy, get_from_channel, get_channel_access}
use acidblood.Chanop.{words, or_here, access_on, msg_op, msg_opuser, deop_target, msg_deop}
use acidblood.Chanop.Channel.{
  both, on_channel, msg_topic, msg_mode, kick_words, kick_target, msg_kick,
}

-- A line that only says something.
abbrev pub IsPrivmsg : Text → Type 0
IsPrivmsg line = (rest : Text) × (line ≡ codes "PRIVMSG " ++ rest)

chunks-private :
    (fuel : ℕ) (nick : Text) (lenmod : ℕ) (text : Text)
    → All IsPrivmsg (send_chunks fuel (prefix_of nick) lenmod text)
unfolding send_chunks
chunks-private zero nick lenmod text = tt
chunks-private (suc fuel) nick lenmod [] = tt
chunks-private (suc fuel) nick lenmod (c ∷ text) =
    ((_, refl), chunks-private fuel nick lenmod (drop lenmod (c ∷ text)))

reply-private : (replyto text : Text) → All IsPrivmsg (msgreply replyto text)
unfolding msgreply
reply-private replyto text = chunks-private (length text) replyto _ text

send_private-private : (nick text : Text) → All IsPrivmsg (send_private nick text)
unfolding send_private
send_private-private nick text = chunks-private (length text) nick _ text

-- A user who is banned everywhere, or in no channel.
abbrev pub NoAccess : Server → ℕ → Type 0
NoAccess s u = (channel : Text) → (n : ℕ) × (get_channel_access s u channel ≡ some (negsuc n))

abbrev pub OnlySays : Option (List Text) → Type 0
OnlySays = After (All IsPrivmsg)

pub negative : (n : ℕ) → ltb_ℤ (negsuc n) (pos 0) ≡ true
negative n = ground arith

not_positive : (n : ℕ) → leb_ℤ (pos 0) (negsuc n) ≡ false
not_positive n = ground arith

no-access_on :
    (s : Server) (u : ℕ) (channel : Option Text)
    → NoAccess s u
    → (n : ℕ) × (access_on s u channel ≡ some (negsuc n))
no-access_on s u none h = (0, refl)
no-access_on s u (some channel) h = h channel

on_channel-private :
    (s : Server) (u : ℕ) (replyto : Text) (text : Option Text) (usage : Text)
    (send : Text → Text → List Text)
    → NoAccess s u
    → OnlySays (on_channel s u replyto text usage send)
on_channel-private s u replyto text usage send h =
    After-elim (All IsPrivmsg) (both (words text)) _ _ (reply-private replyto usage)
      (λ (channel, rest) e.
        let (n, q) = h channel in rw q (rw (negative n) (reply-private replyto _)))

opuser-private :
    (s : Server) (u : ℕ) (replyto : Text) (text : Option Text)
    → NoAccess s u
    → OnlySays (msg_opuser s u replyto text)
unfolding msg_opuser
opuser-private s u replyto none h = reply-private replyto _
opuser-private s u replyto (some text) h =
    let (n, q) = no-access_on s u (words (some text)).0 h in
    rw q (rw (not_positive n) (reply-private replyto _))

deop-private :
    (s : Server) (u : ℕ) (replyto : Text) (text : Option Text)
    → NoAccess s u
    → OnlySays (msg_deop s u replyto text)
unfolding msg_deop
deop-private s u replyto text h =
    After-elim (All IsPrivmsg) (or_here (words text).0 replyto) _ _ (reply-private replyto _)
      (λ channel e.
        let (n, q) = h channel in
        rw q (
          After-bind (All IsPrivmsg) (s.user_at u) _
            (λ v f. rw (negative n) (reply-private replyto _))))

-- The nick to kick is not the bot's.
abbrev pub KicksOther : Server → Option Text → Type 0
KicksOther s text =
    (channel nick : Text)
    → both ((kick_words text).0, (kick_words text).1) ≡ some (channel, nick)
    → strcaseeq (some nick) (some s.nick) ≡ false

kick-private :
    (s : Server) (u : ℕ) (replyto : Text) (text : Option Text)
    → NoAccess s u
    → KicksOther s text
    → OnlySays (msg_kick s u replyto text)
unfolding msg_kick
kick-private s u replyto text h b =
    After-elim (All IsPrivmsg) (both ((kick_words text).0, (kick_words text).1)) _ _
      (reply-private replyto _)
      (λ (channel, nick) e.
        let (n, q) = h channel in
        After-bind (All IsPrivmsg) (s.user_at u) _
          (λ v f. rw (b channel nick e, q) (rw (negative n) (reply-private replyto _))))

-- What a command without a change of the server sends.
abbrev pub OnlySaysOn : Server → Option (Server × List Text) → Type 0
OnlySaysOn s = After (λ (r : Server × List Text). (r.0 ≡ s) × All IsPrivmsg r.1)

op-private :
    (botinfo : BotStruct) (p : Policy) (s : Server) (u : ℕ) (replyto : Text) (text : Option Text)
    → NoAccess s u
    → (words text).1 ≡ none
    → OnlySaysOn s (msg_op botinfo p s u replyto text)
unfolding msg_op
op-private botinfo p s u replyto text h w =
    After-elim (λ r. (r.0 ≡ s) × All IsPrivmsg r.1) (or_here (words text).0 replyto) _ _
      (refl, reply-private replyto _)
      (λ channel e.
        let (n, q) = h channel in
        rw w (
          rw q (
            After-bind _ (s.user_at u) _ (λ v f.
              (refl, rw (negative n) (reply-private replyto (codes "Authorization failed!")))))))

-- A user whose access is negative on every channel (banned there, or not in it) only makes the bot
-- say something, whatever the data are: OPUSER, DEOP, TOPIC, MODE, KICK of a nick that is not the
-- bot's, and OP without a password, which leaves the server as it was.
pub chanop-private :
    (botinfo : BotStruct) (p : Policy) (s : Server) (u : ℕ) (replyto : Text)
    (text kick op : Option Text)
    → NoAccess s u
    → KicksOther s kick
    → (words op).1 ≡ none
    → OnlySays (msg_opuser s u replyto text)
      × OnlySays (msg_deop s u replyto text)
      × OnlySays (msg_topic s u replyto text)
      × OnlySays (msg_mode s u replyto text)
      × OnlySays (msg_kick s u replyto kick)
      × OnlySaysOn s (msg_op botinfo p s u replyto op)
unfolding msg_topic msg_mode
chanop-private botinfo p s u replyto text kick op h k w = (
  opuser-private s u replyto text h,
  deop-private s u replyto text h,
  on_channel-private s u replyto text _ _ h,
  on_channel-private s u replyto text _ _ h,
  kick-private s u replyto kick h k,
  op-private botinfo p s u replyto op h w,
)

-- The target has access, and more than `access`, which is the smaller number.
abbrev pub Outranks : ℤ → ℤ → Type 0
Outranks target access = (leb_ℤ (pos 0) target && ltb_ℤ target access) ≡ true

Outranks-access : (t a : ℤ) → Outranks t a → ltb_ℤ a (pos 0) ≡ false
Outranks-access (pos m) (pos n) h = ground arith
Outranks-access (pos m) (negsuc n) h = absurd (ground (arith, h))
Outranks-access (negsuc m) a h = absurd (ground (arith, h))

-- A user of a channel with access there, and more than the one who asks has, is neither deopped nor
-- kicked by DEOP and KICK: they only say something, where the nick is not the bot's.
pub chanop-protects :
    (s : Server) (u : ℕ) (replyto : Text) (deop kick : Option Text) (channel nick : Text)
    (e : Entry) (message : Option Text) (access : ℤ)
    → get_channel_access s u channel ≡ some access
    → get_from_channel s nick channel ≡ some (some e)
    → Outranks e.access access
    → words deop ≡ (some channel, some nick)
    → kick_words kick ≡ (some channel, some nick, message)
    → strcaseeq (some nick) (some s.nick) ≡ false
    → OnlySays (msg_deop s u replyto deop) × OnlySays (msg_kick s u replyto kick)
unfolding msg_deop msg_kick deop_target kick_target
chanop-protects s u replyto deop kick channel nick e message access a m o w w' b =
    let free = Outranks-access e.access access o in
    (
      rw (msg_deop, ap (λ x. x.0) w, ap (λ x. x.1) w)
          (rw a (
            After-bind (All IsPrivmsg) (s.user_at u) _ (λ v f. rw free (
              rw m (
                After-bind (All IsPrivmsg) (s.user_at e.userinfo) _ (λ t g. rw o (
                  All-append IsPrivmsg _ _ (send_private-private t.nick _)
                    (reply-private replyto _)))))))),
      rw (msg_kick, ap (λ x. x.0) w', ap (λ x. x.1) w')
          (After-bind (All IsPrivmsg) (s.user_at u) _ (λ v f.
            rw (b, a)
              (rw free (
                rw m (
                  After-bind (All IsPrivmsg) (s.user_at e.userinfo) _ (λ t g. rw o (
                    All-append IsPrivmsg _ _ (send_private-private t.nick _)
                      (send_private-private replyto _)))))))),
    )
