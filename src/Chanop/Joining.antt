-- ===== src/Chanop/Joining.antt =====
-- Whom the module dmodules/chanop/chanop.c ops on joining a channel.
use acidblood.Common.{
  ℕ, ◌≡◌, refl, ap, true, Option, none, some, [], ◌∷◌, arith, codes, ℤ, pos, negsuc, leb_ℤ,
}
use acidblood.Text.{Text}
use acidblood.Sending.{msgreply}
use acidblood.Settings.{BotStruct}
use acidblood.Tracking.{Entry, User, Server, Policy, get_from_channel, get_channel_access}
use acidblood.Chanop.{mode_line, user_join, words, msg_op}
use acidblood.Chanop.Safety.{negative}

below_level : (n : ℕ) (a : ℤ) → leb_ℤ (pos 0) a ≡ true → leb_ℤ (negsuc n) a ≡ true
below_level n (pos m) h = ground arith
below_level n (negsuc m) h = absurd (ground (arith, h))

-- A user in a channel whose access there is negative, as that of the banned is, is opped on joining
-- where AUTOOP is on and OPLEVEL not negative; OP without a password refuses the same user.
pub user_join-negative :
    (botinfo : BotStruct) (p : Policy) (s : Server) (nick channel : Text) (e : Entry) (v : User)
    (n : ℕ) (replyto : Text) (text : Option Text)
    → botinfo.autoop ≡ true
    → leb_ℤ (pos 0) botinfo.oplevel ≡ true
    → get_from_channel s nick channel ≡ some (some e)
    → get_channel_access s e.userinfo channel ≡ some (negsuc n)
    → s.user_at e.userinfo ≡ some v
    → words text ≡ (some channel, none)
    → (user_join botinfo s nick channel ≡ some (mode_line channel (codes "+o") nick ∷ []))
      × (msg_op botinfo p s e.userinfo replyto text
          ≡ some (s, msgreply replyto (codes "Authorization failed!")))
unfolding user_join msg_op
user_join-negative botinfo p s nick channel e v n replyto text a l m g w t =
    let below : leb_ℤ (negsuc n) botinfo.oplevel ≡ true = below_level n botinfo.oplevel l in
    (
      rw (a, m, g) (rw below refl),
      rw (msg_op, ap (λ x. x.0) t, ap (λ x. x.1) t) (rw (g, w) (rw (negative n) refl)),
    )
