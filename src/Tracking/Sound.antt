-- ===== src/Tracking/Sound.antt =====
-- The invariant of a server's users and channels, and the steps of src/tracking.c that keep it.
use mathlib.Core.Option
use acidblood.Common.{ℕ, ◌≡◌, refl, sym, ◌∙◌, true, false, Option, none, some, List, []}
use acidblood.Text.{Text, strcaseeq}
use acidblood.Tracking.{Entry, User, Channel, Server, name_of}
use acidblood.Tracking.Counting.{AreUnique, occurs}

unfoldable pub live : {A : Type 0} → Option A → ℕ
live none = 0
live (some x) = 1

unfoldable pub itself : ℕ → ℕ
itself c = c

unfoldable pub channels_of : Option User → List ℕ
channels_of none = []
channels_of (some v) = v.channels

unfoldable pub users_of : Option Channel → List Entry
users_of none = []
users_of (some ch) = ch.users

-- How often a user's list holds a channel, and a channel's list a user.
abbrev pub joins : (ℕ → Option User) → ℕ → ℕ → ℕ
joins user_at u c = occurs itself c (channels_of (user_at u))

abbrev pub members : (ℕ → Option Channel) → ℕ → ℕ → ℕ
members channel_at u c = occurs Entry.userinfo u (users_of (channel_at c))

unfoldable pub nick_at : (ℕ → Option User) → ℕ → Option Text
nick_at user_at u = Option.map User.nick (user_at u)

-- The lists hold what stands in memory, each once; a user's list holds a channel as often as that
-- one's holds the user; no two users have one nick, and none the bot's; no two channels have one
-- name; and no nick and no name is empty.
pub record IsSound (s : Server) : Type 0 where
  pub users_once : (u : ℕ) → occurs Entry.userinfo u s.ulist ≡ live (s.user_at u)
  pub channels_once : (c : ℕ) → occurs itself c s.clist ≡ live (s.channel_at c)
  pub linked : (u c : ℕ) → joins s.user_at u c ≡ members s.channel_at u c
  pub nicks : AreUnique (nick_at s.user_at)
  pub names : AreUnique (name_of s.channel_at)
  pub nicked :
      (u : ℕ) (n : Text)
      → nick_at s.user_at u ≡ some n
      → (strcaseeq (some n) (some n) ≡ true) × (strcaseeq (some n) (some s.nick) ≡ false)
  pub named :
      (c : ℕ) (n : Text) → name_of s.channel_at c ≡ some n → strcaseeq (some n) (some n) ≡ true

-- What two states agree on when a step moves no user or channel, but for the links.
pub record IsSame (s s' : Server) : Type 0 where
  pub own_nick : s'.nick ≡ s.nick
  pub ulists : (u : ℕ) → occurs Entry.userinfo u s'.ulist ≡ occurs Entry.userinfo u s.ulist
  pub clists : (c : ℕ) → occurs itself c s'.clist ≡ occurs itself c s.clist
  pub users_live : (u : ℕ) → live (s'.user_at u) ≡ live (s.user_at u)
  pub channels_live : (c : ℕ) → live (s'.channel_at c) ≡ live (s.channel_at c)
  pub same_nicks : (u : ℕ) → nick_at s'.user_at u ≡ nick_at s.user_at u
  pub same_names : (c : ℕ) → name_of s'.channel_at c ≡ name_of s.channel_at c

pub IsSame-IsSound :
    (s s' : Server)
    → IsSame s s'
    → ((u c : ℕ) → joins s'.user_at u c ≡ members s'.channel_at u c)
    → IsSound s
    → IsSound s'
IsSame-IsSound s s' e l i = record {
  users_once = λ u. e.ulists u ∙ i.users_once u ∙ sym (e.users_live u);
  channels_once = λ c. e.clists c ∙ i.channels_once c ∙ sym (e.channels_live c);
  linked = l;
  nicks = λ u v n p q. i.nicks u v n (rw (e.same_nicks u) at p) (rw (e.same_nicks v) at q);
  names = λ c d n p q. i.names c d n (rw (e.same_names c) at p) (rw (e.same_names d) at q);
  nicked = λ u n p. rw (e.own_nick) (i.nicked u n (sym (e.same_nicks u) ∙ p));
  named = λ c n p. i.named c n (sym (e.same_names c) ∙ p);
}

pub IsSame-refl : (s : Server) → IsSame s s
IsSame-refl s = record {
  own_nick = refl;
  ulists = λ t. refl;
  clists = λ t. refl;
  users_live = λ t. refl;
  channels_live = λ t. refl;
  same_nicks = λ t. refl;
  same_names = λ t. refl;
}

pub IsSame-trans : (s s' s'' : Server) → IsSame s s' → IsSame s' s'' → IsSame s s''
IsSame-trans s s' s'' e f = record {
  own_nick = f.own_nick ∙ e.own_nick;
  ulists = λ u. f.ulists u ∙ e.ulists u;
  clists = λ c. f.clists c ∙ e.clists c;
  users_live = λ u. f.users_live u ∙ e.users_live u;
  channels_live = λ c. f.channels_live c ∙ e.channels_live c;
  same_nicks = λ u. f.same_nicks u ∙ e.same_nicks u;
  same_names = λ c. f.same_names c ∙ e.same_names c;
}
