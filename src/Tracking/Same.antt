-- ===== src/Tracking/Same.antt =====
-- Steps of src/tracking.c and src/list.c that move no user and no channel.
use mathlib.Core.Option
use acidblood.Common.{
  ℕ, ◌≡◌, refl, sym, ap, ◌∙◌, inl, inr, Option, some, List, [], ◌∷◌, arith, ◌==◌, if◌then◌else◌,
  ==_iff, Bool-cases, After, After-bind, After-search, ℤ,
}
use acidblood.Text.{Text}
use acidblood.Access.{set_access, set_chan_access}
use acidblood.Tracking.{
  Entry, User, Channel, Server, Policy, put, look, nick_of, name_of, put_user, put_channel,
  put_access, put_first_access, get_channel, set_access_of, set_chan_access_of,
}
use acidblood.Tracking.Counting.{occurs}
use acidblood.Tracking.Sound.{
  live, itself, channels_of, users_of, joins, members, nick_at, IsSound, IsSame, IsSame-refl,
  IsSame-IsSound,
}

module _ {A : Type 0} (f : ℕ → Option A) (u : ℕ) (v w : A) (t : ℕ) (h : f u ≡ some v) where
  live-put : live (put f u (some w) t) ≡ live (f t)
  unfolding live put
  live-put = ground arith

  -- A field of what stands at an address, unless it is one of the new value's.
  pub put_same :
      {B : Type 0} (g : Option A → B) → g (some w) ≡ g (some v) → g (put f u (some w) t) ≡ g (f t)
  unfolding put
  put_same g e = elim (Bool-cases (t == u)) [
    | inl q ↦ let r = (==_iff t u).0 q in rw q (e ∙ ap g (sym h) ∙ ap (λ z. g (f z)) (sym r))
    | inr q ↦ rw q refl
  ]

pub put_user-IsSame :
    (s : Server) (u : ℕ) (v w : User)
    → s.user_at u ≡ some v
    → w.nick ≡ v.nick
    → IsSame s (put_user s u w)
unfolding nick_at
put_user-IsSame s u v w h n = record {
  own_nick = refl;
  ulists = λ t. refl;
  clists = λ t. refl;
  users_live = λ t. live-put s.user_at u v w t h;
  channels_live = λ t. refl;
  same_nicks = λ t. put_same s.user_at u v w t h (λ o. Option.map User.nick o) (ap some n);
  same_names = λ t. refl;
}

pub put_channel-IsSame :
    (s : Server) (c : ℕ) (v w : Channel)
    → s.channel_at c ≡ some v
    → w.name ≡ v.name
    → IsSame s (put_channel s c w)
unfolding name_of
put_channel-IsSame s c v w h n = record {
  own_nick = refl;
  ulists = λ t. refl;
  clists = λ t. refl;
  users_live = λ t. refl;
  channels_live = λ t. live-put s.channel_at c v w t h;
  same_nicks = λ t. refl;
  same_names = λ t. put_same s.channel_at c v w t h (λ o. Option.map Channel.name o) (ap some n);
}

-- A user with other channels, and a channel with other users.
pub joins-put :
    (f : ℕ → Option User) (u : ℕ) (w : User) (t c : ℕ)
    → joins (put f u (some w)) t c ≡ (if t == u then occurs itself c w.channels else joins f t c)
unfolding put channels_of
joins-put f u w t c = elim (Bool-cases (t == u)) [ inl q ↦ rw q refl | inr q ↦ rw q refl ]

pub members-put :
    (f : ℕ → Option Channel) (d : ℕ) (w : Channel) (t c : ℕ)
    → members (put f d (some w)) t c
      ≡ (if c == d then occurs Entry.userinfo t w.users else members f t c)
unfolding put users_of
members-put f d w t c = elim (Bool-cases (c == d)) [ inl q ↦ rw q refl | inr q ↦ rw q refl ]

occurs-put_access :
    (t u : ℕ) (a : ℤ) (es : List Entry)
    → occurs Entry.userinfo t (put_access u a es) ≡ occurs Entry.userinfo t es
unfolding occurs put_access
occurs-put_access t u a [] = refl
occurs-put_access t u a (e ∷ es) = ground (arith, occurs-put_access t u a es)

occurs-put_first :
    (t : ℕ) (by : Entry → Option Text) (n : Text) (a : ℤ) (es : List Entry)
    → occurs Entry.userinfo t (put_first_access by n a es) ≡ occurs Entry.userinfo t es
unfolding occurs put_first_access
occurs-put_first t by n a [] = refl
occurs-put_first t by n a (e ∷ es) = ground (arith, occurs-put_first t by n a es)

-- The access alone changes, and with it no user in memory.
pub record IsKept (s s' : Server) : Type 0 where
  pub same : IsSame s s'
  pub users : s'.user_at ≡ s.user_at
  pub kept : (t c : ℕ) → members s'.channel_at t c ≡ members s.channel_at t c

IsKept-refl : (s : Server) → IsKept s s
IsKept-refl s = record { same = IsSame-refl s; users = refl; kept = λ t c. refl }

put_access-IsKept :
    (s : Server) (u : ℕ) (a : ℤ) → IsKept s (record s { ulist = put_access u a s.ulist })
put_access-IsKept s u a = record {
  same = record {
    own_nick = refl;
    ulists = λ t. occurs-put_access t u a s.ulist;
    clists = λ t. refl;
    users_live = λ t. refl;
    channels_live = λ t. refl;
    same_nicks = λ t. refl;
    same_names = λ t. refl;
  };
  users = refl;
  kept = λ t c. refl;
}

abbrev pub Keeps : Server → Server × List Text → Type 0
Keeps s r = IsKept s r.0

pub set_access_of-IsKept :
    (p : Policy) (s : Server) (u : ℕ) (password : Option Text)
    → After (Keeps s) (set_access_of p s u password)
unfolding set_access_of
set_access_of-IsKept p s u password = After-bind (Keeps s) (s.user_at u) _ (λ v e.
    After-bind (Keeps s) (set_access p.userdata p.reqpass _ password) _
      (λ r f. put_access-IsKept s u r.0))

abbrev with_access : Server → Channel → Text → ℤ → Channel
with_access s ch n a = record ch { users = put_first_access (nick_of s.user_at) n a ch.users }

with_access-IsKept :
    (s : Server) (c : ℕ) (ch : Channel) (n : Text) (a : ℤ)
    → s.channel_at c ≡ some ch
    → IsKept s (put_channel s c (with_access s ch n a))
unfolding users_of
with_access-IsKept s c ch n a h =
    let users_with : (t : ℕ)
        → occurs Entry.userinfo t (users_of (some (with_access s ch n a)))
          ≡ occurs Entry.userinfo t (users_of (some ch)) =
      λ t. occurs-put_first t (nick_of s.user_at) n a ch.users in
    record {
      same = put_channel-IsSame s c ch (with_access s ch n a) h refl;
      users = refl;
      kept = λ t d.
          put_same s.channel_at c ch (with_access s ch n a) d h
            (λ o. occurs Entry.userinfo t (users_of o)) (users_with t);
    }

pub set_chan_access_of-IsKept :
    (p : Policy) (s : Server) (u : ℕ) (channel : Text) (password : Option Text)
    → After (Keeps s) (set_chan_access_of p s u channel password)
unfolding set_chan_access_of
set_chan_access_of-IsKept p s u channel password = After-bind (Keeps s) (s.user_at u) _ (λ v e.
    After-search (Keeps s) (get_channel s channel) _ (λ f. IsKept-refl s)
      (λ (c, ds) f. After-bind (Keeps s) (s.channel_at c) _ (λ ch g.
        After-search (Keeps s) (look (nick_of s.user_at) v.nick ch.users) _ (λ l. tt)
          (λ m l.
            After-bind (Keeps s) (set_chan_access p.userdata p.reqpass _ channel password) _
              (λ r q. with_access-IsKept s c ch v.nick r.0 g)))))

pub IsKept-IsSound : (s s' : Server) → IsKept s s' → IsSound s → IsSound s'
IsKept-IsSound s s' k i =
    IsSame-IsSound s s' (k.same)
      (λ t c. ap (λ f. joins f t c) (k.users) ∙ i.linked t c ∙ sym (k.kept t c)) i
