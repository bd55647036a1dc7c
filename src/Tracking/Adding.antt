-- ===== src/Tracking/Adding.antt =====
-- New users and channels of src/tracking.c keep the invariant.
use mathlib.Core.Option
use acidblood.Common.{
  ℕ, ◌+◌, ◌≡◌, refl, sym, ap, ◌∙◌, subst, ◌≢◌, inl, inr, true, false, Option, none, some, [], arith,
  ◌==◌, if◌then◌else◌, ==_iff, ==_refl, Bool-cases, negsuc,
}
use acidblood.Text.{Text, strcaseeq}
use acidblood.Tracking.{Entry, User, Channel, Server, put, nick_of, name_of, get_user, get_channel}
use acidblood.Tracking.Changes.{add_user, add_channel}
use acidblood.Tracking.Counting.{occurs, occurs_end, look-missing, AreUnique-put}
use acidblood.Tracking.Sound.{live, itself, channels_of, users_of, joins, members, nick_at, IsSound}

module _ {A : Type 0} (f : ℕ → Option A) (x : ℕ) (w : A) where
  pub put_at : put f x (some w) x ≡ some w
  unfolding put
  put_at = rw (==_refl x) refl

  pub put_else : (t : ℕ) → t ≢ x → put f x (some w) t ≡ f t
  unfolding put
  put_else t n = ground arith

  pub live-put :
      f x ≡ none → (t : ℕ) → live (put f x (some w) t) ≡ (if x == t then 1 else 0) + live (f t)
  unfolding live put
  live-put e t = ground arith

pub nick_of-at : (f : ℕ → Option User) (x : Entry) → nick_of f x ≡ nick_at f (x.userinfo)
unfolding nick_of nick_at
nick_of-at f x = refl

pub name_of-at : (f : ℕ → Option Channel) (x : ℕ) → name_of f x ≡ name_of f (itself x)
unfolding itself
name_of-at f x = refl

live_named :
    (f : ℕ → Option User) (t : ℕ) (n : Text)
    → strcaseeq (nick_at f t) (some n) ≡ true
    → live (f t) ≡ 1
unfolding live nick_at strcaseeq
live_named f t n h = ground arith

live_called :
    (f : ℕ → Option Channel) (t : ℕ) (n : Text)
    → strcaseeq (name_of f t) (some n) ≡ true
    → live (f t) ≡ 1
unfolding live name_of strcaseeq
live_called f t n h = ground arith

-- Where the search ends without a user, none in memory has the nick; and so for channels.
pub no_user :
    (s : Server) (nick : Text)
    → IsSound s
    → get_user s nick ≡ some none
    → (t : ℕ) → strcaseeq (nick_at s.user_at t) (some nick) ≢ true
unfolding get_user
no_user s nick i h t e = absurd (
    omega (
      arith,
      i.users_once t,
      live_named s.user_at t nick e,
      look-missing Entry.userinfo (nick_of s.user_at) (nick_at s.user_at) nick
          (nick_of-at s.user_at) s.ulist h t e,
    ))

pub no_channel :
    (s : Server) (name : Text)
    → IsSound s
    → get_channel s name ≡ some none
    → (t : ℕ) → strcaseeq (name_of s.channel_at t) (some name) ≢ true
unfolding get_channel
no_channel s name i h t e = absurd (
    omega (
      arith,
      i.channels_once t,
      live_called s.channel_at t name e,
      look-missing itself (name_of s.channel_at) (name_of s.channel_at) name
          (name_of-at s.channel_at) s.clist h t e,
    ))

module _ {A B : Type 0} (g : A → B) (f : ℕ → Option A) (x : ℕ) (w : A) where
  pub map_at : Option.map g (put f x (some w) x) ≡ some (g w)
  map_at = ap (λ o. Option.map g o) (put_at f x w)

  pub map_else : (t : ℕ) → t ≢ x → Option.map g (put f x (some w) t) ≡ Option.map g (f t)
  map_else t n = ap (λ o. Option.map g o) (put_else f x w t n)

  -- What names the new value has, and the others have, all values have.
  pub map_all :
      (P : B → Type 0)
      → P (g w)
      → ((t : ℕ) (m : B) → Option.map g (f t) ≡ some m → P m)
      → (t : ℕ) (m : B) → Option.map g (put f x (some w) t) ≡ some m
      → P m
  map_all P a b t m p = elim (Bool-cases (t == x)) [
    | inl q ↦
        let z : Option.map g (put f x (some w) x) ≡ some m = rw ((==_iff t x).0 q) at p in
        let u = map_at in let y : g w ≡ m = cc in subst P y a
    | inr q ↦ b t m (sym (map_else t (ground arith)) ∙ p)
  ]

new_joins :
    (f : ℕ → Option User) (x : ℕ) (w : User) (t c : ℕ)
    → f x ≡ none
    → w.channels ≡ []
    → joins (put f x (some w)) t c ≡ joins f t c
unfolding channels_of occurs
new_joins f x w t c e n = elim (Bool-cases (t == x)) [
  | inl q ↦ rw ((==_iff t x).0 q, put_at f x w, n, e) refl
  | inr q ↦ ap (λ o. occurs itself c (channels_of o)) (put_else f x w t (ground arith))
]

new_members :
    (f : ℕ → Option Channel) (x : ℕ) (w : Channel) (t c : ℕ)
    → f x ≡ none
    → w.users ≡ []
    → members (put f x (some w)) t c ≡ members f t c
unfolding users_of occurs
new_members f x w t c e n = elim (Bool-cases (c == x)) [
  | inl q ↦ rw ((==_iff c x).0 q, put_at f x w, n, e) refl
  | inr q ↦ ap (λ o. occurs Entry.userinfo t (users_of o)) (put_else f x w c (ground arith))
]

pub add_user-IsSound :
    (now x : ℕ) (s : Server) (nick : Text)
    → IsSound s
    → s.user_at x ≡ none
    → get_user s nick ≡ some none
    → strcaseeq (some nick) (some nick) ≡ true
    → strcaseeq (some nick) (some s.nick) ≡ false
    → IsSound (add_user now x s nick)
unfolding add_user nick_at
add_user-IsSound now x s nick i e h r n =
    let w : User = record {
      nick = nick;
      ident = none;
      address = none;
      lastmsg = now;
      channels = [];
    } in
    record {
      users_once = λ t.
          occurs_end Entry.userinfo t s.ulist (record { userinfo = x; access = negsuc 0 })
          ∙ omega (arith, live-put s.user_at x w e t, i.users_once t);
      channels_once = i.channels_once;
      linked = λ t c. new_joins s.user_at x w t c e refl ∙ i.linked t c;
      nicks =
          AreUnique-put (nick_at s.user_at) _ x nick i.nicks (map_else User.nick s.user_at x w)
            (map_at User.nick s.user_at x w) (λ t l. no_user s nick i h t);
      names = i.names;
      nicked =
          map_all User.nick s.user_at x w
            (λ m. (strcaseeq (some m) (some m) ≡ true) × (strcaseeq (some m) (some s.nick) ≡ false))
            (r, n) i.nicked;
      named = i.named;
    }

pub add_channel-IsSound :
    (x : ℕ) (s : Server) (name : Text)
    → IsSound s
    → s.channel_at x ≡ none
    → get_channel s name ≡ some none
    → strcaseeq (some name) (some name) ≡ true
    → IsSound (add_channel x s name)
unfolding add_channel name_of itself
add_channel-IsSound x s name i e h r =
    let w : Channel = record { name = name; users = [] } in
    record {
      users_once = i.users_once;
      channels_once = λ t.
          occurs_end itself t s.clist x
          ∙ omega (arith, live-put s.channel_at x w e t, i.channels_once t);
      linked = λ t c. i.linked t c ∙ sym (new_members s.channel_at x w t c e refl);
      nicks = i.nicks;
      names =
          AreUnique-put (name_of s.channel_at) _ x name i.names
            (map_else Channel.name s.channel_at x w) (map_at Channel.name s.channel_at x w)
            (λ t l. no_channel s name i h t);
      nicked = i.nicked;
      named =
          map_all Channel.name s.channel_at x w (λ m. strcaseeq (some m) (some m) ≡ true) r i.named;
    }
