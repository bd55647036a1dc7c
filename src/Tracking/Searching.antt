-- ===== src/Tracking/Searching.antt =====
-- In a state that keeps the invariant, the searches of src/tracking.c read no freed memory.
use acidblood.Common.{
  ℕ, ◌+◌, ◌<◌, ◌≡◌, refl, ◌≢◌, ◌⊎◌, inl, inr, true, Option, none, some, List, arith, ◌==◌,
  if◌then◌else◌, Option-cases,
}
use acidblood.Text.{Text, strcaseeq}
use acidblood.Tracking.{Entry, User, Channel, Server, look, nick_of, name_of, get_user, get_channel}
use acidblood.Tracking.Counting.{occurs, look_total, look-found}
use acidblood.Tracking.Sound.{live, itself, channels_of, users_of, joins, members, nick_at, IsSound}
use acidblood.Tracking.Adding.{nick_of-at, name_of-at}

nick-live : (f : ℕ → Option User) (t : ℕ) → 0 < live (f t) → nick_at f t ≢ none
unfolding live nick_at
nick-live f t h e = ground arith

pub name-live : (f : ℕ → Option Channel) (t : ℕ) → 0 < live (f t) → name_of f t ≢ none
unfolding live name_of
name-live f t h e = ground arith

pub joins-live : (f : ℕ → Option User) (t c : ℕ) → 0 < joins f t c → 0 < live (f t)
unfolding live channels_of occurs
joins-live f t c h = elim (Option-cases (f t)) [
  | inl e ↦ absurd (omega (arith, rw e at h))
  | inr (v, e) ↦ rw e (omega arith)
]

pub members-live : (f : ℕ → Option Channel) (t c : ℕ) → 0 < members f t c → 0 < live (f c)
unfolding live users_of occurs
members-live f t c h = elim (Option-cases (f c)) [
  | inl e ↦ absurd (omega (arith, rw e at h))
  | inr (v, e) ↦ rw e (omega arith)
]

-- What stands at an address whose name is equal to another.
pub user_named :
    (f : ℕ → Option User) (t : ℕ) (n : Text)
    → strcaseeq (nick_at f t) (some n) ≡ true
    → (v : User) × (f t ≡ some v) × (strcaseeq (some v.nick) (some n) ≡ true)
unfolding nick_at strcaseeq
user_named f t n h = elim (Option-cases (f t)) [
  | inl e ↦ absurd (ground arith)
  | inr (v, e) ↦ (v, e, ground arith)
]

pub channel_named :
    (f : ℕ → Option Channel) (t : ℕ) (n : Text)
    → strcaseeq (name_of f t) (some n) ≡ true
    → (v : Channel) × (f t ≡ some v) × (strcaseeq (some v.name) (some n) ≡ true)
unfolding name_of strcaseeq
channel_named f t n h = elim (Option-cases (f t)) [
  | inl e ↦ absurd (ground arith)
  | inr (v, e) ↦ (v, e, ground arith)
]

pub members_at :
    (f : ℕ → Option Channel) (c : ℕ) (ch : Channel) (t : ℕ)
    → f c ≡ some ch
    → members f t c ≡ occurs Entry.userinfo t ch.users
unfolding users_of
members_at f c ch t k = rw k refl

pub joins_at :
    (f : ℕ → Option User) (u : ℕ) (v : User) (d : ℕ)
    → f u ≡ some v
    → joins f u d ≡ occurs itself d v.channels
unfolding channels_of
joins_at f u v d k = rw k refl

module _ (s : Server) (i : IsSound s) (name : Text) where
  pub get_user_cases :
      (get_user s name ≡ some none)
      ⊎ ((e : Entry) × (es : List Entry) × (get_user s name ≡ some (some (e, es)))
          × (strcaseeq (nick_at s.user_at e.userinfo) (some name) ≡ true))
  unfolding get_user
  get_user_cases =
      elim (look_total Entry.userinfo (nick_of s.user_at) (nick_at s.user_at) name
        (nick_of-at s.user_at) s.ulist
        (λ t l. nick-live s.user_at t (omega (arith, i.users_once t)))) [
          | inl h ↦ inl h
          | inr (e, es, h) ↦ inr (
            e,
            es,
            h,
            (look-found Entry.userinfo (nick_of s.user_at) (nick_at s.user_at) name
                (nick_of-at s.user_at) s.ulist e es h).1,
          )
        ]

  pub get_channel_cases :
      (get_channel s name ≡ some none)
      ⊎ ((c : ℕ) × (cs : List ℕ) × (get_channel s name ≡ some (some (c, cs)))
          × (strcaseeq (name_of s.channel_at c) (some name) ≡ true))
  unfolding get_channel itself
  get_channel_cases =
      elim (look_total itself (name_of s.channel_at) (name_of s.channel_at) name
        (name_of-at s.channel_at) s.clist
        (λ t l. name-live s.channel_at t (omega (arith, i.channels_once t)))) [
          | inl h ↦ inl h
          | inr (e, es, h) ↦ inr (
            e,
            es,
            h,
            (look-found itself (name_of s.channel_at) (name_of s.channel_at) name
                (name_of-at s.channel_at) s.clist e es h).1,
          )
        ]

  -- The search among the users of a channel in memory.
  pub member_cases :
      (c : ℕ) (ch : Channel)
      → s.channel_at c ≡ some ch
      → (look (nick_of s.user_at) name ch.users ≡ some none)
        ⊎ ((e : Entry) × (es : List Entry) × (look (nick_of s.user_at) name ch.users
              ≡ some (some (e, es)))
            × (strcaseeq (nick_at s.user_at e.userinfo) (some name) ≡ true)
            × ((t : ℕ)
                → occurs Entry.userinfo t ch.users
                  ≡ (if e.userinfo == t then 1 else 0) + occurs Entry.userinfo t es))
  member_cases c ch k =
      elim (look_total Entry.userinfo (nick_of s.user_at) (nick_at s.user_at) name
        (nick_of-at s.user_at) ch.users
        (λ t l. nick-live s.user_at t (
          joins-live s.user_at t c
            (omega (arith, i.linked t c, members_at s.channel_at c ch t k))))) [
              | inl h ↦ inl h
              | inr (e, es, h) ↦
                  let (o, q) =
                    look-found Entry.userinfo (nick_of s.user_at) (nick_at s.user_at) name
                      (nick_of-at s.user_at) ch.users e es h in
                  inr (e, es, h, q, o)
            ]
