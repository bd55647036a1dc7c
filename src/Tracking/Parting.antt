-- ===== src/Tracking/Parting.antt =====
-- `DelUserFromChannel` of src/tracking.c in a state that keeps the invariant: it does not fault,
-- and one membership ends.
use acidblood.Common.{
  ℕ, suc, ◌+◌, ◌<◌, ◌≡◌, refl, sym, ◌∙◌, subst, inl, inr, true, Option, some, List, arith, ◌==◌,
  if◌then◌else◌, length,
}
use acidblood.Text.{Text, strcaseeq}
use acidblood.Tracking.{Entry, User, Channel, Server, put, look, name_of, put_channel, get_user}
use acidblood.Tracking.Removal.{leave_channel}
use acidblood.Tracking.Counting.{occurs, look_total, look-found, look-length, look-missing}
use acidblood.Tracking.Sound.{live, itself, joins, nick_at, IsSound}
use acidblood.Tracking.Same.{put_channel-IsSame}
use acidblood.Tracking.Adding.{name_of-at, no_user}
use acidblood.Tracking.Leaving.{with_users, left}
use acidblood.Tracking.Searching.{get_user_cases, joins_at, name-live, members-live}

get_user-put :
    (s : Server) (c : ℕ) (w : Channel) (nick : Text)
    → get_user (put_channel s c w) nick ≡ get_user s nick
unfolding get_user
get_user-put s c w nick = refl

pub named_at :
    (f : ℕ → Option Channel) (c : ℕ) (ch : Channel) (n : Text)
    → f c ≡ some ch
    → strcaseeq (some ch.name) (some n) ≡ true
    → strcaseeq (name_of f c) (some n) ≡ true
unfolding name_of
named_at f c ch n k h = rw k h

pub nicked_at :
    (f : ℕ → Option User) (c : ℕ) (v : User) (n : Text)
    → f c ≡ some v
    → strcaseeq (some v.nick) (some n) ≡ true
    → strcaseeq (nick_at f c) (some n) ≡ true
unfolding nick_at
nicked_at f c v n k h = rw k h

module _ (s : Server) (i : IsSound s) (nick channel : Text) (u c : ℕ) (v : User) (ch : Channel)
    (es : List Entry) (h : s.user_at u ≡ some v) (n : strcaseeq (some v.nick) (some nick) ≡ true)
    (k : s.channel_at c ≡ some ch) (q : strcaseeq (some ch.name) (some channel) ≡ true)
    (j : 0 < joins s.user_at u c) where
  same_user :
      (e : Entry) × (ms : List Entry) × (get_user s nick ≡ some (some (e, ms))) × (e.userinfo ≡ u)
  same_user = elim (get_user_cases s i nick) [
    | inl f ↦ absurd (no_user s nick i f u (nicked_at s.user_at u v nick h n))
    | inr (e, ms, f, m) ↦
        (e, ms, f, i.nicks (e.userinfo) u nick m (nicked_at s.user_at u v nick h n))
  ]

  there_live : (t : ℕ) → 0 < occurs itself t v.channels → 0 < live (s.channel_at t)
  there_live t l =
      members-live s.channel_at u t (omega (arith, i.linked u t, joins_at s.user_at u v t h))

  same_channel :
      (ds : List ℕ) × (look
          (name_of (put s.channel_at c (some (with_users ch es))))
          channel
          v.channels
        ≡ some (some (c, ds)))
      × ((d : ℕ)
          → occurs itself d v.channels ≡ (if itself c == d then 1 else 0) + occurs itself d ds)
      × (length v.channels ≡ suc (length ds))
  unfolding itself
  same_channel =
      let names' = name_of (put s.channel_at c (some (with_users ch es))) in
      let same = put_channel-IsSame s c ch (with_users ch es) k refl in
      elim (look_total itself names' names' channel (name_of-at _) v.channels
        (λ t l z. name-live s.channel_at t (there_live t l) (sym (same.same_names t) ∙ z))) [
          | inl f ↦ absurd (
              omega (
                arith,
                j,
                joins_at s.user_at u v c h,
                look-missing itself names' names' channel (name_of-at _) v.channels f c (
                    subst (λ o. strcaseeq o (some channel) ≡ true) (sym (same.same_names c))
                      (named_at s.channel_at c ch channel k q)),
              ))
          | inr (d, ds, f) ↦
              let (o, m) =
                look-found itself names' names' channel (name_of-at _) v.channels d ds f in
              let e : d ≡ c =
                i.names d c channel
                  (subst (λ o. strcaseeq o (some channel) ≡ true) (same.same_names d) m)
                  (named_at s.channel_at c ch channel k q) in
              (
                ds,
                rw e at f,
                rw e at o,
                look-length itself names' names' channel (name_of-at _) v.channels d ds f,
              )
        ]

  pub leave_channel-left :
      (ds : List ℕ) × (leave_channel (put_channel s c (with_users ch es)) nick channel
        ≡ some (left s u c v ch ds es))
      × ((d : ℕ)
          → occurs itself d v.channels ≡ (if itself c == d then 1 else 0) + occurs itself d ds)
      × (length v.channels ≡ suc (length ds))
  unfolding leave_channel
  leave_channel-left =
      let (e, ms, f, m) = same_user in
      let (ds, g, o, l) = same_channel in
      (ds, simp (get_user-put s c (with_users ch es) nick, f, m, h, g) refl, o, l)
