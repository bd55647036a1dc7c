-- ===== src/Tracking/Dropping.antt =====
-- The end of `DelChannel` of src/tracking.c, on a channel with no users, and the whole of it.
use mathlib.Core.Option
use acidblood.Common.{
  ℕ, ◌+◌, ◌<◌, ◌≡◌, refl, sym, ap, ◌∙◌, ◌≢◌, inl, inr, true, Option, none, some, List, [], ◌∷◌,
  arith, ◌==◌, if◌then◌else◌, ==_iff, Bool-cases, length,
}
use acidblood.Text.{Text, strcaseeq}
use acidblood.Tracking.{Entry, Channel, Server, put, name_of, get_channel}
use acidblood.Tracking.Removal.{del_channel, drop_id}
use acidblood.Tracking.Counting.{occurs}
use acidblood.Tracking.Sound.{live, itself, users_of, joins, members, IsSound}
use acidblood.Tracking.Searching.{get_channel_cases}
use acidblood.Tracking.Parting.{named_at}
use acidblood.Tracking.Freeing.{put-none, put_gone, nothing_named}
use acidblood.Tracking.Closing.{empty_channel-ends, own_name_at}

occurs-drop_id :
    (t c : ℕ) (cs : List ℕ)
    → 0 < occurs itself c cs
    → occurs itself t cs ≡ (if c == t then 1 else 0) + occurs itself t (drop_id c cs)
unfolding occurs itself drop_id
occurs-drop_id t c [] h = absurd (omega arith)
occurs-drop_id t c (d ∷ cs) h = let rest = occurs-drop_id t c cs in ground arith

live_closed :
    (f : ℕ → Option Channel) (c t : ℕ) (v : Channel)
    → f c ≡ some v
    → live (f t) ≡ (if c == t then 1 else 0) + live (put f c none t)
unfolding live put
live_closed f c t v h = ground arith

live_open : (f : ℕ → Option Channel) (c : ℕ) (v : Channel) → f c ≡ some v → live (f c) ≡ 1
unfolding live
live_open f c v h = rw h refl

name_closed :
    (f : ℕ → Option Channel) (c t : ℕ) (m : Text)
    → name_of (put f c none) t ≡ some m
    → (t ≢ c) × (name_of f t ≡ some m)
unfolding name_of
name_closed f c t m p = elim (Bool-cases (t == c)) [
  | inl q ↦
      let z : Option.map Channel.name (put f c none c) ≡ some m = rw ((==_iff t c).0 q) at p in
      let y = put_gone f c in absurd (cc)
  | inr q ↦
      let n : t ≢ c = ground arith in
      (n, sym (ap (λ o. Option.map Channel.name o) (put-none f c t n)) ∙ p)
]

called_closed :
    (f : ℕ → Option Channel) (c t : ℕ) (m : Text)
    → strcaseeq (name_of (put f c none) t) (some m) ≡ true
    → (t ≢ c) × (strcaseeq (name_of f t) (some m) ≡ true)
unfolding name_of
called_closed f c t m p = elim (Bool-cases (t == c)) [
  | inl q ↦
      let z : strcaseeq (Option.map Channel.name (put f c none c)) (some m) ≡ true =
        rw ((==_iff t c).0 q) at p in
      absurd (nothing_named m (rw (put_gone f c) at z))
  | inr q ↦ let n : t ≢ c = ground arith in (n, rw (put-none f c t n) at p)
]

members_closed :
    (f : ℕ → Option Channel) (c : ℕ) (v : Channel) (t d : ℕ)
    → f c ≡ some v
    → v.users ≡ []
    → members (put f c none) t d ≡ members f t d
unfolding users_of occurs
members_closed f c v t d h e = elim (Bool-cases (d == c)) [
  | inl q ↦ rw ((==_iff d c).0 q, put_gone f c, h, e) refl
  | inr q ↦ ap (λ o. occurs Entry.userinfo t (users_of o)) (put-none f c d (ground arith))
]

-- The state after the channel has been unlinked and freed.
abbrev closed : Server → ℕ → Server
closed s c = record s { clist = drop_id c s.clist; channel_at = put s.channel_at c none }

closed-IsSound :
    (s : Server) (c : ℕ) (v : Channel)
    → IsSound s
    → s.channel_at c ≡ some v
    → v.users ≡ []
    → IsSound (closed s c)
closed-IsSound s c v i h e = record {
  users_once = i.users_once;
  channels_once = λ t.
      let l = live_closed s.channel_at c t v h in
      omega (
        arith,
        i.channels_once t,
        l,
        occurs-drop_id t c s.clist (omega (arith, i.channels_once c, live_open s.channel_at c v h)),
      );
  linked = λ t d. i.linked t d ∙ sym (members_closed s.channel_at c v t d h e);
  nicks = i.nicks;
  names = λ t r m p q.
      i.names t r m ((called_closed s.channel_at c t m p).1)
        ((called_closed s.channel_at c r m q).1);
  nicked = i.nicked;
  named = λ t m p. i.named t m ((name_closed s.channel_at c t m p).1);
}

closed-missing :
    (s : Server) (c : ℕ) (name : Text)
    → IsSound s
    → IsSound (closed s c)
    → strcaseeq (name_of s.channel_at c) (some name) ≡ true
    → get_channel (closed s c) name ≡ some none
closed-missing s c name i i' h = elim (get_channel_cases (closed s c) i' name) [
  | inl f ↦ f
  | inr (d, ds, f, m) ↦
      let (n, g) = called_closed s.channel_at c d name m in absurd (n (i.names d c name g h))
]

-- Where the invariant holds, and the fuel is above the number of the channel's users, `DelChannel`
-- on a channel in memory ends without a fault in a state that keeps the invariant, in which the
-- channel's name is not found, and every user is in the other channels as before.
pub del_channel-ends :
    (fuel : ℕ) (s : Server) (c : ℕ) (ch : Channel)
    → IsSound s
    → s.channel_at c ≡ some ch
    → length ch.users < fuel
    → (s' : Server) × (del_channel fuel s c ≡ some s')
      × IsSound s'
      × (get_channel s' ch.name ≡ some none)
      × ((t d : ℕ) → d ≢ c → joins s'.user_at t d ≡ joins s.user_at t d)
unfolding del_channel
del_channel-ends fuel s c ch i k l =
    let (s₁, ch₁, f, g, z) = empty_channel-ends fuel s c ch ch.users i k refl l in
    let i' = closed-IsSound s₁ c ch₁ (g.sound) (g.channel) z in
    let n =
      named_at s.channel_at c ch ch.name k (i.named c ch.name (own_name_at s.channel_at c ch k)) in
    (
      closed s₁ c,
      simp f refl,
      i',
      closed-missing s₁ c ch.name (g.sound) i' (rw (g.same.same_names c) n),
      g.others,
    )
