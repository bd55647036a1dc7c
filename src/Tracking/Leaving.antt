-- ===== src/Tracking/Leaving.antt =====
-- `DelUserFromChannel` of src/tracking.c keeps the invariant, and does not fault.
use acidblood.Common.{
  ℕ, ◌+◌, ◌≡◌, refl, inl, inr, some, List, arith, ◌==◌, if◌then◌else◌, ==_iff, Bool-cases,
}
use acidblood.Tracking.{Entry, User, Channel, Server, put, put_user, put_channel}
use acidblood.Tracking.Counting.{occurs}
use acidblood.Tracking.Sound.{
  itself, channels_of, users_of, joins, members, IsSound, IsSame, IsSame-IsSound, IsSame-trans,
}
use acidblood.Tracking.Same.{put_user-IsSame, put_channel-IsSame, joins-put, members-put}

abbrev pub with_users : Channel → List Entry → Channel
with_users ch l = record ch { users = l }

abbrev pub with_channels : User → List ℕ → User
with_channels v l = record v { channels = l }

abbrev pub left : Server → ℕ → ℕ → User → Channel → List ℕ → List Entry → Server
left s u c v ch ds es = put_user (put_channel s c (with_users ch es)) u (with_channels v ds)

-- A list of a user and one of a channel that each lose the other once.
pub left-IsSame :
    (s : Server) (u c : ℕ) (v : User) (ch : Channel) (ds : List ℕ) (es : List Entry)
    → s.user_at u ≡ some v
    → s.channel_at c ≡ some ch
    → IsSame s (left s u c v ch ds es)
left-IsSame s u c v ch ds es h k =
    IsSame-trans s (put_channel s c (with_users ch es)) (left s u c v ch ds es)
      (put_channel-IsSame s c ch (with_users ch es) k refl)
      (put_user-IsSame (put_channel s c (with_users ch es)) u v (with_channels v ds) h refl)

abbrev pub meets : ℕ → ℕ → ℕ → ℕ → ℕ
meets u c t d = if t == u then (if d == c then 1 else 0) else 0

pub joins-left :
    (s : Server) (u c : ℕ) (v : User) (ch : Channel) (ds : List ℕ) (es : List Entry)
    → s.user_at u ≡ some v
    → ((d : ℕ) → occurs itself d v.channels ≡ (if itself c == d then 1 else 0) + occurs itself d ds)
    → (t d : ℕ)
    → joins s.user_at t d ≡ meets u c t d + joins (put s.user_at u (some (with_channels v ds))) t d
unfolding channels_of itself
joins-left s u c v ch ds es h o t d =
    let p = joins-put s.user_at u (with_channels v ds) t d in
    elim (Bool-cases (t == u)) [
      | inl q ↦
          let tu = (==_iff t u).0 q in
          let z : joins s.user_at t d ≡ occurs itself d v.channels = rw (tu, h) refl in
          ground (arith, o d)
      | inr q ↦ ground arith
    ]

members-left :
    (s : Server) (u c : ℕ) (v : User) (ch : Channel) (ds : List ℕ) (es : List Entry)
    → s.channel_at c ≡ some ch
    → ((t : ℕ)
        → occurs Entry.userinfo t ch.users ≡ (if u == t then 1 else 0) + occurs Entry.userinfo t es)
    → (t d : ℕ)
    → members s.channel_at t d
      ≡ meets u c t d + members (put s.channel_at c (some (with_users ch es))) t d
unfolding users_of
members-left s u c v ch ds es h o t d =
    let p = members-put s.channel_at c (with_users ch es) t d in
    elim (Bool-cases (d == c)) [
      | inl q ↦
          let dc = (==_iff d c).0 q in
          let z : members s.channel_at t d ≡ occurs Entry.userinfo t ch.users = rw (dc, h) refl in
          ground (arith, o t)
      | inr q ↦ ground arith
    ]

pub left-IsSound :
    (s : Server) (u c : ℕ) (v : User) (ch : Channel) (ds : List ℕ) (es : List Entry)
    → IsSound s
    → s.user_at u ≡ some v
    → s.channel_at c ≡ some ch
    → ((d : ℕ) → occurs itself d v.channels ≡ (if itself c == d then 1 else 0) + occurs itself d ds)
    → ((t : ℕ)
        → occurs Entry.userinfo t ch.users ≡ (if u == t then 1 else 0) + occurs Entry.userinfo t es)
    → IsSound (left s u c v ch ds es)
left-IsSound s u c v ch ds es i h k o q =
    IsSame-IsSound s (left s u c v ch ds es) (left-IsSame s u c v ch ds es h k)
      (λ t d. omega (
        arith,
        i.linked t d,
        joins-left s u c v ch ds es h o t d,
        members-left s u c v ch ds es k q t d,
      ))
      i
