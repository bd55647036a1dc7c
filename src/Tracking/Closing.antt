-- ===== src/Tracking/Closing.antt =====
-- `DelChannel` of src/tracking.c: the loop ends, and the channel is known no more.
use acidblood.Common.{
  ℕ, zero, suc, ◌<◌, ◌≡◌, refl, sym, ap, ◌∙◌, ◌≢◌, inl, inr, Option, some, List, [], ◌∷◌, arith,
  Option-cases, length,
}
use acidblood.Tracking.{Entry, User, Channel, Server, name_of}
use acidblood.Tracking.Removal.{del_user_from_channel, empty_channel}
use acidblood.Tracking.Counting.{occurs}
use acidblood.Tracking.Sound.{
  live, joins, members, nick_at, IsSound, IsSame, IsSame-refl, IsSame-trans,
}
use acidblood.Tracking.Adding.{put_at}
use acidblood.Tracking.Leaving.{with_users, left, left-IsSame, left-IsSound, meets, joins-left}
use acidblood.Tracking.Searching.{joins-live, members_at}
use acidblood.Tracking.Parting.{named_at, nicked_at}
use acidblood.Tracking.Quitting.{part_cases}

-- Users have left the channel at an address, and no other.
pub record IsLeft (s : Server) (c : ℕ) (s' : Server) (ch : Channel) : Type 0 where
  pub sound : IsSound s'
  pub same : IsSame s s'
  pub channel : s'.channel_at c ≡ some ch
  pub others : (t d : ℕ) → d ≢ c → joins s'.user_at t d ≡ joins s.user_at t d

user_at_live : (f : ℕ → Option User) (u : ℕ) → 0 < live (f u) → (v : User) × (f u ≡ some v)
unfolding live
user_at_live f u h = elim (Option-cases (f u)) [
  | inl e ↦ absurd (omega (arith, rw e at h))
  | inr r ↦ r
]

own_nick_at : (f : ℕ → Option User) (u : ℕ) (v : User) → f u ≡ some v → nick_at f u ≡ some v.nick
unfolding nick_at
own_nick_at f u v e = rw e refl

pub own_name_at :
    (f : ℕ → Option Channel) (c : ℕ) (ch : Channel) → f c ≡ some ch → name_of f c ≡ some ch.name
unfolding name_of
own_name_at f c ch e = rw e refl

members_head :
    (f : ℕ → Option Channel) (c : ℕ) (ch : Channel) (e : Entry) (es : List Entry)
    → f c ≡ some ch
    → ch.users ≡ e ∷ es
    → 0 < members f e.userinfo c
unfolding occurs
members_head f c ch e es h k =
    let p : members f e.userinfo c ≡ occurs Entry.userinfo e.userinfo (e ∷ es) =
      members_at f c ch e.userinfo h ∙ ap (occurs Entry.userinfo e.userinfo) k in
    rw p (ground arith)

one_channel :
    (f : ℕ → Option Channel) (c c' : ℕ) (v v' : Channel)
    → f c ≡ some v
    → f c' ≡ some v'
    → c ≡ c'
    → v ≡ v'
one_channel f c c' v v' h h' e = cc

meets_not : (u c t d : ℕ) → d ≢ c → meets u c t d ≡ 0
meets_not u c t d n = ground arith

close_round :
    (s : Server) (c : ℕ) (ch : Channel) (e : Entry) (es : List Entry)
    → IsSound s
    → s.channel_at c ≡ some ch
    → ch.users ≡ e ∷ es
    → (v : User) × (s' : Server) × (ch' : Channel) × (s.user_at e.userinfo ≡ some v)
      × (del_user_from_channel s v.nick ch.name ≡ some s')
      × IsLeft s c s' ch'
      × (length ch.users ≡ suc (length ch'.users))
close_round s c ch e es i k z =
    let u = e.userinfo in
    let j : 0 < joins s.user_at u c =
      omega (arith, members_head s.channel_at c ch e es k z, i.linked u c) in
    let (v, h) = user_at_live s.user_at u (joins-live s.user_at u c j) in
    let (n, o) = i.nicked u v.nick (own_nick_at s.user_at u v h) in
    let q =
      named_at s.channel_at c ch ch.name k (i.named c ch.name (own_name_at s.channel_at c ch k)) in
    elim (part_cases s i v.nick ch.name o) [
      | inl (f, y) ↦ absurd (omega (arith, j, y u c (nicked_at s.user_at u v v.nick h n) q))
      | inr (u', c', v', ch', h', n', k', q', w) ↦
          let (ds, es', f, a, l, b, m) = w in
          let x : c' ≡ c = i.names c' c ch.name (named_at s.channel_at c' ch' ch.name k' q') q in
          let same : ch' ≡ ch = one_channel s.channel_at c' c ch' ch k' k x in
          (
            v,
            left s u' c' v' ch' ds es',
            with_users ch' es',
            h,
            f,
            record {
              sound = left-IsSound s u' c' v' ch' ds es' i h' k' a b;
              same = left-IsSame s u' c' v' ch' ds es' h' k';
              channel = rw (sym x) (put_at s.channel_at c' (with_users ch' es'));
              others = λ t d y.
                  let r = meets_not u' c' t d (λ g. y (g ∙ x)) in
                  omega (arith, r, joins-left s u' c' v' ch' ds es' h' a t d);
            },
            rw (sym same) m,
          )
    ]

pub empty_channel-ends :
    (fuel : ℕ) (s : Server) (c : ℕ) (ch : Channel) (es : List Entry)
    → IsSound s
    → s.channel_at c ≡ some ch
    → ch.users ≡ es
    → length es < fuel
    → (s' : Server) × (ch' : Channel) × (empty_channel fuel s c ≡ some s')
      × IsLeft s c s' ch'
      × (ch'.users ≡ [])
unfolding empty_channel
empty_channel-ends zero s c ch es i k z l = absurd (omega arith)
empty_channel-ends (suc fuel) s c ch [] i k z l = (
  s,
  ch,
  simp (k, z) refl,
  record { sound = i; same = IsSame-refl s; channel = k; others = λ t d m. refl },
  z,
)
empty_channel-ends (suc fuel) s c ch (e ∷ es) i k z l =
    let (v, s₁, ch₁, h, f, g, m) = close_round s c ch e es i k z in
    let (s', ch', f', g', y) =
      empty_channel-ends fuel s₁ c ch₁ ch₁.users (g.sound) (g.channel) refl
        (omega (arith, m, l, ap length z)) in
    (
      s',
      ch',
      simp (k, z, h, f) f',
      record {
        sound = g'.sound;
        same = IsSame-trans s s₁ s' (g.same) (g'.same);
        channel = g'.channel;
        others = λ t d n. g'.others t d n ∙ g.others t d n;
      },
      y,
    )
