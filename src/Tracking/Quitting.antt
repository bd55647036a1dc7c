-- ===== src/Tracking/Quitting.antt =====
-- `DelUserFromChannel` and `QuitUser` of src/tracking.c end in a state that keeps the invariant.
use acidblood.Common.{
  ℕ, suc, ◌+◌, ◌-◌, ◌<◌, ◌≡◌, refl, sym, ◌∙◌, ◌⊎◌, inl, inr, true, false, ◌&&◌, Option, some, List,
  arith, ◌==◌, if◌then◌else◌, ==_iff, Bool-cases, length,
}
use acidblood.Text.{Text, strcaseeq}
use acidblood.Tracking.{Entry, User, Channel, Server, look, nick_of, name_of, get_channel}
use acidblood.Tracking.Removal.{del_user_from_channel}
use acidblood.Tracking.Counting.{AreUnique, occurs, look-length, look-missing}
use acidblood.Tracking.Sound.{itself, joins, nick_at, IsSound, IsSame, IsSame-refl}
use acidblood.Tracking.Adding.{nick_of-at, no_channel}
use acidblood.Tracking.Leaving.{left, left-IsSame, left-IsSound, meets, joins-left}
use acidblood.Tracking.Searching.{
  user_named, channel_named, get_channel_cases, member_cases, members_at,
}
use acidblood.Tracking.Parting.{leave_channel-left, named_at, nicked_at}

-- What `DelUserFromChannel` leaves where the user is in the channel.
abbrev pub Parts : Server → Text → Text → ℕ → ℕ → User → Channel → Type 0
Parts s nick channel u c v ch =
    (ds : List ℕ) × (es : List Entry) × (del_user_from_channel s nick channel
      ≡ some (left s u c v ch ds es))
    × ((d : ℕ) → occurs itself d v.channels ≡ (if itself c == d then 1 else 0) + occurs itself d ds)
    × (length v.channels ≡ suc (length ds))
    × ((t : ℕ)
        → occurs Entry.userinfo t ch.users ≡ (if u == t then 1 else 0) + occurs Entry.userinfo t es)
    × (length ch.users ≡ suc (length es))

module _ (s : Server) (i : IsSound s) (nick channel : Text)
    (o : strcaseeq (some nick) (some s.nick) ≡ false) where
  Parts-from :
      (c : ℕ) (cs : List ℕ) (ch : Channel) (e : Entry) (es : List Entry) (v : User)
      → get_channel s channel ≡ some (some (c, cs))
      → s.channel_at c ≡ some ch
      → strcaseeq (some ch.name) (some channel) ≡ true
      → look (nick_of s.user_at) nick ch.users ≡ some (some (e, es))
      → s.user_at e.userinfo ≡ some v
      → strcaseeq (some v.nick) (some nick) ≡ true
      → ((t : ℕ)
          → occurs Entry.userinfo t ch.users
            ≡ (if e.userinfo == t then 1 else 0) + occurs Entry.userinfo t es)
      → Parts s nick channel (e.userinfo) c v ch
  unfolding del_user_from_channel
  Parts-from c cs ch e es v g k q l h n b =
      let j : 0 < joins s.user_at e.userinfo c =
        ground
          (arith, b e.userinfo, i.linked e.userinfo c, members_at s.channel_at c ch e.userinfo k) in
      let (ds, f, a, w) = leave_channel-left s i nick channel e.userinfo c v ch es h n k q j in
      (
        ds,
        es,
        simp (o, g, k, l, f) refl,
        a,
        w,
        b,
        look-length Entry.userinfo (nick_of s.user_at) (nick_at s.user_at) nick
            (nick_of-at s.user_at) ch.users e es l,
      )

  -- The three ends of the searches.
  pub part_cases :
      ((del_user_from_channel s nick channel ≡ some s)
        × ((t d : ℕ)
            → strcaseeq (nick_at s.user_at t) (some nick) ≡ true
            → strcaseeq (name_of s.channel_at d) (some channel) ≡ true
            → joins s.user_at t d ≡ 0))
      ⊎ ((u : ℕ) × (c : ℕ) × (v : User) × (ch : Channel) × (s.user_at u ≡ some v)
          × (strcaseeq (some v.nick) (some nick) ≡ true)
          × (s.channel_at c ≡ some ch)
          × (strcaseeq (some ch.name) (some channel) ≡ true)
          × Parts s nick channel u c v ch)
  unfolding del_user_from_channel
  part_cases = elim (get_channel_cases s i channel) [
    | inl f ↦ inl (simp (o, f) refl, λ t d a b. absurd (no_channel s channel i f d b))
    | inr (c, cs, f, m) ↦
        let (ch, k, q) = channel_named s.channel_at c channel m in
        elim (member_cases s i nick c ch k) [
          | inl l ↦ inl (
            simp (o, f, k, l) refl,
            λ t d a b.
                let dc : d ≡ c = i.names d c channel b m in
                let none_there =
                  look-missing Entry.userinfo (nick_of s.user_at) (nick_at s.user_at) nick
                    (nick_of-at s.user_at) ch.users l t a in
                rw dc (omega (arith, i.linked t c, members_at s.channel_at c ch t k, none_there)),
          )
          | inr (e, es, l, r, b) ↦
              let (v, h, n) = user_named s.user_at e.userinfo nick r in
              inr (e.userinfo, c, v, ch, h, n, k, q, Parts-from c cs ch e es v f k q l h n b)
        ]
  ]

-- 1 for the user with the nick in the channel with the name, and 0 for others.
abbrev pub ending : Server → Text → Text → ℕ → ℕ → ℕ
ending s nick channel t d =
    if strcaseeq (nick_at s.user_at t) (some nick)
      && strcaseeq (name_of s.channel_at d) (some channel)
    then 1
    else 0

same_iff :
    (g : ℕ → Option Text) (n : Text) (u t : ℕ)
    → AreUnique g
    → strcaseeq (g u) (some n) ≡ true
    → strcaseeq (g t) (some n) ≡ (t == u)
same_iff g n u t i h = elim (Bool-cases (t == u)) [
  | inl e ↦ rw e (rw ((==_iff t u).0 e) h)
  | inr e ↦ elim (Bool-cases (strcaseeq (g t) (some n))) [
    | inl f ↦ absurd (ground (arith, i t u n f h))
    | inr f ↦ f ∙ sym e
  ]
]

ending-meets :
    (s : Server) (i : IsSound s) (nick channel : Text) (u c : ℕ)
    → strcaseeq (nick_at s.user_at u) (some nick) ≡ true
    → strcaseeq (name_of s.channel_at c) (some channel) ≡ true
    → (t d : ℕ) → ending s nick channel t d ≡ meets u c t d
ending-meets s i nick channel u c h k t d =
    simp
      (
        same_iff (nick_at s.user_at) nick u t (i.nicks) h,
        same_iff (name_of s.channel_at) channel c d (i.names) k,
      )
      (ground arith)

-- Where the invariant holds and the nick is not the bot's, `DelUserFromChannel` reads no freed
-- memory and keeps the invariant, and the user's list holds the channel once less, if it did at
-- all; no other membership and no nick or name changes.
pub del_user_from_channel-ends :
    (s : Server) (nick channel : Text)
    → IsSound s
    → strcaseeq (some nick) (some s.nick) ≡ false
    → (s' : Server) × (del_user_from_channel s nick channel ≡ some s')
      × IsSound s'
      × IsSame s s'
      × ((t d : ℕ) → joins s'.user_at t d ≡ joins s.user_at t d - ending s nick channel t d)
del_user_from_channel-ends s nick channel i o = elim (part_cases s i nick channel o) [
  | inl (f, z) ↦ (s, f, i, IsSame-refl s, λ t d. ground (arith, z t d))
  | inr (u, c, v, ch, h, n, k, q, w) ↦
      let (ds, es, f, a, l, b, _) = w in
      (
        left s u c v ch ds es,
        f,
        left-IsSound s u c v ch ds es i h k a b,
        left-IsSame s u c v ch ds es h k,
        λ t d.
            let m =
              ending-meets s i nick channel u c (nicked_at s.user_at u v nick h n)
                (named_at s.channel_at c ch channel k q) t d in
            omega (arith, m, joins-left s u c v ch ds es h a t d),
      )
]
