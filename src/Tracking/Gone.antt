-- ===== src/Tracking/Gone.antt =====
-- `QuitUser` of src/tracking.c: the loop ends, and the user is known no more.
use acidblood.Common.{
  ℕ, zero, suc, ◌<◌, ◌≡◌, refl, sym, ap, ◌∙◌, ◌≢◌, inl, inr, true, false, Option, none, some, List,
  [], ◌∷◌, arith, Option-cases, length,
}
use acidblood.Text.{Text, strcaseeq}
use acidblood.Tracking.{User, Channel, Server, put, name_of, get_user}
use acidblood.Tracking.Removal.{del_user_from_channel, leave_all, quit_user, del_user}
use acidblood.Tracking.Counting.{occurs}
use acidblood.Tracking.Sound.{
  live, itself, channels_of, joins, nick_at, IsSound, IsSame, IsSame-refl, IsSame-trans,
}
use acidblood.Tracking.Adding.{put_at, put_else}
use acidblood.Tracking.Leaving.{with_channels, left, left-IsSame, left-IsSound}
use acidblood.Tracking.Searching.{user_named, joins_at, members-live, get_user_cases}
use acidblood.Tracking.Parting.{named_at, nicked_at}
use acidblood.Tracking.Freeing.{del_user-IsSound, del_user-missing, joins-del_user}
use acidblood.Tracking.Quitting.{part_cases}

-- The user at an address has left channels, and the others have not.
pub record HasLeft (s : Server) (nick : Text) (u : ℕ) (s' : Server) (v : User) : Type 0 where
  pub sound : IsSound s'
  pub same : IsSame s s'
  pub user : s'.user_at u ≡ some v
  pub nicked : strcaseeq (some v.nick) (some nick) ≡ true
  pub others : (t d : ℕ) → t ≢ u → joins s'.user_at t d ≡ joins s.user_at t d

channel_at_live :
    (f : ℕ → Option Channel) (c : ℕ) → 0 < live (f c) → (ch : Channel) × (f c ≡ some ch)
unfolding live
channel_at_live f c h = elim (Option-cases (f c)) [
  | inl e ↦ absurd (omega (arith, rw e at h))
  | inr r ↦ r
]

own_name :
    (f : ℕ → Option Channel) (c : ℕ) (ch : Channel) → f c ≡ some ch → name_of f c ≡ some ch.name
unfolding name_of
own_name f c ch e = rw e refl

others-left :
    (s : Server) (u : ℕ) (w : User) (t d : ℕ)
    → t ≢ u
    → joins (put s.user_at u (some w)) t d ≡ joins s.user_at t d
others-left s u w t d n = ap (λ o. occurs itself d (channels_of o)) (put_else s.user_at u w t n)

joins_head :
    (f : ℕ → Option User) (u : ℕ) (v : User) (c : ℕ) (cs : List ℕ)
    → f u ≡ some v
    → v.channels ≡ c ∷ cs
    → 0 < joins f u c
unfolding occurs itself
joins_head f u v c cs h e =
    let p : joins f u c ≡ occurs itself c (c ∷ cs) = joins_at f u v c h ∙ ap (occurs itself c) e in
    rw p (ground arith)

one_value :
    (f : ℕ → Option User) (u u' : ℕ) (v v' : User) → f u ≡ some v → f u' ≡ some v' → u ≡ u' → v ≡ v'
one_value f u u' v v' h h' e = cc

quit_round :
    (s : Server) (nick : Text) (u : ℕ) (v : User) (c : ℕ) (cs : List ℕ)
    → IsSound s
    → strcaseeq (some nick) (some s.nick) ≡ false
    → s.user_at u ≡ some v
    → strcaseeq (some v.nick) (some nick) ≡ true
    → v.channels ≡ c ∷ cs
    → (ch : Channel) × (s' : Server) × (v' : User) × (s.channel_at c ≡ some ch)
      × (del_user_from_channel s nick ch.name ≡ some s')
      × HasLeft s nick u s' v'
      × (length v.channels ≡ suc (length v'.channels))
quit_round s nick u v c cs i o h n e =
    let j : 0 < joins s.user_at u c = joins_head s.user_at u v c cs h e in
    let (ch, k) =
      channel_at_live s.channel_at c
        (members-live s.channel_at u c (omega (arith, j, i.linked u c))) in
    let q =
      named_at s.channel_at c ch ch.name k (i.named c ch.name (own_name s.channel_at c ch k)) in
    elim (part_cases s i nick ch.name o) [
      | inl (f, z) ↦ absurd (omega (arith, j, z u c (nicked_at s.user_at u v nick h n) q))
      | inr (u', c', v', ch', h', n', k', q', w) ↦
          let (ds, es, f, a, l, b, _) = w in
          let uu : u' ≡ u =
            i.nicks u' u nick (nicked_at s.user_at u' v' nick h' n')
              (nicked_at s.user_at u v nick h n) in
          let vv : v' ≡ v = one_value s.user_at u' u v' v h' h uu in
          (
            ch,
            left s u' c' v' ch' ds es,
            with_channels v' ds,
            k,
            f,
            record {
              sound = left-IsSound s u' c' v' ch' ds es i h' k' a b;
              same = left-IsSame s u' c' v' ch' ds es h' k';
              user = rw (sym uu) (put_at s.user_at u' (with_channels v' ds));
              nicked = n';
              others = λ t d m. others-left s u' (with_channels v' ds) t d (λ y. m (y ∙ uu));
            },
            rw (sym vv) l,
          )
    ]

leave_all-ends :
    (fuel : ℕ) (s : Server) (nick : Text) (u : ℕ) (v : User) (cs : List ℕ)
    → IsSound s
    → strcaseeq (some nick) (some s.nick) ≡ false
    → s.user_at u ≡ some v
    → strcaseeq (some v.nick) (some nick) ≡ true
    → v.channels ≡ cs
    → length cs < fuel
    → (s' : Server) × (v' : User) × (leave_all fuel s nick u ≡ some s')
      × HasLeft s nick u s' v'
      × (v'.channels ≡ [])
unfolding leave_all
leave_all-ends zero s nick u v cs i o h n e l = absurd (omega arith)
leave_all-ends (suc fuel) s nick u v [] i o h n e l = (
  s,
  v,
  simp (h, e) refl,
  record { sound = i; same = IsSame-refl s; user = h; nicked = n; others = λ t d m. refl },
  e,
)
leave_all-ends (suc fuel) s nick u v (c ∷ cs) i o h n e l =
    let (ch, s₁, v₁, k, f, g, m) = quit_round s nick u v c cs i o h n e in
    let (s', v', f', g', z) =
      leave_all-ends fuel s₁ nick u v₁ v₁.channels (g.sound) (rw (g.same.own_nick) o) (g.user)
        (g.nicked) refl (omega (arith, m, l, ap length e)) in
    (
      s',
      v',
      simp (h, e, k, f) f',
      record {
        sound = g'.sound;
        same = IsSame-trans s s₁ s' (g.same) (g'.same);
        user = g'.user;
        nicked = g'.nicked;
        others = λ t d y. g'.others t d y ∙ g.others t d y;
      },
      z,
    )

-- Where the invariant holds, the nick is not the bot's, and the fuel is above the number of the
-- user's channels, `QuitUser` ends without a fault in a state that keeps the invariant, in which
-- no user with that nick is found and the users with other nicks are in the channels they were in.
pub quit_user-ends :
    (fuel : ℕ) (s : Server) (nick : Text)
    → IsSound s
    → strcaseeq (some nick) (some s.nick) ≡ false
    → ((u : ℕ) (v : User)
        → s.user_at u ≡ some v
        → strcaseeq (some v.nick) (some nick) ≡ true
        → length v.channels < fuel)
    → (s' : Server) × (quit_user fuel s nick ≡ some s')
      × IsSound s'
      × (get_user s' nick ≡ some none)
      × ((t d : ℕ)
          → strcaseeq (nick_at s.user_at t) (some nick) ≡ false
          → joins s'.user_at t d ≡ joins s.user_at t d)
unfolding quit_user
quit_user-ends fuel s nick i o l = elim (get_user_cases s i nick) [
  | inl f ↦ (s, simp f refl, i, f, λ t d y. refl)
  | inr (e, es, f, m) ↦
      let (v, h, n) = user_named s.user_at e.userinfo nick m in
      let (s₁, v₁, g, k, z) =
        leave_all-ends fuel s nick e.userinfo v v.channels i o h n refl (l e.userinfo v h n) in
      let i' = del_user-IsSound s₁ e.userinfo v₁ (k.sound) (k.user) z in
      let m' = nicked_at s₁.user_at e.userinfo v₁ nick (k.user) (k.nicked) in
      (
        del_user s₁ e.userinfo,
        simp (f, g) refl,
        i',
        del_user-missing s₁ e.userinfo nick (k.sound) i' m',
        λ t d y.
            let n' : t ≢ e.userinfo = λ q. absurd (ground arith) in
            joins-del_user s₁ e.userinfo t d n' ∙ k.others t d n',
      )
]
