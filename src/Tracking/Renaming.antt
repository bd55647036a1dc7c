-- ===== src/Tracking/Renaming.antt =====
-- `RenameUser` of src/tracking.c keeps the invariant.
use acidblood.Common.{
  ℕ, ◌≡◌, refl, sym, ap, ◌∙◌, inl, inr, true, false, Option, none, some, Bool-cases,
}
use acidblood.Text.{Text, strcaseeq}
use acidblood.Tracking.{User, Server, put, put_user, get_user}
use acidblood.Tracking.Changes.{rename_user}
use acidblood.Tracking.Sound.{live, channels_of, joins, itself, nick_at, IsSound}
use acidblood.Tracking.Counting.{occurs, AreUnique-put}
use acidblood.Tracking.Adding.{no_user, map_at, map_else, map_all, put_at}
use acidblood.Tracking.Same.{put_same}
use acidblood.Tracking.Searching.{user_named, get_user_cases}
use acidblood.Tracking.Parting.{nicked_at}

abbrev pub renamed : User → Text → User
renamed v n = record v { nick = n }

joins-renamed :
    (f : ℕ → Option User) (u : ℕ) (v : User) (n : Text) (t d : ℕ)
    → f u ≡ some v
    → joins (put f u (some (renamed v n))) t d ≡ joins f t d
unfolding channels_of
joins-renamed f u v n t d h =
    ap (λ l. occurs itself d l) (put_same f u v (renamed v n) t h channels_of refl)

live-renamed :
    (f : ℕ → Option User) (u : ℕ) (v : User) (n : Text) (t : ℕ)
    → f u ≡ some v
    → live (put f u (some (renamed v n)) t) ≡ live (f t)
unfolding live
live-renamed f u v n t h = put_same f u v (renamed v n) t h live refl

renamed-IsSound :
    (s : Server) (u : ℕ) (v : User) (newnick : Text)
    → IsSound s
    → s.user_at u ≡ some v
    → get_user s newnick ≡ some none
    → strcaseeq (some newnick) (some newnick) ≡ true
    → strcaseeq (some newnick) (some s.nick) ≡ false
    → IsSound (put_user s u (renamed v newnick))
unfolding nick_at
renamed-IsSound s u v newnick i h f r n =
    let w = renamed v newnick in
    record {
      users_once = λ t. i.users_once t ∙ sym (live-renamed s.user_at u v newnick t h);
      channels_once = i.channels_once;
      linked = λ t d. joins-renamed s.user_at u v newnick t d h ∙ i.linked t d;
      nicks =
          AreUnique-put (nick_at s.user_at) _ u newnick i.nicks (map_else User.nick s.user_at u w)
            (map_at User.nick s.user_at u w) (λ t l. no_user s newnick i f t);
      names = i.names;
      nicked =
          map_all User.nick s.user_at u w
            (λ m. (strcaseeq (some m) (some m) ≡ true) × (strcaseeq (some m) (some s.nick) ≡ false))
            (r, n) i.nicked;
      named = i.named;
    }

renamed_at :
    (f : ℕ → Option User) (c u : ℕ) (w v : User) (n : Text)
    → u ≡ c
    → f c ≡ some w
    → f u ≡ some v
    → put f c (some (renamed w n)) u ≡ some (renamed v n)
renamed_at f c u w v n e k h =
    let wv : w ≡ v = cc in rw (e, put_at f c (renamed w n)) (ap (λ x. some (renamed x n)) wv)

-- Where the invariant holds, and the new nick is not empty and no user's, `RenameUser` does not
-- fault and keeps the invariant, every user stays in the same channels, and, unless the new nick
-- is the bot's, the user with the old nick has the new one and is else as before.
pub rename_user-ends :
    (s : Server) (nick newnick : Text)
    → IsSound s
    → get_user s newnick ≡ some none
    → strcaseeq (some newnick) (some newnick) ≡ true
    → (s' : Server) × (rename_user s nick newnick ≡ some s')
      × IsSound s'
      × ((t d : ℕ) → joins s'.user_at t d ≡ joins s.user_at t d)
      × (strcaseeq (some newnick) (some s.nick) ≡ false
          → (u : ℕ) (v : User) → s.user_at u ≡ some v
          → strcaseeq (some v.nick) (some nick) ≡ true
          → s'.user_at u ≡ some (renamed v newnick))
unfolding rename_user
rename_user-ends s nick newnick i f r = elim (Bool-cases (strcaseeq (some newnick) (some s.nick))) [
  | inl o ↦ (s, simp o refl, i, λ t d. refl, λ o'. absurd (cc))
  | inr o ↦ elim (get_user_cases s i nick) [
    | inl g ↦ (
      s,
      simp (o, g) refl,
      i,
      λ t d. refl,
      λ o' u v h n. absurd (no_user s nick i g u (nicked_at s.user_at u v nick h n)),
    )
    | inr (e, es, g, m) ↦
        let (w, k, q) = user_named s.user_at e.userinfo nick m in
        (
          put_user s e.userinfo (renamed w newnick),
          simp (o, g, k) refl,
          renamed-IsSound s e.userinfo w newnick i k f r o,
          λ t d. joins-renamed s.user_at e.userinfo w newnick t d k,
          λ o' u v h n.
              let z : u ≡ e.userinfo =
                i.nicks u e.userinfo nick (nicked_at s.user_at u v nick h n) m in
              renamed_at s.user_at e.userinfo u w v newnick z k h,
        )
  ]
]
