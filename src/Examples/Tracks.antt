-- ===== src/Examples/Tracks.antt =====
-- A server with a user in a channel, and the theorems on src/tracking.c at it.
use acidblood.Common.{
  ℕ, ◌-◌, ◌<◌, ◌≡◌, refl, ap, ◌≢◌, inl, inr, true, false, Option, none, some, List, [], ◌∷◌, arith,
  ◌==◌, ==_iff, Bool-cases, codes, length, After, ℤ, pos, negsuc,
}
use acidblood.Text.{strcaseeq, same_bytes_nocase}
use acidblood.Access.{set_chan_access}
use acidblood.Tracking.{
  Entry, User, Channel, Server, Policy, put, look, nick_of, name_of, get_user, get_channel,
  put_first_access, set_chan_access_of,
}
use acidblood.Tracking.Changes.{
  rename_user, add_user, add_channel, fill_in, update_user, ensure_channel, join_lists,
  link_user_to_channel,
}
use acidblood.Tracking.Dropping.{del_channel-ends}
use acidblood.Tracking.Removal.{del_channel, del_user_from_channel, reap_users}
use acidblood.Tracking.Counting.{occurs}
use acidblood.Tracking.Sound.{live, channels_of, users_of, joins, nick_at, IsSound, IsSame}
use acidblood.Tracking.Joining.{SoundThen, update_user-IsSound}
use acidblood.Tracking.Memberships.{Joins, link_user_to_channel-Joins}
use acidblood.Tracking.Renaming.{renamed, rename_user-ends}
use acidblood.Tracking.Quitting.{ending, del_user_from_channel-ends}
use acidblood.Tracking.Reaping.{survivor, reap_users-ends}

abbrev pub nobody : Server
nobody = record {
  nick = codes "bot";
  ulist = [];
  clist = [];
  user_at = λ u. none;
  channel_at = λ c. none;
}

abbrev pub open_policy : Policy
open_policy = record { userdata = []; reqpass = true }

nobody-IsSound : IsSound nobody
unfolding occurs live channels_of users_of nick_at name_of strcaseeq
nobody-IsSound = record {
  users_once = λ u. refl;
  channels_once = λ c. refl;
  linked = λ u c. refl;
  nicks = λ u v n p q. absurd (cc);
  names = λ c d n p q. absurd (cc);
  nicked = λ u n p. absurd (cc);
  named = λ c n p. absurd (cc);
}

-- `ann` is seen, and then joins `#c`.
abbrev pub one_user : Server
one_user = record {
  nick = codes "bot";
  ulist = (record { userinfo = 7; access = negsuc 0 }) ∷ [];
  clist = [];
  user_at =
      put (λ u. none) 7
        (some (record {
          nick = codes "ann";
          ident = none;
          address = none;
          lastmsg = 50;
          channels = [];
        }));
  channel_at = λ c. none;
}

one_user-IsSound : IsSound one_user
unfolding update_user get_user look add_user fill_in put strcaseeq same_bytes_nocase nick_of
one_user-IsSound =
    update_user-IsSound open_policy 50 7 nobody (codes "ann") none none nobody-IsSound refl refl

abbrev pub hash_c : List Entry → Channel
hash_c users = record { name = codes "#c"; users = users }

abbrev pub ann_at : ℤ → List Entry
ann_at access = (record { userinfo = 7; access = access }) ∷ []

abbrev pub ann_joined : Server
ann_joined = record {
  nick = codes "bot";
  ulist = (record { userinfo = 7; access = negsuc 0 }) ∷ [];
  clist = 9 ∷ [];
  user_at = put one_user.user_at 7 (
      some (record {
        nick = codes "ann";
        ident = none;
        address = none;
        lastmsg = 50;
        channels = 9 ∷ [];
      }));
  channel_at =
      put (put (put (λ c. none) 9 (some (hash_c []))) 9 (some (hash_c (ann_at (pos 3))))) 9
        (some (hash_c (ann_at (pos 99))));
}

update_user-IsSound_example :
    After SoundThen (update_user open_policy 50 7 nobody (codes "ann") none none)
unfolding strcaseeq same_bytes_nocase
update_user-IsSound_example =
    update_user-IsSound open_policy 50 7 nobody (codes "ann") none none nobody-IsSound refl refl

link_user_to_channel-Joins_example :
    After
      (Joins one_user 7 (codes "#c"))
      (link_user_to_channel open_policy (pos 3) 9 one_user 7 (codes "#c"))
unfolding strcaseeq same_bytes_nocase
link_user_to_channel-Joins_example =
    link_user_to_channel-Joins open_policy (pos 3) 9 one_user 7 (codes "#c") one_user-IsSound refl
      refl

pub ann_joined-IsSound : IsSound ann_joined
unfolding link_user_to_channel ensure_channel join_lists set_chan_access_of set_chan_access
    get_channel look add_channel put put_first_access name_of nick_of strcaseeq same_bytes_nocase
ann_joined-IsSound =
    (link_user_to_channel-Joins open_policy (pos 3) 9 one_user 7 (codes "#c") one_user-IsSound refl
      refl).0

del_user_from_channel-ends_example :
    (s' : Server) × (del_user_from_channel ann_joined (codes "ann") (codes "#C") ≡ some s')
    × IsSound s'
    × IsSame ann_joined s'
    × ((t d : ℕ)
        → joins s'.user_at t d
          ≡ joins ann_joined.user_at t d - ending ann_joined (codes "ann") (codes "#C") t d)
unfolding strcaseeq same_bytes_nocase
del_user_from_channel-ends_example =
    del_user_from_channel-ends ann_joined (codes "ann") (codes "#C") ann_joined-IsSound refl

abbrev channel_count : Option User → ℕ
channel_count none = 0
channel_count (some v) = length v.channels

at_most_one : (u : ℕ) → channel_count (ann_joined.user_at u) < 2
unfolding put
at_most_one u = elim (Bool-cases (u == 7)) [
  | inl e ↦ rw ((==_iff u 7).0 e) (omega arith)
  | inr e ↦ rw e (omega arith)
]

no_bob : get_user ann_joined (codes "bob") ≡ some none
unfolding get_user look nick_of put strcaseeq same_bytes_nocase
no_bob = refl

rename_user-ends_example :
    (s' : Server) × (rename_user ann_joined (codes "ann") (codes "bob") ≡ some s')
    × IsSound s'
    × ((t d : ℕ) → joins s'.user_at t d ≡ joins ann_joined.user_at t d)
    × (strcaseeq (some (codes "bob")) (some ann_joined.nick) ≡ false
        → (u : ℕ) (v : User) → ann_joined.user_at u ≡ some v
        → strcaseeq (some v.nick) (some (codes "ann")) ≡ true
        → s'.user_at u ≡ some (renamed v (codes "bob")))
unfolding strcaseeq same_bytes_nocase
rename_user-ends_example =
    rename_user-ends ann_joined (codes "ann") (codes "bob") ann_joined-IsSound no_bob refl

pub few_channels :
    (u : ℕ) (v : User)
    → ann_joined.user_at u ≡ some v
    → strcaseeq (some v.nick) (some (codes "ann")) ≡ true
    → length v.channels < 2
few_channels u v h n = omega (arith, at_most_one u, ap channel_count h)

reap_users-ends_example :
    (s' : Server) × (reap_users 81 one_user one_user.ulist ≡ some s')
    × IsSound s'
    × ((t : ℕ) → s'.user_at t ≡ survivor 81 (one_user.user_at t))
reap_users-ends_example = reap_users-ends 81 one_user one_user-IsSound

-- The search does not tell the case of letters apart.
forgotten :
    get_user one_user (codes "ANN") ≡ some (some (record { userinfo = 7; access = negsuc 0 }, []))
unfolding get_user look nick_of put strcaseeq same_bytes_nocase
forgotten = refl

del_channel-ends_example :
    (s' : Server) × (del_channel 2 ann_joined 9 ≡ some s')
    × IsSound s'
    × (get_channel s' (codes "#c") ≡ some none)
    × ((t d : ℕ) → d ≢ 9 → joins s'.user_at t d ≡ joins ann_joined.user_at t d)
unfolding put
del_channel-ends_example =
    del_channel-ends 2 ann_joined 9 (hash_c (ann_at (pos 99))) ann_joined-IsSound refl (omega arith)
