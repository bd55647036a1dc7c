-- ===== src/Tracking/Memberships.antt =====
-- `LinkUserToChannel` of src/tracking.c keeps the invariant, and adds one membership.
use acidblood.Common.{
  ℕ, ◌+◌, ◌≡◌, refl, ap, ◌∙◌, inl, inr, true, Option, none, some, List, [], ◌∷◌, ◌++◌, arith, ◌==◌,
  if◌then◌else◌, ==_iff, ==_refl, Bool-cases, After, After-bind, After-search, After-some, ℤ,
}
use acidblood.Text.{Text, strcaseeq}
use acidblood.Tracking.{
  Entry, User, Channel, Server, Policy, put, name_of, put_user, put_channel, get_channel,
  set_chan_access_of,
}
use acidblood.Tracking.Changes.{add_channel, ensure_channel, join_lists, link_user_to_channel}
use acidblood.Tracking.Counting.{occurs_end, look-found}
use acidblood.Tracking.Sound.{
  itself, channels_of, users_of, joins, members, IsSound, IsSame, IsSame-IsSound, IsSame-trans,
}
use acidblood.Tracking.Same.{
  put_user-IsSame, put_channel-IsSame, joins-put, members-put, IsKept, Keeps,
  set_chan_access_of-IsKept,
}
use acidblood.Tracking.Adding.{add_channel-IsSound, name_of-at, map_at}

-- The channel of the name is there, in a state with the same users.
abbrev Ensures : Server → Text → Server × ℕ → Type 0
Ensures s name r =
    IsSound r.0
    × (strcaseeq (name_of r.0.channel_at r.1) (some name) ≡ true)
    × (r.0.user_at ≡ s.user_at)

get_channel-named :
    (s : Server) (name : Text) (c : ℕ) (cs : List ℕ)
    → get_channel s name ≡ some (some (c, cs))
    → strcaseeq (name_of s.channel_at c) (some name) ≡ true
unfolding get_channel itself
get_channel-named s name c cs f =
    (look-found itself (name_of s.channel_at) (name_of s.channel_at) name (name_of-at s.channel_at)
      s.clist c cs f).1

new_channel-named :
    (x : ℕ) (s : Server) (name : Text)
    → strcaseeq (some name) (some name) ≡ true
    → strcaseeq (name_of (add_channel x s name).channel_at x) (some name) ≡ true
unfolding add_channel name_of
new_channel-named x s name r =
    rw (map_at Channel.name s.channel_at x (record { name = name; users = [] })) r

same_users : (x : ℕ) (s : Server) (name : Text) → (add_channel x s name).user_at ≡ s.user_at
unfolding add_channel
same_users x s name = refl

ensure_channel-Ensures :
    (x : ℕ) (s : Server) (name : Text)
    → IsSound s
    → s.channel_at x ≡ none
    → strcaseeq (some name) (some name) ≡ true
    → After (Ensures s name) (ensure_channel x s name)
unfolding ensure_channel
ensure_channel-Ensures x s name i e r =
    After-search (Ensures s name) (get_channel s name) _
      (λ f.
        (add_channel-IsSound x s name i e f r, new_channel-named x s name r, same_users x s name))
      (λ (c, cs) f. (i, get_channel-named s name c cs f, refl))

-- The user at `u` is in the channel at `c` once more, and all other memberships are as they were.
abbrev pub OneMore : Server → ℕ → ℕ → Server → Type 0
OneMore s u c s' =
    (t d : ℕ)
    → joins s'.user_at t d ≡ (if t == u then (if c == d then 1 else 0) else 0) + joins s.user_at t d

abbrev with_member : Channel → ℕ → ℤ → Channel
with_member ch u a = record ch { users = ch.users ++ (record { userinfo = u; access = a }) ∷ [] }

abbrev with_channel : User → ℕ → User
with_channel v c = record v { channels = v.channels ++ c ∷ [] }

one_meeting :
    (t u c d : ℕ)
    → (if t == u then (if c == d then 1 else 0) else 0)
      ≡ (if d == c then (if u == t then 1 else 0) else 0) + 0
one_meeting t u c d = ground arith

joins_more :
    (f : ℕ → Option User) (u c : ℕ) (v : User) (t d : ℕ)
    → f u ≡ some v
    → joins (put f u (some (with_channel v c))) t d
      ≡ (if t == u then (if c == d then 1 else 0) else 0) + joins f t d
unfolding channels_of itself
joins_more f u c v t d h =
    let end = occurs_end itself d v.channels c in
    elim (Bool-cases (t == u)) [
      | inl q ↦
          let tu = (==_iff t u).0 q in
          joins-put f u (with_channel v c) t d ∙ rw (tu, ==_refl u, h) end
      | inr q ↦ joins-put f u (with_channel v c) t d ∙ rw q (omega arith)
    ]

members_more :
    (f : ℕ → Option Channel) (u c : ℕ) (ch : Channel) (a : ℤ) (t d : ℕ)
    → f c ≡ some ch
    → members (put f c (some (with_member ch u a))) t d
      ≡ (if d == c then (if u == t then 1 else 0) else 0) + members f t d
unfolding users_of
members_more f u c ch a t d h =
    let end = occurs_end Entry.userinfo t ch.users (record { userinfo = u; access = a }) in
    elim (Bool-cases (d == c)) [
      | inl q ↦
          let dc = (==_iff d c).0 q in
          members-put f c (with_member ch u a) t d ∙ rw (dc, ==_refl c, h) end
      | inr q ↦ members-put f c (with_member ch u a) t d ∙ rw q (omega arith)
    ]

linked_join :
    (s s'' : Server) (u c : ℕ) (ch : Channel) (v : User) (a : ℤ)
    → IsSound s
    → s.channel_at c ≡ some ch
    → IsKept (put_channel s c (with_member ch u a)) s''
    → s''.user_at u ≡ some v
    → (t d : ℕ)
    → joins (put s''.user_at u (some (with_channel v c))) t d ≡ members s''.channel_at t d
linked_join s s'' u c ch v a i e k h t d =
    let same : joins s''.user_at t d ≡ joins s.user_at t d = ap (λ f. joins f t d) (k.users) in
    let l = joins_more s''.user_at u c v t d h in
    let r = members_more s.channel_at u c ch a t d e in
    let both = one_meeting t u c d in omega (arith, l, r, same, both, i.linked t d, k.kept t d)

abbrev Adds : Server → ℕ → ℕ → Server × List Text → Type 0
Adds s u c r = IsSound r.0 × IsSame s r.0 × OneMore s u c r.0

joined-Adds :
    (s s'' : Server) (u c : ℕ) (ch : Channel) (v : User) (a : ℤ) (out : List Text)
    → IsSound s
    → s.channel_at c ≡ some ch
    → IsKept (put_channel s c (with_member ch u a)) s''
    → s''.user_at u ≡ some v
    → Adds s u c (put_user s'' u (with_channel v c), out)
joined-Adds s s'' u c ch v a out i e k h =
    let first = put_channel-IsSame s c ch (with_member ch u a) e refl in
    let last = put_user-IsSame s'' u v (with_channel v c) h refl in
    let same =
      IsSame-trans s s'' (put_user s'' u (with_channel v c))
        (IsSame-trans s (put_channel s c (with_member ch u a)) s'' first (k.same)) last in
    (
      IsSame-IsSound s (put_user s'' u (with_channel v c)) same
          (linked_join s s'' u c ch v a i e k h) i,
      same,
      λ t d.
          let z : joins s''.user_at t d ≡ joins s.user_at t d = ap (λ f. joins f t d) (k.users) in
          omega (arith, joins_more s''.user_at u c v t d h, z),
    )

join_lists-Adds :
    (p : Policy) (junk : ℤ) (s : Server) (u c : ℕ) (name : Text)
    → IsSound s
    → After (Adds s u c) (join_lists p junk s u c name)
unfolding join_lists
join_lists-Adds p junk s u c name i = After-bind (Adds s u c) (s.channel_at c) _ (λ ch e.
    let s' = put_channel s c (with_member ch u junk) in
    After-bind (Adds s u c) (set_chan_access_of p s' u name none) _ (λ o g.
      After-bind (Adds s u c) (o.0.user_at u) _ (λ v h.
        joined-Adds s o.0 u c ch v junk o.1 i e
          (After-some (Keeps s') _ o (set_chan_access_of-IsKept p s' u name none) g) h)))

abbrev pub Joins : Server → ℕ → Text → Server × List Text → Type 0
Joins s u name r =
    IsSound r.0
    × ((c : ℕ) × (strcaseeq (name_of r.0.channel_at c) (some name) ≡ true) × OneMore s u c r.0)

After-Adds :
    (s s₁ : Server) (u c : ℕ) (name : Text) (o : Option (Server × List Text))
    → strcaseeq (name_of s₁.channel_at c) (some name) ≡ true
    → s₁.user_at ≡ s.user_at
    → After (Adds s₁ u c) o
    → After (Joins s u name) o
After-Adds s s₁ u c name none n e h = tt
After-Adds s s₁ u c name (some r) n e (i, q, m) = (
  i,
  (
    c,
    rw (q.same_names c) n,
    λ t d.
        let z : joins s₁.user_at t d ≡ joins s.user_at t d = ap (λ f. joins f t d) e in
        omega (arith, m t d, z),
  ),
)

-- With a free address for a new channel, and a name that is not empty, `LinkUserToChannel`,
-- wherever it does not fault, keeps the invariant; the user is once more in a channel of that
-- name, and all other memberships are as they were.
pub link_user_to_channel-Joins :
    (p : Policy) (junk : ℤ) (x : ℕ) (s : Server) (u : ℕ) (name : Text)
    → IsSound s
    → s.channel_at x ≡ none
    → strcaseeq (some name) (some name) ≡ true
    → After (Joins s u name) (link_user_to_channel p junk x s u name)
unfolding link_user_to_channel
link_user_to_channel-Joins p junk x s u name i e r =
    After-bind (Joins s u name) (ensure_channel x s name) _ (λ o g.
      let (i', n, q) = After-some (Ensures s name) _ o (ensure_channel-Ensures x s name i e r) g in
      After-Adds s o.0 u o.1 name _ n q (join_lists-Adds p junk o.0 u o.1 name i'))
