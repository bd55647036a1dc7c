-- ===== src/Tracking/Freeing.antt =====
-- `DelUser` of src/tracking.c, on a user that is in no channel.
use mathlib.Core.Option
use acidblood.Common.{
  ℕ, ◌+◌, ◌<◌, ◌≡◌, refl, sym, ap, ◌∙◌, ◌≢◌, inl, inr, true, Option, none, some, List, [], ◌∷◌,
  arith, ◌==◌, if◌then◌else◌, ==_iff, ==_refl, Bool-cases,
}
use acidblood.Text.{Text, strcaseeq}
use acidblood.Tracking.{Entry, User, Server, put, get_user}
use acidblood.Tracking.Removal.{del_user, drop_entry}
use acidblood.Tracking.Counting.{occurs}
use acidblood.Tracking.Sound.{live, itself, channels_of, joins, nick_at, IsSound}
use acidblood.Tracking.Searching.{get_user_cases}

occurs-drop :
    (t u : ℕ) (es : List Entry)
    → 0 < occurs Entry.userinfo u es
    → occurs Entry.userinfo t es
      ≡ (if u == t then 1 else 0) + occurs Entry.userinfo t (drop_entry u es)
unfolding occurs drop_entry
occurs-drop t u [] h = absurd (omega arith)
occurs-drop t u (e ∷ es) h = let rest = occurs-drop t u es in ground arith

pub put-none : {A : Type 0} (f : ℕ → Option A) (u t : ℕ) → t ≢ u → put f u none t ≡ f t
unfolding put
put-none f u t n = ground arith

pub put_gone : {A : Type 0} (f : ℕ → Option A) (u : ℕ) → put f u none u ≡ none
unfolding put
put_gone f u = rw (==_refl u) refl

pub live_gone :
    (f : ℕ → Option User) (u t : ℕ) (v : User)
    → f u ≡ some v
    → live (f t) ≡ (if u == t then 1 else 0) + live (put f u none t)
unfolding live put
live_gone f u t v h = ground arith

live_at : (f : ℕ → Option User) (u : ℕ) (v : User) → f u ≡ some v → live (f u) ≡ 1
unfolding live
live_at f u v h = rw h refl

-- A name that is left is one that was there, at another address.
nick_gone :
    (f : ℕ → Option User) (u t : ℕ) (m : Text)
    → nick_at (put f u none) t ≡ some m
    → (t ≢ u) × (nick_at f t ≡ some m)
unfolding nick_at
nick_gone f u t m p = elim (Bool-cases (t == u)) [
  | inl q ↦
      let z : Option.map User.nick (put f u none u) ≡ some m = rw ((==_iff t u).0 q) at p in
      let y = put_gone f u in absurd (cc)
  | inr q ↦
      let n : t ≢ u = ground arith in
      (n, sym (ap (λ o. Option.map User.nick o) (put-none f u t n)) ∙ p)
]

pub nothing_named : (m : Text) → strcaseeq none (some m) ≢ true
unfolding strcaseeq
nothing_named m h = cc

named_gone :
    (f : ℕ → Option User) (u t : ℕ) (m : Text)
    → strcaseeq (nick_at (put f u none) t) (some m) ≡ true
    → (t ≢ u) × (strcaseeq (nick_at f t) (some m) ≡ true)
unfolding nick_at
named_gone f u t m p = elim (Bool-cases (t == u)) [
  | inl q ↦
      let z : strcaseeq (Option.map User.nick (put f u none u)) (some m) ≡ true =
        rw ((==_iff t u).0 q) at p in
      absurd (nothing_named m (rw (put_gone f u) at z))
  | inr q ↦ let n : t ≢ u = ground arith in (n, rw (put-none f u t n) at p)
]

joins_gone :
    (f : ℕ → Option User) (u : ℕ) (v : User) (t d : ℕ)
    → f u ≡ some v
    → v.channels ≡ []
    → joins (put f u none) t d ≡ joins f t d
unfolding channels_of occurs
joins_gone f u v t d h e = elim (Bool-cases (t == u)) [
  | inl q ↦ rw ((==_iff t u).0 q, put_gone f u, h, e) refl
  | inr q ↦ ap (λ o. occurs itself d (channels_of o)) (put-none f u t (ground arith))
]

-- `DelUser` on a user in no channel.
pub del_user-IsSound :
    (s : Server) (u : ℕ) (v : User)
    → IsSound s
    → s.user_at u ≡ some v
    → v.channels ≡ []
    → IsSound (del_user s u)
unfolding del_user
del_user-IsSound s u v i h e = record {
  users_once = λ t.
      let l = live_gone s.user_at u t v h in
      omega (
        arith,
        i.users_once t,
        l,
        occurs-drop t u s.ulist (omega (arith, i.users_once u, live_at s.user_at u v h)),
      );
  channels_once = i.channels_once;
  linked = λ t d. joins_gone s.user_at u v t d h e ∙ i.linked t d;
  nicks = λ t r m p q.
      i.nicks t r m ((named_gone s.user_at u t m p).1) ((named_gone s.user_at u r m q).1);
  names = i.names;
  nicked = λ t m p. i.nicked t m ((nick_gone s.user_at u t m p).1);
  named = i.named;
}

pub del_user-missing :
    (s : Server) (u : ℕ) (nick : Text)
    → IsSound s
    → IsSound (del_user s u)
    → strcaseeq (nick_at s.user_at u) (some nick) ≡ true
    → get_user (del_user s u) nick ≡ some none
unfolding del_user
del_user-missing s u nick i i' h = elim (get_user_cases (del_user s u) i' nick) [
  | inl f ↦ f
  | inr (e, es, f, m) ↦
      let (n, g) = named_gone s.user_at u e.userinfo nick m in
      absurd (n (i.nicks e.userinfo u nick g h))
]

pub joins-del_user :
    (s : Server) (u t d : ℕ) → t ≢ u → joins (del_user s u).user_at t d ≡ joins s.user_at t d
unfolding del_user
joins-del_user s u t d n = ap (λ o. occurs itself d (channels_of o)) (put-none s.user_at u t n)
