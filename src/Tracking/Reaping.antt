-- ===== src/Tracking/Reaping.antt =====
-- `ReapUserList` of src/tracking.c: which users it frees.
use acidblood.Common.{
  ℕ, ◌+◌, ◌≤◌, ◌<◌, ◌≡◌, refl, ap, ◌∙◌, inl, inr, Bool, true, false, Option, none, some, List, [],
  ◌∷◌, arith, ltb, ◌==◌, if◌then◌else◌, ==_iff, ==_refl, Bool-cases, Option-cases, ℤ,
}
use acidblood.Tracking.{Entry, User, Server}
use acidblood.Tracking.Removal.{is_reaped, reap_users, del_user}
use acidblood.Tracking.Counting.{occurs}
use acidblood.Tracking.Sound.{live, IsSound}
use acidblood.Tracking.Freeing.{put-none, put_gone, live_gone, del_user-IsSound}

-- In no channel, and silent for more than 30 seconds.
abbrev pub idle : ℕ → User → Bool
idle ct v = elim v.channels [ [] ↦ ltb (v.lastmsg + 30) ct | _ ∷ _ ↦ false ]

abbrev pub survivor : ℕ → Option User → Option User
survivor ct none = none
survivor ct (some v) = if idle ct v then none else some v

reaped_idle :
    (ct : ℕ) (access : ℤ) (v : User) (cs : List ℕ)
    → v.channels ≡ cs
    → is_reaped ct access v ≡ idle ct v
unfolding is_reaped
reaped_idle ct access v cs e = ground arith

reaped_empty :
    (ct : ℕ) (v : User) (cs : List ℕ) → v.channels ≡ cs → idle ct v ≡ true → v.channels ≡ []
reaped_empty ct v cs e h = ground arith

-- The users that stand in the rest of the list are in memory, each once.
abbrev Awaits : Server → List Entry → Type 0
Awaits s es = (t : ℕ) → occurs Entry.userinfo t es ≤ live (s.user_at t)

abbrev Reaped : ℕ → Server → List Entry → Server → Type 0
Reaped ct s es s' =
    (t : ℕ)
    → s'.user_at t
      ≡ (if ltb 0 (occurs Entry.userinfo t es) then survivor ct (s.user_at t) else s.user_at t)

live_value : (f : ℕ → Option User) (t : ℕ) → 0 < live (f t) → (v : User) × (f t ≡ some v)
unfolding live
live_value f t h = elim (Option-cases (f t)) [
  | inl e ↦ absurd (omega (arith, rw e at h))
  | inr r ↦ r
]

del_live :
    (s : Server) (u t : ℕ) (v : User)
    → s.user_at u ≡ some v
    → live (s.user_at t) ≡ (if u == t then 1 else 0) + live ((del_user s u).user_at t)
unfolding del_user
del_live s u t v h = live_gone s.user_at u t v h

-- What one round adds to the result, whether the user is freed or not.
gone_step :
    (ct t u n : ℕ) (s : Server) (v : User) (r : Option User)
    → idle ct v ≡ true
    → s.user_at u ≡ some v
    → r ≡ (if ltb 0 n then survivor ct ((del_user s u).user_at t) else (del_user s u).user_at t)
    → r ≡ (if ltb 0 ((if u == t then 1 else 0) + n) then survivor ct (s.user_at t) else s.user_at t)
unfolding del_user
gone_step ct t u n s v r q k h = elim (Bool-cases (t == u)) [
  | inl e ↦
      let tu = (==_iff t u).0 e in
      let z = put_gone s.user_at u in
      let h' = rw (tu, z) at h in rw (tu, k, ==_refl u) (ground arith)
  | inr e ↦ let z = put-none s.user_at u t (ground arith) in let h' = rw z at h in ground arith
]

kept_step :
    (ct t u n : ℕ) (o : Option User) (v : User) (r : Option User)
    → idle ct v ≡ false
    → (t ≡ u → o ≡ some v)
    → r ≡ (if ltb 0 n then survivor ct o else o)
    → r ≡ (if ltb 0 ((if u == t then 1 else 0) + n) then survivor ct o else o)
kept_step ct t u n o v r q k h = elim (Bool-cases (t == u)) [
  | inl e ↦
      let z : o ≡ some v = k ((==_iff t u).0 e) in
      let h' : r ≡ (if ltb 0 n then (if idle ct v then none else some v) else some v) = rw z at h in
      ground arith
  | inr e ↦ ground arith
]

reap_from :
    (ct : ℕ) (s : Server) (es : List Entry)
    → IsSound s
    → Awaits s es
    → (s' : Server) × (reap_users ct s es ≡ some s') × IsSound s' × Reaped ct s es s'
unfolding reap_users occurs
reap_from ct s [] i h = (s, refl, i, λ t. refl)
reap_from ct s (e ∷ es) i h =
    let (v, k) = live_value s.user_at e.userinfo (ground (arith, h e.userinfo)) in
    let r = reaped_idle ct e.access v v.channels refl in
    elim (Bool-cases (idle ct v)) [
      | inl q ↦
          let i₁ = del_user-IsSound s e.userinfo v i k (reaped_empty ct v v.channels refl q) in
          let (s', f, i', g) =
            reap_from ct (del_user s e.userinfo) es i₁
              (λ t. omega (arith, h t, del_live s e.userinfo t v k)) in
          (
            s',
            simp (k, r, q) f,
            i',
            λ t.
                gone_step ct t e.userinfo (occurs Entry.userinfo t es) s v (s'.user_at t) q k (g t),
          )
      | inr q ↦
          let (s', f, i', g) = reap_from ct s es i (λ t. omega (arith, h t)) in
          (
            s',
            simp (k, r, q) f,
            i',
            λ t.
                kept_step ct t e.userinfo (occurs Entry.userinfo t es) (s.user_at t) v
                  (s'.user_at t) q (λ x. ap s.user_at x ∙ k) (g t),
          )
    ]

survivor_all :
    (ct n : ℕ) (o r : Option User)
    → n ≡ live o
    → r ≡ (if ltb 0 n then survivor ct o else o)
    → r ≡ survivor ct o
unfolding live
survivor_all ct n none r e h = ground arith
survivor_all ct n (some v) r e h = ground arith

-- Where the invariant holds, the loop of `ReapUserList` over the users of a server reads no freed
-- memory, keeps the invariant, and frees the users that are in no channel and silent for more than
-- 30 seconds, whatever their access, and no others.
pub reap_users-ends :
    (ct : ℕ) (s : Server)
    → IsSound s
    → (s' : Server) × (reap_users ct s s.ulist ≡ some s')
      × IsSound s'
      × ((t : ℕ) → s'.user_at t ≡ survivor ct (s.user_at t))
reap_users-ends ct s i =
    let (s', f, i', g) = reap_from ct s s.ulist i (λ t. omega (arith, i.users_once t)) in
    (
      s',
      f,
      i',
      λ t.
          survivor_all ct (occurs Entry.userinfo t s.ulist) (s.user_at t) (s'.user_at t)
            (i.users_once t) (g t),
    )
