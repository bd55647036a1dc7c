-- ===== src/Seen/Lists.antt =====
-- The list of dmodules/seen/seen.c as users come, leave and take other nicks.
use acidblood.Common.{
  ℕ, zero, suc, ◌<◌, ◌≡◌, refl, ap, ◌∙◌, ◌⊎◌, inl, inr, true, false, not, Option, none, some, List,
  [], ◌∷◌, ◌++◌, arith, if◌then◌else◌, Bool-cases, length, length-append, keep, All,
}
use acidblood.Text.{Text, lowerstring}
use acidblood.Seen.{ChUsers, Files, logseen, in_channel, seen_find_inchannel, seen_user_leave}

-- What the search finds: nothing where no entry passes, or the first that does.
abbrev Found : Text → Option Text → List ChUsers → Type 0
Found nick channel users =
    (front : List ChUsers) × (c : ChUsers) × (back : List ChUsers) × (seen_find_inchannel nick
        channel users
      ≡ some (front, c, back))
    × (users ≡ front ++ c ∷ back)
    × (in_channel nick channel c ≡ true)
    × All (λ x. in_channel nick channel x ≡ false) front

search :
    (nick : Text) (channel : Option Text) (users : List ChUsers)
    → ((seen_find_inchannel nick channel users ≡ none)
        × All (λ c. in_channel nick channel c ≡ false) users)
      ⊎ Found nick channel users
unfolding seen_find_inchannel
search nick channel [] = inl (refl, tt)
search nick channel (c ∷ users) = elim (Bool-cases (in_channel nick channel c)) [
  | inl e ↦ inr ([], c, users, rw e refl, refl, e, tt)
  | inr e ↦ elim (search nick channel users) [
    | inl (f, h) ↦ inl (rw (e, f) refl, (e, h))
    | inr (front, x, back, f, w, h, q) ↦
        inr (c ∷ front, x, back, rw (e, f) refl, ap (◌∷◌ c) w, h, (e, q))
  ]
]

abbrev pub others : Text → Option Text → List ChUsers → List ChUsers
others nick channel = keep (λ c. not (in_channel nick channel c))

others-All :
    (nick : Text) (channel : Option Text) (users : List ChUsers)
    → All (λ c. in_channel nick channel c ≡ false) users
    → others nick channel users ≡ users
others-All nick channel [] h = refl
others-All nick channel (c ∷ users) (e, h) = rw e (ap (◌∷◌ c) (others-All nick channel users h))

others-without :
    (nick : Text) (channel : Option Text) (front back : List ChUsers) (c : ChUsers)
    → in_channel nick channel c ≡ true
    → others nick channel (front ++ c ∷ back) ≡ others nick channel (front ++ back)
others-without nick channel [] back c e = rw e refl
others-without nick channel (x ∷ front) back c e =
    rw (others-without nick channel front back c e) refl

-- The loop of seen_user_leave ends, with fuel for one round more than there are entries, and leaves
-- the entries that are not the nick's in the channel, or in any where the channel is NULL, in order.
seen_user_leave-ends :
    (fuel : ℕ) (nick : Text) (channel : Option Text) (f : Files) (users : List ChUsers)
    → length users < fuel
    → (f' : Files) × (seen_user_leave fuel nick channel f users
        ≡ some (f', others nick channel users))
unfolding seen_user_leave
seen_user_leave-ends zero nick channel f users l = absurd (omega arith)
seen_user_leave-ends (suc fuel) nick channel f users l = elim (search nick channel users) [
  | inl (e, h) ↦ (f, rw (seen_user_leave, e, others-All nick channel users h) refl)
  | inr (front, c, back, e, w, h, q) ↦
      let shorter : length (front ++ back) < fuel =
        omega (arith, l, ap length w, length-append front (c ∷ back), length-append front back) in
      let (f', g) =
        seen_user_leave-ends fuel nick channel (logseen nick c.channel f) (front ++ back) shorter in
      let same : others nick channel users ≡ others nick channel (front ++ back) =
        ap (others nick channel) w ∙ others-without nick channel front back c h in
      (f', rw (seen_user_leave, e, same) g)
]

-- An entry under the new nick; its channel is in lower case.
abbrev pub renamed : Text → Text → ChUsers → ChUsers
renamed nick newnick c =
    if in_channel nick none c then record { nick = newnick; channel = lowerstring c.channel } else c

abbrev count : Text → List ChUsers → ℕ
count nick users = length (keep (in_channel nick none) users)

-- The files once logseen has been called for one entry after the other.
abbrev pub logged : List ChUsers → Files → Files
logged [] f = f
logged (c ∷ users) f = logged users (logseen c.nick c.channel f)

abbrev pub entries : Text → List ChUsers → List ChUsers
entries nick = keep (in_channel nick none)
