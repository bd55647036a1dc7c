-- ===== src/Tracking/Joining.antt =====
-- `UpdateUser` of src/tracking.c keeps the invariant.
use acidblood.Common.{
  ℕ, ◌≡◌, refl, ap, ◌∙◌, true, Option, none, some, List, After, After-bind, After-search,
  After-elim, After-if, After-some, pos, ltb_ℤ,
}
use acidblood.Text.{Text, strcaseeq}
use acidblood.Tracking.{User, Server, Policy, put_user, get_user, set_access_of, access_in}
use acidblood.Tracking.Changes.{add_user, fill_in, update_user}
use acidblood.Tracking.Counting.{occurs}
use acidblood.Tracking.Sound.{itself, channels_of, IsSound, IsSame-IsSound}
use acidblood.Tracking.Same.{put_same, put_user-IsSame, Keeps, IsKept-IsSound, set_access_of-IsKept}
use acidblood.Tracking.Adding.{add_user-IsSound}

abbrev pub SoundAfter : Server × List Text → Type 0
SoundAfter r = IsSound r.0

abbrev pub SoundThen : Server × List Text × Option ℕ → Type 0
SoundThen r = IsSound r.0

keep_channels :
    (s : Server) (u : ℕ) (v w : User)
    → IsSound s
    → s.user_at u ≡ some v
    → w.nick ≡ v.nick
    → w.channels ≡ v.channels
    → IsSound (put_user s u w)
unfolding channels_of
keep_channels s u v w i h n c =
    IsSame-IsSound s (put_user s u w) (put_user-IsSame s u v w h n)
      (λ t d.
        ap (λ l. occurs itself d l) (put_same s.user_at u v w t h channels_of c) ∙ i.linked t d)
      i

After-Keeps :
    (s : Server)
    → IsSound s
    → (o : Option (Server × List Text)) → After (Keeps s) o
    → After SoundAfter o
After-Keeps s i none k = tt
After-Keeps s i (some r) k = IsKept-IsSound s (r.0) k i

fill_in-IsSound :
    (p : Policy) (s : Server) (u : ℕ) (ident address : Option Text)
    → IsSound s
    → After SoundAfter (fill_in p s u ident address)
unfolding fill_in
fill_in-IsSound p s u none address i = After-bind SoundAfter (s.user_at u) _ (λ v e. i)
fill_in-IsSound p s u (some d) address i = After-bind SoundAfter (s.user_at u) _ (λ v e.
    After-elim SoundAfter v.ident _ _
      (After-bind SoundAfter address _ (λ a f.
        let w : User = record v { ident = some d; address = some a } in
        let i' = keep_channels s u v w i e refl refl in
        After-if SoundAfter (ltb_ℤ (access_in u s.ulist) (pos 0)) _ _
          (λ b.
            After-Keeps (put_user s u w) i' (set_access_of p (put_user s u w) u none)
              (set_access_of-IsKept p (put_user s u w) u none))
          (λ b. i')))
      (λ x f. i))

-- With a free address for a new user, and a nick that is not empty, `UpdateUser` keeps the
-- invariant wherever it does not fault.
pub update_user-IsSound :
    (p : Policy) (now x : ℕ) (s : Server) (nick : Text) (ident address : Option Text)
    → IsSound s
    → s.user_at x ≡ none
    → strcaseeq (some nick) (some nick) ≡ true
    → After SoundThen (update_user p now x s nick ident address)
unfolding update_user
update_user-IsSound p now x s nick ident address i e r =
    After-if SoundThen (strcaseeq (some nick) (some s.nick)) _ _ (λ b. i)
      (λ b.
        After-search SoundThen (get_user s nick) _
          (λ f.
            let i' = add_user-IsSound now x s nick i e f r b in
            After-bind SoundThen (fill_in p (add_user now x s nick) x ident address) _ (λ o g.
              After-some SoundAfter _ o
                (fill_in-IsSound p (add_user now x s nick) x ident address i') g))
          (λ (m, ms) f.
            After-bind SoundThen (fill_in p s m.userinfo ident address) _ (λ o g.
              After-some SoundAfter _ o (fill_in-IsSound p s m.userinfo ident address i) g)))
