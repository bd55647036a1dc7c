-- ===== src/Match/Ends.antt =====
-- The ends of the mask and of the name in a round of the loop of src/match.c.
use acidblood.Common.{
  ℕ, ◌+◌, ◌*◌, ◌≤◌, ◌<◌, ◌≡◌, refl, sym, ap, ◌∙◌, ◌≢◌, inl, inr, Bool, true, false, ◌&&◌, [], ◌∷◌,
  ◌++◌, arith, ◌==◌, if◌then◌else◌, ==_iff, Bool-cases, length, All,
}
use acidblood.Text.{Text}
use acidblood.Match.{
  byte_at, skip_stars, back_over, inside, State, done, and_then, retry, compare_bytes, mask_ended,
  test_ends,
}
use acidblood.Match.Wildcard.{
  Matches, star_at_end, stars-Matches, questions-Matches, not-Matches-nil, leave, empty,
}
use acidblood.Match.Loop.{
  revcat, IsClean, Saved, Inv, measure, Good, no_star, retry-Inv, retry-eq, compare-Good,
}

pub length-revcat : (con t : Text) → length (revcat con t) ≡ length con + length t
length-revcat [] t = omega arith
length-revcat (x ∷ con) t = omega (arith, length-revcat con (x ∷ t))

All-revcat : (P : ℕ → Type 0) (con t : Text) → All P con → All P t → All P (revcat con t)
All-revcat P [] t h k = k
All-revcat P (x ∷ con) t h k = All-revcat P con (x ∷ t) h.1 (h.0, k)

ne-test : (c : ℕ) → c ≢ 0 → (c == 0) ≡ false
ne-test c h = ground arith

nil_of_length : (t : Text) → length t ≡ 0 → t ≡ []
nil_of_length [] e = refl
nil_of_length (x ∷ t) e = absurd (omega arith)

append-nil_inv : (s t : Text) → [] ≡ s ++ t → (s ≡ []) × (t ≡ [])
append-nil_inv [] t e = (refl, sym e)
append-nil_inv (x ∷ s) t e = cc

mask_ended-eq :
    (s : State) (x : ℕ) (b : Text)
    → s.quote ≡ 0
    → s.m.before ≡ x ∷ b
    → s.m.rest ≡ []
    → mask_ended s ≡ (
        if byte_at (back_over b (x ∷ [])).rest == b'*' && inside (back_over b (x ∷ [])).before
        then done true
        else if s.wild
        then and_then (retry s) compare_bytes
        else done false)
unfolding mask_ended
mask_ended-eq s x b q e em = simp (q, e, em)

clean-pos : (p : Text) → All IsClean p → All (λ c. c ≢ 0) p
clean-pos [] h = tt
clean-pos (c ∷ p) h = (h.0.0, clean-pos p h.1)

test_ends-nil : (s : State) → s.m.rest ≡ [] → s.n.rest ≡ [] → test_ends s ≡ done true
unfolding test_ends
test_ends-nil s ep et = simp (ep, et)

test_ends-mask :
    (s : State) (c : ℕ) (t : Text)
    → s.m.rest ≡ []
    → s.n.rest ≡ c ∷ t
    → c ≢ 0
    → test_ends s ≡ mask_ended s
unfolding test_ends
test_ends-mask s c t ep et z = simp (ep, et, ne-test c z)

test_ends-name :
    (s : State) (a : ℕ) (p : Text)
    → s.quote ≡ 0
    → s.m.rest ≡ a ∷ p
    → s.n.rest ≡ []
    → a ≢ 0
    → test_ends s ≡ done (byte_at (skip_stars s.m.before s.m.rest).rest == 0)
unfolding test_ends
test_ends-name s a p q ep et z = simp (q, ep, et, ne-test a z)

test_ends-both :
    (s : State) (a c : ℕ) (p t : Text)
    → s.m.rest ≡ a ∷ p
    → s.n.rest ≡ c ∷ t
    → a ≢ 0
    → c ≢ 0
    → test_ends s ≡ compare_bytes s
unfolding test_ends
test_ends-both s a c p t ep et z y = simp (ep, et, ne-test a z, ne-test c y)

-- Walking back over question marks meets a star only where all the way was question marks.
back-star :
    (con mab r : Text)
    → All (λ c. c ≢ b'*') con
    → byte_at r ≢ b'*'
    → byte_at (back_over (con ++ mab) r).rest ≡ b'*'
    → (byte_at r ≡ b'?') × All (λ c. c ≡ b'?') con × (mab ≢ [])
unfolding back_over
back-star [] [] r p n h = absurd (n h)
back-star [] (y ∷ mab) r p n h = ground arith
back-star (y ∷ con) mab r p n h = elim (Bool-cases (byte_at r == b'?')) [
  | inl e ↦
      let (q, all, some') = back-star con mab (y ∷ r) p.1 p.0 (rw e at h) in
      ((==_iff _ _).0 e, (q, all), some')
  | inr e ↦ absurd (n (rw e at h))
]

module _ {G : Type 0} {k : ℕ} where
  pub up_G : (s : State) (con : Text) → Inv G k s con → Matches s.m.rest s.n.rest → G
  up_G s con i d = go s.wild i.saved
    where
      go : (w : Bool) → Saved G w s.ma s.na → G
      go false v = v.0.1 (i.up d)
      go true v = v.0.1 (leave refl (i.up d))

  -- A star and question marks up to the end of the mask fit all that is left.
  found_star :
      (s : State) (x : ℕ) (b con : Text)
      → Inv G k s con
      → s.m.rest ≡ []
      → s.m.before ≡ x ∷ b
      → byte_at (back_over b (x ∷ [])).rest ≡ b'*'
      → G
  found_star s x b [] i em eb h = go s.wild i.saved
    where
      go : (w : Bool) → Saved G w s.ma s.na → G
      go false v = cc (i.path ∙ v.1)
      go true v =
          let e : s.ma.rest ≡ [] = i.items ∙ em in
          v.0.1 (rw e (questions-Matches b'*' [] s.na.rest refl tt (omega arith)))
  found_star s x b (y ∷ con) i em eb h =
      let path : x ∷ b ≡ y ∷ (con ++ s.ma.before) = sym eb ∙ i.path in
      let ex : y ≡ x = cc path in
      let eb' : b ≡ con ++ s.ma.before = cc path in
      let h' : byte_at (back_over (con ++ s.ma.before) (y ∷ [])).rest ≡ b'*' = rw (← eb', ex) h in
      let (q, all, some') = back-star con s.ma.before (y ∷ []) i.plain.1 i.plain.0 h' in
      go s.wild q all some' i.saved
    where
      go :
          (w : Bool)
          → y ≡ b'?'
          → All (λ c. c ≡ b'?') con
          → s.ma.before ≢ []
          → Saved G w s.ma s.na
          → G
      go false q all n v = absurd (n v.1)
      go true q all n v =
          let e : s.ma.rest ≡ revcat (y ∷ con) [] = rw em at i.items in
          v.0.1 (
            rw e (
              questions-Matches b'*' _ s.na.rest refl
                (All-revcat (λ c. c ≡ b'?') (y ∷ con) [] (q, all) tt)
                (omega (arith, length-revcat (y ∷ con) [], i.passed))))

  restart-Good :
      (s : State) (con : Text) (μ c : ℕ) (t : Text)
      → Inv G k s con
      → s.wild ≡ true
      → s.m.rest ≡ []
      → s.n.rest ≡ c ∷ t
      → measure k s ≤ μ
      → Good G k μ (and_then (retry s) compare_bytes)
  restart-Good s con μ c t i w em en l = go s.na.rest refl
    where
      saved : Saved G true s.ma s.na
      saved = rw w at i.saved

      go : (u : Text) → s.na.rest ≡ u → Good G k μ (and_then (retry s) compare_bytes)
      go [] e = absurd (omega (arith, i.passed, ap length e, ap length en))
      go (d ∷ u) e =
          let l' : length (d ∷ u) * (k + 1) + length s.m.rest ≤ μ = rw e at l in
          let lt : length u * (k + 1) + length s.ma.rest < μ = omega (arith, i.short) in
          let le : length u * (k + 1) + length s.ma.rest ≤ μ = omega arith in
          rw (retry-eq s d u e) (
            compare-Good _ [] μ (retry-Inv s con d u w e i (rw (em, en) not-Matches-nil)) le
              (λ _. lt) saved.2
              (λ z. nil_of_length s.ma.rest (
                omega (
                  arith,
                  ap length z,
                  ap length e,
                  ap length en,
                  ap length em,
                  i.passed,
                  ap length i.items,
                  length-revcat con s.m.rest,
                ))))

  mask_ended-Good :
      (s : State) (con : Text) (μ c : ℕ) (t : Text)
      → Inv G k s con
      → s.m.rest ≡ []
      → s.n.rest ≡ c ∷ t
      → measure k s ≤ μ
      → Good G k μ (mask_ended s)
  mask_ended-Good s con μ c t i em en l = go s.m.before refl
    where
      tail :
          (w : Bool)
          → s.wild ≡ w
          → Good G k μ (if w then and_then (retry s) compare_bytes else done false)
      tail false w = no_star s con w i (rw (em, en) not-Matches-nil)
      tail true w = restart-Good s con μ c t i w em en l

      step :
          (x : ℕ) (b : Text)
          → s.m.before ≡ x ∷ b
          → Good G k μ (
              if byte_at (back_over b (x ∷ [])).rest == b'*' && inside (back_over b (x ∷ [])).before
              then done true
              else if s.wild
              then and_then (retry s) compare_bytes
              else done false)
      step x b e =
          elim (Bool-cases
            (byte_at (back_over b (x ∷ [])).rest == b'*' && inside (back_over b (x ∷ [])).before)) [
              | inl y ↦ rw y (found_star s x b con i em e (ground arith))
              | inr n ↦ rw n (tail s.wild refl)
            ]

      go : (b : Text) → s.m.before ≡ b → Good G k μ (mask_ended s)
      go [] e =
          let (ec, ea) = append-nil_inv con s.ma.before (sym e ∙ i.path) in
          absurd (i.nonempty ea (i.items ∙ rw (ec, em)))
      go (x ∷ b) e = rw (mask_ended-eq s x b i.quiet e em) (step x b e)

  stars_at_end-Good :
      (s : State) (con : Text) (μ : ℕ)
      → Inv G k s con
      → s.n.rest ≡ []
      → Good G k μ (done (byte_at (skip_stars s.m.before s.m.rest).rest == 0))
  stars_at_end-Good s con μ i e =
      let iff = stars-Matches s.m.before s.m.rest (clean-pos s.m.rest i.clean) in
      elim (Bool-cases (byte_at (skip_stars s.m.before s.m.rest).rest == 0)) [
        | inl y ↦ rw y (up_G s con i (rw e (iff.0 ((==_iff _ _).0 y))))
        | inr n ↦ rw n (λ g. false-ne (star_at_end refl (rw e at (i.later g))) n)
      ]
    where
      false-ne :
          Matches s.m.rest [] → (byte_at (skip_stars s.m.before s.m.rest).rest == 0) ≡ false → ⊥
      false-ne d n =
          let e' : byte_at (skip_stars s.m.before s.m.rest).rest ≡ 0 =
            (stars-Matches s.m.before s.m.rest (clean-pos s.m.rest i.clean)).1 d in
          ground arith

  pub test_ends-Good :
      (s : State) (con : Text) (μ : ℕ)
      → Inv G k s con
      → measure k s ≤ μ
      → byte_at s.m.rest ≢ b'*'
      → Good G k μ (test_ends s)
  test_ends-Good s con μ i l n = go s.m.rest s.n.rest refl refl
    where
      go : (p t : Text) → s.m.rest ≡ p → s.n.rest ≡ t → Good G k μ (test_ends s)
      go [] [] ep et = rw (test_ends-nil s ep et) (up_G s con i (rw (ep, et) empty))
      go [] (c ∷ t) ep et =
          let name : All (λ x. x ≢ 0) (c ∷ t) = rw et at i.name in
          rw (test_ends-mask s c t ep et name.0) (mask_ended-Good s con μ c t i ep et l)
      go (a ∷ p) [] ep et =
          let clean : All IsClean (a ∷ p) = rw ep at i.clean in
          rw (test_ends-name s a p i.quiet ep et clean.0.0) (stars_at_end-Good s con μ i et)
      go (a ∷ p) (c ∷ t) ep et =
          let clean : All IsClean (a ∷ p) = rw ep at i.clean in
          let name : All (λ x. x ≢ 0) (c ∷ t) = rw et at i.name in
          rw (test_ends-both s a c p t ep et clean.0.0 name.0)
            (compare-Good s con μ i l (λ z. cc (sym ep ∙ z)) n (λ z. cc (sym et ∙ z)))
