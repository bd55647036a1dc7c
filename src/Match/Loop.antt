-- ===== src/Match/Loop.antt =====
-- The invariant of the loop of src/match.c on masks without `\`, and that a comparison keeps it.
use acidblood.Common.{
  ℕ, ◌+◌, ◌*◌, ◌≤◌, ◌<◌, ◌≡◌, refl, ap, ◌≢◌, ◌↔◌, inl, inr, Bool, true, false, some, [], ◌∷◌, ◌++◌,
  arith, if◌then◌else◌, Bool-cases, length, All,
}
use mathlib.Core.Path.{ap₂}
use acidblood.Text.{Text, tolower}
use acidblood.Match.{
  Ptr, ptr, byte_at, backslash, State, Next, done, again, fault, and_then, retry, differs, advance,
  compare_bytes,
}
use acidblood.Match.Wildcard.{
  Matches, Fits, Fits-Matches, Fits-inv, not-Matches-nil, must_take, drop_byte, taking,
}

-- `t` with the bytes of `con` back in front, the last of which stands first in `con`.
abbrev pub revcat : Text → Text → Text
revcat [] t = t
revcat (x ∷ con) t = revcat con (x ∷ t)

-- The bytes of a mask that holds no NUL and no `\`, and of a name.
abbrev pub IsClean : ℕ → Type 0
IsClean c = (c ≢ 0) × (c ≢ backslash)

-- `G` is the question whether the name fits the mask. The place behind the last star, or the two
-- starts, are those from which a new attempt is made.
abbrev pub Saved : Type 0 → Bool → Ptr → Ptr → Type 0
Saved G false ma na = (G ↔ Matches ma.rest na.rest) × (ma.before ≡ [])
Saved G true ma na =
    (G ↔ Matches (b'*' ∷ ma.rest) na.rest)
    × ((b : Text) × (ma.before ≡ b'*' ∷ b))
    × (byte_at ma.rest ≢ b'*')

-- `con` is the part of the mask that the present attempt has passed.
pub record Inv (G : Type 0) (k : ℕ) (s : State) (con : Text) : Type 0 where
  pub quiet : s.quote ≡ 0
  pub path : s.m.before ≡ con ++ s.ma.before
  pub plain : All (λ c. c ≢ b'*') con
  pub items : s.ma.rest ≡ revcat con s.m.rest
  pub passed : length s.na.rest ≡ length con + length s.n.rest
  pub up : Matches s.m.rest s.n.rest → Matches s.ma.rest s.na.rest
  pub down : Matches s.ma.rest s.na.rest → Matches s.m.rest s.n.rest
  pub later : G → Matches (b'*' ∷ s.m.rest) s.n.rest
  pub saved : Saved G s.wild s.ma s.na
  pub clean : All IsClean s.m.rest
  pub clean_saved : All IsClean s.ma.rest
  pub name : All (λ c. c ≢ 0) s.n.rest
  pub name_saved : All (λ c. c ≢ 0) s.na.rest
  pub short : length s.ma.rest ≤ k
  pub nonempty : s.ma.before ≡ [] → s.ma.rest ≢ []

-- Rounds that are left at most: each attempt starts further on in the name.
abbrev pub measure : ℕ → State → ℕ
measure k s = length s.na.rest * (k + 1) + length s.m.rest

-- A round ends with the right answer, or keeps the invariant and comes nearer to the end.
abbrev pub Good : Type 0 → ℕ → ℕ → Next → Type 0
Good G k μ (done true) = G
Good G k μ (done false) = ¬ G
Good G k μ (again s) = (con : Text) × Inv G k s con × (measure k s < μ)
Good G k μ fault = ⊥

differs-Fits : (q c d : ℕ) → q ≡ 0 → differs q c d ≡ false → Fits c d
unfolding differs
differs-Fits q c d e h = ground arith

Fits-differs : (q c d : ℕ) → q ≡ 0 → differs q c d ≡ true → ¬ Fits c d
unfolding differs
Fits-differs q c d e h = ground arith

differs-end : (q c : ℕ) → c ≢ 0 → differs q 0 c ≡ true
unfolding differs tolower
differs-end q c h = ground arith

differs-both : (q : ℕ) → differs q 0 0 ≡ false
unfolding differs tolower
differs-both q = ground arith

pub retry-eq :
    (s : State) (c : ℕ) (b : Text)
    → s.na.rest ≡ c ∷ b
    → retry s
      ≡ some (record s { m = s.ma; n = ptr (c ∷ s.na.before) b; na = ptr (c ∷ s.na.before) b })
unfolding retry
retry-eq s c b e = rw e

advance-nil : (p : Ptr) → p.rest ≡ [] → advance p ≡ p
advance-nil p e = go p.before p.rest e
  where
    go : (b r : Text) → r ≡ [] → advance (ptr b r) ≡ ptr b r
    go b [] e = refl
    go b (c ∷ r) e = cc

advance-cons : (p : Ptr) (a : ℕ) (r : Text) → p.rest ≡ a ∷ r → advance p ≡ ptr (a ∷ p.before) r
advance-cons p a r e = rw e

compare-stall : (s : State) → s.m.rest ≡ [] → s.n.rest ≡ [] → compare_bytes s ≡ again s
unfolding compare_bytes
compare-stall s p t =
    let h : differs s.quote (byte_at s.m.rest) (byte_at s.n.rest) ≡ false =
      rw (p, t) (differs-both s.quote) in
    rw h (ap₂ (λ a b. again (record s { m = a; n = b })) (advance-nil s.m p) (advance-nil s.n t))

compare-byte :
    (s : State) (a c : ℕ) (p t : Text)
    → s.m.rest ≡ a ∷ p
    → s.n.rest ≡ c ∷ t
    → differs s.quote a c ≡ false
    → compare_bytes s ≡ again (record s { m = ptr (a ∷ s.m.before) p; n = ptr (c ∷ s.n.before) t })
unfolding compare_bytes
compare-byte s a c p t ep et h =
    let h' : differs s.quote (byte_at s.m.rest) (byte_at s.n.rest) ≡ false = rw (ep, et) h in
    rw h' (
      ap₂ (λ x y. again (record s { m = x; n = y })) (advance-cons s.m a p ep)
        (advance-cons s.n c t et))

module _ {G : Type 0} {k : ℕ} where
  -- The present attempt has failed, and there is no star.
  pub no_star :
      (s : State) (con : Text) → s.wild ≡ false → Inv G k s con → ¬ Matches s.m.rest s.n.rest → ¬ G
  no_star s con w i n g = n (i.down (saved.0.0 g))
    where
      saved : (G ↔ Matches s.ma.rest s.na.rest) × (s.ma.before ≡ [])
      saved = rw w at i.saved

  -- The present attempt has failed, and a star takes one byte more.
  pub retry-Inv :
      (s : State) (con : Text) (c : ℕ) (b : Text)
      → s.wild ≡ true
      → s.na.rest ≡ c ∷ b
      → Inv G k s con
      → ¬ Matches s.m.rest s.n.rest
      → Inv G k
          (record s { m = s.ma; n = ptr (c ∷ s.na.before) b; na = ptr (c ∷ s.na.before) b })
          []
  retry-Inv s con c b w e i n =
      let saved : Saved G true s.ma s.na = rw w at i.saved in
      let star : G ↔ Matches (b'*' ∷ s.ma.rest) (c ∷ b) = rw e at saved.0 in
      let failed : ¬ Matches s.ma.rest (c ∷ b) = λ d. n (i.down (rw e d)) in
      let name : All (λ x. x ≢ 0) (c ∷ b) = rw e at i.name_saved in
      let iff : G ↔ Matches (b'*' ∷ s.ma.rest) b =
        ((λ g. must_take refl (star.0 g) failed), (λ d. star.1 (taking refl d))) in
      record {
        quiet = i.quiet;
        path = refl;
        plain = tt;
        items = refl;
        passed = omega arith;
        up = λ d. d;
        down = λ d. d;
        later = iff.0;
        saved = rw w (iff, saved.1, saved.2);
        clean = i.clean_saved;
        clean_saved = i.clean_saved;
        name = name.1;
        name_saved = name.1;
        short = i.short;
        nonempty = i.nonempty;
      }

  -- A mismatch: the answer is no, or a new attempt begins further on.
  mismatch-Good :
      (s : State) (con : Text) (μ : ℕ)
      → Inv G k s con
      → measure k s ≤ μ
      → ¬ Matches s.m.rest s.n.rest
      → 0 < length s.na.rest
      → differs s.quote (byte_at s.m.rest) (byte_at s.n.rest) ≡ true
      → Good G k μ (compare_bytes s)
  unfolding compare_bytes
  mismatch-Good s con μ i l n z h = rw h (go s.wild s.na.rest refl refl)
    where
      go :
          (w : Bool) (t : Text)
          → s.wild ≡ w
          → s.na.rest ≡ t
          → Good G k μ (if w then and_then (retry s) again else done false)
      go false t w e = no_star s con w i n
      go true [] w e = absurd (omega (arith, ap length e))
      go true (c ∷ b) w e =
          let l' : length (c ∷ b) * (k + 1) + length s.m.rest ≤ μ = rw e at l in
          let lt : length b * (k + 1) + length s.ma.rest < μ = omega (arith, i.short) in
          rw (retry-eq s c b e) ([], retry-Inv s con c b w e i n, lt)

  -- A byte of the mask fits one of the name.
  advance-Inv :
      (s : State) (con : Text) (a c : ℕ) (p t : Text)
      → Inv G k s con
      → s.m.rest ≡ a ∷ p
      → s.n.rest ≡ c ∷ t
      → a ≢ b'*'
      → Fits a c
      → Inv G k (record s { m = ptr (a ∷ s.m.before) p; n = ptr (c ∷ s.n.before) t }) (a ∷ con)
  advance-Inv s con a c p t i ep et n f =
      let up : Matches (a ∷ p) (c ∷ t) → Matches s.ma.rest s.na.rest = rw (ep, et) at i.up in
      let down : Matches s.ma.rest s.na.rest → Matches (a ∷ p) (c ∷ t) = rw (ep, et) at i.down in
      let later : G → Matches (b'*' ∷ a ∷ p) (c ∷ t) = rw (ep, et) at i.later in
      let clean : All IsClean (a ∷ p) = rw ep at i.clean in
      let name : All (λ x. x ≢ 0) (c ∷ t) = rw et at i.name in
      record {
        quiet = i.quiet;
        path = ap (◌∷◌ a) i.path;
        plain = (n, i.plain);
        items = rw ep at i.items;
        passed = omega (arith, i.passed, ap length et);
        up = λ d. up (Fits-Matches n f d);
        down = λ d. (Fits-inv n (down d)).1;
        later = λ g. drop_byte t refl n (later g);
        saved = i.saved;
        clean = clean.1;
        clean_saved = i.clean_saved;
        name = name.1;
        name_saved = i.name_saved;
        short = i.short;
        nonempty = i.nonempty;
      }

  -- The comparison, where the mask does not go on with a star and the name is not used up before
  -- the mask.
  pub compare-Good :
      (s : State) (con : Text) (μ : ℕ)
      → Inv G k s con
      → measure k s ≤ μ
      → (s.m.rest ≡ [] → measure k s < μ)
      → byte_at s.m.rest ≢ b'*'
      → (s.n.rest ≡ [] → s.m.rest ≡ [])
      → Good G k μ (compare_bytes s)
  compare-Good s con μ i l less n ends = go s.m.rest s.n.rest refl refl
    where
      go : (p t : Text) → s.m.rest ≡ p → s.n.rest ≡ t → Good G k μ (compare_bytes s)
      go [] [] ep et = rw (compare-stall s ep et) (con, i, less ep)
      go [] (c ∷ t) ep et =
          let name : All (λ x. x ≢ 0) (c ∷ t) = rw et at i.name in
          mismatch-Good s con μ i l (rw (ep, et) not-Matches-nil)
            (omega (arith, i.passed, ap length et)) (rw (ep, et) (differs-end s.quote c name.0))
      go (a ∷ p) [] ep et = cc (ends et)
      go (a ∷ p) (c ∷ t) ep et =
          let n' : a ≢ b'*' = rw ep at n in
          elim (Bool-cases (differs s.quote a c)) [
            | inl h ↦
                mismatch-Good s con μ i l
                  (rw (ep, et) (λ d. Fits-differs s.quote a c i.quiet h (Fits-inv n' d).0))
                  (omega (arith, i.passed, ap length et)) (rw (ep, et) h)
            | inr h ↦ rw (compare-byte s a c p t ep et h) (
              a ∷ con,
              advance-Inv s con a c p t i ep et n' (differs-Fits s.quote a c i.quiet h),
              omega (arith, ap length ep),
            )
          ]
