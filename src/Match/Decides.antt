-- ===== src/Match/Decides.antt =====
-- `match` of src/match.c decides whether a name Fits a mask without `\`.
use acidblood.Common.{
  ℕ, zero, suc, ◌+◌, ◌*◌, ◌≤◌, ◌<◌, ◌≡◌, refl, sym, ap, ◌∙◌, ◌≢◌, ◌↔◌, inl, inr, Bool, true, false,
  Option, none, some, [], ◌∷◌, arith, ◌==◌, ==_iff, Bool-cases, length, All,
}
use acidblood.Text.{Text}
use acidblood.Match.{
  Ptr, byte_at, backslash, skip_stars, State, Next, done, again, fault, test_ends, pass_stars,
  count_quote, round, loop, at_start, match_max_calls, match,
}
use acidblood.Match.Wildcard.{Matches, two_stars, leave}
use acidblood.Match.Loop.{IsClean, Inv, measure, Good}
use acidblood.Match.Ends.{up_G, test_ends-Good, length-revcat}
use native.Mathlib.Nat.{le_refl}

-- What stands behind a run of stars.
record Skipped (p : Text) (q : Ptr) : Type 0 where
  no_star : byte_at q.rest ≢ b'*'
  clean : All IsClean q.rest
  shorter : length q.rest ≤ length p
  same : (s : Text) → Matches (b'*' ∷ p) s ↔ Matches (b'*' ∷ q.rest) s

skip_stars-Skipped : (b p : Text) → All IsClean p → Skipped p (skip_stars b p)
unfolding skip_stars
skip_stars-Skipped b [] h = record {
  no_star = λ e. omega arith;
  clean = tt;
  shorter = omega arith;
  same = λ s. (λ d. d, λ d. d);
}
skip_stars-Skipped b (c ∷ p) h = elim (Bool-cases (c == b'*')) [
  | inl e ↦
      let i = skip_stars-Skipped (c ∷ b) p h.1 in
      let star : c ≡ b'*' = (==_iff _ _).0 e in
      rw e (record {
        no_star = i.no_star;
        clean = i.clean;
        shorter = omega (arith, i.shorter);
        same = λ s. (
          λ d. (i.same s).0 (rw star at (two_stars refl star d)),
          λ d. leave refl (rw star ((i.same s).1 d)),
        );
      })
  | inr e ↦ rw e (record {
    no_star = λ q. ground arith;
    clean = h;
    shorter = omega arith;
    same = λ s. (λ d. d, λ d. d);
  })
]

skip_stars-before :
    (b p : Text) (x : ℕ) (y : Text)
    → b ≡ b'*' ∷ y
    → (z : Text) × ((skip_stars b p).before ≡ b'*' ∷ z)
unfolding skip_stars
skip_stars-before b [] x y e = (y, e)
skip_stars-before b (c ∷ p) x y e = elim (Bool-cases (c == b'*')) [
  | inl h ↦ rw h (skip_stars-before (c ∷ b) p x b (ap (λ d. d ∷ b) ((==_iff c b'*').0 h)))
  | inr h ↦ rw h (y, e)
]

skip_stars-star :
    (b : Text) (a : ℕ) (p : Text) → a ≡ b'*' → skip_stars b (a ∷ p) ≡ skip_stars (a ∷ b) p
unfolding skip_stars
skip_stars-star b a p e = ground arith

byte-clean : (p : Text) → All IsClean p → byte_at p ≢ backslash
byte-clean [] h = λ e. omega arith
byte-clean (c ∷ p) h = h.0.1

mul_mono : (x y z : ℕ) → x ≤ y → x * z ≤ y * z
mul_mono x y z h = grind arith

abbrev passed : State → ℕ → Text → State
passed s a p =
    let q = skip_stars (a ∷ s.m.before) p in record s { m = q; ma = q; na = s.n; wild = true }

pass_stars-eq :
    (s : State) (a : ℕ) (p : Text)
    → s.m.rest ≡ a ∷ p
    → a ≡ b'*'
    → byte_at (skip_stars (a ∷ s.m.before) p).rest ≢ backslash
    → pass_stars s ≡ test_ends (passed s a p)
unfolding pass_stars
pass_stars-eq s a p e star n =
    let h : skip_stars s.m.before s.m.rest ≡ skip_stars (a ∷ s.m.before) p =
      rw e (skip_stars-star s.m.before a p star) in
    let h' : (byte_at (skip_stars (a ∷ s.m.before) p).rest == backslash) ≡ false = ground arith in
    simp (h, h')

unquoted : (s : State) → s.quote ≡ 0 → record s { quote = count_quote s.quote } ≡ s
unfolding count_quote
unquoted s e = ap (λ q. record s { quote = q }) (count e)
  where
    count : {q : ℕ} → q ≡ 0 → count_quote q ≡ q
    count e = rw e

round-star : (s : State) → s.quote ≡ 0 → byte_at s.m.rest ≡ b'*' → round s ≡ pass_stars s
unfolding round count_quote
round-star s q e = simp (q, e) (ap pass_stars (ap (λ c. record s { quote = c }) (sym q)))

round-plain :
    (s : State)
    → s.quote ≡ 0
    → byte_at s.m.rest ≢ b'*'
    → byte_at s.m.rest ≢ backslash
    → round s ≡ test_ends s
unfolding round count_quote
round-plain s q n m =
    let h : (byte_at s.m.rest == b'*') ≡ false = ground arith in
    let h' : (byte_at s.m.rest == backslash) ≡ false = ground arith in
    simp (q, h, h') (ap test_ends (ap (λ c. record s { quote = c }) (sym q)))

module _ {G : Type 0} {k : ℕ} where
  stars-Inv :
      (s : State) (con : Text) (a : ℕ) (p : Text)
      → Inv G k s con
      → s.m.rest ≡ a ∷ p
      → a ≡ b'*'
      → Skipped p (skip_stars (a ∷ s.m.before) p)
      → (z : Text) × ((skip_stars (a ∷ s.m.before) p).before ≡ b'*' ∷ z)
      → Inv G k (passed s a p) []
  stars-Inv s con a p i e star sk z =
      let later : G → Matches (b'*' ∷ a ∷ p) s.n.rest = rw e at i.later in
      let again' : Matches (a ∷ p) s.n.rest → G = λ d. up_G s con i (rw e d) in
      let iff : G ↔ Matches (b'*' ∷ (skip_stars (a ∷ s.m.before) p).rest) s.n.rest = (
        (λ g. (sk.same s.n.rest).0 (rw star at (two_stars refl star (later g)))),
        (λ d. again' (rw star ((sk.same s.n.rest).1 d))),
      ) in
      record {
        quiet = i.quiet;
        path = refl;
        plain = tt;
        items = refl;
        passed = omega arith;
        up = λ d. d;
        down = λ d. d;
        later = iff.0;
        saved = (iff, z, sk.no_star);
        clean = sk.clean;
        clean_saved = sk.clean;
        name = i.name;
        name_saved = i.name;
        short = omega (
          arith,
          sk.shorter,
          i.short,
          ap length i.items,
          length-revcat con s.m.rest,
          ap length e,
        );
        nonempty = λ h. cc (sym h ∙ z.1);
      }

  pass_stars-Good :
      (s : State) (con : Text) (a : ℕ) (p : Text)
      → Inv G k s con
      → s.m.rest ≡ a ∷ p
      → a ≡ b'*'
      → Good G k (measure k s) (pass_stars s)
  pass_stars-Good s con a p i e star =
      let clean : All IsClean (a ∷ p) = rw e at i.clean in
      let sk = skip_stars-Skipped (a ∷ s.m.before) p clean.1 in
      let z = skip_stars-before (a ∷ s.m.before) p a s.m.before (ap (λ c. c ∷ s.m.before) star) in
      let m = mul_mono (length s.n.rest) (length s.na.rest) (k + 1) (omega (arith, i.passed)) in
      let l : measure k (passed s a p) ≤ measure k s = omega (arith, m, sk.shorter, ap length e) in
      rw (pass_stars-eq s a p e star (byte-clean _ sk.clean)) (
        test_ends-Good (passed s a p) [] (measure k s) (stars-Inv s con a p i e star sk z) l
          sk.no_star)

  pub round-Good : (s : State) (con : Text) → Inv G k s con → Good G k (measure k s) (round s)
  round-Good s con i = go s.m.rest refl
    where
      go : (p : Text) → s.m.rest ≡ p → Good G k (measure k s) (round s)
      go [] e = plain (λ h. absurd (omega (arith, sym (ap byte_at e) ∙ h)))
        where
          plain : byte_at s.m.rest ≢ b'*' → Good G k (measure k s) (round s)
          plain n =
              rw (round-plain s i.quiet n (byte-clean _ i.clean))
                (test_ends-Good s con (measure k s) i (le_refl _) n)
      go (a ∷ p) e = elim (Bool-cases (a == b'*')) [
        | inl h ↦
            let star = (==_iff a b'*').0 h in
            rw (round-star s i.quiet (rw e star)) (pass_stars-Good s con a p i e star)
        | inr h ↦
            let n : byte_at s.m.rest ≢ b'*' = rw e (λ q. ground arith) in
            rw (round-plain s i.quiet n (byte-clean _ i.clean))
              (test_ends-Good s con (measure k s) i (le_refl _) n)
      ]

-- The answer is right about `G`.
abbrev pub Answers : Type 0 → Option Bool → Type 0
Answers G none = ⊥
Answers G (some true) = G
Answers G (some false) = ¬ G

loop-Answers :
    {G : Type 0} {k : ℕ} (f : ℕ) (s : State) (con : Text)
    → Inv G k s con
    → measure k s < f
    → Answers G (loop f s)
unfolding loop
loop-Answers zero s con i l = absurd (omega arith)
loop-Answers {G} {k} (suc f) s con i l =
    go (round s) (round-Good s con i) (λ s' con' i' l'. loop-Answers f s' con' i' (omega arith))
  where
    go :
        (n : Next)
        → Good G k (measure k s) n
        → ((s' : State) (con' : Text)
            → Inv G k s' con'
            → measure k s' < measure k s
            → Answers G (loop f s'))
        → Answers G (elim n [ done b ↦ some b | again s' ↦ loop f s' | fault ↦ none ])
    go (done true) g ih = g
    go (done false) g ih = g
    go (again s') (con', i', l') ih = ih s' con' i' l'
    go fault g ih = g

pub start-Inv :
    (mask name : Text)
    → mask ≢ []
    → All IsClean mask
    → All (λ c. c ≢ 0) name
    → Inv (Matches mask name) (length mask) (at_start mask name) []
start-Inv mask name n clean text = record {
  quiet = refl;
  path = refl;
  plain = tt;
  items = refl;
  passed = omega arith;
  up = λ d. d;
  down = λ d. d;
  later = λ d. leave refl d;
  saved = ((λ d. d, λ d. d), refl);
  clean = clean;
  clean_saved = clean;
  name = text;
  name_saved = text;
  short = omega arith;
  nonempty = λ _. n;
}

-- `match` returns 1 when the name fits the mask and 0 when it does not, and reads outside neither
-- string, for a mask that is not empty and holds no `\`, and texts short enough for its 512 rounds.
pub match-Answers :
    (mask name : Text)
    → mask ≢ []
    → All IsClean mask
    → All (λ c. c ≢ 0) name
    → length name * (length mask + 1) + length mask < match_max_calls
    → Answers (Matches mask name) (match mask name)
unfolding match
match-Answers mask name n clean text l =
    loop-Answers match_max_calls (at_start mask name) [] (start-Inv mask name n clean text) l
