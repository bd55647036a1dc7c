-- ===== src/Tracking/Counting.antt =====
-- How often an address stands in a list, and what the loops that look for a name find.
use acidblood.Common.{
  ℕ, suc, ◌+◌, ◌<◌, ◌≡◌, refl, sym, ap, ◌∙◌, ◌≢◌, ◌↔◌, ◌⊎◌, inl, inr, true, Option, none, some,
  List, [], ◌∷◌, ◌++◌, arith, ◌==◌, if◌then◌else◌, ==_iff, Bool-cases, length,
}
use acidblood.Text.{Text, strcaseeq, lowerstring}
use acidblood.Text.Equality.{strcaseeq_iff}
use acidblood.Tracking.{look}

strcaseeq_texts :
    (s t : Text)
    → (strcaseeq (some s) (some t) ≡ true) ↔ ((s ≢ []) × (lowerstring s ≡ lowerstring t))
strcaseeq_texts s t = (
  λ h. let (a, b, e, f, n, l) = (strcaseeq_iff (some s) (some t)).0 h in (λ z. n (cc), cc),
  λ (n, l). (strcaseeq_iff (some s) (some t)).1 (s, t, refl, refl, n, l),
)

lower_nonempty : (s t : Text) → lowerstring s ≡ lowerstring t → s ≢ [] → t ≢ []
unfolding lowerstring
lower_nonempty [] t l n = absurd (n refl)
lower_nonempty (c ∷ s) [] l n = cc
lower_nonempty (c ∷ s) (d ∷ t) l n = λ e. cc

strcaseeq_sym :
    (s t : Text) → strcaseeq (some s) (some t) ≡ true → strcaseeq (some t) (some s) ≡ true
strcaseeq_sym s t h =
    let (n, l) = (strcaseeq_texts s t).0 h in
    (strcaseeq_texts t s).1 (lower_nonempty s t l n, sym l)

strcaseeq_trans :
    (s t u : Text)
    → strcaseeq (some s) (some t) ≡ true
    → strcaseeq (some t) (some u) ≡ true
    → strcaseeq (some s) (some u) ≡ true
strcaseeq_trans s t u h h' =
    let (n, l) = (strcaseeq_texts s t).0 h in
    let (_, l') = (strcaseeq_texts t u).0 h' in (strcaseeq_texts s u).1 (n, l ∙ l')

-- Two names that equal a third, and names of which no two are equal.
strcaseeq_both :
    (o : Option Text) (s t : Text)
    → strcaseeq o (some t) ≡ true
    → strcaseeq (some s) (some t) ≡ true
    → strcaseeq o (some s) ≡ true
unfolding strcaseeq
strcaseeq_both none s t h h' = cc
strcaseeq_both (some r) s t h h' = strcaseeq_trans r t s h (strcaseeq_sym s t h')

abbrev pub AreUnique : (ℕ → Option Text) → Type 0
AreUnique g =
    (u v : ℕ) (n : Text) → strcaseeq (g u) (some n) ≡ true → strcaseeq (g v) (some n) ≡ true → u ≡ v

-- One more name, or a new one for what had one, that no other has.
pub AreUnique-put :
    (g g' : ℕ → Option Text) (x : ℕ) (m : Text)
    → AreUnique g
    → ((t : ℕ) → t ≢ x → g' t ≡ g t)
    → g' x ≡ some m
    → ((t : ℕ) → t ≢ x → strcaseeq (g t) (some m) ≢ true)
    → AreUnique g'
AreUnique-put g g' x m i o e f u v n p q = elim (Bool-cases (u == x)) [
  | inl a ↦ elim (Bool-cases (v == x)) [
    | inl b ↦ (==_iff u x).0 a ∙ sym ((==_iff v x).0 b)
    | inr b ↦
        let v≠ : v ≢ x = ground arith in
        let u= = (==_iff u x).0 a in
        absurd (f v v≠ (strcaseeq_both (g v) m n (rw (o v v≠) at q) (rw (u=, e) at p)))
  ]
  | inr a ↦
      let u≠ : u ≢ x = ground arith in
      elim (Bool-cases (v == x)) [
        | inl b ↦
            let v= = (==_iff v x).0 b in
            absurd (f u u≠ (strcaseeq_both (g u) m n (rw (o u u≠) at p) (rw (v=, e) at q)))
        | inr b ↦ let v≠ : v ≢ x = ground arith in i u v n (rw (o u u≠) at p) (rw (o v v≠) at q)
      ]
]

module _ {A : Type 0} (at : A → ℕ) where
  unfoldable pub occurs : ℕ → List A → ℕ
  occurs t [] = 0
  occurs t (x ∷ xs) = (if at x == t then 1 else 0) + occurs t xs

  occurs-append : (t : ℕ) (xs ys : List A) → occurs t (xs ++ ys) ≡ occurs t xs + occurs t ys
  unfolding occurs
  occurs-append t [] ys = omega arith
  occurs-append t (x ∷ xs) ys = omega (arith, occurs-append t xs ys)

  pub occurs_end :
      (t : ℕ) (xs : List A) (x : A)
      → occurs t (xs ++ x ∷ []) ≡ (if at x == t then 1 else 0) + occurs t xs
  unfolding occurs
  occurs_end t xs x = omega (arith, occurs-append t xs (x ∷ []))

  module _ (by : A → Option Text) (f : ℕ → Option Text) (name : Text)
      (via : (x : A) → by x ≡ f (at x)) where
    -- Where each item has a name, the loop ends at one, or at the end of the list.
    pub look_total :
        (xs : List A)
        → ((t : ℕ) → 0 < occurs t xs → f t ≢ none)
        → (look by name xs ≡ some none)
          ⊎ ((x : A) × (ys : List A) × (look by name xs ≡ some (some (x, ys))))
    unfolding look occurs
    look_total [] h = inl refl
    look_total (x ∷ xs) h =
        let found : f (at x) ≢ none = h (at x) (ground arith) in
        let rest = look_total xs (λ t l. h t (omega arith)) in let v = via x in ground arith

    look_step :
        (z : A) (xs : List A) (x : A) (ys : List A)
        → look by name (z ∷ xs) ≡ some (some (x, ys))
        → ((z ≡ x) × (xs ≡ ys) × (strcaseeq (f (at x)) (some name) ≡ true))
          ⊎ ((zs : List A) × (ys ≡ z ∷ zs) × (look by name xs ≡ some (some (x, zs))))
    unfolding look
    look_step z xs x ys h = let v = via z in ground arith

    pub look-found :
        (xs : List A) (x : A) (ys : List A)
        → look by name xs ≡ some (some (x, ys))
        → ((t : ℕ) → occurs t xs ≡ (if at x == t then 1 else 0) + occurs t ys)
          × (strcaseeq (f (at x)) (some name) ≡ true)
    unfolding look occurs
    look-found [] x ys h = cc
    look-found (z ∷ xs) x ys h = elim (look_step z xs x ys h) [
      | inl (p, q, m) ↦ (λ t. ground arith, m)
      | inr (zs, p, e) ↦ let (c, r) = look-found xs x zs e in (λ t. rw p (omega (arith, c t)), r)
    ]

    pub look-length :
        (xs : List A) (x : A) (ys : List A)
        → look by name xs ≡ some (some (x, ys))
        → length xs ≡ suc (length ys)
    unfolding look
    look-length [] x ys h = cc
    look-length (z ∷ xs) x ys h = elim (look_step z xs x ys h) [
      | inl (p, q, m) ↦ rw q refl
      | inr (zs, p, e) ↦ rw p (ap suc (look-length xs x zs e))
    ]

    pub look-missing :
        (xs : List A)
        → look by name xs ≡ some none
        → (t : ℕ) → strcaseeq (f t) (some name) ≡ true
        → occurs t xs ≡ 0
    unfolding look occurs
    look-missing [] h t q = refl
    look-missing (x ∷ xs) h t q =
        let v = via x in
        let r : (look by name xs ≡ some none) → occurs t xs ≡ 0 = λ w. look-missing xs w t q in
        ground arith
