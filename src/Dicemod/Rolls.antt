-- ===== src/Dicemod/Rolls.antt =====
-- What dice of dmodules/dicemod/dicemod.c can show.
use acidblood.Common.{
  ℕ, zero, suc, ◌+◌, ◌*◌, ◌%◌, ◌≤◌, ◌≡◌, refl, ap, ◌∙◌, ◌↔◌, ◌⊎◌, inl, inr, false, ◌&&◌, ◌||◌, none,
  some, List, [], ◌∷◌, arith, ltb, ◌==◌, lt→ltb, ==_iff, Bool-cases, length, All, ℤ, pos, negsuc,
}
use acidblood.Text.{Text, strtok, at_byte}
use acidblood.Settings.{atoi}
use acidblood.Dicemod.{
  DieReturn, points, damage, attroll, attack_count, in_range, fill_dice, roll_all, dicemod_attack,
}

-- Two dice from 1 to 20 with a result of at most 5, which it is exactly where both are 20.
abbrev pub IsRoll : DieReturn → Type 0
IsRoll d =
    (1 ≤ d.d1)
    × (d.d1 ≤ 20)
    × (1 ≤ d.d2)
    × (d.d2 ≤ 20)
    × (d.result ≤ 5)
    × ((d.result ≡ 5) ↔ ((d.d1 ≡ 20) × (d.d2 ≡ 20)))

points-most : (d : ℕ) → points d ≤ 2
points-most d = ground arith

points-less : (d : ℕ) → (d == 20) ≡ false → points d ≤ 1
points-less d h = ground (arith, h)

abbrev Fits : ℕ → ℕ → Type 0
Fits a b = (damage a b ≤ 5) × ((damage a b ≡ 5) ↔ ((a ≡ 20) × (b ≡ 20)))

damage-less : (a b : ℕ) → (a == 20 && b == 20) ≡ false → points a + points b ≤ 3 → Fits a b
damage-less a b e l =
    let sum : damage a b ≡ points a + points b = rw e refl in
    (
      omega (arith, sum, l),
      (λ h. absurd (omega (arith, h, sum, l)), λ (p, q). absurd (ground (arith, p, q, e))),
    )

damage-Fits : (a b : ℕ) → Fits a b
damage-Fits a b = elim (Bool-cases (a == 20)) [
  | inl e ↦ elim (Bool-cases (b == 20)) [
    | inl f ↦
        let two : (a ≡ 20) × (b ≡ 20) = ((==_iff a 20).0 e, (==_iff b 20).0 f) in
        let five : damage a b ≡ 5 = rw (e, f) refl in (omega (arith, five), (λ h. two, λ h. five))
    | inr f ↦ damage-less a b (rw (e, f) refl) (omega (arith, points-most a, points-less b f))
  ]
  | inr e ↦ damage-less a b (rw e refl) (omega (arith, points-less a e, points-most b))
]

attroll-IsRoll : (rand rand' : ℕ) → IsRoll (attroll rand rand')
unfolding attroll
attroll-IsRoll rand rand' =
    let (most, five) = damage-Fits (1 + rand % 20) (1 + rand' % 20) in
    (omega arith, omega arith, omega arith, omega arith, most, five)

fill-rolls :
    (rand : ℕ → ℕ) (i left : ℕ)
    → i + left ≤ 11
    → (dice : List DieReturn) × (fill_dice rand i left ≡ some dice)
      × (length dice ≡ left)
      × All IsRoll dice
unfolding fill_dice
fill-rolls rand i zero h = ([], refl, refl, tt)
fill-rolls rand i (suc left) h =
    let (dice, f, l, r) = fill-rolls rand (suc i) left (omega (arith, h)) in
    let d = attroll (rand (2 * i)) (rand (2 * i + 1)) in
    (
      d ∷ dice,
      rw (f, lt→ltb i 11 (omega (arith, h))) refl,
      omega (arith, l),
      (attroll-IsRoll _ _, r),
    )

range-cases : (cnt : ℤ) → (in_range cnt ≡ none) ⊎ ((n : ℕ) × (in_range cnt ≡ some n) × (n ≤ 10))
unfolding in_range
range-cases (negsuc n) = inl refl
range-cases (pos n) = elim (Bool-cases (ltb n 1 || ltb 10 n)) [
  | inl e ↦ inl (rw e refl)
  | inr e ↦ inr (n, rw e refl, ground (arith, e))
]

-- ATTACK with data that hold a word writes inside its eleven dice, whatever number the word is and
-- whatever rand returns: it rolls ten dice at most, and each shows two numbers from 1 to 20 and a
-- damage of at most 5, which it is exactly where both numbers are 20.
pub dicemod_attack-bounds :
    (rand : ℕ → ℕ) (text t : Text)
    → (strtok (at_byte b' ') text).0 ≡ some t
    → (dice : List DieReturn) × (dicemod_attack rand (some text) ≡ some dice)
      × (length dice ≤ 10)
      × All IsRoll dice
unfolding dicemod_attack attack_count
dicemod_attack-bounds rand text t h = elim (range-cases (atoi t)) [
  | inl e ↦ ([], rw (dicemod_attack, attack_count, h) (ap (roll_all rand) e), omega arith, tt)
  | inr (n, e, l) ↦
      let (dice, f, k, r) = fill-rolls rand 1 n (omega (arith, l)) in
      (
        dice,
        rw (dicemod_attack, attack_count, h) (ap (roll_all rand) e ∙ f),
        omega (arith, k, l),
        r,
      )
]
