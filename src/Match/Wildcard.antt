-- ===== src/Match/Wildcard.antt =====
-- What it means that a name Fits a mask of `*`, `?` and plain bytes, and its laws.
use acidblood.Common.{
  ℕ, ◌≤◌, ◌≡◌, refl, ◌≢◌, ◌↔◌, ◌⊎◌, inl, inr, [], ◌∷◌, arith, ◌==◌, ==_iff, Bool-cases, length, All,
}
use acidblood.Text.{Text, tolower}
use acidblood.Match.{byte_at, skip_stars}

-- `*` stands for any bytes, `?` for any one byte, and another byte for itself in either case.
pub data Matches : Text → Text → Type 0 where
  empty : Matches [] []
  leave : {a : ℕ} {p s : Text} → a ≡ b'*' → Matches p s → Matches (a ∷ p) s
  taking : {a c : ℕ} {p s : Text} → a ≡ b'*' → Matches (a ∷ p) s → Matches (a ∷ p) (c ∷ s)
  one : {a c : ℕ} {p s : Text} → a ≡ b'?' → Matches p s → Matches (a ∷ p) (c ∷ s)
  byte :
      {a c : ℕ} {p s : Text}
      → a ≢ b'*'
      → tolower a ≡ tolower c
      → Matches p s
      → Matches (a ∷ p) (c ∷ s)

abbrev pub Fits : ℕ → ℕ → Type 0
Fits a c = (a ≡ b'?') ⊎ (tolower a ≡ tolower c)

pub Fits-Matches :
    {a c : ℕ} {p s : Text} → a ≢ b'*' → Fits a c → Matches p s → Matches (a ∷ p) (c ∷ s)
Fits-Matches n (inl e) d = one e d
Fits-Matches n (inr e) d = byte n e d

pub Fits-inv : {a c : ℕ} {p s : Text} → a ≢ b'*' → Matches (a ∷ p) (c ∷ s) → Fits a c × Matches p s
Fits-inv n (leave e d) = absurd (n e)
Fits-inv n (taking e d) = absurd (n e)
Fits-inv n (one e d) = (inl e, d)
Fits-inv n (byte m e d) = (inr e, d)

pub not-Matches-nil : {c : ℕ} {s : Text} → ¬ Matches [] (c ∷ s)
not-Matches-nil d = elim d [ ]

pub star_at_end : {a : ℕ} {p : Text} → a ≡ b'*' → Matches (a ∷ p) [] → Matches p []
star_at_end e (leave _ d) = d

pub must_take :
    {a c : ℕ} {p s : Text}
    → a ≡ b'*'
    → Matches (a ∷ p) (c ∷ s)
    → ¬ Matches p (c ∷ s)
    → Matches (a ∷ p) s
must_take h (leave e d) n = absurd (n d)
must_take h (taking e d) n = d
must_take h (one e d) n = absurd (omega arith)
must_take h (byte m e d) n = absurd (m h)

pub two_stars :
    {a b : ℕ} {p s : Text} → a ≡ b'*' → b ≡ b'*' → Matches (a ∷ b ∷ p) s → Matches (b ∷ p) s
two_stars h k (leave e d) = d
two_stars h k (taking e d) = taking k (two_stars h k d)
two_stars h k (one e d) = absurd (omega arith)
two_stars h k (byte m e d) = absurd (m h)

-- A star in front of a byte that fits any name's byte gives the byte up.
pub drop_byte :
    {a b c : ℕ} {p : Text} (s : Text)
    → a ≡ b'*'
    → b ≢ b'*'
    → Matches (a ∷ b ∷ p) (c ∷ s)
    → Matches (a ∷ p) s
drop_byte s h n (leave e d) = leave h (Fits-inv n d).1
drop_byte [] h n (taking e d) = absurd (lone n (star_at_end h d))
  where
    lone : {b : ℕ} {p : Text} → b ≢ b'*' → ¬ Matches (b ∷ p) []
    lone n (leave e d) = n e
drop_byte (x ∷ s) h n (taking e d) = taking h (drop_byte s h n d)
drop_byte s h n (one e d) = absurd (omega arith)
drop_byte s h n (byte m e d) = absurd (m h)

-- The name is used up: only stars may be left.
pub stars-Matches :
    (b p : Text) → All (λ c. c ≢ 0) p → (byte_at (skip_stars b p).rest ≡ 0) ↔ Matches p []
unfolding skip_stars
stars-Matches b [] z = (λ e. empty, λ d. refl)
stars-Matches b (c ∷ p) z = elim (Bool-cases (c == b'*')) [
  | inl e ↦ rw e (
    λ h. leave ((==_iff c _).0 e) ((stars-Matches (c ∷ b) p z.1).0 h),
    λ d. (stars-Matches (c ∷ b) p z.1).1 (star_at_end ((==_iff c _).0 e) d),
  )
  | inr e ↦ rw e (λ h. absurd (z.0 h), λ d. absurd (lone (λ q. ground arith) d))
]
  where
    lone : {b : ℕ} {p : Text} → b ≢ b'*' → ¬ Matches (b ∷ p) []
    lone n (leave e d) = n e

-- A star and as many question marks as there are bytes, or fewer.
pub questions-Matches :
    (a : ℕ) (q s : Text)
    → a ≡ b'*'
    → All (λ c. c ≡ b'?') q
    → length q ≤ length s
    → Matches (a ∷ q) s
questions-Matches a q [] h k l = leave h (ends q l)
  where
    ends : (q : Text) → length q ≤ 0 → Matches q []
    ends [] l = empty
    ends (c ∷ q) l = absurd (omega arith)
questions-Matches a [] (c ∷ s) h k l = taking h (questions-Matches a [] s h tt (omega arith))
questions-Matches a (b ∷ q) (c ∷ s) h k l = pull (questions-Matches a q s h k.1 (omega arith))
  where
    pull : {s : Text} → Matches (a ∷ q) s → {c : ℕ} → Matches (a ∷ b ∷ q) (c ∷ s)
    pull (leave e d) = leave h (one k.0 d)
    pull (taking e d) = taking h (pull d)
    pull (one e d) = absurd (omega arith)
    pull (byte m e d) = absurd (m h)
