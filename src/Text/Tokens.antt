-- ===== src/Text/Tokens.antt =====
-- Laws of `strtok`, as the parsers use it.
use acidblood.Common.{ℕ, ◌≡◌, refl, Bool, true, false, none, some, [], ◌∷◌, ◌++◌, arith, All}
use acidblood.Text.{Text, token, strtok, at_end}

-- No byte of the text is a delimiter.
abbrev pub Free : (ℕ → Bool) → Text → Type 0
Free d = All (λ c. d c ≡ false)

token-stop :
    (d : ℕ → Bool) (t : Text) (c : ℕ) (r : Text)
    → Free d t
    → d c ≡ true
    → token d (t ++ c ∷ r) ≡ (t, r)
unfolding token
token-stop d [] c r f h = ground arith
token-stop d (a ∷ t) c r f h = ground (arith, token-stop d t c r)

token-all : (d : ℕ → Bool) (t : Text) → Free d t → token d t ≡ (t, [])
unfolding token
token-all d [] f = refl
token-all d (a ∷ t) f = ground (arith, token-all d t)

-- A token and the delimiter behind it.
pub strtok-stop :
    (d : ℕ → Bool) (a : ℕ) (t : Text) (c : ℕ) (r : Text)
    → Free d (a ∷ t)
    → d c ≡ true
    → strtok d (a ∷ t ++ c ∷ r) ≡ (some (a ∷ t), r)
unfolding strtok
strtok-stop d a t c r f h = ground (arith, token-stop d (a ∷ t) c r f h)

-- The last token.
pub strtok-last :
    (d : ℕ → Bool) (a : ℕ) (t : Text) → Free d (a ∷ t) → strtok d (a ∷ t) ≡ (some (a ∷ t), [])
unfolding strtok
strtok-last d a t f = ground (arith, token-all d (a ∷ t) f)

Free-at_end : (t : Text) → Free at_end t
Free-at_end [] = tt
Free-at_end (a ∷ t) = (refl, Free-at_end t)

-- `strtok(NULL, "")` takes all that is left.
pub strtok-at_end : (a : ℕ) (t : Text) → strtok at_end (a ∷ t) ≡ (some (a ∷ t), [])
strtok-at_end a t = strtok-last at_end a t (Free-at_end (a ∷ t))

pub strtok-nil : (d : ℕ → Bool) → strtok d [] ≡ (none, [])
unfolding strtok
strtok-nil d = refl
