-- ===== src/Text/Strip.antt =====
-- What `strip_char_from_end` of src/parser.c does to a text, and when it reads in front of it.
use acidblood.Common.{
  ℕ, ◌≡◌, refl, ◌≢◌, ◌↔◌, ◌⊎◌, inl, none, some, [], ◌∷◌, ◌++◌, arith, ◌==◌, if◌then◌else◌,
}
use acidblood.Text.{Text, drop_first, drop_last, strip_char_from_end}

drop_last-append :
    (strip c : ℕ) (s : Text)
    → drop_last strip (s ++ c ∷ []) ≡ some (if c == strip then s else s ++ c ∷ [])
unfolding drop_last
drop_last-append strip c [] = refl
drop_last-append strip c (a ∷ []) = ground arith
drop_last-append strip c (a ∷ b ∷ s) = ground (arith, drop_last-append strip c (b ∷ s))

-- A delimiter at the front and one at the back are both removed, and what stands between them is
-- kept as it is.
strip-delimited :
    (strip : ℕ) (s : Text) → strip_char_from_end strip (strip ∷ s ++ strip ∷ []) ≡ some s
unfolding strip_char_from_end
strip-delimited strip s = ground (arith, drop_last-append strip strip s)

drop_last-none : (strip : ℕ) (s : Text) → (drop_last strip s ≡ none) ↔ (s ≡ [])
unfolding drop_last
drop_last-none strip [] = (λ _. refl, λ _. refl)
drop_last-none strip (c ∷ []) = (λ e. cc, λ e. cc)
drop_last-none strip (c ∷ d ∷ s) =
    let ih = drop_last-none strip (d ∷ s) in (λ e. ground (arith, ih), λ e. cc)

-- The routine reads in front of the text exactly when the text is empty or the delimiter alone.
strip-none_iff :
    (strip : ℕ) (s : Text) → (strip_char_from_end strip s ≡ none) ↔ ((s ≡ []) ⊎ (s ≡ strip ∷ []))
unfolding strip_char_from_end
strip-none_iff strip s =
    (λ e. forth s ((drop_last-none strip _).0 e), λ h. (drop_last-none strip _).1 (back s h))
  where
    forth : (s : Text) → drop_first strip s ≡ [] → (s ≡ []) ⊎ (s ≡ strip ∷ [])
    forth [] e = inl refl
    forth (c ∷ s) e = ground arith

    back : (s : Text) → (s ≡ []) ⊎ (s ≡ strip ∷ []) → drop_first strip s ≡ []
    back [] h = refl
    back (c ∷ s) h = ground arith

-- A delimiter at the front alone is removed.
pub strip_front :
    (strip : ℕ) (s : Text) (z : ℕ)
    → z ≢ strip
    → strip_char_from_end strip (strip ∷ (s ++ z ∷ [])) ≡ some (s ++ z ∷ [])
unfolding strip_char_from_end
strip_front strip s z h = ground (arith, drop_last-append strip z s)
