-- ===== src/Text/Equality.antt =====
-- What `streq` and `strcaseeq` of src/parser.c decide.
use acidblood.Common.{◌≡◌, refl, ap, ◌≢◌, ◌↔◌, true, Option, none, some, [], ◌∷◌, arith}
use acidblood.Text.{Text, same_bytes, same_bytes_nocase, streq, strcaseeq, lowerstring}

same_bytes→eq : (s t : Text) → same_bytes s t ≡ true → s ≡ t
unfolding same_bytes
same_bytes→eq [] [] h = refl
same_bytes→eq [] (b ∷ t) h = cc
same_bytes→eq (a ∷ s) [] h = cc
same_bytes→eq (a ∷ s) (b ∷ t) h = ground (arith, same_bytes→eq s t)

same_bytes_refl : (s : Text) → same_bytes s s ≡ true
unfolding same_bytes
same_bytes_refl [] = refl
same_bytes_refl (a ∷ s) = ground (arith, same_bytes_refl s)

nocase→lower : (s t : Text) → same_bytes_nocase s t ≡ true → lowerstring s ≡ lowerstring t
unfolding same_bytes_nocase lowerstring
nocase→lower [] [] h = refl
nocase→lower [] (b ∷ t) h = cc
nocase→lower (a ∷ s) [] h = cc
nocase→lower (a ∷ s) (b ∷ t) h = ground (arith, nocase→lower s t)

lower→nocase : (s t : Text) → lowerstring s ≡ lowerstring t → same_bytes_nocase s t ≡ true
unfolding same_bytes_nocase lowerstring
lower→nocase [] [] h = refl
lower→nocase [] (b ∷ t) h = cc
lower→nocase (a ∷ s) [] h = cc
lower→nocase (a ∷ s) (b ∷ t) h = ground (arith, lower→nocase s t)

-- `streq` returns 1 exactly when neither pointer is NULL, the texts are equal, and they are not empty.
streq_iff :
    (p q : Option Text) → (streq p q ≡ true) ↔ ((s : Text) × (p ≡ some s) × (q ≡ some s) × (s ≢ []))
unfolding streq
streq_iff none q = (λ h. cc, λ (s, e, _, _). cc)
streq_iff (some s) none = (λ h. cc, λ (s, _, e, _). cc)
streq_iff (some []) (some t) = (λ h. cc, λ (s, e, _, n). absurd (n (cc)))
streq_iff (some (a ∷ s)) (some []) = (λ h. cc, λ (s, _, e, n). absurd (n (cc)))
streq_iff (some (a ∷ s)) (some (b ∷ t)) = (
  λ h. (a ∷ s, refl, ap some (ground (arith, same_bytes→eq (a ∷ s) (b ∷ t))), λ e. cc),
  λ (u, e, f, n). ground (arith, same_bytes_refl (a ∷ s)),
)

-- `strcaseeq` returns 1 exactly when neither pointer is NULL, the texts are not empty, and they
-- are equal once `lowerstring` has been applied to both.
pub strcaseeq_iff :
    (p q : Option Text)
    → (strcaseeq p q ≡ true) ↔ (
        (s : Text) × (t : Text) × (p ≡ some s)
        × (q ≡ some t)
        × (s ≢ [])
        × (lowerstring s ≡ lowerstring t))
unfolding strcaseeq lowerstring
strcaseeq_iff none q = (λ h. cc, λ (s, t, e, _, _, _). cc)
strcaseeq_iff (some s) none = (λ h. cc, λ (s', t, _, e, _, _). cc)
strcaseeq_iff (some []) (some t) = (λ h. cc, λ (s, t', e, _, n, _). absurd (n (cc)))
strcaseeq_iff (some (a ∷ s)) (some []) = (λ h. cc, λ (s', t, e, f, n, l). ground arith)
strcaseeq_iff (some (a ∷ s)) (some (b ∷ t)) = (
  λ h. (a ∷ s, b ∷ t, refl, refl, λ e. cc, nocase→lower (a ∷ s) (b ∷ t) h),
  λ (u, v, e, f, n, l). lower→nocase (a ∷ s) (b ∷ t) (ground arith),
)
