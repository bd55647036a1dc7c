-- ===== src/Config/Lines.antt =====
-- What a line of the configuration calls, in src/readconf.c.
use acidblood.Common.{
  ℕ, ◌-◌, ◌≡◌, refl, sym, ap, ◌∙◌, ◌≢◌, ◌↔◌, ◌⊎◌, inl, inr, true, false, Option, none, some, List,
  [], ◌∷◌, ◌++◌, arith, ltb, ◌==◌, lt→ltb, Bool-cases, length, take, length-append, All, After,
  After-if,
}
use acidblood.Text.{Text, strcaseeq, lowerstring, strtok, at_byte, at_end}
use acidblood.Text.Equality.{strcaseeq_iff}
use acidblood.Text.Tokens.{Free, strtok-stop, strtok-at_end}
use acidblood.Config.{
  Cnfs, execconf, skip_spaces, ends_line, cut_eol, cleanup, isalpha, long_enough, read_line,
}

newline-last : (s : Text) → ends_line (s ++ 10 ∷ []) ≡ true
unfolding ends_line
newline-last [] = refl
newline-last (c ∷ []) = refl
newline-last (c ∷ d ∷ s) = newline-last (d ∷ s)

take-front : (s m : Text) → take (length s) (s ++ m) ≡ s
take-front [] m = refl
take-front (c ∷ s) m = ap (◌∷◌ c) (take-front s m)

-- Two bytes or more, with no space in front and no end of a line behind.
abbrev pub IsPlain : ℕ → ℕ → Text → Type 0
IsPlain a b s = (a == b' ' ≡ false) × (ends_line (a ∷ b ∷ s) ≡ false)

cut-plain : (s : Text) → ends_line s ≡ false → cut_eol s ≡ s
unfolding cut_eol
cut-plain s h = ground arith

cut_eol_lem :
    (w s : Text)
    → ltb 2 (length w) ≡ true
    → ends_line w ≡ true
    → take (length w - 1) w ≡ s
    → cut_eol w ≡ s
unfolding cut_eol
cut_eol_lem w s l e h = ground arith

cut-newline : (a b : ℕ) (s : Text) → cut_eol (a ∷ b ∷ s ++ 10 ∷ []) ≡ a ∷ b ∷ s
cut-newline a b s =
    let w = a ∷ b ∷ s ++ 10 ∷ [] in
    let l = length-append s (10 ∷ []) in
    let n : length w - 1 ≡ length (a ∷ b ∷ s) = omega arith in
    cut_eol_lem w (a ∷ b ∷ s) (lt→ltb 2 (length w) (omega arith)) (newline-last (a ∷ b ∷ s))
      (ap (λ k. take k w) n ∙ take-front (a ∷ b ∷ s) (10 ∷ []))

cleanup-plain : (a b : ℕ) (s : Text) → IsPlain a b s → cleanup (some (a ∷ b ∷ s)) ≡ some (a ∷ b ∷ s)
unfolding cleanup skip_spaces
cleanup-plain a b s (h, e) = simp (h, cut-plain (a ∷ b ∷ s) e) (ground arith)

cleanup-newline :
    (a b : ℕ) (s : Text) → IsPlain a b s → cleanup (some (a ∷ b ∷ s ++ 10 ∷ [])) ≡ some (a ∷ b ∷ s)
unfolding cleanup skip_spaces
cleanup-newline a b s (h, e) = simp (h, cut-newline a b s, cut-plain (a ∷ b ∷ s) e) (ground arith)

cleanup-byte : (x : ℕ) → x == b' ' ≡ false → cleanup (some (x ∷ 10 ∷ [])) ≡ some (x ∷ 10 ∷ [])
unfolding cleanup skip_spaces cut_eol
cleanup-byte x h = rw h refl

enough : (a b : ℕ) (s : Text) → long_enough (some (a ∷ b ∷ s)) ≡ some (a ∷ b ∷ s)
enough a b s = ground arith

read_line_lem :
    (configs : List Cnfs) (line : Text) (c : Option Text) (more : Text) (d : Option Text) (r : Text)
    → isalpha line ≡ true
    → strtok (at_byte b'=') line ≡ (c, more)
    → strtok at_end more ≡ (d, r)
    → read_line configs line ≡ execconf configs (cleanup c) (cleanup (long_enough d))
unfolding read_line
read_line_lem configs line c more d r i e f = simp (i, e, f) refl

lower_iff :
    (a : ℕ) (k name : Text)
    → (strcaseeq (some (a ∷ k)) (some name) ≡ true) ↔ (lowerstring (a ∷ k) ≡ lowerstring name)
lower_iff a k name = (
  λ h.
      let (s, t, e, f, n, l) = (strcaseeq_iff (some (a ∷ k)) (some name)).0 h in
      let e' : a ∷ k ≡ s = cc in
      let f' : name ≡ t = cc in ap lowerstring e' ∙ (l ∙ ap lowerstring (sym f')),
  λ l. (strcaseeq_iff (some (a ∷ k)) (some name)).1 (a ∷ k, name, refl, refl, (λ e. cc), l),
)

-- The keyword is another than `k`, in either case of letters.
abbrev pub OtherThan : Text → Cnfs → Type 0
OtherThan k c = lowerstring k ≢ lowerstring c.command

execconf-first :
    (front back : List Cnfs) (c : Cnfs) (a : ℕ) (k : Text) (value : Option Text)
    → All (OtherThan (a ∷ k)) front
    → lowerstring (a ∷ k) ≡ lowerstring c.command
    → execconf (front ++ c ∷ back) (some (a ∷ k)) value ≡ some (c.function, value)
unfolding execconf
execconf-first [] back c a k value h e = rw ((lower_iff a k c.command).1 e) refl
execconf-first (x ∷ front) back c a k value (n, h) e =
    elim (Bool-cases (strcaseeq (some (a ∷ k)) (some x.command))) [
      | inl t ↦ absurd (n ((lower_iff a k x.command).0 t))
      | inr f ↦ rw f (execconf-first front back c a k value h e)
    ]

same-lowerstring :
    (s t : Option Text) (k name : Text)
    → s ≡ some k
    → t ≡ some name
    → strcaseeq s t ≡ true
    → lowerstring k ≡ lowerstring name
same-lowerstring s t k name e f h =
    let (s', t', e', f', n, l) = (strcaseeq_iff s t).0 h in
    let p : k ≡ s' = cc in let q : name ≡ t' = cc in ap lowerstring p ∙ (l ∙ ap lowerstring (sym q))

none-differs : (t : Option Text) → strcaseeq none t ≡ false
none-differs t = elim (Bool-cases (strcaseeq none t)) [
  | inr f ↦ f
  | inl h ↦ let (s', t', e', f', n', l') = (strcaseeq_iff none t).0 h in cc
]

-- A call of the place `n` is one of a keyword that is `name` in either case of letters, where only
-- `name` is at `n`.
pub execconf-place :
    (n : ℕ) (name : Text) (configs : List Cnfs) (k value : Option Text)
    → All (λ (c : Cnfs). (c.function ≢ n) ⊎ (lowerstring c.command ≡ lowerstring name)) configs
    → After (λ (s : Text). lowerstring s ≢ lowerstring name) k
    → After (λ (e : ℕ × Option Text). e.0 ≢ n) (execconf configs k value)
unfolding execconf
execconf-place n name [] k value h o = tt
execconf-place n name (c ∷ configs) none value (d, h) o =
    rw (none-differs (some c.command)) (execconf-place n name configs none value h o)
execconf-place n name (c ∷ configs) (some k) value (d, h) o =
    elim (Bool-cases (strcaseeq (some k) (some c.command))) [
      | inr f ↦ rw f (execconf-place n name configs (some k) value h o)
      | inl t ↦ elim d [
        | inl e ↦ rw t e
        | inr e ↦
            absurd (o (same-lowerstring (some k) (some c.command) k c.command refl refl t ∙ e))
      ]
    ]

-- The keyword that the line gives: what is in front of the first `=`, without the spaces in front
-- and the ends of the line behind.
abbrev pub keyword_of : Text → Option Text
keyword_of line = cleanup (strtok (at_byte b'=') line).0

pub read_line-place :
    (n : ℕ) (name : Text) (configs : List Cnfs) (line : Text)
    → All (λ (c : Cnfs). (c.function ≢ n) ⊎ (lowerstring c.command ≡ lowerstring name)) configs
    → After (λ (s : Text). lowerstring s ≢ lowerstring name) (keyword_of line)
    → After (λ (e : ℕ × Option Text). e.0 ≢ n) (read_line configs line)
unfolding read_line
read_line-place n name configs line h o =
    After-if (λ (e : ℕ × Option Text). e.0 ≢ n) (isalpha line) _ none
      (λ i. execconf-place n name configs (keyword_of line) _ h o) (λ i. tt)

-- A line of a keyword and a value as in the configuration file.
abbrev pub setting_line : Text → Text → Text
setting_line k v = k ++ (b'=' ∷ v ++ 10 ∷ [])

-- The keyword begins with a letter, and has two bytes or more, none of them `=`; it and the value do
-- not begin with a space nor end in an end of line, and the value has two bytes or more.
abbrev pub IsSetting : Text → Text → Type 0
IsSetting (a ∷ b ∷ k) (x ∷ y ∷ v) =
    (isalpha (a ∷ b ∷ k) ≡ true) × Free (at_byte b'=') (a ∷ b ∷ k) × IsPlain a b k × IsPlain x y v
IsSetting _ _ = ⊥

pub read_line_exec :
    (configs : List Cnfs) (a b : ℕ) (k : Text) (x y : ℕ) (v : Text)
    → IsSetting (a ∷ b ∷ k) (x ∷ y ∷ v)
    → read_line configs (setting_line (a ∷ b ∷ k) (x ∷ y ∷ v))
      ≡ execconf configs (some (a ∷ b ∷ k)) (some (x ∷ y ∷ v))
read_line_exec configs a b k x y v (i, f, p, q) =
    let long = x ∷ y ∷ v ++ 10 ∷ [] in
    read_line_lem configs (a ∷ b ∷ k ++ b'=' ∷ long) _ long (some long) [] i
      (strtok-stop (at_byte b'=') a (b ∷ k) b'=' long f refl) (strtok-at_end x _)
    ∙ rw (cleanup-plain a b k p, enough x y (v ++ 10 ∷ []), cleanup-newline x y v q) refl

-- A line of a keyword and a value with `=` between them, where the keyword begins with a letter,
-- has two bytes or more, none of them `=`, and does not end in an end of line, calls the function of
-- the first keyword of the table that is the same in lower case, with the value and without the
-- newline, where the value has two bytes or more, begins with no space and does not end in an end of
-- line; and with the newline, where the value is one byte that is no space.
pub read_line-setting :
    (front back : List Cnfs) (c : Cnfs) (a b : ℕ) (k : Text) (x y : ℕ) (v : Text)
    → IsSetting (a ∷ b ∷ k) (x ∷ y ∷ v)
    → All (OtherThan (a ∷ b ∷ k)) front
    → lowerstring (a ∷ b ∷ k) ≡ lowerstring c.command
    → (read_line (front ++ c ∷ back) (setting_line (a ∷ b ∷ k) (x ∷ y ∷ v))
        ≡ some (c.function, some (x ∷ y ∷ v)))
      × (read_line (front ++ c ∷ back) (setting_line (a ∷ b ∷ k) (x ∷ []))
          ≡ some (c.function, some (x ∷ 10 ∷ [])))
read_line-setting front back c a b k x y v (i, f, p, q) o e =
    let short = x ∷ 10 ∷ [] in
    (
      read_line_exec (front ++ c ∷ back) a b k x y v (i, f, p, q)
          ∙ execconf-first front back c a (b ∷ k) (some (x ∷ y ∷ v)) o e,
      read_line_lem (front ++ c ∷ back) (a ∷ b ∷ k ++ b'=' ∷ short) _ short (some short) [] i
            (strtok-stop (at_byte b'=') a (b ∷ k) b'=' short f refl) (strtok-at_end x _)
          ∙ (rw (cleanup-plain a b k p, cleanup-byte x (q.0)) refl
              ∙ execconf-first front back c a (b ∷ k) (some short) o e),
    )
