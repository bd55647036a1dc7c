-- ===== src/Network/Lines.antt =====
-- What `getline_server` of src/network.c makes of the bytes that come in.
use acidblood.Common.{
  ℕ, suc, ◌+◌, ◌≤◌, ◌≡◌, refl, sym, ◌∙◌, ◌≢◌, inl, inr, true, false, none, some, List, [], ◌∷◌,
  ◌++◌, map, arith, ◌==◌, Option-cases, length, length-append, All,
}
use mathlib.Core.List.{append_assoc, append-nil}
use acidblood.Text.{Text}
use acidblood.Network.{SocketInfo, Outside}
use acidblood.Network.Buffer.{
  Received, failed, closed, byte, get_at, set_at, store, read_round, getline_server,
}

-- The socket when its buffer holds `front` in front of `buffpos` and `back` behind.
abbrev pub holding : SocketInfo → Text → Text → SocketInfo
holding s front back = record s { buff = front ++ back; buffpos = length front }

abbrev pub NoNewline : Text → Type 0
NoNewline = All (λ c. (c == b'\n') ≡ false)

pub get-front : (front back : Text) (c : ℕ) → get_at (length front) (front ++ c ∷ back) ≡ some c
unfolding get_at
get-front [] back c = refl
get-front (b ∷ front) back c = get-front front back c

pub set-front :
    (front back : Text) (b c : ℕ)
    → set_at (length front) c (front ++ b ∷ back) ≡ some (front ++ c ∷ back)
unfolding set_at
set-front [] back b c = refl
set-front (a ∷ front) back b c = rw (set-front front back b c) refl

set-end : (front : Text) (c : ℕ) → set_at (length front) c (front ++ []) ≡ none
unfolding set_at
set-end [] c = refl
set-end (a ∷ front) c = rw (set-end front c) refl

get-end : (front : Text) → get_at (length front) (front ++ []) ≡ none
unfolding get_at
get-end [] = refl
get-end (a ∷ front) = get-end front

-- A byte that is no newline is stored, and `buffpos` goes on by one.
pub round-byte :
    (o : Outside) (now : ℕ) (s : SocketInfo) (front back : Text) (b c : ℕ)
    → (c == b'\n') ≡ false
    → length front ≤ 1500
    → read_round o now (byte c) (holding s front (b ∷ back))
      ≡ some (false, record s { buff = front ++ c ∷ back; buffpos = suc (length front) })
unfolding read_round store
round-byte o now s front back b c h l =
    rw (set-front front back b c) (rw (get-front front back c) (rw h (ground arith)))

round-end :
    (o : Outside) (now : ℕ) (s : SocketInfo) (front : Text) (c : ℕ)
    → read_round o now (byte c) (holding s front []) ≡ none
unfolding read_round store
round-end o now s front c = rw (set-end front c) refl

holding-snoc :
    (s : SocketInfo) (front back : Text) (c : ℕ)
    → record s { buff = front ++ c ∷ back; buffpos = suc (length front) }
      ≡ holding s (front ++ c ∷ []) back
holding-snoc s front back c =
    let e : (front ++ c ∷ []) ++ back ≡ front ++ c ∷ back = append_assoc front (c ∷ []) back in
    let n : length (front ++ c ∷ []) ≡ suc (length front) =
      omega (arith, length-append front (c ∷ [])) in
    rw e (rw n refl)

getline-byte :
    (o : Outside) (now : ℕ) (s : SocketInfo) (front back : Text) (b c t : ℕ) (rs : List Received)
    → (c == b'\n') ≡ false
    → length front ≤ 1500
    → getline_server o now (holding s front (b ∷ back)) t (byte c ∷ rs)
      ≡ getline_server o now (holding s (front ++ c ∷ []) back) (suc t) rs
unfolding getline_server
getline-byte o now s front back b c t rs h l =
    rw (getline_server, round-byte o now s front back b c h l)
      (rw (holding-snoc s front back c) refl)

-- Bytes without a newline go into the buffer one after the other.
pub getline-bytes :
    (o : Outside) (now : ℕ) (s : SocketInfo) (front line over back : Text) (t : ℕ)
    (rs : List Received)
    → NoNewline line
    → length over ≡ length line
    → length front + length line ≤ 1500
    → getline_server o now (holding s front (over ++ back)) t (map byte line ++ rs)
      ≡ getline_server o now (holding s (front ++ line) back) (t + length line) rs
getline-bytes o now s front [] [] back t rs h l n =
    let e : front ++ [] ≡ front = append-nil front in
    let z : t + 0 ≡ t = omega arith in rw e (rw z refl)
getline-bytes o now s front [] (b ∷ over) back t rs h l n = absurd (omega (arith, l))
getline-bytes o now s front (c ∷ line) [] back t rs h l n = absurd (omega (arith, l))
getline-bytes o now s front (c ∷ line) (b ∷ over) back t rs h l n =
    let e : (front ++ c ∷ []) ++ line ≡ front ++ c ∷ line = append_assoc front (c ∷ []) line in
    let z : suc t + length line ≡ t + length (c ∷ line) = omega arith in
    let next =
      getline-bytes o now s (front ++ c ∷ []) line over back (suc t) rs h.1 (omega (arith, l))
        (omega (arith, length-append front (c ∷ []))) in
    getline-byte o now s front (over ++ back) b c t (map byte line ++ rs) h.0 (omega arith)
    ∙ (rw e at (rw z at next))

pub at-front :
    (s : SocketInfo) (text : Text) → s.buff ≡ text → s.buffpos ≡ 0 → holding s [] text ≡ s
at-front s text e z = rw (sym e) (rw (sym z) refl)

round-later :
    (o : Outside) (now now' : ℕ) (r : Received) (s s' : SocketInfo)
    → read_round o now r s ≡ some (false, s')
    → read_round o now' r s ≡ some (false, s')
unfolding read_round
round-later o now now' r s s' h = ground arith

-- From the front of a buffer of 1500 bytes, 1501 bytes without a newline are one too many: a byte
-- is stored behind the end, as the test of `buffpos` comes after it.
pub getline-overrun :
    (o : Outside) (now t : ℕ) (s : SocketInfo) (line : Text) (c : ℕ) (rs : List Received)
    → s.buffpos ≡ 0
    → length s.buff ≡ 1500
    → NoNewline line
    → length line ≡ 1500
    → getline_server o now s t (map byte line ++ byte c ∷ rs) ≡ none
unfolding getline_server
getline-overrun o now t s line c rs z l h n =
    let e : s.buff ≡ s.buff ++ [] = sym (append-nil s.buff) in
    let next =
      getline-bytes o now s [] line s.buff [] t (byte c ∷ rs) h (omega (arith, l, n))
        (omega (arith, n)) in
    (rw (at-front s (s.buff ++ []) e z) at next)
    ∙ rw (getline_server, round-end o now s line c) refl

-- Reading goes on where it was broken off: where `recv` fails before the end of a line, the next
-- call, at a later time, does what one call does that gets all the bytes.
pub getline-resumes :
    (o : Outside) (now now' t t' : ℕ) (s s' : SocketInfo) (xs ys : List Received)
    → All (λ r. r ≢ failed) xs
    → getline_server o now s t (xs ++ failed ∷ ys) ≡ some (0, s', t', ys)
    → getline_server o now' s t (xs ++ ys) ≡ getline_server o now' s' t' ys
unfolding getline_server
getline-resumes o now now' t t' s s' [] ys f h = cc
getline-resumes o now now' t t' s s' (failed ∷ xs) ys f h = absurd (f.0 refl)
getline-resumes o now now' t t' s s' (closed ∷ xs) ys f h =
    elim (Option-cases (read_round o now closed s)) [
      | inl e ↦ absurd (ground (arith, rw (getline_server, e) at h))
      | inr ((true, s1), e) ↦ absurd (ground (arith, rw (getline_server, e) at h))
      | inr ((false, s1), e) ↦
          rw (getline_server, round-later o now now' closed s s1 e)
            (getline-resumes o now now' (suc t) t' s1 s' xs ys f.1 (rw (getline_server, e) at h))
    ]
getline-resumes o now now' t t' s s' (byte c ∷ xs) ys f h =
    elim (Option-cases (read_round o now (byte c) s)) [
      | inl e ↦ absurd (ground (arith, rw (getline_server, e) at h))
      | inr ((true, s1), e) ↦ absurd (ground (arith, rw (getline_server, e) at h))
      | inr ((false, s1), e) ↦
          rw (getline_server, round-later o now now' (byte c) s s1 e)
            (getline-resumes o now now' (suc t) t' s1 s' xs ys f.1 (rw (getline_server, e) at h))
    ]
