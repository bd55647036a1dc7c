-- ===== src/Parser/Channels.antt =====
-- `parse_channels` of src/parser.c read back a channel list as the configuration file writes it.
use acidblood.Common.{
  ℕ, ◌+◌, ◌<◌, ◌≡◌, ◌∙◌, Bool, true, false, not, ◌&&◌, Option, none, some, List, [], ◌∷◌, ◌++◌,
  arith, ◌==◌, length, length-append, All,
}
use mathlib.Core.List.{append-nil, append_assoc}
use acidblood.Text.{Text}
use acidblood.Parser.{Scan, start, buffer_size, scan_byte, scan_end, scan, parse_channels}

-- `#channel` or `#channel(key)`.
abbrev pub show_entry : Text × Option Text → Text
show_entry (name, none) = name
show_entry (name, some key) = name ++ b'(' ∷ (key ++ b')' ∷ [])

-- The entries with commas between them.
abbrev pub show : (Text × Option Text) → List (Text × Option Text) → Text
show e [] = show_entry e
show e (e' ∷ es) = show_entry e ++ b',' ∷ show e' es

abbrev pub is_plain : ℕ → Bool
is_plain c = not (c == b'(') && not (c == b')') && not (c == b',')

abbrev pub is_key : ℕ → Bool
is_key c = not (c == b'(') && not (c == b')')

abbrev pub IsKey : Option Text → Type 0
IsKey none = Unit {0}
IsKey (some key) = All (λ c. is_key c ≡ true) key × (length key < buffer_size)

-- A name with no `(`, `)` or `,`, a key with no `(` or `)`, both shorter than the buffers.
abbrev pub IsEntry : Text × Option Text → Type 0
IsEntry (name, key) = All (λ c. is_plain c ≡ true) name × (length name < buffer_size) × IsKey key

scan-name :
    (t rest acc k : Text) (h : Bool)
    → All (λ c. is_plain c ≡ true) t
    → length acc + length t < buffer_size
    → scan (t ++ rest) (record { temp = acc; key = k; keyflag = false; haskey = h })
      ≡ scan rest (record { temp = acc ++ t; key = k; keyflag = false; haskey = h })
unfolding scan scan_byte
scan-name [] rest acc k h p l = rw append-nil
scan-name (c ∷ t) rest acc k h p l = ground (
  arith,
  scan-name t rest (acc ++ c ∷ []) k h p.1,
  length-append acc (c ∷ []),
  append_assoc acc (c ∷ []) t,
)

scan-key :
    (t rest acc k : Text)
    → All (λ c. is_key c ≡ true) t
    → length k + length t < buffer_size
    → scan (t ++ rest) (record { temp = acc; key = k; keyflag = true; haskey = true })
      ≡ scan rest (record { temp = acc; key = k ++ t; keyflag = true; haskey = true })
unfolding scan scan_byte
scan-key [] rest acc k p l = rw append-nil
scan-key (c ∷ t) rest acc k p l = ground (
  arith,
  scan-key t rest acc (k ++ c ∷ []) p.1,
  length-append k (c ∷ []),
  append_assoc k (c ∷ []) t,
)

-- The state in front of the comma or the end.
abbrev after_entry : Text × Option Text → Scan
after_entry (name, none) = record { temp = name; key = []; keyflag = false; haskey = false }
after_entry (name, some key) = record { temp = name; key = key; keyflag = false; haskey = true }

scan-bracketed :
    (name key rest : Text)
    → IsKey (some key)
    → scan
        ((b'(' ∷ (key ++ b')' ∷ [])) ++ rest)
        (record { temp = name; key = []; keyflag = false; haskey = false })
      ≡ scan rest (after_entry (name, some key))
unfolding scan scan_byte
scan-bracketed name key rest p =
    ground (arith, append_assoc key (b')' ∷ []) rest, scan-key key (b')' ∷ rest) name [] p.0)

scan-last : (e : Text × Option Text) → IsEntry e → scan [] (after_entry e) ≡ some (e ∷ [])
unfolding scan scan_end
scan-last (name, none) p = ground arith
scan-last (name, some key) p = ground arith

scan-comma :
    (e : Text × Option Text) (line : Text) (es : List (Text × Option Text))
    → IsEntry e
    → parse_channels line ≡ some es
    → scan (b',' ∷ line) (after_entry e) ≡ some (e ∷ es)
unfolding scan scan_byte parse_channels
scan-comma (name, none) line es p h = ground arith
scan-comma (name, some key) line es p h = ground arith

scan-entry :
    (e : Text × Option Text) (rest : Text)
    → IsEntry e
    → scan (show_entry e ++ rest) start ≡ scan rest (after_entry e)
scan-entry (name, none) rest p = scan-name name rest [] [] false p.0 (omega (arith, p.1))
scan-entry (name, some key) rest p =
    rw append_assoc
      (scan-name name _ [] [] false p.0 (omega (arith, p.1)) ∙ scan-bracketed name key rest p.2)

-- A channel list that is written out is read back: each channel with its key, in order, with no
-- write outside the buffers, where the names and keys are well formed.
pub parse_channels-show :
    (e : Text × Option Text) (es : List (Text × Option Text))
    → All IsEntry (e ∷ es)
    → parse_channels (show e es) ≡ some (e ∷ es)
unfolding parse_channels
parse_channels-show e [] p =
    rw (← append-nil (show_entry e)) (scan-entry e [] p.0 ∙ scan-last e p.0)
parse_channels-show e (e' ∷ es) p =
    scan-entry e (b',' ∷ show e' es) p.0
    ∙ scan-comma e (show e' es) (e' ∷ es) p.0 (parse_channels-show e' es p.1)
