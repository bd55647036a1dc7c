-- ===== src/Parser/Prefix.antt =====
-- `convert_clientinfo` of src/parser.c on the two forms of a message's prefix.
use acidblood.Common.{ℕ, ◌≡◌, refl, ◌≢◌, true, false, Option, none, some, [], ◌∷◌, ◌++◌, arith}
use mathlib.Core.List.{append_assoc}
use acidblood.Text.{Text, strtok, at_byte, at_end}
use acidblood.Text.Strip.{strip_front}
use acidblood.Text.Tokens.{Free, strtok-stop, strtok-at_end}
use acidblood.Parser.{convert_clientinfo, has_byte}

has_byte-append : (b : ℕ) (s t : Text) → has_byte b (s ++ b ∷ t) ≡ true
unfolding has_byte
has_byte-append b [] t = ground arith
has_byte-append b (c ∷ s) t = ground (arith, has_byte-append b s t)

has_byte-Free : (b : ℕ) (s : Text) → Free (at_byte b) s → has_byte b s ≡ false
unfolding has_byte
has_byte-Free b [] f = refl
has_byte-Free b (c ∷ s) f = ground (arith, has_byte-Free b s)

strtok-rest : (a : Text) (z : ℕ) → strtok at_end (a ++ z ∷ []) ≡ (some (a ++ z ∷ []), [])
strtok-rest [] z = strtok-at_end z []
strtok-rest (x ∷ a) z = strtok-at_end x (a ++ z ∷ [])

-- `:nick!ident@address` gives its three parts and the server, where the nick holds no `!`, the
-- ident no `@`, none of the parts is empty, and the address does not end in `:`.
pub convert_clientinfo-full {ℓ} :
    {S : Type ℓ} (server : Option S) (n : ℕ) (ns : Text) (i : ℕ) (is a : Text) (z : ℕ)
    → Free (at_byte b'!') (n ∷ ns)
    → Free (at_byte b'@') (i ∷ is)
    → z ≢ b':'
    → convert_clientinfo server (b':' ∷ (n ∷ ns ++ b'!' ∷ (i ∷ is ++ b'@' ∷ (a ++ z ∷ []))))
      ≡ some (record {
        nick = some (n ∷ ns);
        ident = some (i ∷ is);
        address = some (a ++ z ∷ []);
        server = server;
      })
unfolding convert_clientinfo
convert_clientinfo-full server n ns i is a z hn hi hz =
    let rest : Text = i ∷ is ++ b'@' ∷ (a ++ z ∷ []) in
    let front : Text = n ∷ ns ++ b'!' ∷ (i ∷ is ++ b'@' ∷ a) in
    let whole : front ++ z ∷ [] ≡ n ∷ ns ++ b'!' ∷ rest = simp append_assoc in
    ground (
      arith,
      rw whole at (strip_front b':' front z hz),
      has_byte-append b'!' (n ∷ ns) rest,
      strtok-stop (at_byte b'!') n ns b'!' rest hn refl,
      strtok-stop (at_byte b'@') i is b'@' (a ++ z ∷ []) hi refl,
      strtok-rest a z,
    )

-- A prefix with no `!`, a server's name, is the nick, and ident and address are NULL.
convert_clientinfo-server {ℓ} :
    {S : Type ℓ} (server : Option S) (s : Text) (z : ℕ)
    → Free (at_byte b'!') (s ++ z ∷ [])
    → z ≢ b':'
    → convert_clientinfo server (b':' ∷ (s ++ z ∷ []))
      ≡ some (record { nick = some (s ++ z ∷ []); ident = none; address = none; server = server })
unfolding convert_clientinfo
convert_clientinfo-server server s z f h =
    ground (arith, strip_front b':' s z h, has_byte-Free b'!' (s ++ z ∷ []) f)
