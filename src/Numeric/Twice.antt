-- ===== src/Numeric/Twice.antt =====
-- What the numeric 433 of src/numeric.c makes of a nick that is in use, and of the next.
use acidblood.Common.{ℕ, ◌≡◌, refl, true, false, some, ◌∷◌, ◌++◌, ◌>>=◌, codes, After, After-bind}
use acidblood.Text.{Text, strcaseeq}
use acidblood.Text.Equality.{strcaseeq_iff}
use acidblood.Sending.{irc_sprintf}
use acidblood.Settings.{BotStruct}
use acidblood.Network.{SocketInfo, Outside, disconnected, send_packet}
use acidblood.Tracking.{Server}
use acidblood.Numeric.{numeric_nickinuse}

-- The first 433 takes the alternate nick, where it is another, and a second one gives the connection
-- up, with the flag net_unconnectable not set: wherever the first does not fault.
numeric_nickinuse-twice :
    (o : Outside) (currtime later : ℕ) (botinfo : BotStruct) (s : Server) (sinfo : SocketInfo)
    (a : ℕ) (as' : Text)
    → botinfo.altnick ≡ some (a ∷ as')
    → strcaseeq (some s.nick) botinfo.altnick ≡ false
    → After
        (λ ((s', sinfo') : Server × SocketInfo).
          (s'.nick ≡ a ∷ as')
          × (numeric_nickinuse o later botinfo s' sinfo' ≡ (do
            sinfo'' ← disconnected o (record sinfo' { unconnectable = false })
            some (s', sinfo''))))
        (numeric_nickinuse o currtime botinfo s sinfo)
unfolding numeric_nickinuse
numeric_nickinuse-twice o currtime later botinfo s sinfo a as' h d =
    let same : strcaseeq (some (a ∷ as')) (some (a ∷ as')) ≡ true =
      (strcaseeq_iff (some (a ∷ as')) (some (a ∷ as'))).1
        (a ∷ as', a ∷ as', refl, refl, (λ e. cc), refl) in
    rw (numeric_nickinuse, d)
      (rw h (
        After-bind _
          (send_packet o currtime sinfo (irc_sprintf (codes "NICK " ++ (a ∷ as') ++ codes "\n"))) _
          (λ sinfo' e. (refl, rw same refl))))
