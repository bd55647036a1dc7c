-- ===== src/Settings/Reading.antt =====
-- What the lines of the main configuration make of the settings: `init_conf` and the functions of
-- src/conf.c below `read_config` of src/readconf.c.
use acidblood.Common.{ℕ, ◌≡◌, ◌≢◌, ◌⊎◌}
use acidblood.Text.{Text, lowerstring}
use acidblood.Config.{Cnfs}

abbrev PlacedAs : ℕ → Text → Cnfs → Type 0
PlacedAs n name c = (c.function ≢ n) ⊎ (lowerstring c.command ≡ lowerstring name)
