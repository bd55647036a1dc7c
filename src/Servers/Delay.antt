-- ===== src/Servers/Delay.antt =====
-- How often the bot tries to connect to a server of src/server.c.
use acidblood.Common.{ℕ, ◌+◌, ◌*◌, ◌≤◌, ◌≡◌, ◌⊎◌}
use acidblood.Network.Returns.{Returns}
use acidblood.Servers.{ServerConf}

-- `n` attempts have been made since `start`.
abbrev Paced : ℕ → ℕ → ServerConf → Type 0
Paced start n c = (n ≡ 0) ⊎ (start + 10 * n ≤ c.nexttry)
