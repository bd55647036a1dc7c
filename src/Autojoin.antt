-- ===== src/Autojoin.antt =====
-- The channels that the bot joins: `conf_channels` and its functions in src/list.c, and
-- `EnterChannel` and `ExitChannel` of src/tracking.c. The list is kept in order.
pub mod Entries
use acidblood.Common.{
  ℕ, zero, suc, ◌+◌, ◌-◌, ◌*◌, ◌/◌, ◌%◌, ◌≤◌, ◌<◌, ◌≡◌, refl, sym, ap, ◌∙◌, subst, ◌≢◌, ◌↔◌, ◌⊎◌,
  inl, inr, Bool, true, false, not, ◌&&◌, ◌||◌, Option, none, some, List, [], ◌∷◌, ◌++◌, map, arith,
  ltb, leb, ◌==◌, if◌then◌else◌, ltb→lt, lt→ltb, leb→le, ==_iff, ==_refl, ◌>>=◌, Bool-cases,
  Option-cases, codes, length, take, drop, length-append, take-append-drop, length-take,
  length-drop, keep, All, length-map, After, After-bind, After-search, After-elim, After-if,
  After-some, ℤ, pos, negsuc, pos_part, neg_part, leb_ℤ, ltb_ℤ,
}
use acidblood.Text.{Text, strcaseeq}
use acidblood.Sending.{irc_sprintf}
use acidblood.Tracking.{Server, get_channel}
use acidblood.Tracking.Removal.{del_channel}

pub record Channels : Type 0 where
  pub name : Text
  pub key : Option Text

unfoldable pub clear_channels : List Channels → List Channels
clear_channels conf_channels = []

unfoldable pub insert_channels : List Channels → Text → Option Text → List Channels
insert_channels conf_channels name key = conf_channels ++ (record { name = name; key = key }) ∷ []

-- The new list, and whether a channel has been taken out: -1 is returned where it has not.
unfoldable pub delete_channel : List Channels → Text → List Channels × Bool
delete_channel [] name = ([], false)
delete_channel (c ∷ conf_channels) name =
    let (rest, done) = delete_channel conf_channels name in
    if strcaseeq (some c.name) (some name) then (conf_channels, true) else (c ∷ rest, done)

unfoldable pub join_line : Text → Option Text → Text
join_line name none = irc_sprintf (codes "JOIN " ++ name ++ codes "\n")
join_line name (some key) = irc_sprintf (codes "JOIN " ++ name ++ codes " " ++ key ++ codes "\n")

-- The lines that are sent.
unfoldable pub join_channels : List Channels → List Text
unfolding join_line
join_channels [] = []
join_channels (c ∷ conf_channels) = join_line c.name c.key ∷ join_channels conf_channels

-- The result, the list and the lines that are sent; `none` is a fault of the search.
unfoldable pub enter_channel :
    List Channels → Server → Text → Option Text → Option (ℤ × List Channels × List Text)
enter_channel conf_channels s name key = do
  found ← get_channel s name
  some (elim found [
    | some _ ↦ (negsuc 0, conf_channels, [])
    | none ↦ (pos 0, insert_channels conf_channels name key, join_line name key ∷ [])
  ])

-- `fuel` is for the loop of `DelChannel`.
unfoldable pub exit_channel :
    ℕ → List Channels → Server → Text → Option (ℤ × List Channels × List Text × Server)
exit_channel fuel conf_channels s name = do
  found ← get_channel s name
  elim found [
    | none ↦ some (negsuc 0, conf_channels, [], s)
    | some (c, _) ↦ (do
      s' ← del_channel fuel s c
      some (
        pos 0,
        (delete_channel conf_channels name).0,
        irc_sprintf (codes "PART " ++ name ++ codes "\n") ∷ [],
        s',
      ))
  ]
