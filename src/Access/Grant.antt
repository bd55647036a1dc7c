-- ===== src/Access/Grant.antt =====
-- Who gets more than the default access from `SetAccess` and `SetChanAccess` of src/list.c.
use acidblood.Common.{
  ◌≡◌, ◌∙◌, ◌≢◌, ◌⊎◌, inl, inr, Bool, true, false, Option, none, some, List, [], ◌∷◌, ◌++◌, arith,
  codes, All, ℤ,
}
use acidblood.Text.{Text, streq}
use acidblood.Match.{match}
use acidblood.Access.{
  UserData, Person, default_access, check_chan, grant, set_access, set_chan_access,
}

-- The password that an entry asks for was given, or none is asked for.
abbrev pub PassOk : Bool → Option Text → UserData → Type 0
PassOk reqpass password u =
    (u.userpass ≡ none) ⊎ (reqpass ≡ false) ⊎ (streq u.userpass password ≡ true)

-- The entry is for this user, from this address.
abbrev pub IsFor : Person → UserData → Type 0
IsFor user u =
    (match u.usernick user.nick ≡ some true)
    × ((a : Text) × (user.address ≡ some a) × (match u.userip a ≡ some true))

pub data Somewhere {ℓ} {A : Type ℓ} (P : A → Type 0) : List A → Type ℓ where
  here : {x : A} {xs : List A} → P x → Somewhere P (x ∷ xs)
  there : {x : A} {xs : List A} → Somewhere P xs → Somewhere P (x ∷ xs)

grant-PassOk :
    (reqpass : Bool) (password : Option Text) (u : UserData)
    → grant reqpass password u ≢ default_access
    → PassOk reqpass password u × (grant reqpass password u ≡ u.userstatus)
unfolding grant
grant-PassOk reqpass password u h = ground arith

abbrev pub Grants : Bool → Person → Option Text → ℤ → UserData → Type 0
Grants reqpass user password a u =
    IsFor user u
    × (match (codes "all") u.userchan ≡ some true)
    × PassOk reqpass password u
    × (a ≡ u.userstatus)

granted_step :
    (conf : List UserData) (u : UserData) (reqpass : Bool) (user : Person) (password : Option Text)
    (a : ℤ) (out : List Text)
    → set_access (u ∷ conf) reqpass user password ≡ some (a, out)
    → a ≢ default_access
    → Grants reqpass user password a u ⊎ (set_access conf reqpass user password ≡ some (a, out))
unfolding set_access
granted_step conf u reqpass user password a out h n =
    ground (arith, grant-PassOk reqpass password u)

-- An access other than the default is that of an entry of the table that is for this user at this
-- address, is for all channels, and whose password was given where one is asked for.
pub set_access-granted :
    (conf : List UserData) (reqpass : Bool) (user : Person) (password : Option Text) (a : ℤ)
    (out : List Text)
    → set_access conf reqpass user password ≡ some (a, out)
    → a ≢ default_access
    → Somewhere (Grants reqpass user password a) conf
unfolding set_access
set_access-granted [] reqpass user password a out h n = absurd (n (cc))
set_access-granted (u ∷ conf) reqpass user password a out h n =
    elim (granted_step conf u reqpass user password a out h n) [
      | inl g ↦ here g
      | inr e ↦ there (set_access-granted conf reqpass user password a out e n)
    ]

abbrev pub GrantsHere : Bool → Person → Text → Option Text → ℤ → UserData → Type 0
GrantsHere reqpass user channel password a u =
    IsFor user u
    × ((match (codes "all") u.userchan ≡ some true) ⊎ (check_chan u.userchan channel ≡ some true))
    × PassOk reqpass password u
    × (a ≡ u.userstatus)

granted_here_step :
    (conf : List UserData) (u : UserData) (reqpass : Bool) (user : Person) (channel : Text)
    (password : Option Text) (a : ℤ) (out : List Text)
    → set_chan_access (u ∷ conf) reqpass user channel password ≡ some (a, out)
    → a ≢ default_access
    → GrantsHere reqpass user channel password a u
      ⊎ (set_chan_access conf reqpass user channel password ≡ some (a, out))
unfolding set_chan_access
granted_here_step conf u reqpass user channel password a out h n =
    ground (arith, grant-PassOk reqpass password u)

-- An access on a channel other than the default is that of an entry of the table that is for this
-- user at this address, is for all channels or for this one by `check_chan`, and whose password
-- was given where one is asked for.
set_chan_access-granted :
    (conf : List UserData) (reqpass : Bool) (user : Person) (channel : Text)
    (password : Option Text) (a : ℤ) (out : List Text)
    → set_chan_access conf reqpass user channel password ≡ some (a, out)
    → a ≢ default_access
    → Somewhere (GrantsHere reqpass user channel password a) conf
unfolding set_chan_access
set_chan_access-granted [] reqpass user channel password a out h n = absurd (n (cc))
set_chan_access-granted (u ∷ conf) reqpass user channel password a out h n =
    elim (granted_here_step conf u reqpass user channel password a out h n) [
      | inl g ↦ here g
      | inr e ↦ there (set_chan_access-granted conf reqpass user channel password a out e n)
    ]

-- The entry is for another nick or another address.
abbrev pub NotFor : Person → UserData → Type 0
NotFor user u =
    (match u.usernick user.nick ≡ some false)
    ⊎ ((match u.usernick user.nick ≡ some true)
        × ((a : Text) × (user.address ≡ some a) × (match u.userip a ≡ some false)))

skip_entry :
    (conf : List UserData) (u : UserData) (reqpass : Bool) (user : Person) (password : Option Text)
    → NotFor user u
    → set_access (u ∷ conf) reqpass user password ≡ set_access conf reqpass user password
unfolding set_access
skip_entry conf u reqpass user password h = ground arith

-- The first entry that is for the user decides, also where it refuses: entries behind it and
-- entries for others in front of it change nothing.
set_access-first :
    (pre : List UserData) (u : UserData) (post : List UserData) (reqpass : Bool) (user : Person)
    (password : Option Text)
    → All (NotFor user) pre
    → IsFor user u
    → set_access (pre ++ u ∷ post) reqpass user password ≡ set_access (u ∷ []) reqpass user password
unfolding set_access
set_access-first [] u post reqpass user password h f = ground arith
set_access-first (v ∷ pre) u post reqpass user password h f =
    skip_entry (pre ++ u ∷ post) v reqpass user password h.0
    ∙ set_access-first pre u post reqpass user password h.1 f
