-- ===== src/Autojoin/Entries.antt =====
-- What `insert_channels` and `delete_channel` of src/list.c do to each other.
use acidblood.Common.{◌≡◌, refl, ap, true, false, Option, some, List, [], ◌∷◌, ◌++◌, All}
use acidblood.Text.{Text, strcaseeq}
use acidblood.Autojoin.{Channels, insert_channels, delete_channel, join_channels, join_line}

-- No channel of the list has the name.
abbrev pub Lacks : Text → Channels → Type 0
Lacks name c = strcaseeq (some c.name) (some name) ≡ false

delete_none :
    (l : List Channels) (name : Text) → All (Lacks name) l → delete_channel l name ≡ (l, false)
unfolding delete_channel
delete_none [] name h = refl
delete_none (c ∷ l) name h = rw (h.0, delete_none l name (h.1)) refl

delete_end :
    (l : List Channels) (name : Text) (key : Option Text)
    → All (Lacks name) l
    → strcaseeq (some name) (some name) ≡ true
    → delete_channel (insert_channels l name key) name ≡ (l, true)
unfolding insert_channels delete_channel
delete_end [] name key h r = rw r refl
delete_end (c ∷ l) name key h r = rw (h.0, delete_end l name key (h.1) r) refl

join-insert :
    (l : List Channels) (name : Text) (key : Option Text)
    → join_channels (insert_channels l name key) ≡ join_channels l ++ join_line name key ∷ []
unfolding join_channels insert_channels
join-insert [] name key = refl
join-insert (c ∷ l) name key = ap (◌∷◌ (join_line c.name c.key)) (join-insert l name key)

-- Where no channel of the list has the name, which is not empty, `delete_channel` changes nothing
-- and returns -1; and once `insert_channels` has added the name, `delete_channel` takes it out
-- again, and `join_channels` sends one line more, at the end.
insert-delete :
    (l : List Channels) (name : Text) (key : Option Text)
    → All (Lacks name) l
    → strcaseeq (some name) (some name) ≡ true
    → (delete_channel l name ≡ (l, false))
      × (delete_channel (insert_channels l name key) name ≡ (l, true))
      × (join_channels (insert_channels l name key) ≡ join_channels l ++ join_line name key ∷ [])
insert-delete l name key h r =
    (delete_none l name h, delete_end l name key h r, join-insert l name key)
