-- ===== src/Network/Pool.antt =====
-- `GetNewSocket`, `FreeSocket` and `delnetworkmodule` of src/network.c on the pool.
use acidblood.Common.{
  ℕ, ◌≡◌, refl, ap, subst, ◌≢◌, ◌⊎◌, inl, inr, false, none, some, List, [], ◌∷◌, ◌++◌, arith, ◌==◌,
  ==_iff, Bool-cases, length, All, All-parts,
}
use acidblood.Network.{
  SocketInfo, clear_flags, get_new_socket, change_socket, get_module_socket, free_socket,
  delnetworkmodule,
}

-- The socket that `GetNewSocket` hands out: `fd`, `keepalive` and the buffer are as they were.
abbrev pub fresh : ℕ → SocketInfo → SocketInfo
fresh handler s = record (clear_flags s) {
  lastrcvpacket = 0;
  lastsndpacket = 0;
  pingtimeout = 0;
  buffpos = 0;
  handler = handler;
  module_handle = 0;
  idle = 0;
  timeout = 0;
}

abbrev pub InUse : SocketInfo → Type 0
InUse s = s.handler ≢ 0

get_new-first :
    (handler : ℕ) (before after : List SocketInfo) (s : SocketInfo)
    → All InUse before
    → s.handler ≡ 0
    → get_new_socket handler (before ++ s ∷ after)
      ≡ some (length before, before ++ fresh handler s ∷ after)
unfolding get_new_socket
get_new-first handler [] after s h z = ground (arith, z)
get_new-first handler (x ∷ before) after s (g, h) z =
    rw (get_new-first handler before after s h z) (ground (arith, g))

get_new-full :
    (handler : ℕ) (socket_pool : List SocketInfo)
    → All InUse socket_pool
    → get_new_socket handler socket_pool ≡ none
unfolding get_new_socket
get_new-full handler [] h = refl
get_new-full handler (s ∷ socket_pool) (g, h) =
    rw (get_new-full handler socket_pool h) (ground (arith, g))

change-at :
    (f : SocketInfo → SocketInfo) (before after : List SocketInfo) (s : SocketInfo)
    → change_socket (λ x. some (f x)) (length before) (before ++ s ∷ after)
      ≡ some (before ++ f s ∷ after)
unfolding change_socket
change-at f [] after s = refl
change-at f (x ∷ before) after s = rw (change-at f before after s) refl

-- All sockets are in use, or the pool is cut at the first that is free.
first-free :
    (socket_pool : List SocketInfo)
    → All InUse socket_pool
      ⊎ ((before : List SocketInfo) × (s : SocketInfo) × (after : List SocketInfo) × (socket_pool
            ≡ before ++ s ∷ after)
          × All InUse before
          × (s.handler ≡ 0))
first-free [] = inl tt
first-free (s ∷ socket_pool) = elim (Bool-cases (s.handler == 0)) [
  | inl e ↦ inr ([], s, socket_pool, refl, tt, (==_iff s.handler 0).0 e)
  | inr e ↦ elim (first-free socket_pool) [
    | inl h ↦ inl ((λ z. absurd (ground (arith, z))), h)
    | inr (before, x, after, w, h, z) ↦
        inr (s ∷ before, x, after, ap (◌∷◌ s) w, ((λ y. absurd (ground (arith, y))), h), z)
  ]
]

get_module-first :
    (handle handler : ℕ) (before after : List SocketInfo) (s : SocketInfo)
    → All InUse before
    → s.handler ≡ 0
    → get_module_socket handle handler (before ++ s ∷ after)
      ≡ some (length before, before ++ record (fresh handler s) { module_handle = handle } ∷ after)
unfolding get_module_socket
get_module-first handle handler before after s h z =
    rw (get_new-first handler before after s h z) (
      rw (change-at (λ x. record x { module_handle = handle }) before after (fresh handler s)) refl)

get_module-full :
    (handle handler : ℕ) (socket_pool : List SocketInfo)
    → All InUse socket_pool
    → get_module_socket handle handler socket_pool ≡ none
unfolding get_module_socket
get_module-full handle handler socket_pool h = rw (get_new-full handler socket_pool h) refl

abbrev pub NotOf : ℕ → SocketInfo → Type 0
NotOf handle s = (s.module_handle == handle) ≡ false

delnetwork-others :
    (handle : ℕ) (socket_pool : List SocketInfo)
    → All (NotOf handle) socket_pool
    → delnetworkmodule handle socket_pool ≡ socket_pool
unfolding delnetworkmodule
delnetwork-others handle [] h = refl
delnetwork-others handle (s ∷ socket_pool) (g, h) =
    rw g (ap (◌∷◌ s) (delnetwork-others handle socket_pool h))

delnetwork-one :
    (handle : ℕ) (before after : List SocketInfo) (s : SocketInfo)
    → All (NotOf handle) before
    → All (NotOf handle) after
    → s.module_handle ≡ handle
    → delnetworkmodule handle (before ++ s ∷ after) ≡ before ++ free_socket s ∷ after
unfolding delnetworkmodule
delnetwork-one handle [] after s g h e = rw (delnetwork-others handle after h) (ground (arith, e))
delnetwork-one handle (x ∷ before) after s (k, g) h e =
    rw k (ap (◌∷◌ x) (delnetwork-one handle before after s g h e))

-- For a module that no socket of the pool has: GetModuleSocket finds no socket where all are in use.
-- Else it hands out the first that is free, which then has the handler and the module;
-- delnetworkmodule leaves the pool with this socket freed, as FreeSocket on it does, and the next
-- socket that is handed out, to any module, is the same.
pub get_module-cycle :
    (handle handler handle' handler' : ℕ) (socket_pool : List SocketInfo)
    → All (NotOf handle) socket_pool
    → (All InUse socket_pool × (get_module_socket handle handler socket_pool ≡ none))
      ⊎ ((before : List SocketInfo) × (s : SocketInfo) × (after : List SocketInfo) × (pool2 : List
            SocketInfo)
          × (pool3 : List SocketInfo) × (socket_pool ≡ before ++ s ∷ after)
          × All InUse before
          × (s.handler ≡ 0)
          × (get_module_socket handle handler socket_pool
              ≡ some (
                length before,
                before ++ record (fresh handler s) { module_handle = handle } ∷ after,
              ))
          × (delnetworkmodule handle
                (before ++ record (fresh handler s) { module_handle = handle } ∷ after)
              ≡ pool2)
          × (change_socket
                (λ x. some (free_socket x))
                (length before)
                (before ++ record (fresh handler s) { module_handle = handle } ∷ after)
              ≡ some pool2)
          × (get_module_socket handle' handler' pool2 ≡ some (length before, pool3)))
unfolding free_socket
get_module-cycle handle handler handle' handler' socket_pool m = elim (first-free socket_pool) [
  | inl h ↦ inl (h, get_module-full handle handler socket_pool h)
  | inr (before, s, after, w, h, z) ↦
      let (mb, (ms, ma)) =
        All-parts (NotOf handle) before (s ∷ after) (subst (All (NotOf handle)) w m) in
      let taken = record (fresh handler s) { module_handle = handle } in
      inr (
        before,
        s,
        after,
        before ++ free_socket taken ∷ after,
        before ++ record (fresh handler' (free_socket taken)) { module_handle = handle' } ∷ after,
        w,
        h,
        z,
        rw w (get_module-first handle handler before after s h z),
        delnetwork-one handle before after taken mb ma refl,
        change-at free_socket before after taken,
        get_module-first handle' handler' before after (free_socket taken) h refl,
      )
]
