-- ===== src/ConnectionServer/Kick.antt =====
-- Whom kicking the clients of a primary server disconnects.
use mathlib.Core.List.{reverse, reverse-cons}
use dserver_framework.Prelude.{
  ℕ, ◌≡◌, refl, sym, ap, ◌∙◌, not, ◌&&◌, none, some, List, [], ◌∷◌, ◌++◌, map, append_assoc, arith,
  ◌==◌, if◌then◌else◌, inl, inr, Bool-cases, ◌≢◌, true, lookup, lookup-erase, minus_one32, Found,
  IsMap-Found, minus_one64,
}
use dserver_framework.ConnectionServer.{ClientSession, World, disconnect, emit}
use dserver_framework.ConnectionServer.Clients.{kick_client, kick_loop, kick_client_of_primary}
use dserver_framework.ConnectionServer.Servers.{remove_primary_logic_server}
use dserver_framework.ConnectionServer.Logic
use dserver_framework.ConnectionServer.Registry.{IsRegistry}

-- The sockets of the clients of a table whose primary server has the id, in the table's order.
unfoldable pub sockets_of : ℕ → (ℕ → ClientSession) → List (ℕ × ℕ) → List ℕ
sockets_of id clients [] = []
sockets_of id clients ((k, c) ∷ rest) =
    let more = sockets_of id clients rest in
    if (clients c).primary_server_id == id && not ((clients c).socket_id == minus_one64)
    then (clients c).socket_id ∷ more
    else more

abbrev pub with_disconnects : List ℕ → World → World
with_disconnects sockets w = record w { effects = reverse (map disconnect sockets) ++ w.effects }

kick_found :
    (k c : ℕ) (w : World)
    → IsRegistry w
    → lookup k w.all_clients ≡ some c
    → kick_client (w.clients c).runtime_id w ≡ (
        if (w.clients c).socket_id == minus_one64
        then w
        else emit w (disconnect (w.clients c).socket_id))
unfolding kick_client
kick_found k c w h e = ground (arith, h.ids k c e)

emit-disconnects :
    (s : ℕ) (sockets : List ℕ) (w : World)
    → with_disconnects sockets (emit w (disconnect s)) ≡ with_disconnects (s ∷ sockets) w
emit-disconnects s sockets w =
    ap (λ l. record w { effects = l })
      (sym (append_assoc (reverse (map disconnect sockets)) (disconnect s ∷ []) w.effects)
        ∙ ap (λ l. l ++ w.effects) (sym (reverse-cons (disconnect s) (map disconnect sockets))))

kick_loop_lem :
    (id : ℕ) (rest : List (ℕ × ℕ)) (w : World)
    → IsRegistry w
    → Found w.all_clients rest
    → kick_loop id rest w ≡ with_disconnects (sockets_of id w.clients rest) w
unfolding kick_loop sockets_of
kick_loop_lem id [] w h f = refl
kick_loop_lem id ((k, c) ∷ rest) w h f =
    let socket = (w.clients c).socket_id in
    elim (Bool-cases ((w.clients c).primary_server_id == id)) [
      | inr miss ↦ rw miss (kick_loop_lem id rest w h f.1)
      | inl hit ↦ elim (Bool-cases (socket == minus_one64)) [
        | inl off ↦ rw (hit, kick_found k c w h f.0, off) (kick_loop_lem id rest w h f.1)
        | inr on ↦
            rw (hit, kick_found k c w h f.0, on)
              (kick_loop_lem id rest (emit w (disconnect socket))
                  (record { ids = h.ids; keys = h.keys; real = h.real }) f.1
                ∙ emit-disconnects socket (sockets_of id w.clients rest) w)
      ]
    ]

-- Where the table of the clients is right: when a primary server goes, exactly the sockets of the
-- registered clients whose primary server it is are disconnected, each once, in the order of the
-- table, and nothing else changes.
pub kick_client_of_primary_lem :
    (id : ℕ) (w : World)
    → IsRegistry w
    → kick_client_of_primary id w ≡ with_disconnects (sockets_of id w.clients w.all_clients) w
unfolding kick_client_of_primary
kick_client_of_primary_lem id w h =
    kick_loop_lem id w.all_clients w h (IsMap-Found w.all_clients h.keys)

primary_servers-kick_loop :
    (id : ℕ) (rest : List (ℕ × ℕ)) (w : World)
    → (kick_loop id rest w).primary_servers ≡ w.primary_servers
unfolding kick_loop kick_client
primary_servers-kick_loop id [] w = refl
primary_servers-kick_loop id ((k, c) ∷ rest) w =
    let w' =
      if (w.clients c).primary_server_id == id then kick_client (w.clients c).runtime_id w else w in
    primary_servers-kick_loop id rest w' ∙ ground arith

-- A primary server that closes leaves the table under the id of its last login, and there alone.
pub lookup-on_close :
    (p j : ℕ) (w : World)
    → (w.servers p).id ≢ minus_one32
    → (w.servers p).is_primary ≡ true
    → lookup j (Logic.on_close p w).primary_servers
      ≡ (if (w.servers p).id == j then none else lookup j w.primary_servers)
unfolding Logic.on_close remove_primary_logic_server kick_client_of_primary
lookup-on_close p j w real primary =
    let id = (w.servers p).id in
    ground (
      arith,
      primary_servers-kick_loop id w.all_clients w,
      lookup-erase id j (kick_loop id w.all_clients w).primary_servers,
    )
