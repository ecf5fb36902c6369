-- ===== src/ConnectionServer/Registry.antt =====
-- The table of the clients by runtime id stays right, whatever the clients and the logic servers send
-- and in whatever order their handlers run.
use dserver_framework.Prelude.{
  ℕ, ◌-◌, ◌<◌, ◌^◌, ◌≡◌, refl, sym, ap, ◌∙◌, inl, inr, none, some, List, arith, ◌==◌, Bool-cases,
  lookup, lookup-insert, lookup-erase, IsMap, insert-IsMap, erase-IsMap, update, minus_one64,
}
use dserver_framework.Wire.{PacketLib}
use dserver_framework.ConnectionServer.{ClientSession, World}
use dserver_framework.ConnectionServer.Ids.{make_runtime_id, make_runtime_id-ne-minus_one}
use dserver_framework.ConnectionServer.Servers.{
  find_primary_logic_server, find_slave_logic_server, claim_primary_logic_server,
}
use dserver_framework.ConnectionServer.Clients.{add_client, erase_client}
use dserver_framework.ConnectionServer.Client.{
  put_client, set_primary, claim_primary_server, claim_if_none, refresh_slave, draw_runtime_id,
  announce, claim_runtime_id, prepare, forward, proc_packet, on_close, set_slave_server_id,
}

-- The table has one entry for an id, each id of it is the id of the client that it leads to, and -1
-- leads nowhere.
pub record IsRegistry (w : World) : Type 0 where
  pub ids : (r c : ℕ) → lookup r w.all_clients ≡ some c → (w.clients c).runtime_id ≡ r
  pub keys : IsMap w.all_clients
  pub real : lookup minus_one64 w.all_clients ≡ none

-- The table and the clients' ids are untouched.
pub record SameRegistry (w v : World) : Type 0 where
  pub table : v.all_clients ≡ w.all_clients
  pub ids : (c : ℕ) → (v.clients c).runtime_id ≡ (w.clients c).runtime_id

pub SameRegistry-refl : (w : World) → SameRegistry w w
SameRegistry-refl w = record { table = refl; ids = λ c. refl }

pub SameRegistry-trans : {u v w : World} → SameRegistry u v → SameRegistry v w → SameRegistry u w
SameRegistry-trans p q = record { table = q.table ∙ p.table; ids = λ c. q.ids c ∙ p.ids c }

pub SameRegistry-IsRegistry : {w v : World} → SameRegistry w v → IsRegistry w → IsRegistry v
SameRegistry-IsRegistry s h = record {
  ids = λ r c e. s.ids c ∙ h.ids r c (ap (lookup r) (sym s.table) ∙ e);
  keys = rw s.table h.keys;
  real = ap (lookup minus_one64) s.table ∙ h.real;
}

put_client-SameRegistry :
    (c : ℕ) (s : ClientSession) (w : World)
    → s.runtime_id ≡ (w.clients c).runtime_id
    → SameRegistry w (put_client c s w)
unfolding update
put_client-SameRegistry c s w e = record { table = refl; ids = λ d. ground arith }

set_primary-SameRegistry : (c id : ℕ) (w : World) → SameRegistry w (set_primary c id w)
unfolding set_primary find_primary_logic_server update
set_primary-SameRegistry c id w = record { table = ground arith; ids = λ d. ground arith }

claim_if_none-SameRegistry : (c rand : ℕ) (w : World) → SameRegistry w (claim_if_none c rand w)
unfolding claim_primary_server
claim_if_none-SameRegistry c rand w =
    let s = set_primary-SameRegistry c (claim_primary_logic_server rand w.primary_servers) w in
    record { table = ground (arith, s.table); ids = λ d. ground (arith, s.ids d) }

refresh_slave-SameRegistry : (c : ℕ) (w : World) → SameRegistry w (refresh_slave c w)
unfolding refresh_slave find_slave_logic_server update
refresh_slave-SameRegistry c w = record { table = ground arith; ids = λ d. ground arith }

announce-SameRegistry : (lib : PacketLib) (c : ℕ) (w : World) → SameRegistry w (announce lib c w)
unfolding announce find_primary_logic_server update
announce-SameRegistry lib c w = record { table = ground arith; ids = λ d. ground arith }

pub set_slave_server_id-SameRegistry :
    (c id : ℕ) (w : World) → SameRegistry w (set_slave_server_id c id w)
unfolding set_slave_server_id
set_slave_server_id-SameRegistry c id w = put_client-SameRegistry c _ w refl

-- A client without an id that draws one is registered under it.
draw_runtime_id-IsRegistry :
    (c now : ℕ) (w : World)
    → now < 2 ^ 32 - 1
    → (w.clients c).runtime_id ≡ minus_one64
    → IsRegistry w
    → IsRegistry (draw_runtime_id c now w)
unfolding draw_runtime_id add_client update
draw_runtime_id-IsRegistry c now w t fresh h =
    let id = make_runtime_id w.config_id w.inc_runtime_id now in
    record {
      ids = λ r d e. ground (arith, lookup-insert id r c w.all_clients, h.ids r d, h.real);
      keys = insert-IsMap id c w.all_clients h.keys;
      real = ground (
        arith,
        lookup-insert id minus_one64 c w.all_clients,
        make_runtime_id-ne-minus_one w.config_id w.inc_runtime_id now t,
        h.real,
      );
    }

claim_runtime_id-IsRegistry :
    (lib : PacketLib) (c now : ℕ) (w : World)
    → now < 2 ^ 32 - 1
    → IsRegistry w
    → IsRegistry (claim_runtime_id lib c now w)
unfolding claim_runtime_id
claim_runtime_id-IsRegistry lib c now w t h =
    elim (Bool-cases ((w.clients c).runtime_id == minus_one64)) [
      | inl fresh ↦ rw fresh (
          SameRegistry-IsRegistry (announce-SameRegistry lib c (draw_runtime_id c now w))
            (draw_runtime_id-IsRegistry c now w t (ground arith) h))
      | inr had ↦ rw had h
    ]

prepare-IsRegistry :
    (lib : PacketLib) (c now rand : ℕ) (w : World)
    → now < 2 ^ 32 - 1
    → IsRegistry w
    → IsRegistry (prepare lib c now rand w)
unfolding prepare
prepare-IsRegistry lib c now rand w t h =
    SameRegistry-IsRegistry
      (SameRegistry-trans (claim_if_none-SameRegistry c rand (claim_runtime_id lib c now w))
        (refresh_slave-SameRegistry c _))
      (claim_runtime_id-IsRegistry lib c now w t h)

forward-SameRegistry :
    (lib : PacketLib) (c : ℕ) (body : List ℕ) (w v : World)
    → forward lib c body w ≡ some v
    → SameRegistry w v
unfolding forward
forward-SameRegistry lib c body w v e = record { table = ground arith; ids = λ d. ground arith }

pub proc_packet-IsRegistry :
    (lib : PacketLib) (c now rand : ℕ) (body : List ℕ) (w v : World)
    → now < 2 ^ 32 - 1
    → proc_packet lib c now rand body w ≡ some v
    → IsRegistry w
    → IsRegistry v
unfolding proc_packet
proc_packet-IsRegistry lib c now rand body w v t e h =
    SameRegistry-IsRegistry (forward-SameRegistry lib c body (prepare lib c now rand w) v e)
      (prepare-IsRegistry lib c now rand w t h)

-- A client that closes takes its entry along.
pub on_close-IsRegistry :
    (lib : PacketLib) (c : ℕ) (w : World) → IsRegistry w → IsRegistry (on_close lib c w)
unfolding on_close erase_client update
on_close-IsRegistry lib c w h =
    let id = (w.clients c).runtime_id in
    record {
      ids = λ r d e. ground (arith, lookup-erase id r w.all_clients, h.ids r d, h.ids r c);
      keys = ground (arith, h.keys, erase-IsMap id w.all_clients h.keys);
      real = ground (arith, lookup-erase id minus_one64 w.all_clients, h.real);
    }
