-- ===== src/Examples/Discovery.antt =====
-- Asking etcd for the connection servers, at concrete inputs.
use mathlib.Core.List.{reverse}
use dserver_framework.Prelude.{
  ℕ, ◌≡◌, refl, true, Option, none, some, List, [], ◌∷◌, ◌++◌, arith, lookup, IsMap, insert,
  if◌then◌else◌, ◌==◌,
}
use dserver_framework.LogicServer.{Address, Host, new_connection}
use dserver_framework.LogicServer.Discovery.{
  ServerEntry, EtcdLib, current_server, etcd_pull, unconnected, connects, last_named, etcd_pull_lem,
}

-- A node is the ids of a server and of its port.
abbrev parse : List ℕ → Option ServerEntry
parse (id ∷ port ∷ []) =
    some (record { id = id; bind_ip = 1 ∷ []; port_for_logic_server = port; password = [] })
parse _ = none

-- The etcd server 1 has no answer, and the etcd server 2 has four nodes.
abbrev etcd : EtcdLib
etcd = record {
  etcd_get = λ e. if e == 1 then [] else 7 ∷ [];
  nodes_of = λ body. (4 ∷ 80 ∷ []) ∷ (5 ∷ 81 ∷ []) ∷ (0 ∷ []) ∷ (5 ∷ 82 ∷ []) ∷ [];
  parse_config = parse;
}

-- The server 4 is connected.
abbrev host : Host
host = record {
  config_id = 2;
  config_is_primary = true;
  center_password = [];
  connections = λ k. new_connection 4 (1 ∷ []) 80 [];
  alive = λ k. true;
  logic_connections = [];
  connecting = (4, (1 ∷ [], 80)) ∷ [];
  mirrors = [];
  user_handlers = [];
  enter_handle = none;
  disconnect_handle = none;
  center_client = none;
  self_id = λ k. 0;
  center_handlers = [];
  events = [];
}

abbrev new_address : Address
new_address = record { ip = 1 ∷ []; port = 82; password = [] }

etcd_pull_lem_example :
    let nodes = etcd.nodes_of (7 ∷ []) in
    let servers = current_server etcd nodes [] in
    (etcd_pull etcd (1 ∷ 2 ∷ 3 ∷ []) host
      ≡ record host { events = reverse (connects ((5, new_address) ∷ [])) ++ [] })
    × IsMap servers
    × ((id : ℕ) → lookup id servers ≡ last_named etcd id nodes none)
unfolding current_server unconnected insert
etcd_pull_lem_example = etcd_pull_lem etcd (1 ∷ []) 2 (3 ∷ []) host (refl, tt) (λ e. omega arith)
