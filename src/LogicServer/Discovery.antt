-- ===== src/LogicServer/Discovery.antt =====
-- LogicServer/LogicServer.cpp: the thread that asks etcd for the list of the connection servers. HTTP,
-- rapidjson and protobuf are parameters.
use mathlib.Core.List.{reverse, reverse-cons}
use dserver_framework.Prelude.{
  ℕ, ◌≡◌, ◌≢◌, refl, sym, ap, ◌∙◌, inl, inr, Bool-cases, Option, none, some, List, [], ◌∷◌, ◌++◌,
  append_assoc, arith, length, lookup, lookup-insert, Option-cases, insert, insert-IsMap, IsMap,
  ◌==◌, if◌then◌else◌,
}
use dserver_framework.LogicServer.{Address, Event, Host, starts_connect, raise}
use dserver_framework.LogicServer.Connection.{is_already_connecting, try_compare_connect}

-- ServerConfig::ConnectionServerConfig, the fields that are read
pub record ServerEntry : Type 0 where
  pub id : ℕ
  pub bind_ip : List ℕ
  pub port_for_logic_server : ℕ
  pub password : List ℕ

-- The body of etcdGet from the etcd server of a number; the values of the nodes of a document, none if
-- it has no "node" with "nodes"; JsonStringToMessage of a value, `none` if it is not ok.
pub record EtcdLib : Type 0 where
  pub etcd_get : ℕ → List ℕ
  pub nodes_of : List ℕ → List (List ℕ)
  pub parse_config : List ℕ → Option ServerEntry

abbrev pub Servers : Type 0
Servers = List (ℕ × Address)

module _ (lib : EtcdLib) where
  -- The loop over the nodes.
  unfoldable pub current_server : List (List ℕ) → Servers → Servers
  current_server [] servers = servers
  current_server (value ∷ nodes) servers = current_server nodes (elim (lib.parse_config value) [
    | none ↦ servers
    | some s ↦
        insert s.id
          (record { ip = s.bind_ip; port = s.port_for_logic_server; password = s.password }) servers
  ])

  -- One round of the thread: the loop over the etcd servers.
  unfoldable pub etcd_pull : List ℕ → Host → Host
  etcd_pull [] h = h
  etcd_pull (etcd ∷ etcds) h =
      let rest = etcd_pull etcds h in
      let body = lib.etcd_get etcd in
      if length body == 0
      then rest
      else try_compare_connect (current_server (lib.nodes_of body) []) h

-- The servers of a list that are not connected.
unfoldable pub unconnected : Servers → Host → Servers
unconnected [] h = []
unconnected ((id, a) ∷ servers) h =
    let more = unconnected servers h in if is_already_connecting id h then more else (id, a) ∷ more

abbrev pub connects : Servers → List Event
connects [] = []
connects ((id, a) ∷ servers) = starts_connect id a ∷ connects servers

unconnected-raise :
    (servers : Servers) (h : Host) (es : List Event)
    → unconnected servers (record h { events = es }) ≡ unconnected servers h
unfolding unconnected
unconnected-raise [] h es = refl
unconnected-raise ((id, a) ∷ servers) h es = rw (unconnected-raise servers h es) refl

-- A list of servers starts a connection to each of its servers that is not connected, once and in the
-- order of the list, and changes nothing else.
pub try_compare_connect_lem :
    (servers : Servers) (h : Host)
    → try_compare_connect servers h
      ≡ record h { events = reverse (connects (unconnected servers h)) ++ h.events }
unfolding try_compare_connect unconnected
try_compare_connect_lem [] h = refl
try_compare_connect_lem ((id, a) ∷ servers) h = elim (Bool-cases (is_already_connecting id h)) [
  | inl there ↦ rw there (try_compare_connect_lem servers h)
  | inr missing ↦
      let more = connects (unconnected servers h) in
      rw missing (
        try_compare_connect_lem servers (raise h (starts_connect id a))
        ∙ ap (λ s. record h { events = reverse (connects s) ++ (starts_connect id a ∷ h.events) })
            (unconnected-raise servers h (starts_connect id a ∷ h.events))
        ∙ ap (λ l. record h { events = l })
            (sym (append_assoc (reverse more) (starts_connect id a ∷ []) h.events)
              ∙ ap (λ l. l ++ h.events) (sym (reverse-cons (starts_connect id a) more))))
]

address_of : ServerEntry → Address
address_of s = record { ip = s.bind_ip; port = s.port_for_logic_server; password = s.password }

-- The address of the last node that names a server, if one does.
unfoldable pub last_named : EtcdLib → ℕ → List (List ℕ) → Option Address → Option Address
unfolding address_of
last_named lib id [] found = found
last_named lib id (value ∷ nodes) found = last_named lib id nodes (elim (lib.parse_config value) [
  | none ↦ found
  | some s ↦ if s.id == id then some (address_of s) else found
])

added : EtcdLib → List ℕ → Servers → Servers
unfolding address_of
added lib value servers = elim (lib.parse_config value) [
  | none ↦ servers
  | some s ↦ insert s.id (address_of s) servers
]

added-IsMap :
    (lib : EtcdLib) (value : List ℕ) (servers : Servers)
    → IsMap servers
    → IsMap (added lib value servers)
unfolding added
added-IsMap lib value servers h = elim (Option-cases (lib.parse_config value)) [
  | inl e ↦ rw (e, added) h
  | inr (s, e) ↦ rw (e, added) (insert-IsMap s.id (address_of s) servers h)
]

lookup-added :
    (lib : EtcdLib) (id : ℕ) (value : List ℕ) (servers : Servers)
    → lookup id (added lib value servers) ≡ last_named lib id (value ∷ []) (lookup id servers)
unfolding added last_named
lookup-added lib id value servers = elim (Option-cases (lib.parse_config value)) [
  | inl e ↦ rw (e, added, last_named) refl
  | inr (s, e) ↦ rw (e, added, last_named) (lookup-insert s.id id (address_of s) servers)
]

current_server-IsMap :
    (lib : EtcdLib) (nodes : List (List ℕ)) (servers : Servers)
    → IsMap servers
    → IsMap (current_server lib nodes servers)
unfolding current_server added address_of
current_server-IsMap lib [] servers h = h
current_server-IsMap lib (value ∷ nodes) servers h =
    current_server-IsMap lib nodes (added lib value servers) (added-IsMap lib value servers h)

lookup-current_server :
    (lib : EtcdLib) (id : ℕ) (nodes : List (List ℕ)) (servers : Servers)
    → lookup id (current_server lib nodes servers) ≡ last_named lib id nodes (lookup id servers)
unfolding current_server last_named added address_of
lookup-current_server lib id [] servers = refl
lookup-current_server lib id (value ∷ nodes) servers =
    lookup-current_server lib id nodes (added lib value servers)
    ∙ ap (last_named lib id nodes) (lookup-added lib id value servers)

-- None of the etcd servers answers with a body.
abbrev pub IsSilent : EtcdLib → List ℕ → Type 0
IsSilent lib [] = Unit
IsSilent lib (etcd ∷ etcds) = (length (lib.etcd_get etcd) ≡ 0) × IsSilent lib etcds

pull_first :
    (lib : EtcdLib) (silent : List ℕ) (etcd : ℕ) (etcds : List ℕ) (h : Host)
    → IsSilent lib silent
    → length (lib.etcd_get etcd) ≢ 0
    → etcd_pull lib (silent ++ (etcd ∷ etcds)) h
      ≡ try_compare_connect (current_server lib (lib.nodes_of (lib.etcd_get etcd)) []) h
unfolding etcd_pull
pull_first lib [] etcd etcds h s answers = ground arith
pull_first lib (e ∷ silent) etcd etcds h s answers =
    ground (arith, pull_first lib silent etcd etcds h s.1 answers)

-- The first etcd server that answers with a body decides: its nodes give each connection server one
-- address, that of the last node that names it, and a connection is started to each of them that is
-- not connected, once, and nothing else changes. The etcd servers behind it are not asked.
pub etcd_pull_lem :
    (lib : EtcdLib) (silent : List ℕ) (etcd : ℕ) (etcds : List ℕ) (h : Host)
    → IsSilent lib silent
    → length (lib.etcd_get etcd) ≢ 0
    → let nodes = lib.nodes_of (lib.etcd_get etcd) in
      let servers = current_server lib nodes [] in
      (etcd_pull lib (silent ++ (etcd ∷ etcds)) h
        ≡ record h { events = reverse (connects (unconnected servers h)) ++ h.events })
      × IsMap servers
      × ((id : ℕ) → lookup id servers ≡ last_named lib id nodes none)
etcd_pull_lem lib silent etcd etcds h s answers =
    let nodes = lib.nodes_of (lib.etcd_get etcd) in
    (
      pull_first lib silent etcd etcds h s answers
          ∙ try_compare_connect_lem (current_server lib nodes []) h,
      current_server-IsMap lib nodes [] tt,
      λ id. lookup-current_server lib id nodes [],
    )
