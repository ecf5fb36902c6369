-- ===== src/Protocol/Refused.antt =====
-- A logic server whose login a connection server refused.
use mathlib.Core.List.{reverse}
use dserver_framework.LogicServer.Discovery.{unconnected, connects, try_compare_connect_lem}
use dserver_framework.Prelude.{
  ◌⊎◌, inl, inr, Bool-cases, refl, ap, ◌∙◌, is_some, ℕ, ◌^◌, ◌<◌, ◌≡◌, ◌≢◌, true, false, none, List,
  [], ◌∷◌, ◌++◌, arith, lookup, lookup-insert, lookup-erase, update, ◌==◌, if◌then◌else◌,
}
use dserver_framework.Wire.{PacketLib, PacketLaws}
use dserver_framework.Ops.{recv_csid}
use dserver_framework.ConnectionServer.Logic.{login_result_packet}
use dserver_framework.LogicServer.{Address, Host, new_connection}
use dserver_framework.LogicServer.Connection.{
  on_close, on_enter, on_msg, ping, is_already_connecting, try_compare_connect,
  add_connecting_server, erase_connecting_server, put_connection,
}
use dserver_framework.LogicServer.Mirror.{proc_data, new_mirror, add_mirror, del_mirror}

-- The address that a list has for a server, among those that are not connected.
lookup-unconnected :
    (id : ℕ) (servers : List (ℕ × Address)) (h : Host)
    → lookup id (unconnected servers h)
      ≡ (if is_already_connecting id h then none else lookup id servers)
unfolding unconnected
lookup-unconnected id [] h = ground arith
lookup-unconnected id ((id', a) ∷ servers) h =
    let rest = lookup-unconnected id servers h in
    elim (Bool-cases (id == id')) [
      | inl same ↦
          let same_id : id ≡ id' = ground (arith, same) in
          ground (arith, rest, same, ap (λ i. is_already_connecting i h) same_id)
      | inr other ↦ ground (arith, rest, other)
    ]

module _ (lib : PacketLib) where
  -- What else can happen to the process: any message on any connection, a connection that is made or
  -- enters, a comparison with any list of servers, and the close of a connection that is for another
  -- server or has not entered.
  pub data Elsewhere (id k : ℕ) : Host → Host → Type 0 where
    arrives : (j : ℕ) (message : List ℕ) (h : Host) → Elsewhere id k h (on_msg lib j message h)
    constructed :
        (j id' port : ℕ) (ip password : List ℕ) (h : Host)
        → j ≢ k
        → Elsewhere id k h (put_connection j (new_connection id' ip port password) h)
    enters : (j : ℕ) (h : Host) → Elsewhere id k h (on_enter lib j h)
    compares :
        (servers : List (ℕ × Address)) (h : Host) → Elsewhere id k h (try_compare_connect servers h)
    closes_other :
        (j : ℕ) (h : Host) → (h.connections j).id_in_etcd ≢ id → Elsewhere id k h (on_close j h)
    closes_outside :
        (j : ℕ) (h : Host) → (h.connections j).is_success ≡ false → Elsewhere id k h (on_close j h)

  pub data Later (id k : ℕ) : Host → Host → Type 0 where
    stays : (h : Host) → Later id k h h
    goes : (h u v : Host) → Later id k h u → Elsewhere id k u v → Later id k h v

module _ (lib : PacketLib) (max_body : ℕ) (laws : PacketLaws lib max_body) where
  refused_read :
      (k cs_id : ℕ) (reason : List ℕ) (h : Host)
      → cs_id < 2 ^ 32
      → on_msg lib k (login_result_packet lib cs_id false reason) h
        ≡ put_connection k (record (h.connections k) { connection_server_id = cs_id }) h
  unfolding on_msg
  refused_read k cs_id reason h hc =
      let rest = lib.write_bool false ++ lib.write_binary reason in
      ground (
        arith,
        laws.body_packet recv_csid (lib.write_int32 cs_id ++ rest),
        laws.op_packet recv_csid (lib.write_int32 cs_id ++ rest) (omega arith),
        laws.int32_back cs_id rest hc,
        laws.bool_back false (lib.write_binary reason),
      )

  -- The server counts as connected, and the connection is its one.
  abbrev Held : ℕ → ℕ → Host → Type 0
  Held id k h =
      (is_already_connecting id h ≡ true)
      × ((h.connections k).id_in_etcd ≡ id)
      × ((h.connections k).is_success ≡ true)

  -- What a message leaves as it is.
  abbrev Kept : ℕ → Host → Host → Type 0
  Kept k h v =
      (v.connecting ≡ h.connecting)
      × ((v.connections k).id_in_etcd ≡ (h.connections k).id_in_etcd)
      × ((v.connections k).is_success ≡ (h.connections k).is_success)

  Kept-on_msg : (j k : ℕ) (message : List ℕ) (h : Host) → Kept k h (on_msg lib j message h)
  unfolding on_msg proc_data update new_mirror add_mirror del_mirror
  Kept-on_msg j k message h = (ground arith, ground arith, ground arith)

  quiet-try_compare_connect :
      (servers : List (ℕ × Address)) (id k : ℕ) (h : Host)
      → Held id k h
      → Held id k (try_compare_connect servers h)
  quiet-try_compare_connect servers id k h held = rw (try_compare_connect_lem servers h) held

  Held-on_enter : (j id k : ℕ) (h : Host) → Held id k h → Held id k (on_enter lib j h)
  unfolding on_enter ping add_connecting_server update
  Held-on_enter j id k h held =
      let c = h.connections j in
      (
        ground (arith, held.0, lookup-insert c.id_in_etcd id (c.ip, c.port) h.connecting),
        ground (arith, held.1),
        ground (arith, held.2),
      )

  Held-on_close :
      (j id k : ℕ) (h : Host)
      → ((h.connections j).id_in_etcd ≢ id) ⊎ ((h.connections j).is_success ≡ false)
      → Held id k h
      → Held id k (on_close j h)
  unfolding on_close erase_connecting_server
  Held-on_close j id k h other held =
      let c = h.connections j in
      (
        ground (arith, held.0, other, lookup-erase c.id_in_etcd id h.connecting),
        ground (arith, held.1),
        ground (arith, held.2),
      )

  Held-Elsewhere : (id k : ℕ) (u v : Host) → Elsewhere lib id k u v → Held id k u → Held id k v
  unfolding update
  Held-Elsewhere id k u v (arrives j message _) held =
      let (table, named, entered) = Kept-on_msg j k message u in
      (ap (λ t. is_some (lookup id t)) table ∙ held.0, named ∙ held.1, entered ∙ held.2)
  Held-Elsewhere id k u v (constructed j id' port ip password _ other) held =
      (held.0, ground (arith, other, held.1), ground (arith, other, held.2))
  Held-Elsewhere id k u v (enters j _) held = Held-on_enter j id k u held
  Held-Elsewhere id k u v (compares servers _) held = quiet-try_compare_connect servers id k u held
  Held-Elsewhere id k u v (closes_other j _ other) held = Held-on_close j id k u (inl other) held
  Held-Elsewhere id k u v (closes_outside j _ outside) held =
      Held-on_close j id k u (inr outside) held

  Held-Later : (id k : ℕ) (h v : Host) → Later lib id k h v → Held id k h → Held id k v
  Held-Later id k h v (stays _) held = held
  Held-Later id k h v (goes _ u _ before step) held =
      Held-Elsewhere id k u v step (Held-Later id k h u before held)

  closed-missing :
      (id k : ℕ) (v : Host) → Held id k v → is_already_connecting id (on_close k v) ≡ false
  unfolding on_close erase_connecting_server
  closed-missing id k v held = rw (held.1, held.2) (ground (arith, lookup-erase id id v.connecting))

  -- A server that a connection entered, and whose login was refused, counts as connected, whatever
  -- messages come on any connection, other connections are made, connections enter, lists are compared,
  -- and connections to other servers or that have not entered close: a comparison with any list of
  -- servers starts nothing for it. Once the connection has closed, a comparison starts a connection to
  -- the server with the address of the list, if the list has it. A comparison does nothing else but
  -- start the servers of the list that are not connected. The server was not connected when the
  -- connection entered, the numbers fit their fields, and the bytes fit a packet.
  pub refused_not_retried :
      (k cs_id : ℕ) (reason : List ℕ) (h v : Host) (servers : List (ℕ × Address))
      → cs_id < 2 ^ 32
      → lookup (h.connections k).id_in_etcd h.connecting ≡ none
      → Later lib
          (h.connections k).id_in_etcd
          k
          (on_msg lib k (login_result_packet lib cs_id false reason) (on_enter lib k h))
          v
      → let id = (h.connections k).id_in_etcd in
        let closed = on_close k v in
        (lookup id (unconnected servers v) ≡ none)
        × (try_compare_connect servers v
            ≡ record v { events = reverse (connects (unconnected servers v)) ++ v.events })
        × (lookup id (unconnected servers closed) ≡ lookup id servers)
        × (try_compare_connect servers closed ≡ record closed {
          events = reverse (connects (unconnected servers closed)) ++ closed.events;
        })
  unfolding on_enter ping add_connecting_server update
  refused_not_retried k cs_id reason h v servers hc new later =
      let c = h.connections k in
      let id = c.id_in_etcd in
      let start : Held id k
          (on_msg lib k (login_result_packet lib cs_id false reason) (on_enter lib k h)) =
        rw (refused_read k cs_id reason (on_enter lib k h) hc) (
          ground (arith, new, lookup-insert id id (c.ip, c.port) h.connecting),
          ground (arith, new),
          ground (arith, new),
        ) in
      let held = Held-Later id k _ v later start in
      (
        lookup-unconnected id servers v ∙ rw held.0 refl,
        try_compare_connect_lem servers v,
        lookup-unconnected id servers (on_close k v) ∙ rw (closed-missing id k v held) refl,
        try_compare_connect_lem servers (on_close k v),
      )

  -- When the connection of a refused login closes, the table loses its entry for the connection
  -- server, whichever connection that entry was.
  -- The numbers fit their fields, and the bytes fit a packet.
  refused_close :
      (k cs_id j : ℕ) (reason : List ℕ) (h : Host)
      → cs_id < 2 ^ 32
      → lookup j
          (on_close k
            (on_msg lib k (login_result_packet lib cs_id false reason) h)).logic_connections
        ≡ (if cs_id == j then none else lookup j h.logic_connections)
  unfolding on_close erase_connecting_server update
  refused_close k cs_id j reason h hc =
      rw (refused_read k cs_id reason h hc)
        (ground (arith, lookup-erase cs_id j h.logic_connections))
