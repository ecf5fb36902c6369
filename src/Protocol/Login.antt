-- ===== src/Protocol/Login.antt =====
-- A logic server logs in to a connection server.
use dserver_framework.Prelude.{
  ℕ, ◌^◌, ◌<◌, ◌≤◌, ◌≡◌, ◌≢◌, refl, inl, inr, Bool, true, false, not, ◌&&◌, Bool-cases, Option,
  none, some, List, [], ◌∷◌, ◌++◌, arith, length, bytes_eq, bytes_eq→eq, bytes_eq_refl, ◌==◌,
  if◌then◌else◌, lookup, lookup-insert, subscript, update, minus_one32,
}
use dserver_framework.Wire.{PacketLib, PacketLaws}
use dserver_framework.Wire.Reading.{bool_last}
use dserver_framework.Ops.{logic_server_login, recv_csid}
use dserver_framework.ConnectionServer.{World, to_server, emit}
use dserver_framework.ConnectionServer.Servers.{
  find_primary_logic_server, add_primary_logic_server, find_slave_logic_server,
  add_slave_logic_server,
}
use dserver_framework.ConnectionServer.Kick.{lookup-on_close}
use dserver_framework.ConnectionServer.Logic
use dserver_framework.ConnectionServer.Logic.{put_server, login_result_packet}
use dserver_framework.LogicServer.{Host}
use dserver_framework.LogicServer.Connection
use dserver_framework.LogicServer.Connection.{login_packet, put_connection}
use dserver_framework.Protocol.{deliver}

-- The state after a login with the right password.
abbrev pub logged_in : PacketLib → ℕ → ℕ → Bool → List ℕ → World → World
logged_in lib p id is_primary taken w =
    Logic.log_in lib p id is_primary taken (Logic.register p id is_primary w)

-- The table that a login looks into.
abbrev pub table_of : Bool → World → List (ℕ × Option ℕ)
table_of is_primary w = if is_primary then w.primary_servers else w.slave_servers

module _ (lib : PacketLib) (max_body : ℕ) (laws : PacketLaws lib max_body) where
  login_read :
      (p : ℕ) (taken wrong password : List ℕ) (id : ℕ) (is_primary : Bool) (w : World)
      → length password ≤ max_body
      → id < 2 ^ 32
      → deliver lib p taken wrong (login_packet lib password id is_primary) w
        ≡ some (
            if bytes_eq password w.password
            then logged_in lib p id is_primary taken w
            else Logic.send_login_result lib p false wrong w)
  unfolding Logic.proc_packet Logic.on_logic_server_login
  login_read p taken wrong password id is_primary w hp hi = rw (
    laws.body_packet logic_server_login
        (lib.write_binary password ++ (lib.write_int32 id ++ lib.write_bool is_primary)),
    laws.op_packet logic_server_login
        (lib.write_binary password ++ (lib.write_int32 id ++ lib.write_bool is_primary))
        (omega arith),
    laws.string_back password (lib.write_int32 id ++ lib.write_bool is_primary) hp,
    laws.int32_back id (lib.write_bool is_primary) hi,
    bool_last lib max_body laws is_primary,
  )

  -- A login with the right password under an id that no session has is answered with success, enters
  -- the session under the id into the table that it asked for and no other, and sets its members.
  -- The numbers fit their fields, and the bytes fit a packet.
  pub login_accepted :
      (p : ℕ) (taken wrong password : List ℕ) (id : ℕ) (is_primary : Bool) (w : World)
      → length password ≤ max_body
      → id < 2 ^ 32
      → password ≡ w.password
      → (subscript id (table_of is_primary w)).0 ≡ none
      → let v = logged_in lib p id is_primary taken w in
        (deliver lib p taken wrong (login_packet lib password id is_primary) w ≡ some v)
        × (lookup id (table_of is_primary v) ≡ some (some p))
        × (table_of (not is_primary) v ≡ table_of (not is_primary) w)
        × (v.servers p ≡ record { is_primary = is_primary; id = id })
        × (v.effects ≡ to_server p (login_result_packet lib w.config_id true []) ∷ w.effects)
  unfolding Logic.log_in Logic.register find_primary_logic_server find_slave_logic_server
      add_primary_logic_server add_slave_logic_server update
  login_accepted p taken wrong password id true w hp hi right free = (
    rw (login_read p taken wrong password id true w hp hi, right, bytes_eq_refl w.password),
    ground (arith, lookup-insert id id (some p) (subscript id w.primary_servers).1),
    ground arith,
    ground arith,
    ground arith,
  )
  login_accepted p taken wrong password id false w hp hi right free =
      let alone : (subscript id w.slave_servers).0 ≡ none = free in
      (
        rw (login_read p taken wrong password id false w hp hi, right, bytes_eq_refl w.password),
        ground (arith, alone, lookup-insert id id (some p) (subscript id w.slave_servers).1),
        ground (arith, alone),
        ground (arith, alone),
        ground (arith, alone),
      )

  -- Under an id that another session has, a login is answered with a refusal; the session that has the
  -- id keeps it, and no session's members change.
  -- The numbers fit their fields, and the bytes fit a packet.
  login_taken :
      (p q : ℕ) (taken wrong password : List ℕ) (id : ℕ) (is_primary : Bool) (w : World)
      → length password ≤ max_body
      → id < 2 ^ 32
      → password ≡ w.password
      → lookup id (table_of is_primary w) ≡ some (some q)
      → deliver lib p taken wrong (login_packet lib password id is_primary) w
        ≡ some (emit w (to_server p (login_result_packet lib w.config_id false taken)))
  unfolding Logic.log_in Logic.register find_primary_logic_server find_slave_logic_server subscript
  login_taken p q taken wrong password id true w hp hi right held =
      rw (login_read p taken wrong password id true w hp hi, right, bytes_eq_refl w.password)
        (ground arith)
  login_taken p q taken wrong password id false w hp hi right held =
      let known : lookup id w.slave_servers ≡ some (some q) = held in
      rw (login_read p taken wrong password id false w hp hi, right, bytes_eq_refl w.password)
        (rw (known, Logic.register, find_slave_logic_server, subscript) refl)

  -- With a wrong password a login is answered with a refusal and changes nothing, whatever its id.
  -- The numbers fit their fields, and the bytes fit a packet.
  login_wrong_password :
      (p : ℕ) (taken wrong password : List ℕ) (id : ℕ) (is_primary : Bool) (w : World)
      → length password ≤ max_body
      → id < 2 ^ 32
      → password ≢ w.password
      → deliver lib p taken wrong (login_packet lib password id is_primary) w
        ≡ some (emit w (to_server p (login_result_packet lib w.config_id false wrong)))
  login_wrong_password p taken wrong password id is_primary w hp hi differs =
      elim (Bool-cases (bytes_eq password w.password)) [
        | inl e ↦ absurd (differs (bytes_eq→eq password w.password e))
        | inr e ↦
            rw (login_read p taken wrong password id is_primary w hp hi, e)
              (unfold Logic.send_login_result in refl)
      ]

  -- A session in the table of the primary servers that logs in a second time as a primary, under
  -- another id that no session has and that is not -1, leaves its first entry behind when it closes.
  second_login_leaks :
      (p : ℕ) (taken : List ℕ) (id id' : ℕ) (w : World)
      → lookup id w.primary_servers ≡ some (some p)
      → id ≢ id'
      → id' ≢ minus_one32
      → (subscript id' w.primary_servers).0 ≡ none
      → lookup id (Logic.on_close p (logged_in lib p id' true taken w)).primary_servers
        ≡ some (some p)
  unfolding Logic.log_in Logic.register find_primary_logic_server add_primary_logic_server subscript
      update
  second_login_leaks p taken id id' w held differs real free = ground (
    arith,
    lookup-on_close p id (logged_in lib p id' true taken w),
    lookup-insert id' id (some p) (subscript id' w.primary_servers).1,
    lookup-insert id' id none w.primary_servers,
  )

  -- The answer that a connection server writes, at the logic server: a success makes the connection
  -- the one to the connection server of that id, and a refusal makes it none's.
  -- The numbers fit their fields, and the bytes fit a packet.
  pub login_answered :
      (k cs_id j : ℕ) (success : Bool) (reason : List ℕ) (h : Host)
      → cs_id < 2 ^ 32
      → let v = Connection.on_msg lib k (login_result_packet lib cs_id success reason) h in
        (lookup j v.logic_connections
          ≡ (if success && cs_id == j then some (some k) else lookup j h.logic_connections))
        × ((v.connections k).connection_server_id ≡ cs_id)
        × (v.events ≡ h.events)
  unfolding Connection.on_msg update
  login_answered k cs_id j success reason h hi =
      let body = lib.write_int32 cs_id ++ (lib.write_bool success ++ lib.write_binary reason) in
      rw
        (
          laws.body_packet recv_csid body,
          laws.op_packet recv_csid body (omega arith),
          laws.int32_back cs_id (lib.write_bool success ++ lib.write_binary reason) hi,
          laws.bool_back success (lib.write_binary reason),
        )
        (
          ground (arith, lookup-insert cs_id j (some k) h.logic_connections),
          ground arith,
          ground arith,
        )
