-- ===== src/Protocol/Center.antt =====
-- The center server and the logic servers.
use dserver_framework.Prelude.{
  ℕ, ◌+◌, ◌^◌, ◌<◌, ◌≤◌, ◌≡◌, ◌≢◌, ◌⊎◌, inl, inr, ◌∙◌, true, false, Bool-cases, none, some, List,
  ◌∷◌, ◌++◌, arith, length, bytes_eq, bytes_eq_refl, bytes_eq→eq, lookup, lookup-insert, is_some,
  update, ◌==◌, if◌then◌else◌, minus_one32,
}
use dserver_framework.Wire.{PacketLib, PacketLaws}
use dserver_framework.Wire.Reading.{int32_last, int64_last, binary_last}
use dserver_framework.Ops.{
  center_login, logic_server_self_id, packet2client_mirror, center_send_user, center_recv_user,
}
use dserver_framework.CenterServer.{Center, to_logic, emit}
use dserver_framework.CenterServer
use dserver_framework.CenterServer.Session.{insert_logic_server, self_id_packet, to_mirror_packet}
use dserver_framework.CenterServer.Session
use dserver_framework.LogicServer.{Host, center_message, raise}
use dserver_framework.LogicServer.Mirror.{send_packet}
use dserver_framework.LogicServer.Center.{center_login_packet}
use dserver_framework.LogicServer.Center

module _ (lib : PacketLib) (max_body : ℕ) (laws : PacketLaws lib max_body) where
  center_login_read :
      (p id : ℕ) (password : List ℕ) (c : Center)
      → length password ≤ max_body
      → id < 2 ^ 32
      → Session.on_msg lib p (center_login_packet lib password id) c ≡ (
          if c.session_id p == minus_one32
          then if bytes_eq password c.password
            then if is_some (lookup id c.all_logic_server)
              then c
              else insert_logic_server p id (
                  emit
                    (record c { session_id = update c.session_id p id })
                    (to_logic p (self_id_packet lib id)))
            else c
          else c)
  unfolding Session.on_msg Session.on_logic_server_login
  center_login_read p id password c hp hi =
      let body = lib.write_binary password ++ lib.write_int32 id in
      rw (
        laws.body_packet center_login body,
        laws.op_packet center_login body (omega arith),
        laws.string_back password (lib.write_int32 id) hp,
        int32_last lib max_body laws id hi,
      )

  -- A session that has no id, and logs in with the right password as an id that no session has, gets
  -- the id and its place in the table, and is answered; the answer tells the logic server the id.
  -- The numbers fit their fields, and the bytes fit a packet.
  pub center_login_accepted :
      (p id k : ℕ) (password : List ℕ) (c : Center) (h : Host)
      → length password ≤ max_body
      → id < 2 ^ 32
      → c.session_id p ≡ minus_one32
      → password ≡ c.password
      → lookup id c.all_logic_server ≡ none
      → let v = Session.on_msg lib p (center_login_packet lib password id) c in
        (v.session_id p ≡ id)
        × (lookup id v.all_logic_server ≡ some p)
        × (v.effects ≡ to_logic p (self_id_packet lib id) ∷ c.effects)
        × ((Center.on_msg lib k (self_id_packet lib id) h).self_id k ≡ id)
  unfolding insert_logic_server update Center.on_msg
  center_login_accepted p id k password c h hp hi out right free =
      rw (center_login_read p id password c hp hi, out, right, bytes_eq_refl c.password, free)
        (
          ground arith,
          ground (arith, lookup-insert id id p c.all_logic_server),
          ground arith,
          rw
              (
                laws.body_packet logic_server_self_id (lib.write_int32 id),
                laws.op_packet logic_server_self_id (lib.write_int32 id) (omega arith),
                int32_last lib max_body laws id hi,
              )
              (ground arith),
        )

  -- A login of a session that has an id, with a wrong password, or as an id that a session has, changes
  -- nothing and is not answered.
  -- The numbers fit their fields, and the bytes fit a packet.
  center_login_refused :
      (p id : ℕ) (password : List ℕ) (c : Center)
      → length password ≤ max_body
      → id < 2 ^ 32
      → (c.session_id p ≢ minus_one32)
        ⊎ ((password ≢ c.password) ⊎ (is_some (lookup id c.all_logic_server) ≡ true))
      → Session.on_msg lib p (center_login_packet lib password id) c ≡ c
  center_login_refused p id password c hp hi why =
      center_login_read p id password c hp hi ∙ (elim why [
        | inl has ↦ ground arith
        | inr (inl differs) ↦ ground (arith, wrong password c.password differs)
        | inr (inr held) ↦ ground arith
      ])
    where
      wrong : (a b : List ℕ) → a ≢ b → bytes_eq a b ≡ false
      wrong a b differs = elim (Bool-cases (bytes_eq a b)) [
        | inl e ↦ absurd (differs (bytes_eq→eq a b e))
        | inr e ↦ e
      ]

  -- A session without an id that logs in with the right password as -1, which no session has, stays in
  -- the table after it has closed. The numbers fit their fields, and the bytes fit a packet.
  minus_one_leaks :
      (p : ℕ) (password : List ℕ) (c : Center)
      → length password ≤ max_body
      → c.session_id p ≡ minus_one32
      → password ≡ c.password
      → lookup minus_one32 c.all_logic_server ≡ none
      → lookup minus_one32
          (Session.on_close p (
            Session.on_msg lib p (center_login_packet lib password minus_one32) c)).all_logic_server
        ≡ some p
  unfolding Session.on_close insert_logic_server update
  minus_one_leaks p password c hp out right free =
      rw
        (
          center_login_read p minus_one32 password c hp (omega arith),
          out,
          right,
          bytes_eq_refl c.password,
          free,
        )
        (ground (arith, lookup-insert minus_one32 minus_one32 p c.all_logic_server))

  -- What the center server sends for a client, the logic server sends through the client's mirror as it
  -- is, or drops if it has no mirror of the client.
  -- The numbers fit their fields, and the bytes fit a packet.
  center_to_client :
      (k id : ℕ) (packet : List ℕ) (h : Host)
      → length packet ≤ max_body
      → id < 2 ^ 64
      → Center.on_msg lib k (to_mirror_packet lib id packet) h
        ≡ (elim (lookup id h.mirrors) [ none ↦ h | some m ↦ send_packet lib m packet h ])
  unfolding Center.on_msg Center.on_center_server_send_packet2client Center.to_mirrors_loop
      Center.send_to_mirror
  center_to_client k id packet h hp hi =
      let body = lib.write_binary packet ++ (lib.write_int16 1 ++ lib.write_int64 id) in
      ground (
        arith,
        laws.body_packet packet2client_mirror body,
        laws.op_packet packet2client_mirror body (omega arith),
        laws.binary_back packet (lib.write_int16 1 ++ lib.write_int64 id) hp,
        laws.int16_back 1 (lib.write_int64 id) (omega arith),
        int64_last lib max_body laws id hi,
      )

  -- A whole packet that an application sends inside a user packet runs the handler that the other side
  -- registered for its op, on its body, in either direction.
  -- The numbers fit their fields, and the bytes fit a packet.
  pub center_user_message :
      (p k op handle : ℕ) (body : List ℕ) (c : Center) (h : Host)
      → op < 2 ^ 16
      → lib.head_len + length body ≤ max_body
      → lookup op h.center_handlers ≡ some handle
      → lookup op c.user_handles ≡ some handle
      → let sub = lib.make_packet op body in
        (Center.on_msg lib k (lib.make_packet center_send_user (lib.write_binary sub)) h
          ≡ raise h (center_message handle k body))
        × (Session.on_msg lib p (lib.make_packet center_recv_user (lib.write_binary sub)) c
            ≡ emit c (CenterServer.user_message handle p body))
  unfolding Center.on_msg Center.on_user_msg Center.call_handler Session.on_msg Session.on_user_msg
      Session.call_handle
  center_user_message p k op handle body c h ho hb there here =
      let sub = lib.make_packet op body in
      let fits : length sub ≤ max_body = omega (arith, laws.length_packet op body) in
      let b = binary_last lib max_body laws sub fits in
      let o = laws.op_packet op body ho in
      let r = laws.body_packet op body in
      let n = laws.len_packet op body ho (omega arith) in
      (
        ground (
          arith,
          laws.body_packet center_send_user (lib.write_binary sub),
          laws.op_packet center_send_user (lib.write_binary sub) (omega arith),
          b,
          o,
          r,
          n,
          laws.length_packet op body,
        ),
        ground (
          arith,
          laws.body_packet center_recv_user (lib.write_binary sub),
          laws.op_packet center_recv_user (lib.write_binary sub) (omega arith),
          b,
          o,
          r,
        ),
      )
