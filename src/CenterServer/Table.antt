-- ===== src/CenterServer/Table.antt =====
-- The center server's table of logic servers: whatever the sessions send, in whatever order, it agrees
-- with the ids of the sessions.
use dserver_framework.Prelude.{
  ℕ, ◌≡◌, ◌≢◌, ◌↔◌, sym, none, some, List, [], arith, lookup, lookup-insert, lookup-erase, update,
  minus_one32, drop,
}
use dserver_framework.Wire.{PacketLib}
use dserver_framework.CenterServer.{Center}
use dserver_framework.CenterServer.Session.{
  register_user_handle, remove_logic_server, insert_logic_server, on_close, send_user_packet,
  on_ping, on_logic_server_rpc, on_logic_server_login, send_packet2client, on_user_msg, on_msg,
  call_handle,
}

-- A session made at the address `p`: CenterServerSession::CenterServerSession
abbrev pub construct : ℕ → Center → Center
construct p c = record c { session_id = update c.session_id p minus_one32 }

-- The center server with no session and no handler.
abbrev pub start : List ℕ → Center
start password = record {
  password = password;
  session_id = λ p. minus_one32;
  all_logic_server = [];
  user_handles = [];
  rpc_fromer = none;
  effects = [];
}

-- What the center server does: a message of a session, the end of a session, whose address is used
-- again, and what an application does.
pub data Step (lib : PacketLib) : Center → Center → Type 0 where
  step_msg : (p : ℕ) (message : List ℕ) (c : Center) → Step lib c (on_msg lib p message c)
  step_close : (p : ℕ) (c : Center) → Step lib c (construct p (on_close p c))
  step_register : (op handle : ℕ) (c : Center) → Step lib c (register_user_handle op handle c)
  step_user : (p : ℕ) (sub : List ℕ) (c : Center) → Step lib c (send_user_packet lib p sub c)
  step_client :
      (p id : ℕ) (packet : List ℕ) (c : Center) → Step lib c (send_packet2client lib p id packet c)

pub data Reach (lib : PacketLib) (password : List ℕ) : Center → Type 0 where
  starts : Reach lib password (start password)
  steps : (c c' : Center) → Reach lib password c → Step lib c c' → Reach lib password c'

-- The table has a session under an id exactly if the id is the session's.
abbrev pub IsTable : Center → Type 0
IsTable c =
    (id p : ℕ) → id ≢ minus_one32 → (lookup id c.all_logic_server ≡ some p) ↔ (c.session_id p ≡ id)

login-IsTable :
    (lib : PacketLib) (p : ℕ) (rp : List ℕ) (c : Center)
    → IsTable c
    → IsTable (on_logic_server_login lib p rp c)
unfolding on_logic_server_login insert_logic_server update
login-IsTable lib p rp c h id q real =
    let given = (lib.read_int32 (lib.read_string rp).1).0 in
    (
      ground (arith, h id q real, lookup-insert given id p c.all_logic_server),
      ground (arith, h id q real, lookup-insert given id p c.all_logic_server),
    )

-- A handler that leaves the table and the ids alone.
abbrev Same : Center → Center → Type 0
Same c v = (v.all_logic_server ≡ c.all_logic_server) × (v.session_id ≡ c.session_id)

on_user_msg-Same :
    (lib : PacketLib) (p : ℕ) (rp : List ℕ) (c : Center) → Same c (on_user_msg lib p rp c)
unfolding on_user_msg call_handle
on_user_msg-Same lib p rp c = (ground arith, ground arith)

on_logic_server_rpc-Same :
    (lib : PacketLib) (p : ℕ) (rp : List ℕ) (c : Center) → Same c (on_logic_server_rpc lib p rp c)
unfolding on_logic_server_rpc
on_logic_server_rpc-Same lib p rp c = (ground arith, ground arith)

on_msg-IsTable :
    (lib : PacketLib) (p : ℕ) (message : List ℕ) (c : Center)
    → IsTable c
    → IsTable (on_msg lib p message c)
unfolding on_msg on_ping
on_msg-IsTable lib p message c h id q real =
    let rp = drop lib.head_len message in
    let i = h id q real in
    let l = login-IsTable lib p rp c h id q real in
    let u = on_user_msg-Same lib p rp c in
    let r = on_logic_server_rpc-Same lib p rp c in
    (ground (arith, i, l, u, r), ground (arith, i, l, u, r))

close-IsTable : (p : ℕ) (c : Center) → IsTable c → IsTable (construct p (on_close p c))
unfolding on_close remove_logic_server update
close-IsTable p c h id q real =
    let i = h id q real in
    let j = h id p real in
    let e = lookup-erase (c.session_id p) id c.all_logic_server in
    (ground (arith, i, j, e), ground (arith, i, j, e))

Step-IsTable : (lib : PacketLib) (c c' : Center) → Step lib c c' → IsTable c → IsTable c'
unfolding register_user_handle send_user_packet send_packet2client
Step-IsTable lib c c' (step_msg p message d) h = on_msg-IsTable lib p message d h
Step-IsTable lib c c' (step_close p d) h = close-IsTable p d h
Step-IsTable lib c c' (step_register op handle d) h = h
Step-IsTable lib c c' (step_user p sub d) h = h
Step-IsTable lib c c' (step_client p id packet d) h = h

-- In every state that a center server reaches, whatever its sessions send and whenever they close, the
-- table has a session under an id other than -1 exactly if the id is the session's.
pub Reach-IsTable :
    (lib : PacketLib) (password : List ℕ) (c : Center) → Reach lib password c → IsTable c
Reach-IsTable lib password c starts =
    λ id p real. (λ e. absurd (ground arith), λ e. absurd (real (sym e)))
Reach-IsTable lib password c (steps d e r s) =
    Step-IsTable lib d e s (Reach-IsTable lib password d r)
