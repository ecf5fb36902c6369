-- ===== src/LogicServer/Link/Messages.antt =====
-- The messages of the center server leave the pointer to the connection alone.
use dserver_framework.Prelude.{
  ℕ, zero, suc, ◌≡◌, refl, ◌∙◌, Option, none, some, List, arith, Option-cases, inl, inr, drop,
  rounds16,
}
use dserver_framework.Wire.{PacketLib}
use dserver_framework.LogicServer.{ClientMirror, Host}
use dserver_framework.LogicServer.Mirror.{
  find_mirror, send_packet, send_to_connection_server, send_to,
}
use dserver_framework.LogicServer.Center.{
  on_msg, on_rpc, on_user_msg, call_handler, send_to_mirror, to_mirrors_loop,
  on_center_server_send_packet2client,
}

pub send_to_mirror-client :
    (lib : PacketLib) (m : Option ClientMirror) (packet : List ℕ) (h : Host)
    → (send_to_mirror lib m packet h).center_client ≡ h.center_client
unfolding send_to_mirror send_packet send_to_connection_server send_to
send_to_mirror-client lib none packet h = refl
send_to_mirror-client lib (some m) packet h = elim (Option-cases m.connection_server) [
  | inl e ↦ rw e refl
  | inr (k, e) ↦ rw e (ground arith)
]

to_mirrors_loop-client :
    (lib : PacketLib) (n : ℕ) (packet rp : List ℕ) (h : Host)
    → (to_mirrors_loop lib n packet rp h).center_client ≡ h.center_client
unfolding to_mirrors_loop
to_mirrors_loop-client lib zero packet rp h = refl
to_mirrors_loop-client lib (suc n) packet rp h =
    let m = find_mirror (lib.read_int64 rp).0 h in
    to_mirrors_loop-client lib n packet (lib.read_int64 rp).1 (send_to_mirror lib m packet h)
    ∙ send_to_mirror-client lib m packet h

to_mirrors-client :
    (lib : PacketLib) (rp : List ℕ) (h : Host)
    → (on_center_server_send_packet2client lib rp h).center_client ≡ h.center_client
unfolding on_center_server_send_packet2client
to_mirrors-client lib rp h = elim (Option-cases (lib.read_binary rp).0) [
  | inl e ↦ rw (on_center_server_send_packet2client, e) refl
  | inr (s, e) ↦
      let n = lib.read_int16 (lib.read_binary rp).1 in
      rw (on_center_server_send_packet2client, e)
        (to_mirrors_loop-client lib (rounds16 n.0) s n.1 h)
]

-- A message leaves the pointer to the connection alone.
pub on_msg-client :
    (lib : PacketLib) (k : ℕ) (bytes : List ℕ) (h : Host)
    → (on_msg lib k bytes h).center_client ≡ h.center_client
unfolding on_msg on_rpc on_user_msg call_handler
on_msg-client lib k bytes h = ground (arith, to_mirrors-client lib (drop lib.head_len bytes) h)
