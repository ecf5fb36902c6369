-- ===== src/Ops.antt =====
-- The op codes between the servers: the enumerations of Common/prototol.
use dserver_framework.Prelude.{ℕ}

-- CONNECTION_SERVER_SEND_OP, what a connection server sends to a logic server
abbrev pub cs_pong : ℕ
cs_pong = 0

abbrev pub recv_csid : ℕ
recv_csid = 1

abbrev pub init_client_mirror : ℕ
init_client_mirror = 2

abbrev pub destroy_client : ℕ
destroy_client = 3

abbrev pub from_client : ℕ
from_client = 4

-- CONNECTIONSERVER_RECV_OP, what a logic server sends to a connection server
abbrev pub logic_server_login : ℕ
logic_server_login = 0

abbrev pub cs_ping : ℕ
cs_ping = 1

abbrev pub packet2client_by_sock_info : ℕ
packet2client_by_sock_info = 2

abbrev pub packet2client_by_runtime_id : ℕ
packet2client_by_runtime_id = 3

abbrev pub is_set_client_slave_id : ℕ
is_set_client_slave_id = 4

abbrev pub kick_client_by_runtime_id : ℕ
kick_client_by_runtime_id = 5

-- CENTER_SERVER_RECV_OP, what a logic server sends to the center server
abbrev pub center_recv_rpc : ℕ
center_recv_rpc = 0

abbrev pub center_ping : ℕ
center_ping = 1

abbrev pub center_login : ℕ
center_login = 2

abbrev pub center_recv_user : ℕ
center_recv_user = 3

-- CENTER_SERVER_SEND_OP, what the center server sends to a logic server
abbrev pub center_send_rpc : ℕ
center_send_rpc = 0

abbrev pub center_pong : ℕ
center_pong = 1

abbrev pub logic_server_self_id : ℕ
logic_server_self_id = 2

abbrev pub packet2client_mirror : ℕ
packet2client_mirror = 3

abbrev pub center_send_user : ℕ
center_send_user = 4
