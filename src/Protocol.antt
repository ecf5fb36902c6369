-- ===== src/Protocol.antt =====
-- The servers together: the bytes that one server's code writes, handled by the other server's code.
pub mod Login
pub mod Mirrors
pub mod Downlink
pub mod Refused
pub mod Center
pub mod Rpc
pub mod ByRuntimeId
use dserver_framework.Prelude.{ℕ, List, Option, drop}
use dserver_framework.Wire.{PacketLib}
use dserver_framework.ConnectionServer.{World}
use dserver_framework.ConnectionServer.Logic

-- A packet of a logic server, cut out of the stream and handed to the session at `p` of a connection
-- server: procPacket(op, body, bodyLen). The texts are those of a refused login.
abbrev pub deliver : PacketLib → ℕ → List ℕ → List ℕ → List ℕ → World → Option World
deliver lib p taken wrong packet =
    Logic.proc_packet lib p taken wrong (lib.read_op packet) (drop lib.head_len packet)
