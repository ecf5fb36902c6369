-- ===== src/Lib.antt =====
-- DServerFramework: the servers of a game, which pass packets between players and game logic.
--
-- The parts and how they interact. Clients connect to a connection server, which draws an id for each,
-- chooses a logic server for it, and forwards between the two. A logic server connects to all the
-- connection servers, and keeps a mirror of each client; it also connects to the one center server,
-- through which logic servers reach each other and each other's clients. All of them exchange packets
-- over TCP, which each side cuts out of its stream of bytes.
--
-- The files, by the paths under DDServerFramework/src:
--   Prelude: shared tests, lists and maps. A std::unordered_map is a list of entries in the order in
--     which it is iterated; theorems are about every order. `subscript` is operator[] of a map of
--     pointers, which inserts a null pointer for a missing key.
--   Ops: Common/prototol/*.h, the op codes.
--   Wire: packet.h of the networking library, which is not in the repository: a record of readers and
--     writers, and the laws that the servers rely on (what was written is read back; the head is read
--     from the first bytes alone). Wire/Sample is a library that meets them, for the examples.
--   BinPacket: the writer and the readers of packet.h as WSConnectionServer uses them, with laws;
--     BinPacket/Sample meets them.
--   Framing: Common/UsePacketSingleNetSession.cpp and Common/UsePacketExtNetSession.cpp, the loops of
--     the two onMsg functions.
--   MsgQueue: dodo::MsgQueue of the networking library, a parameter with laws; MsgQueue/Sample meets
--     them.
--   Log: Common/WrapLog.h, the log and its thread, and Console, its colours on the console of Windows.
--     Round, Order and Console/Colours have the proofs.
--   NetThread: Common/NetThreadSession.cpp, the messages from the network's threads to the logic
--     thread, over any queue that loses nothing and pops the oldest message. Order has the proof.
--   MainLoop: the loop of main of CenterServer/CenterServer.cpp and LogicServer/LogicServer.cpp, over any
--     timers, with the console and the messages of NetThread. Rounds has the proof.
--   ConnectionServer: ConnectionServer/*.cpp. Client is ConnectionClientSession (claimRuntimeID,
--     claimPrimaryServer, procPacket, onClose), Clients its table ClientSessionMgr, Logic is
--     LogicServerSession (onLogicServerLogin, the packets to clients, onClose), Servers its tables
--     LogicServerSessionMgr, and Ids are the ids of the clients and Common/MakeUID.h. Publishing is
--     the loop of ConnectionServer/ConnectionServer.cpp that keeps the server's entry in etcd. Registry,
--     Reach, Forwarding, Closing, Kick and Publishing/Lease have the proofs.
--   LogicServer: LogicServer/*.cpp. Mirror is ClientMirror with ClientMirrorMgr, Connection is
--     ConnectionServerConnection, Center is CenterServerConnection, and Discovery is the thread of
--     LogicServer.cpp that asks etcd for the connection servers. Link is Common/AutoConnectionServer.h
--     with the life of the connection to the center server: Link/Steps has what can happen, Link/Place
--     where the one process that keeps the connection can be, and Link/Once and Link/Reconnect the
--     proofs.
--   WsConnectionServer: WSConnectionServer/*.cpp, the connection server for clients that connect by
--     web socket. Client is ConnectionClientSession, Tables are LogicServerSessionMgr and
--     ClientSessionMgr, Logic is LogicServerSession with the messages of Messages, Cellnet is
--     UseCellnetPacketSingleNetSession and the sending side of LogicServerSession, and WebFrame is
--     UseWebPacketSingleNetSession, with the sending side of ConnectionClientSession. Sending has what the
--     calls of sendPB do to the session of a logic server. Registry, Reach,
--     Kick, Downstream, Routing, Uplink, Downlink and the children of Cellnet and WebFrame have the
--     proofs.
--   CenterServer: CenterServer/CenterServerSession.cpp. Session is CenterServerSession with
--     CenterServerSessionGlobalData, and Table has the proof of its table. Rpc has the calls and the
--     answers of CenterServer/CenterServerSession.h and LogicServer/CenterServerConnection.h, and
--     Functions has how an application registers a function for them. Serving is the server as a whole,
--     its sessions under the loop of main.
--   SimulatePlayer: SimulatePlayer/SimulateClient.cpp, the simulated client. Counting has the proof.
--   Extensions: test/CenterServerExt.cpp and test/LogicServerExt.cpp, the applications of the servers.
--     Calls and TestOp have the proofs.
--   Protocol: the bytes that one server writes, handled by the other server's code.
--   Examples: the theorems at concrete inputs.
--
-- How the code is modelled. A session is named by its address; the objects stand in functions from
-- addresses, and the tables hold addresses. A handler is a function on the server's state; what it asks
-- of the network, the timers, the RPC library and the application is a list of effects or events,
-- newest first. A call through a null pointer and a read past the end of a buffer are the result
-- `none`. The release build is modelled, in which an assertion does nothing. Numbers are natural
-- numbers: -1 of a w-bit integer is 2 ^ w - 1, and where the code wraps or cuts a number the model has
-- `% 2 ^ w`. The clock and rand() are arguments.
--
-- Bounds and fuel. The loop of onMsg takes fuel one above the buffer's length, which is enough because
-- each round consumes a head at least; the theorems of Framing/Stream are about all buffers. The loop
-- over web socket frames takes the same, since a frame has a byte at least; a round of the log's
-- thread has a round more than lines that can be popped. The bound
-- `max_body` is what fits a packet of the networking library. In Reach a step is one handler: the two
-- lookups of a handler that two network threads could interleave are one step. procNet2LogicMsgList
-- has a round more than messages, which is enough because each round pops one. The two loops of main
-- take the list of their rounds, of any length.
--
-- Not modelled: the networking library, protobuf, msgpack, etcd and the other third-party code, and
-- generated code; Common/WrapJsonValue.h, which passes each call on to rapidjson, and
-- Common/HelpFunction.h, neither of which a server uses; and of the main programs the reading of the
-- configuration, the listening sockets and the order in which the parts are stopped. Of the RPC between
-- the center server and the logic servers, callPB, which names a call after a protobuf type, and
-- CenterServerSession::call, which does not compile, are left out.
pub mod Prelude
pub mod Ops
pub mod Wire
pub mod BinPacket
pub mod Framing
pub mod MsgQueue
pub mod NetThread
pub mod Log
pub mod ConnectionServer
pub mod WsConnectionServer
pub mod LogicServer
pub mod SimulatePlayer
pub mod Extensions
pub mod MainLoop
pub mod CenterServer
pub mod Protocol
mod Examples
