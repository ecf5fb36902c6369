-- ===== src/Examples.antt =====
-- The theorems at concrete inputs: the packet library is that of Wire/Sample.
mod Framing
mod Connection
mod Protocol
mod Center
mod Link
mod Discovery
mod Publishing
mod Threads
mod Serving
mod Player
mod Extensions
mod Log
mod WebSocket
mod WebServers
mod WebFrames
mod WebRoutes
