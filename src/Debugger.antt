-- ===== src/Debugger.antt =====
-- pfpsim/core/debugger: the debugger that observes a simulation and talks to its client.
pub mod Breakpoint
pub mod Watchpoint
pub mod Packet
pub mod DataManager
pub mod Message
pub mod BreakpointHit
pub mod Observer
pub mod CpInterface
pub mod Server
pub mod Transport
pub mod Starting
pub mod Wire
pub mod Handshake
