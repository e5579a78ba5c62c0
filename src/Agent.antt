-- ===== src/Agent.antt =====
-- The client of the agent that runs in a VM: src/Sockets/AgentClient.cpp and src/AgentProtocol.h.
pub mod Bytes
pub mod State
pub mod Packets
pub mod Client
pub mod Steps
pub mod Turns
pub mod Outcomes
pub mod PacketTurns
pub mod HandlerTurns
pub mod FileTurns
pub mod Inv
pub mod Kept
pub mod Ends
pub mod Reports
