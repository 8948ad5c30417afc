-- ===== src/Relay.antt =====
-- syn-relay (SYN-SOFTWARE/syn-relay-src/src): one binary with the roles of the stats server, the
-- stats client and the screen sharing agent.
pub mod Runtime
pub mod NodeState
pub mod AgentState
pub mod Json
pub mod Wire
pub mod Apps
pub mod Server
mod Tests
