-- ===== src/Agent.antt =====
-- pkg/agent: the agents, the messages that a model is sent, and the loop around model and tools.
pub mod Context
pub mod Sanitize
pub mod Instance
pub mod Registry
pub mod Tools
pub mod Compress
pub mod Summary
pub mod Turn
pub mod Iteration
pub mod Commands
pub mod Loop
pub mod Background
pub mod Process
mod Examples
mod Scenes
