-- ===== src/Tools.antt =====
-- pkg/tools: the tools of the agents, of which the edits of files are modelled.
pub mod Edit
