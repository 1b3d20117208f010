-- ===== src/Providers.antt =====
-- pkg/providers: which model to ask, and what to do when it fails.
pub mod Types
pub mod Cooldown
pub mod Regex
pub mod Classifier
pub mod ModelRef
pub mod Fallback
pub mod ToolCalls
pub mod Models
pub mod Extraction
