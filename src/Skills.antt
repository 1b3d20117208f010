-- ===== src/Skills.antt =====
-- pkg/skills: the skills of the agents, of which the cache of searches is modelled.
pub mod SearchCache
