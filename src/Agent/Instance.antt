-- ===== src/Agent/Instance.antt =====
-- pkg/agent/instance.go: an agent, made from the configuration.
-- Not kept of an AgentInstance: the provider, the temperature, the context builder and the tools other
-- than the tool "message". The numbers of the configuration are not negative. `home` is the user's home
-- directory.
use elvis.Base.{
  ℕ, zero, Bool, true, false, ◌||◌, not, List, [], ◌∷◌, ◌++◌, Option, none, some, Text, codes,
  text_eq, is_nil, ◌==◌, if◌then◌else◌,
}
use elvis.Strings.Paths.{join_path}
use elvis.Strings.{Unicode, trim_space}
use elvis.Session.{SessionManager}
use elvis.Session.Disk.{Directory, new_session_manager}
use elvis.Providers.Fallback.{FallbackCandidate, resolve_candidates}
use elvis.Routing.AgentId.{normalize_agent_id}
use elvis.Routing.Route.{AgentConfig}

pub record AgentModelConfig : Type 0 where
  pub primary : Text
  pub fallbacks : Option (List Text)

-- `none` is Go's nil.
pub record SubagentsConfig : Type 0 where
  pub allow_agents : Option (List Text)
  pub model : Option AgentModelConfig

-- An AgentConfig: the fields `routed` that routing reads, and the others.
pub record AgentSettings : Type 0 where
  pub routed : AgentConfig
  pub name : Text
  pub workspace : Text
  pub model : Option AgentModelConfig
  pub skills : List Text
  pub subagents : Option SubagentsConfig

pub record AgentDefaults : Type 0 where
  pub workspace : Text
  pub provider : Text
  pub model_name : Text
  pub model : Text
  pub model_fallbacks : List Text
  pub max_tokens : ℕ
  pub max_tool_iterations : ℕ

-- The state of the tool "message" of pkg/tools/message.go.
pub record MessageTool : Type 0 where
  pub default_channel : Text
  pub default_chat_id : Text
  pub sent_in_round : Bool

pub record AgentInstance (A : Type 0) : Type 0 where
  pub id : Text
  pub name : Text
  pub model : Text
  pub fallbacks : List Text
  pub workspace : Text
  pub max_iterations : ℕ
  pub max_tokens : ℕ
  pub context_window : ℕ
  pub sessions : SessionManager A
  pub message_tool : MessageTool
  pub subagents : Option SubagentsConfig
  pub skills_filter : List Text
  pub candidates : List FallbackCandidate

unfoldable pub get_model_name : AgentDefaults → Text
get_model_name d = if is_nil d.model_name then d.model else d.model_name

unfoldable pub expand_home : Text → Text → Text
expand_home home [] = []
expand_home home (c ∷ path) =
    if c == b'~'
    then elim path [ [] ↦ home | d ∷ rest ↦ if d == b'/' then home ++ d ∷ rest else home ]
    else c ∷ path

unfoldable pub resolve_agent_model : Option AgentModelConfig → AgentDefaults → Text
resolve_agent_model none defaults = get_model_name defaults
resolve_agent_model (some m) defaults =
    if is_nil (trim_space m.primary) then get_model_name defaults else trim_space m.primary

abbrev own_fallbacks : Option (List Text) → AgentDefaults → List Text
own_fallbacks none defaults = defaults.model_fallbacks
own_fallbacks (some fallbacks) defaults = fallbacks

unfoldable pub resolve_agent_fallbacks : Option AgentModelConfig → AgentDefaults → List Text
resolve_agent_fallbacks none defaults = defaults.model_fallbacks
resolve_agent_fallbacks (some m) defaults = own_fallbacks m.fallbacks defaults

-- `n` unless it is 0
abbrev or_default : ℕ → ℕ → ℕ
or_default zero d = d
or_default n d = n

abbrev new_message_tool : MessageTool
new_message_tool = record { default_channel = []; default_chat_id = []; sent_in_round = false }

abbrev pub implicit_agent : AgentSettings
implicit_agent = record {
  routed = record { id = codes "main"; default = true };
  name = [];
  workspace = [];
  model = none;
  skills = [];
  subagents = none;
}

module _ ⦃u : Unicode⦄ where
  unfoldable pub resolve_agent_workspace : Text → AgentSettings → AgentDefaults → Text
  resolve_agent_workspace home cfg defaults =
      if not (is_nil (trim_space cfg.workspace))
      then expand_home home (trim_space cfg.workspace)
      else if cfg.routed.default
          || (is_nil cfg.routed.id || text_eq (normalize_agent_id cfg.routed.id) (codes "main"))
      then expand_home home defaults.workspace
      else join_path
          (home ∷ codes ".picoclaw" ∷ (codes "workspace-" ++ normalize_agent_id cfg.routed.id) ∷ [])

  module _ {A : Type 0} where
    -- `disk` lists the files of a directory.
    unfoldable pub new_agent_instance :
        Text → (Text → Option (Directory A)) → AgentSettings → AgentDefaults → AgentInstance A
    new_agent_instance home disk cfg defaults =
        let workspace = resolve_agent_workspace home cfg defaults in
        let sessions_dir = join_path (workspace ∷ codes "sessions" ∷ []) in
        let model = resolve_agent_model cfg.model defaults in
        let fallbacks = resolve_agent_fallbacks cfg.model defaults in
        let max_tokens = or_default defaults.max_tokens 8192 in
        record {
          id = normalize_agent_id cfg.routed.id;
          name = cfg.name;
          model = model;
          fallbacks = fallbacks;
          workspace = workspace;
          max_iterations = or_default defaults.max_tool_iterations 20;
          max_tokens = max_tokens;
          context_window = max_tokens;
          sessions = new_session_manager sessions_dir (disk sessions_dir);
          message_tool = new_message_tool;
          subagents = cfg.subagents;
          skills_filter = cfg.skills;
          candidates =
              resolve_candidates (record { primary = model; fallbacks = fallbacks })
                defaults.provider;
        }
