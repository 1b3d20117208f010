-- ===== src/Agent/Commands.antt =====
-- pkg/agent/loop.go (handleCommand): the commands that a user types.
use elvis.Base.{
  ℕ, zero, suc, ◌&&◌, not, List, [], ◌∷◌, ◌++◌, Option, none, some, Text, codes, lookup, insert,
  any, text_eq, is_nil, if◌then◌else◌,
}
use mathlib.Core.List.{reverse}
use elvis.Strings.{space_width, trim_space, has_prefix}
use elvis.Agent.Registry.{Registry, list_agent_ids, get_default_agent}

-- The fields of a text: `skip` bytes of white space are left, and `word` is the field so far, backwards.
abbrev fields_from : ℕ → Text → Text → List Text
fields_from skip word [] = if is_nil word then [] else reverse word ∷ []
fields_from (suc skip) word (c ∷ s) = fields_from skip word s
fields_from zero word (c ∷ s) =
    let inside = fields_from zero (c ∷ word) s in
    elim (space_width (c ∷ s)) [
      | zero ↦ inside
      | suc w ↦ let rest = fields_from w [] s in if is_nil word then rest else reverse word ∷ rest
    ]

-- `strings.Fields`
unfoldable pub fields : Text → List Text
fields s = fields_from zero [] s

-- `strings.Join`
unfoldable pub join : Text → List Text → Text
join sep [] = []
join sep (t ∷ []) = t
join sep (t ∷ u ∷ ts) = t ++ sep ++ join sep (u ∷ ts)

abbrev comma : Text
comma = codes ", "

-- The enabled channels, `none` without a channel manager.
abbrev pub Channels : Type 0
Channels = Option (List Text)

abbrev no_manager : Text
no_manager = codes "Channel manager not initialized"

unfoldable pub list_channels : Channels → Text
list_channels none = no_manager
list_channels (some []) = codes "No channels enabled"
list_channels (some (c ∷ cs)) = codes "Enabled channels: " ++ join comma (c ∷ cs)

unfoldable pub switch_channel : Channels → Text → Text
switch_channel none value = no_manager
switch_channel (some channels) value =
    if not (any (text_eq value) channels) && not (text_eq value (codes "cli"))
    then codes "Channel '" ++ value ++ codes "' not found or not enabled"
    else codes "Switched target channel to " ++ value

abbrev pub switch_usage : Text
switch_usage = codes "Usage: /switch [model|channel] to <name>"

module _ {A : Type 0} where
  abbrev agents_line : Registry A → Text
  agents_line registry = codes "Registered agents: " ++ join comma (list_agent_ids registry)

  unfoldable pub show : Registry A → Text → List Text → Text
  show registry channel [] = codes "Usage: /show [model|channel|agents]"
  show registry channel (target ∷ args) =
      if text_eq target (codes "model")
      then elim (get_default_agent registry) [
        | none ↦ codes "No default agent configured"
        | some agent ↦ codes "Current model: " ++ agent.model
      ]
      else if text_eq target (codes "channel")
      then codes "Current channel: " ++ channel
      else if text_eq target (codes "agents")
      then agents_line registry
      else codes "Unknown show target: " ++ target

  unfoldable pub list_command : Registry A → Channels → List Text → Text
  list_command registry channels [] = codes "Usage: /list [models|channels|agents]"
  list_command registry channels (target ∷ args) =
      if text_eq target (codes "models")
      then codes "Available models: configured in config.json per agent"
      else if text_eq target (codes "channels")
      then list_channels channels
      else if text_eq target (codes "agents")
      then agents_line registry
      else codes "Unknown list target: " ++ target

  -- The key under which the default agent stands.
  abbrev pub default_key : Registry A → Text
  default_key registry = elim (lookup (codes "main") registry) [
    | some agent ↦ codes "main"
    | none ↦ elim registry [ [] ↦ codes "main" | e ∷ es ↦ e.0 ]
  ]

  unfoldable pub switch_model : Registry A → Text → Registry A × Text
  switch_model registry value = elim (get_default_agent registry) [
    | none ↦ (registry, codes "No default agent configured")
    | some agent ↦ (
      insert (default_key registry) (record agent { model = value }) registry,
      codes "Switched model from " ++ agent.model ++ codes " to " ++ value,
    )
  ]

  unfoldable pub switch : Registry A → Channels → List Text → Registry A × Text
  switch registry channels (target ∷ to ∷ value ∷ args) =
      if not (text_eq to (codes "to"))
      then (registry, switch_usage)
      else if text_eq target (codes "model")
      then switch_model registry value
      else if text_eq target (codes "channel")
      then (registry, switch_channel channels value)
      else (registry, codes "Unknown switch target: " ++ target)
  switch registry channels _ = (registry, switch_usage)

  -- By the command and its arguments; `none` is a message that is no command.
  unfoldable pub run_command : Registry A → Channels → Text → List Text → Registry A × Option Text
  run_command registry channels channel [] = (registry, none)
  run_command registry channels channel (cmd ∷ args) =
      if text_eq cmd (codes "/show")
      then (registry, some (show registry channel args))
      else if text_eq cmd (codes "/list")
      then (registry, some (list_command registry channels args))
      else if text_eq cmd (codes "/switch")
      then (let (switched, reply) = switch registry channels args in (switched, some reply))
      else (registry, none)

  unfoldable pub handle_command : Registry A → Channels → Text → Text → Registry A × Option Text
  handle_command registry channels channel content =
      if not (has_prefix (trim_space content) (codes "/"))
      then (registry, none)
      else run_command registry channels channel (fields (trim_space content))
