-- ===== src/Routing/SessionKey.antt =====
-- pkg/routing/session_key.go: the key under which a conversation is kept.
pub mod RoundTrip
pub mod Isolation
mod Examples
use elvis.Base.{
  ℕ, Bool, true, false, ◌&&◌, ◌||◌, not, List, [], ◌∷◌, ◌++◌, Option, none, some, Text, codes, any,
  text_eq, is_nil, if◌then◌else◌,
}
use elvis.Strings.{Unicode, to_lower, trim_space, has_prefix, split_n}
use elvis.Routing.AgentId.{default_main_key, normalize_agent_id, normalize_account_id, or_default}

-- The string type `DMScope`: the empty string, the four constants, and any other text.
pub data DmScope : Type 0 where
  unset main per_peer per_channel_peer per_account_channel_peer : DmScope
  other : Text → DmScope

pub record RoutePeer : Type 0 where
  pub kind : Text
  pub id : Text

-- `IdentityLinks` is a Go map: the list has its entries in the order in which `range` visits them.
pub record SessionKeyParams : Type 0 where
  pub agent_id : Text
  pub channel : Text
  pub account_id : Text
  pub peer : Option RoutePeer
  pub dm_scope : DmScope
  pub identity_links : List (Text × List Text)

pub record ParsedSessionKey : Type 0 where
  pub agent_id : Text
  pub rest : Text

-- `a + ":" + b`
infixr 66 ◌:+◌
abbrev pub ◌:+◌ : Text → Text → Text
a :+ b = a ++ b':' ∷ b

module _ ⦃u : Unicode⦄ where
  unfoldable pub build_agent_main_session_key : Text → Text
  build_agent_main_session_key agent_id =
      codes "agent" :+ normalize_agent_id agent_id :+ default_main_key

  unfoldable pub normalize_channel : Text → Text
  normalize_channel channel = or_default (codes "unknown") (trim_space (to_lower channel))

  -- Membership in `candidates`: the peer's ID, bare or behind its channel.
  unfoldable pub is_candidate : Text → Text → Text → Bool
  is_candidate channel peer_id normalized =
      text_eq normalized (to_lower peer_id)
      || not (is_nil channel) && text_eq normalized (channel :+ to_lower peer_id)

  unfoldable pub is_linked : Text → Text → Text → Bool
  unfolding is_candidate
  is_linked channel peer_id id =
      let normalized = to_lower (trim_space id) in
      not (is_nil normalized) && is_candidate channel peer_id normalized

  -- The loop over the links; the empty text if no link fits.
  unfoldable pub find_linked : Text → Text → List (Text × List Text) → Text
  unfolding is_linked
  find_linked channel peer_id [] = []
  find_linked channel peer_id ((canonical, ids) ∷ links) =
      let rest = find_linked channel peer_id links in
      let canonical_name = trim_space canonical in
      if is_nil canonical_name
      then rest
      else if any (is_linked channel peer_id) ids
      then canonical_name
      else rest

  unfoldable pub resolve_linked_peer_id : List (Text × List Text) → Text → Text → Text
  unfolding find_linked
  resolve_linked_peer_id links channel peer_id =
      if is_nil links
      then []
      else let peer = trim_space peer_id in
        if is_nil peer then [] else find_linked (to_lower (trim_space channel)) peer links

  abbrev is_main : DmScope → Bool
  is_main unset = true
  is_main main = true
  is_main _ = false

  -- The peer's ID of a direct message, after identity links.
  unfoldable pub direct_peer_id : SessionKeyParams → Text → Text
  direct_peer_id params id =
      let peer_id = trim_space id in
      to_lower (
        if is_main params.dm_scope || is_nil peer_id
        then peer_id
        else or_default peer_id
            (resolve_linked_peer_id params.identity_links params.channel peer_id))

  -- The `switch` over the scope, for a peer's ID that is not empty.
  unfoldable pub scoped_key : DmScope → SessionKeyParams → Text → Text
  scoped_key per_account_channel_peer params peer_id =
      codes "agent"
      :+ normalize_agent_id params.agent_id
      :+ normalize_channel params.channel
      :+ normalize_account_id params.account_id
      :+ codes "direct"
      :+ peer_id
  scoped_key per_channel_peer params peer_id =
      codes "agent"
      :+ normalize_agent_id params.agent_id
      :+ normalize_channel params.channel
      :+ codes "direct"
      :+ peer_id
  scoped_key per_peer params peer_id =
      codes "agent" :+ normalize_agent_id params.agent_id :+ codes "direct" :+ peer_id
  scoped_key _ params peer_id = build_agent_main_session_key (normalize_agent_id params.agent_id)

  unfoldable pub direct_key : SessionKeyParams → Text → Text
  direct_key params id =
      let peer_id = direct_peer_id params id in
      if is_nil peer_id
      then build_agent_main_session_key (normalize_agent_id params.agent_id)
      else scoped_key params.dm_scope params peer_id

  -- Groups and channels always have a session of their own.
  unfoldable pub group_key : SessionKeyParams → Text → Text → Text
  group_key params kind id =
      codes "agent"
      :+ normalize_agent_id params.agent_id
      :+ normalize_channel params.channel
      :+ kind
      :+ or_default (codes "unknown") (to_lower (trim_space id))

  abbrev peer_or_direct : Option RoutePeer → RoutePeer
  peer_or_direct none = record { kind = codes "direct"; id = [] }
  peer_or_direct (some p) = p

  unfoldable pub build_agent_peer_session_key : SessionKeyParams → Text
  build_agent_peer_session_key params =
      let peer = peer_or_direct params.peer in
      let kind = or_default (codes "direct") (trim_space peer.kind) in
      if text_eq kind (codes "direct")
      then direct_key params peer.id
      else group_key params kind peer.id

  abbrev parse_parts : List Text → Option ParsedSessionKey
  parse_parts (tag ∷ id ∷ rest ∷ []) =
      let agent_id = trim_space id in
      if not (text_eq tag (codes "agent"))
      then none
      else if is_nil agent_id || is_nil rest
      then none
      else some (record { agent_id = agent_id; rest = rest })
  parse_parts _ = none

  unfoldable pub parse_agent_session_key : Text → Option ParsedSessionKey
  parse_agent_session_key session_key =
      let raw = trim_space session_key in
      if is_nil raw then none else parse_parts (split_n 3 b':' raw)

  unfoldable pub is_subagent_session_key : Text → Bool
  is_subagent_session_key session_key =
      let raw = trim_space session_key in
      if is_nil raw
      then false
      else if has_prefix (to_lower raw) (codes "subagent:")
      then true
      else elim (parse_agent_session_key raw) [
        | none ↦ false
        | some parsed ↦ has_prefix (to_lower parsed.rest) (codes "subagent:")
      ]
