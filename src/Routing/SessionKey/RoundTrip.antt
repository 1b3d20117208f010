-- ===== src/Routing/SessionKey/RoundTrip.antt =====
-- Session keys of pkg/routing/session_key.go read back by `ParseAgentSessionKey`.
use elvis.Base.{
  ◌≡◌, ◌≢◌, refl, ap, subst, ◌∙◌, inl, inr, Bool, true, false, List, [], ◌∷◌, ◌++◌, some, Text,
  codes, All, All-append, is_nil, text_eq_refl, Bool-cases, if◌then◌else◌, arith,
}
use mathlib.Core.List.{cons-ne-nil}
use elvis.Strings.{Unicode, trim_space, split_n}
use elvis.Strings.Trim.{IsInk, trim_space-ink}
use elvis.Strings.Cut.{Lacks, split_n-append}
use elvis.Routing.AgentId.{normalize_agent_id, default_main_key}
use elvis.Routing.AgentId.Shape.{IsIdByte, IsNormalized, id_bytes-IsInk, normalize_ids-IsNormalized}
use elvis.Routing.AgentId.Fixed.{begins_alnum, normalize_agent_id_idem}
use elvis.Routing.SessionKey.{
  DmScope, per_peer, per_channel_peer, per_account_channel_peer, SessionKeyParams, ◌:+◌,
  build_agent_main_session_key, normalize_channel, direct_peer_id, scoped_key, direct_key,
  group_key, build_agent_peer_session_key, parse_agent_session_key,
}

pub IsNormalized-Lacks : (s : Text) → All IsIdByte s → Lacks b':' s
IsNormalized-Lacks [] h = tt
IsNormalized-Lacks (c ∷ s) (p, h) = (ground arith, IsNormalized-Lacks s h)

-- A text of the form "agent:<id>:<rest>" with a normalised ID and a rest that is not empty.
pub record IsAgentKey (id key : Text) : Type 0 where
  pub rest : Text
  pub form : key ≡ codes "agent" :+ id :+ rest
  pub some_rest : rest ≢ []

if-IsAgentKey :
    {id : Text} (b : Bool) {x y : Text}
    → IsAgentKey id x
    → IsAgentKey id y
    → IsAgentKey id (if b then x else y)
if-IsAgentKey true h k = h
if-IsAgentKey false h k = k

append-ne-nil : (s t : Text) → t ≢ [] → s ++ t ≢ []
append-ne-nil [] t h = h
append-ne-nil (c ∷ s) t h = cons-ne-nil c (s ++ t)

module _ ⦃u : Unicode⦄ where
  -- A key ends in ink, so that trimming it changes nothing.
  main_key-trimmed :
      (id : Text) → trim_space (build_agent_main_session_key id) ≡ build_agent_main_session_key id
  unfolding build_agent_main_session_key
  main_key-trimmed id = trim_space-ink _ (
      All-append IsInk (codes "agent") (b':' ∷ normalize_agent_id id ++ b':' ∷ default_main_key)
        (omega arith)
        (
          omega arith,
          All-append IsInk (normalize_agent_id id) (b':' ∷ default_main_key)
              (id_bytes-IsInk _ (normalize_ids-IsNormalized id).0.id_bytes).0 (omega arith),
        ))

  main_key-IsAgentKey :
      (id : Text) → IsAgentKey (normalize_agent_id id) (build_agent_main_session_key id)
  unfolding build_agent_main_session_key
  main_key-IsAgentKey id = record {
    rest = default_main_key;
    form = refl;
    some_rest = cons-ne-nil _ _;
  }

  module _ (params : SessionKeyParams)
      (alnum : begins_alnum (normalize_agent_id params.agent_id) ≡ true) where
    main_of_params :
        IsAgentKey
          (normalize_agent_id params.agent_id)
          (build_agent_main_session_key (normalize_agent_id params.agent_id))
    main_of_params =
        subst
          (λ id. IsAgentKey id (build_agent_main_session_key (normalize_agent_id params.agent_id)))
          (normalize_agent_id_idem params.agent_id alnum)
          (main_key-IsAgentKey (normalize_agent_id params.agent_id))

    scoped_key-IsAgentKey :
        (scope : DmScope) (peer : Text)
        → IsAgentKey (normalize_agent_id params.agent_id) (scoped_key scope params peer)
    unfolding scoped_key
    scoped_key-IsAgentKey per_account_channel_peer peer = record {
      rest = _;
      form = refl;
      some_rest = append-ne-nil (normalize_channel params.channel) _ (cons-ne-nil _ _);
    }
    scoped_key-IsAgentKey per_channel_peer peer = record {
      rest = _;
      form = refl;
      some_rest = append-ne-nil (normalize_channel params.channel) _ (cons-ne-nil _ _);
    }
    scoped_key-IsAgentKey per_peer peer = record {
      rest = _;
      form = refl;
      some_rest = cons-ne-nil _ _;
    }
    scoped_key-IsAgentKey _ peer = main_of_params

    direct_key-IsAgentKey :
        (id : Text) → IsAgentKey (normalize_agent_id params.agent_id) (direct_key params id)
    unfolding direct_key
    direct_key-IsAgentKey id = elim (Bool-cases (is_nil (direct_peer_id params id))) [
      | inl e ↦ rw e main_of_params
      | inr e ↦ rw e (scoped_key-IsAgentKey params.dm_scope (direct_peer_id params id))
    ]

    group_key-IsAgentKey :
        (kind id : Text)
        → IsAgentKey (normalize_agent_id params.agent_id) (group_key params kind id)
    unfolding group_key
    group_key-IsAgentKey kind id = record {
      rest = _;
      form = refl;
      some_rest = append-ne-nil (normalize_channel params.channel) _ (cons-ne-nil _ _);
    }

    pub build-IsAgentKey :
        IsAgentKey (normalize_agent_id params.agent_id) (build_agent_peer_session_key params)
    unfolding build_agent_peer_session_key
    build-IsAgentKey = if-IsAgentKey _ (direct_key-IsAgentKey _) (group_key-IsAgentKey _ _)

  split_agent_key :
      (id rest : Text)
      → IsNormalized id
      → split_n 3 b':' (codes "agent" :+ id :+ rest) ≡ codes "agent" ∷ id ∷ rest ∷ []
  unfolding split_n
  split_agent_key id rest n =
      split_n-append 1 b':' (codes "agent") (id :+ rest) (omega arith)
      ∙ ap (◌∷◌ (codes "agent")) (split_n-append 0 b':' id rest (IsNormalized-Lacks id n.id_bytes))

  is_nil-ne : {A : Type 0} (s : List A) → s ≢ [] → is_nil s ≡ false
  is_nil-ne [] h = absurd (h refl)
  is_nil-ne (c ∷ s) h = refl

  parse_parts_of :
      (key id rest : Text)
      → trim_space key ≡ key
      → key ≡ codes "agent" :+ id :+ rest
      → IsNormalized id
      → rest ≢ []
      → parse_agent_session_key key ≡ some (record { agent_id = id; rest = rest })
  unfolding parse_agent_session_key
  parse_parts_of key id rest trimmed form n h = rw (
    trimmed,
    form,
    split_agent_key id rest n,
    trim_space-ink id (id_bytes-IsInk id n.id_bytes).0,
    is_nil-ne id n.some_byte,
    is_nil-ne rest h,
    text_eq_refl (codes "agent"),
  )

-- The main session key of an agent, for every ID, is read back as its normalised ID and "main".
pub parse-build_main :
    ⦃u : Unicode⦄ (id : Text)
    → parse_agent_session_key (build_agent_main_session_key id)
      ≡ some (record { agent_id = normalize_agent_id id; rest = codes "main" })
parse-build_main id =
    let key = main_key-IsAgentKey id in
    parse_parts_of (build_agent_main_session_key id) (normalize_agent_id id) default_main_key
      (main_key-trimmed id) (unfold build_agent_main_session_key in refl)
      (normalize_ids-IsNormalized id).0 (cons-ne-nil _ _)

-- Every session key that the router builds, for a direct message in any scope as for a group, is read
-- back as the normalised agent ID and a rest that is not empty, if the ID begins with a letter or a
-- digit and the key has no white space at its ends.
pub parse-build_peer :
    ⦃u : Unicode⦄ (params : SessionKeyParams)
    → begins_alnum (normalize_agent_id params.agent_id) ≡ true
    → trim_space (build_agent_peer_session_key params) ≡ build_agent_peer_session_key params
    → (rest : Text) × (rest ≢ [])
      × (build_agent_peer_session_key params
          ≡ codes "agent" :+ normalize_agent_id params.agent_id :+ rest)
      × (parse_agent_session_key (build_agent_peer_session_key params)
          ≡ some (record { agent_id = normalize_agent_id params.agent_id; rest = rest }))
parse-build_peer params alnum trimmed =
    let key = build-IsAgentKey params alnum in
    (
      key.rest,
      key.some_rest,
      key.form,
      parse_parts_of _ (normalize_agent_id params.agent_id) key.rest trimmed key.form
          (normalize_ids-IsNormalized params.agent_id).0 key.some_rest,
    )
