-- ===== src/Routing/SessionKey/Isolation.antt =====
-- Which conversations of pkg/routing/session_key.go can share a session.
use elvis.Base.{
  ◌≡◌, ◌≢◌, refl, sym, ap, ◌∙◌, ◌↔◌, ◌⊎◌, inl, inr, text_eq, true, [], ◌∷◌, some, Text, codes,
  is_nil, if◌then◌else◌, arith,
}
use elvis.Strings.{Unicode, trim_space}
use elvis.Strings.Cut.{Lacks, append-injective}
use elvis.Routing.AgentId.{normalize_agent_id, default_main_key}
use elvis.Routing.AgentId.Shape.{normalize_ids-IsNormalized}
use elvis.Routing.AgentId.Fixed.{begins_alnum, normalize_agent_id_idem}
use elvis.Routing.SessionKey.{
  per_peer, per_channel_peer, RoutePeer, SessionKeyParams, ◌:+◌, build_agent_main_session_key,
  normalize_channel, direct_peer_id, scoped_key, direct_key, build_agent_peer_session_key,
}
use elvis.Routing.SessionKey.RoundTrip.{IsNormalized-Lacks, build-IsAgentKey}

:+-injective :
    {s s' t t' : Text} → Lacks b':' s → Lacks b':' s' → s :+ t ≡ s' :+ t' → (s ≡ s') × (t ≡ t')
:+-injective {s} {s'} {t} {t'} h h' e = append-injective b':' s s' t t' h h' e

module _ ⦃u : Unicode⦄ where
  id-Lacks : (id : Text) → Lacks b':' (normalize_agent_id id)
  id-Lacks id = IsNormalized-Lacks _ (normalize_ids-IsNormalized id).0.id_bytes

  agent_prefix :
      {id id' rest rest' : Text}
      → Lacks b':' id
      → Lacks b':' id'
      → codes "agent" :+ id :+ rest ≡ codes "agent" :+ id' :+ rest'
      → (id ≡ id') × (rest ≡ rest')
  agent_prefix h h' e =
      :+-injective h h'
        (:+-injective {s = codes "agent"} {s' = codes "agent"} (omega arith) (omega arith) e).1

-- Two conversations of different agents never share a session key, whatever their channels, accounts,
-- peers, scopes and links, if both normalised IDs begin with a letter or a digit.
pub build-agent_injective :
    ⦃u : Unicode⦄ (p q : SessionKeyParams)
    → begins_alnum (normalize_agent_id p.agent_id) ≡ true
    → begins_alnum (normalize_agent_id q.agent_id) ≡ true
    → build_agent_peer_session_key p ≡ build_agent_peer_session_key q
    → normalize_agent_id p.agent_id ≡ normalize_agent_id q.agent_id
build-agent_injective p q hp hq e =
    let kp = build-IsAgentKey p hp in
    let kq = build-IsAgentKey q hq in
    (agent_prefix (id-Lacks p.agent_id) (id-Lacks q.agent_id) (sym kp.form ∙ e ∙ kq.form)).0

-- A direct message from the peer `x`: the kind of the peer is "direct" or left out.
pub record IsDirect (p : SessionKeyParams) (x : RoutePeer) : Type 0 where
  pub from : p.peer ≡ some x
  pub kind : (trim_space x.kind ≡ []) ⊎ (trim_space x.kind ≡ codes "direct")

module _ ⦃u : Unicode⦄ where
  build-direct :
      (p : SessionKeyParams) (x : RoutePeer)
      → IsDirect p x
      → build_agent_peer_session_key p ≡ direct_key p x.id
  unfolding build_agent_peer_session_key text_eq
  build-direct p x d = elim d.kind [ inl e ↦ rw (d.from, e) | inr e ↦ rw (d.from, e) ]

  -- The rest of a direct key in the scope `per-peer`.
  abbrev peer_rest : Text → Text
  peer_rest [] = default_main_key
  peer_rest (c ∷ s) = codes "direct" :+ c ∷ s

  peer_rest-injective : (s t : Text) → peer_rest s ≡ peer_rest t → s ≡ t
  peer_rest-injective [] [] e = refl
  peer_rest-injective [] (c ∷ t) e = absurd (ground arith)
  peer_rest-injective (c ∷ s) [] e = absurd (ground arith)
  peer_rest-injective (c ∷ s) (d ∷ t) e = ground arith

  main_of_normalized :
      (id : Text)
      → begins_alnum (normalize_agent_id id) ≡ true
      → build_agent_main_session_key (normalize_agent_id id)
        ≡ codes "agent" :+ normalize_agent_id id :+ default_main_key
  unfolding build_agent_main_session_key
  main_of_normalized id h =
      ap (λ i. codes "agent" :+ i :+ default_main_key) (normalize_agent_id_idem id h)

  per_peer_key :
      (p : SessionKeyParams) (x : RoutePeer)
      → p.dm_scope ≡ per_peer
      → begins_alnum (normalize_agent_id p.agent_id) ≡ true
      → direct_key p x.id
        ≡ codes "agent" :+ normalize_agent_id p.agent_id :+ peer_rest (direct_peer_id p x.id)
  unfolding direct_key scoped_key
  per_peer_key p x scope h = go (direct_peer_id p x.id)
    where
      go :
          (d : Text)
          → (if is_nil d
              then build_agent_main_session_key (normalize_agent_id p.agent_id)
              else scoped_key p.dm_scope p d)
            ≡ codes "agent" :+ normalize_agent_id p.agent_id :+ peer_rest d
      go [] = main_of_normalized p.agent_id h
      go (c ∷ d) = rw scope

-- In the scope `per-peer`, direct messages to one agent share a session exactly if their peers have
-- the same ID, after trimming, identity links and lower-casing.
pub per_peer-isolated :
    ⦃u : Unicode⦄ (p q : SessionKeyParams) (x y : RoutePeer)
    → IsDirect p x
    → IsDirect q y
    → p.dm_scope ≡ per_peer
    → q.dm_scope ≡ per_peer
    → p.agent_id ≡ q.agent_id
    → begins_alnum (normalize_agent_id p.agent_id) ≡ true
    → (build_agent_peer_session_key p ≡ build_agent_peer_session_key q)
      ↔ (direct_peer_id p x.id ≡ direct_peer_id q y.id)
per_peer-isolated p q x y dp dq sp sq same h =
    let kp = build-direct p x dp ∙ per_peer_key p x sp h in
    let kq = build-direct q y dq ∙ per_peer_key q y sq (rw (← same) h) in
    (
      (λ e.
          peer_rest-injective _ _
            (agent_prefix (id-Lacks p.agent_id) (id-Lacks q.agent_id) (sym kp ∙ e ∙ kq)).1),
      (λ e.
          kp
          ∙ ap (λ d. codes "agent" :+ normalize_agent_id p.agent_id :+ peer_rest d) e
          ∙ ap (λ i. codes "agent" :+ normalize_agent_id i :+ peer_rest (direct_peer_id q y.id))
              same
          ∙ sym kq),
    )

module _ ⦃u : Unicode⦄ where
  per_channel_peer_key :
      (p : SessionKeyParams) (x : RoutePeer)
      → p.dm_scope ≡ per_channel_peer
      → direct_peer_id p x.id ≢ []
      → direct_key p x.id
        ≡ codes "agent"
          :+ normalize_agent_id p.agent_id
          :+ normalize_channel p.channel
          :+ codes "direct"
          :+ direct_peer_id p x.id
  unfolding direct_key scoped_key
  per_channel_peer_key p x scope h = go (direct_peer_id p x.id) h
    where
      go :
          (d : Text)
          → d ≢ []
          → (if is_nil d
              then build_agent_main_session_key (normalize_agent_id p.agent_id)
              else scoped_key p.dm_scope p d)
            ≡ codes "agent"
              :+ normalize_agent_id p.agent_id
              :+ normalize_channel p.channel
              :+ codes "direct"
              :+ d
      go [] k = absurd (k refl)
      go (c ∷ d) k = rw scope

-- In the scope `per-channel-peer`, direct messages to one agent from peers with IDs, over channels
-- without a colon in their names, share a session only if both the channel and the peer are the same.
pub per_channel_peer-isolated :
    ⦃u : Unicode⦄ (p q : SessionKeyParams) (x y : RoutePeer)
    → IsDirect p x
    → IsDirect q y
    → p.dm_scope ≡ per_channel_peer
    → q.dm_scope ≡ per_channel_peer
    → direct_peer_id p x.id ≢ []
    → direct_peer_id q y.id ≢ []
    → Lacks b':' (normalize_channel p.channel)
    → Lacks b':' (normalize_channel q.channel)
    → build_agent_peer_session_key p ≡ build_agent_peer_session_key q
    → (normalize_agent_id p.agent_id ≡ normalize_agent_id q.agent_id)
      × (normalize_channel p.channel ≡ normalize_channel q.channel)
      × (direct_peer_id p x.id ≡ direct_peer_id q y.id)
per_channel_peer-isolated p q x y dp dq sp sq np nq lp lq e =
    let kp = build-direct p x dp ∙ per_channel_peer_key p x sp np in
    let kq = build-direct q y dq ∙ per_channel_peer_key q y sq nq in
    let (agents, rests) =
      agent_prefix (id-Lacks p.agent_id) (id-Lacks q.agent_id) (sym kp ∙ e ∙ kq) in
    let (channels, peers) = :+-injective lp lq rests in
    (
      agents,
      channels,
      (:+-injective {s = codes "direct"} {s' = codes "direct"} (omega arith) (omega arith) peers).1,
    )
