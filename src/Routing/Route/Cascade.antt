-- ===== src/Routing/Route/Cascade.antt =====
-- The priority cascade of `ResolveRoute` (pkg/routing/route.go), against its specification.
use elvis.Base.{
  ◌≡◌, refl, sym, ap, subst₂, ◌∙◌, ◌⊎◌, inl, inr, Bool, true, false, ◌&&◌, not, List, [], ◌∷◌, ◌++◌,
  Option, none, some, All, is_nil, find?, Bool-cases, Option-cases, if◌then◌else◌, arith,
}
use elvis.Strings.{Unicode, trim_space}
use elvis.Routing.SessionKey.{RoutePeer}
use elvis.Routing.Route.{
  AgentBinding, Config, RouteInput, MatchedBy, by_peer, by_parent, by_guild, by_team, by_account,
  by_channel, by_default, is_peer_match, find_peer_match, is_guild_match, find_guild_match,
  is_team_match, find_team_match, is_account_match, find_account_match, is_wildcard_match,
  find_channel_wildcard_match, resolve_default_agent_id, choose, peer_tier, id_tier, else_tier,
  decide, relevant, resolve_route,
}

module _ ⦃u : Unicode⦄ where
  abbrev pub peer_test : Option RoutePeer → AgentBinding → Bool
  peer_test none b = false
  peer_test (some p) b = not (is_nil (trim_space p.id)) && is_peer_match p b

  -- Whether a binding answers a message at a tier.
  abbrev pub tier_test : MatchedBy → RouteInput → AgentBinding → Bool
  tier_test by_peer input = peer_test input.peer
  tier_test by_parent input = peer_test input.parent_peer
  tier_test by_guild input =
      λ b. not (is_nil (trim_space input.guild_id)) && is_guild_match (trim_space input.guild_id) b
  tier_test by_team input =
      λ b. not (is_nil (trim_space input.team_id)) && is_team_match (trim_space input.team_id) b
  tier_test by_account input = is_account_match
  tier_test by_channel input = is_wildcard_match
  tier_test by_default input = λ b. true

  -- The first of some bindings that passes a test.
  pub record IsFirst (test : AgentBinding → Bool) (bs : List AgentBinding) (b : AgentBinding)
      : Type 0 where
    pub before : List AgentBinding
    pub after : List AgentBinding
    pub split : bs ≡ before ++ b ∷ after
    pub rejected : All (λ x. test x ≡ false) before
    pub passed : test b ≡ true

  -- No binding passes the test of a tier.
  abbrev pub Rejects : List AgentBinding → RouteInput → MatchedBy → Type 0
  Rejects bs input t = All (λ b. tier_test t input b ≡ false) bs

  find?-IsFirst :
      (test : AgentBinding → Bool) (bs : List AgentBinding) {b : AgentBinding}
      → find? test bs ≡ some b
      → IsFirst test bs b
  find?-IsFirst test [] h = absurd (ground arith)
  find?-IsFirst test (x ∷ xs) {b} h = elim (Bool-cases (test x)) [
    | inl e ↦ record {
      before = [];
      after = xs;
      split = ap (λ y. y ∷ xs) (ground arith);
      rejected = tt;
      passed = (ground arith);
    }
    | inr e ↦
        let f = find?-IsFirst test xs {b = b} (ground arith) in
        record {
          before = x ∷ f.before;
          after = f.after;
          split = ap (◌∷◌ x) f.split;
          rejected = (e, f.rejected);
          passed = f.passed;
        }
  ]

  find?-none :
      (test : AgentBinding → Bool) (bs : List AgentBinding)
      → find? test bs ≡ none
      → All (λ b. test b ≡ false) bs
  find?-none test [] h = tt
  find?-none test (x ∷ xs) h = elim (Bool-cases (test x)) [
    | inl e ↦ absurd (ground arith)
    | inr e ↦ (e, find?-none test xs (ground arith))
  ]

  find?-never : {A : Type 0} (xs : List A) → find? (λ x. false) xs ≡ none
  find?-never [] = refl
  find?-never (x ∷ xs) = find?-never xs

  guarded-find? :
      (g : Bool) (test : AgentBinding → Bool) (bs : List AgentBinding)
      → (if g then none else find? test bs) ≡ find? (λ b. not g && test b) bs
  guarded-find? true test bs = sym (find?-never bs)
  guarded-find? false test bs = refl

  -- Each lookup of the code is a search by the test of its tier.
  peer_tier-find? :
      (bs : List AgentBinding) (p : Option RoutePeer) → peer_tier bs p ≡ find? (peer_test p) bs
  unfolding peer_tier find_peer_match
  peer_tier-find? bs none = sym (find?-never bs)
  peer_tier-find? bs (some p) = guarded-find? (is_nil (trim_space p.id)) (is_peer_match p) bs

  guild_tier-find? :
      (bs : List AgentBinding) (input : RouteInput)
      → id_tier find_guild_match bs input.guild_id ≡ find? (tier_test by_guild input) bs
  unfolding id_tier find_guild_match
  guild_tier-find? bs input = guarded-find? (is_nil (trim_space input.guild_id)) _ bs

  team_tier-find? :
      (bs : List AgentBinding) (input : RouteInput)
      → id_tier find_team_match bs input.team_id ≡ find? (tier_test by_team input) bs
  unfolding id_tier find_team_match
  team_tier-find? bs input = guarded-find? (is_nil (trim_space input.team_id)) _ bs

  -- The specification: the tiers in order, each by its test.
  abbrev pub first_tier :
      List AgentBinding → RouteInput → List MatchedBy → Option (AgentBinding × MatchedBy)
  first_tier bs input [] = none
  first_tier bs input (t ∷ ts) = else_tier (find? (tier_test t input) bs) t (first_tier bs input ts)

  abbrev pub tiers : List MatchedBy
  tiers = by_peer ∷ by_parent ∷ by_guild ∷ by_team ∷ by_account ∷ by_channel ∷ []

  decide-first_tier :
      (bs : List AgentBinding) (input : RouteInput) → decide bs input ≡ first_tier bs input tiers
  unfolding decide find_account_match find_channel_wildcard_match
  decide-first_tier bs input = rw (
    peer_tier-find? bs input.peer,
    peer_tier-find? bs input.parent_peer,
    guild_tier-find? bs input,
    team_tier-find? bs input,
  )

  -- A binding and its tier: the first binding that passes the tier's test, where no binding passes
  -- the test of a tier before it.
  abbrev pub Decides :
      List AgentBinding → RouteInput → List MatchedBy → AgentBinding → MatchedBy → Type 0
  Decides bs input ts b t =
      IsFirst (tier_test t input) bs b
      × ((before : List MatchedBy) × (after : List MatchedBy) × (ts ≡ before ++ t ∷ after)
          × All (Rejects bs input) before)

  first_tier-some :
      (bs : List AgentBinding) (input : RouteInput) (ts : List MatchedBy) {b : AgentBinding}
      {t : MatchedBy}
      → first_tier bs input ts ≡ some (b, t)
      → Decides bs input ts b t
  unfolding else_tier
  first_tier-some bs input [] h = absurd (ground arith)
  first_tier-some bs input (t ∷ ts) {b = b} {t = t'} h =
      elim (Option-cases (find? (tier_test t input) bs)) [
        | inr (x, e) ↦
            let same_binding : x ≡ b = ground arith in
            let same_tier : t ≡ t' = ground arith in
            subst₂ (λ y r. Decides bs input (t ∷ ts) y r) same_binding same_tier
              (find?-IsFirst (tier_test t input) bs e, ([], ts, refl, tt))
        | inl e ↦
            let (first, (before, after, split, rejected)) =
              first_tier-some bs input ts {b = b} {t = t'} (ground arith) in
            (
              first,
              (
                t ∷ before,
                after,
                ap (◌∷◌ t) split,
                (find?-none (tier_test t input) bs e, rejected),
              ),
            )
      ]

  first_tier-none :
      (bs : List AgentBinding) (input : RouteInput) (ts : List MatchedBy)
      → first_tier bs input ts ≡ none
      → All (Rejects bs input) ts
  unfolding else_tier
  first_tier-none bs input [] h = tt
  first_tier-none bs input (t ∷ ts) h = elim (Option-cases (find? (tier_test t input) bs)) [
    | inr (x, e) ↦ absurd (ground arith)
    | inl e ↦ (find?-none (tier_test t input) bs e, first_tier-none bs input ts (ground arith))
  ]

-- `ResolveRoute` follows its documented cascade. Either some tier has a binding for the message's
-- channel and account that fits: then the route is the one that is made for the agent of the first
-- such binding of the first such tier, and names this tier. Or no such binding fits at any tier: then
-- the route is made for the default agent.
pub resolve_route-cascade :
    ⦃u : Unicode⦄ (cfg : Config) (input : RouteInput)
    → let bs = relevant cfg input in
      ((b : AgentBinding) × (t : MatchedBy) × (resolve_route cfg input
          ≡ choose cfg input b.agent_id t)
        × Decides bs input tiers b t)
      ⊎ ((resolve_route cfg input
            ≡ choose cfg input (resolve_default_agent_id cfg.agents) by_default)
          × All (Rejects bs input) tiers)
unfolding resolve_route
resolve_route-cascade cfg input =
    let bs = relevant cfg input in
    elim (Option-cases (decide bs input)) [
      | inr ((b, t), e) ↦ inl (
        b,
        t,
        rw (e, resolve_route),
        first_tier-some bs input tiers (sym (decide-first_tier bs input) ∙ e),
      )
      | inl e ↦ inr (
        rw (e, resolve_route),
        first_tier-none bs input tiers (sym (decide-first_tier bs input) ∙ e),
      )
    ]
