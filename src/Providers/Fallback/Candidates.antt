-- ===== src/Providers/Fallback/Candidates.antt =====
-- `ResolveCandidates` of pkg/providers/fallback.go: a list without duplicates, in order.
use elvis.Base.{
  ◌≡◌, refl, subst, sym, ◌∙◌, inl, inr, Bool, true, false, ◌||◌, List, [], ◌∷◌, ◌++◌, append-nil,
  append_assoc, Text, any, All, text_eq, text_eq_iff, text_eq_refl, Option-cases, Bool-cases, none,
  some, arith,
}
use elvis.Strings.{Unicode}
use elvis.Providers.Types.{ModelConfig}
use elvis.Providers.ModelRef.{ModelReference, parse_model_ref, model_key}
use elvis.Providers.Fallback.{FallbackCandidate, add_candidates, resolve_candidates}

any-append {ℓ} :
    {A : Type ℓ} (p : A → Bool) (xs ys : List A) → any p (xs ++ ys) ≡ (any p xs || any p ys)
any-append p [] ys = refl
any-append p (x ∷ xs) ys = ground (arith, any-append p xs ys)

module _ ⦃u : Unicode⦄ where
  abbrev pub key : FallbackCandidate → Text
  key c = model_key c.provider c.model

  -- Whether a candidate with the key `k` is on a list.
  abbrev pub has_key : Text → List FallbackCandidate → Bool
  has_key k = any (λ c. text_eq k (key c))

  -- No key stands twice on a list.
  abbrev pub Distinct : List FallbackCandidate → Type 0
  Distinct [] = Unit
  Distinct (c ∷ cs) = (has_key (key c) cs ≡ false) × Distinct cs

  text_eq_sym : (s t : Text) → text_eq s t ≡ text_eq t s
  text_eq_sym s t = ground (arith, text_eq_iff s t, text_eq_iff t s)

  Distinct-concat :
      (cs : List FallbackCandidate) (c : FallbackCandidate)
      → Distinct cs
      → has_key (key c) cs ≡ false
      → Distinct (cs ++ c ∷ [])
  Distinct-concat [] c d h = (refl, tt)
  Distinct-concat (x ∷ cs) c (fresh, d) h = (
    ground
        (arith, any-append (λ y. text_eq (key x) (key y)) cs (c ∷ []), text_eq_sym (key x) (key c)),
    Distinct-concat cs c d (ground arith),
  )

  -- The keys seen are those of the candidates so far.
  abbrev SameKeys : List Text → List FallbackCandidate → Type 0
  SameKeys seen out = (k : Text) → any (text_eq k) seen ≡ has_key k out

  SameKeys-cons :
      (seen : List Text) (out : List FallbackCandidate) (c : FallbackCandidate)
      → SameKeys seen out
      → SameKeys (key c ∷ seen) (out ++ c ∷ [])
  SameKeys-cons seen out c h =
      λ k. ground (arith, h k, any-append (λ y. text_eq k (key y)) out (c ∷ []))

  add_candidates-Distinct :
      (refs : List Text) (default_provider : Text) (seen : List Text) (out : List FallbackCandidate)
      → SameKeys seen out
      → Distinct out
      → Distinct (add_candidates refs default_provider seen out)
  unfolding add_candidates
  add_candidates-Distinct [] dp seen out h d = d
  add_candidates-Distinct (raw_ref ∷ refs) dp seen out h d =
      elim (Option-cases (parse_model_ref raw_ref dp)) [
        | inl e ↦ rw (e, add_candidates) (add_candidates-Distinct refs dp seen out h d)
        | inr (r, e) ↦ elim (Bool-cases (any (text_eq (model_key r.provider r.model)) seen)) [
          | inl old ↦ rw (e, old, add_candidates) (add_candidates-Distinct refs dp seen out h d)
          | inr new ↦
              rw (e, new, add_candidates)
                (add_candidates-Distinct refs dp _ _
                  (SameKeys-cons seen out (record { provider = r.provider; model = r.model }) h)
                  (Distinct-concat out _ d (sym (h _) ∙ new)))
        ]
      ]

  add_candidates-keeps :
      (refs : List Text) (default_provider : Text) (seen : List Text) (out : List FallbackCandidate)
      → (new : List FallbackCandidate) × (add_candidates refs default_provider seen out
          ≡ out ++ new)
  unfolding add_candidates
  add_candidates-keeps [] dp seen out = ([], sym (append-nil out))
  add_candidates-keeps (raw_ref ∷ refs) dp seen out =
      elim (Option-cases (parse_model_ref raw_ref dp)) [
        | inl e ↦ rw (e, add_candidates) (add_candidates-keeps refs dp seen out)
        | inr (r, e) ↦ elim (Bool-cases (any (text_eq (model_key r.provider r.model)) seen)) [
          | inl old ↦ rw (e, old, add_candidates) (add_candidates-keeps refs dp seen out)
          | inr new ↦
              let c : FallbackCandidate = record { provider = r.provider; model = r.model } in
              let (more, same) = add_candidates-keeps refs dp (key c ∷ seen) (out ++ c ∷ []) in
              (c ∷ more, rw (e, new, add_candidates) (same ∙ append_assoc out (c ∷ []) more))
        ]
      ]

  -- A reference that parses is on the list, itself or by one with the same key.
  abbrev pub Represented : Text → List FallbackCandidate → Text → Type 0
  Represented default_provider cs raw_ref =
      (r : ModelReference)
      → parse_model_ref raw_ref default_provider ≡ some r
      → has_key (model_key r.provider r.model) cs ≡ true

  has_key-append :
      (k : Text) (xs ys : List FallbackCandidate)
      → has_key k xs ≡ true
      → has_key k (xs ++ ys) ≡ true
  has_key-append k xs ys h = ground (arith, any-append (λ y. text_eq k (key y)) xs ys)

  module _ (raw_ref : Text) (refs : List Text) (dp : Text) (seen : List Text)
      (out : List FallbackCandidate) where
    step_missing :
        parse_model_ref raw_ref dp ≡ none
        → add_candidates (raw_ref ∷ refs) dp seen out ≡ add_candidates refs dp seen out
    unfolding add_candidates
    step_missing e = rw (e, add_candidates)

    step_old :
        {r : ModelReference}
        → parse_model_ref raw_ref dp ≡ some r
        → any (text_eq (model_key r.provider r.model)) seen ≡ true
        → add_candidates (raw_ref ∷ refs) dp seen out ≡ add_candidates refs dp seen out
    unfolding add_candidates
    step_old e old = rw (e, old, add_candidates)

    step_new :
        {r : ModelReference}
        → parse_model_ref raw_ref dp ≡ some r
        → any (text_eq (model_key r.provider r.model)) seen ≡ false
        → let c : FallbackCandidate = record { provider = r.provider; model = r.model } in
          add_candidates (raw_ref ∷ refs) dp seen out
          ≡ add_candidates refs dp (key c ∷ seen) (out ++ c ∷ [])
    unfolding add_candidates
    step_new e new = rw (e, new, add_candidates)

  -- One more reference is represented, and so are those behind it, on the same list.
  Represented-cons :
      (raw_ref : Text) (refs : List Text) (dp : Text) (cs cs' : List FallbackCandidate)
      → cs ≡ cs'
      → Represented dp cs' raw_ref
      → All (Represented dp cs') refs
      → All (Represented dp cs) (raw_ref ∷ refs)
  Represented-cons raw_ref refs dp cs cs' e h hs =
      subst (λ l. All (Represented dp l) (raw_ref ∷ refs)) (sym e) (h, hs)

  has_key-add_candidates :
      (k : Text) (refs : List Text) (dp : Text) (seen : List Text) (out : List FallbackCandidate)
      → has_key k out ≡ true
      → has_key k (add_candidates refs dp seen out) ≡ true
  has_key-add_candidates k refs dp seen out h =
      let (new, same) = add_candidates-keeps refs dp seen out in
      rw same (has_key-append k out new h)

  has_key-last :
      (out : List FallbackCandidate) (c : FallbackCandidate)
      → has_key (key c) (out ++ c ∷ []) ≡ true
  has_key-last out c =
      ground (arith, any-append (λ y. text_eq (key c) (key y)) out (c ∷ []), text_eq_refl (key c))

  -- What a reference parses to is one thing.
  Represented-of :
      (raw_ref dp : Text) (cs : List FallbackCandidate) {r : ModelReference}
      → parse_model_ref raw_ref dp ≡ some r
      → has_key (model_key r.provider r.model) cs ≡ true
      → Represented dp cs raw_ref
  Represented-of raw_ref dp cs {r} e h = λ q is.
      let same : r ≡ q = cc in subst (λ m. has_key (model_key m.provider m.model) cs ≡ true) same h

  add_candidates-Represented :
      (refs : List Text) (default_provider : Text) (seen : List Text) (out : List FallbackCandidate)
      → SameKeys seen out
      → All (Represented default_provider (add_candidates refs default_provider seen out)) refs
  add_candidates-Represented [] dp seen out h = tt
  add_candidates-Represented (raw_ref ∷ refs) dp seen out h =
      elim (Option-cases (parse_model_ref raw_ref dp)) [
        | inl e ↦
            Represented-cons raw_ref refs dp _ _ (step_missing raw_ref refs dp seen out e)
              (λ r is. absurd (ground arith)) (add_candidates-Represented refs dp seen out h)
        | inr (r, e) ↦
            let c : FallbackCandidate = record { provider = r.provider; model = r.model } in
            elim (Bool-cases (any (text_eq (key c)) seen)) [
              | inl old ↦
                  Represented-cons raw_ref refs dp _ _ (step_old raw_ref refs dp seen out e old)
                    (Represented-of raw_ref dp _ e
                      (has_key-add_candidates (key c) refs dp seen out (sym (h (key c)) ∙ old)))
                    (add_candidates-Represented refs dp seen out h)
              | inr new ↦
                  Represented-cons raw_ref refs dp _ _ (step_new raw_ref refs dp seen out e new)
                    (Represented-of raw_ref dp _ e
                      (has_key-add_candidates (key c) refs dp _ _ (has_key-last out c)))
                    (add_candidates-Represented refs dp (key c ∷ seen) (out ++ c ∷ [])
                      (SameKeys-cons seen out c h))
            ]
      ]

-- The candidates have pairwise different keys, and every reference of the configuration that parses,
-- primary or fallback, is on the list, itself or by one with the same key.
pub resolve_candidates-Distinct :
    ⦃u : Unicode⦄ (cfg : ModelConfig) (default_provider : Text)
    → let cs = resolve_candidates cfg default_provider in
      Distinct cs × All (Represented default_provider cs) (cfg.primary ∷ cfg.fallbacks)
unfolding resolve_candidates
resolve_candidates-Distinct cfg dp = (
  add_candidates-Distinct (cfg.primary ∷ cfg.fallbacks) dp [] [] (λ k. refl) tt,
  add_candidates-Represented (cfg.primary ∷ cfg.fallbacks) dp [] [] (λ k. refl),
)

-- The primary model, if its reference parses, is the first candidate.
pub resolve_candidates-primary :
    ⦃u : Unicode⦄ (cfg : ModelConfig) (default_provider : Text) {r : ModelReference}
    → parse_model_ref cfg.primary default_provider ≡ some r
    → (rest : List FallbackCandidate) × (resolve_candidates cfg default_provider
        ≡ record { provider = r.provider; model = r.model } ∷ rest)
unfolding resolve_candidates
resolve_candidates-primary cfg dp {r} e =
    let c : FallbackCandidate = record { provider = r.provider; model = r.model } in
    let (new, same) = add_candidates-keeps cfg.fallbacks dp (key c ∷ []) (c ∷ []) in
    (new, step_new cfg.primary cfg.fallbacks dp [] [] e refl ∙ same)
