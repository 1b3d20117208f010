-- ===== src/Providers/Fallback/Skipping.antt =====
-- How `Execute` (pkg/providers/fallback.go) uses the cooldown tracker.
use elvis.Base.{
  ℕ, ◌⊎◌, ◌≡◌, ◌≢◌, refl, ap, ◌∙◌, inl, inr, false, List, [], ◌∷◌, ◌++◌, map, append_assoc,
  append-nil, Text, lookup, All, Option-cases, Bool-cases, some, arith,
}
use elvis.Strings.{Unicode}
use elvis.Providers.Types.{FailoverReason, auth, is_retriable}
use elvis.Providers.Cooldown.{
  CooldownTracker, is_available, mark_failure, mark_success, error_count,
}
use elvis.Providers.Cooldown.Availability.{same_entry, lookup-mark_other}
use elvis.Providers.Classifier.{RunError, classify_error}
use elvis.Providers.Fallback.{
  FallbackCandidate, FallbackAttempt, exhausted, failure, Reply, response, error, Turn, Round,
  Outcome, continue, return, skip_attempt, after_error, after_run, round, execute_from, execute,
}

-- A tracker with nothing new but a mark on one provider.
abbrev MarkedOnly : Text → CooldownTracker → CooldownTracker → Type 0
MarkedOnly provider ct ct' =
    (ct' ≡ ct)
    ⊎ (((now : ℕ) × (r : FailoverReason) × (ct' ≡ mark_failure now provider r ct))
        ⊎ (ct' ≡ mark_success provider ct))

MarkedOnly-lookup :
    (provider other : Text) (ct : CooldownTracker) {ct' : CooldownTracker}
    → provider ≢ other
    → MarkedOnly provider ct ct'
    → lookup other ct'.entries ≡ lookup other ct.entries
MarkedOnly-lookup provider other ct ne (inl same) = ap (λ x. lookup other x.entries) same
MarkedOnly-lookup provider other ct ne (inr (inl (now, r, same))) =
    ap (λ x. lookup other x.entries) same ∙ (lookup-mark_other now provider other r ct ne).0
MarkedOnly-lookup provider other ct ne (inr (inr same)) =
    ap (λ x. lookup other x.entries) same ∙ (lookup-mark_other 0 provider other auth ct ne).1

module _ {R : Type 0} ⦃u : Unicode⦄ where
  abbrev pub Skips : CooldownTracker → FallbackCandidate × Turn R → Type 0
  Skips ct (c, t) =
      (t.canceled_before ≡ false) × (is_available t.available_at c.provider ct ≡ false)

  abbrev pub skip_all : CooldownTracker → List (FallbackCandidate × Turn R) → List FallbackAttempt
  skip_all ct = map (λ x. skip_attempt x.0 x.1 ct)

  skipped_from :
      (xs : List (FallbackCandidate × Turn R)) (ct : CooldownTracker)
      (attempts : List FallbackAttempt)
      → All (Skips ct) xs
      → execute_from xs ct attempts ≡ (ct, failure (exhausted (attempts ++ skip_all ct xs)))
  unfolding execute_from
  skipped_from [] ct attempts h = rw append-nil
  skipped_from ((c, t) ∷ xs) ct attempts ((alive, cooling), rest) =
      rw (round_skips, execute_from)
        (skipped_from xs ct (attempts ++ skip_attempt c t ct ∷ []) rest
          ∙ ap (λ as'. (ct, failure (exhausted as')))
              (append_assoc attempts (skip_attempt c t ct ∷ []) (skip_all ct xs)))
    where
      round_skips : round c t ct attempts ≡ continue ct (skip_attempt c t ct)
      round_skips = unfold round in ground arith

  abbrev tracker_of : Round R → CooldownTracker
  tracker_of (continue ct a) = ct
  tracker_of (return ct out) = ct

  after_error-MarkedOnly :
      (c : FallbackCandidate) (t : Turn R) (e : RunError) (ct : CooldownTracker)
      → MarkedOnly c.provider ct (tracker_of (after_error c t e ct))
  unfolding after_error
  after_error-MarkedOnly c t e ct =
      elim (Option-cases (classify_error (some e) c.provider c.model)) [
        | inl missing ↦ inl (rw (missing, after_error))
        | inr (f, is) ↦ elim (Bool-cases (is_retriable f)) [
          | inl again ↦ inr (inl (t.failed_at, f.reason, rw (is, again, after_error)))
          | inr final ↦ inl (rw (is, final, after_error))
        ]
      ]

  after_run-MarkedOnly :
      (c : FallbackCandidate) (t : Turn R) (reply : Reply R) (ct : CooldownTracker)
      (attempts : List FallbackAttempt)
      → MarkedOnly c.provider ct (tracker_of (after_run c t reply ct attempts))
  unfolding after_run
  after_run-MarkedOnly c t (response r) ct attempts = inr (inr refl)
  after_run-MarkedOnly c t (error e) ct attempts = elim (Bool-cases t.canceled_after) [
    | inl gone ↦ inl (rw (gone, after_run))
    | inr alive ↦ rw (alive, after_run) (after_error-MarkedOnly c t e ct)
  ]

  -- A round marks no provider but its candidate's.
  round-MarkedOnly :
      (c : FallbackCandidate) (t : Turn R) (ct : CooldownTracker) (attempts : List FallbackAttempt)
      → MarkedOnly c.provider ct (tracker_of (round c t ct attempts))
  unfolding round
  round-MarkedOnly c t ct attempts = elim (Bool-cases t.canceled_before) [
    | inl gone ↦ inl (rw (gone, round))
    | inr alive ↦ elim (Bool-cases (is_available t.available_at c.provider ct)) [
      | inl ready ↦ rw (alive, ready, round) (after_run-MarkedOnly c t t.reply ct attempts)
      | inr cooling ↦ inl (rw (alive, cooling, round))
    ]
  ]

  other_from :
      (xs : List (FallbackCandidate × Turn R)) (ct : CooldownTracker)
      (attempts : List FallbackAttempt) (other : Text)
      → All (λ x. x.0.provider ≢ other) xs
      → lookup other (execute_from xs ct attempts).0.entries ≡ lookup other ct.entries
  unfolding execute_from
  other_from [] ct attempts other h = refl
  other_from ((c, t) ∷ xs) ct attempts other (ne, rest) =
      go (round c t ct attempts)
        (MarkedOnly-lookup c.provider other ct ne (round-MarkedOnly c t ct attempts))
        (λ ct' as'. other_from xs ct' as' other rest)
    where
      go :
          (r : Round R)
          → lookup other (tracker_of r).entries ≡ lookup other ct.entries
          → ((ct' : CooldownTracker) (as' : List FallbackAttempt)
              → lookup other (execute_from xs ct' as').0.entries ≡ lookup other ct'.entries)
          → lookup other
              (elim r as (λ _. CooldownTracker × Outcome R) [
                | return ct' out ↦ (ct', out)
                | continue ct' attempt ↦ execute_from xs ct' (attempts ++ attempt ∷ [])
              ]).0.entries
            ≡ lookup other ct.entries
      go (return ct' out) h ih = h
      go (continue ct' attempt) h ih = ih ct' (attempts ++ attempt ∷ []) ∙ h

-- When every candidate's provider is in cooldown at its turn and nothing is canceled, `run` is never
-- called: the tracker stays as it was, and the error lists every candidate as skipped, with the time
-- that remains.
pub execute_when_cooling :
    {R : Type 0} ⦃u : Unicode⦄ (x : FallbackCandidate × Turn R)
    (xs : List (FallbackCandidate × Turn R)) (ct : CooldownTracker)
    → All (Skips ct) (x ∷ xs)
    → execute (x ∷ xs) ct ≡ (ct, failure (exhausted (skip_all ct (x ∷ xs))))
unfolding execute
execute_when_cooling x xs ct h = skipped_from (x ∷ xs) ct [] h

-- A run of the chain, whatever its outcome, leaves the availability and the error count of every
-- provider that is not among its candidates as they were.
pub execute_other_provider :
    {R : Type 0} ⦃u : Unicode⦄ (xs : List (FallbackCandidate × Turn R)) (ct : CooldownTracker)
    (other : Text) (later : ℕ)
    → All (λ x. x.0.provider ≢ other) xs
    → (is_available later other (execute xs ct).0 ≡ is_available later other ct)
      × (error_count other (execute xs ct).0 ≡ error_count other ct)
unfolding execute
execute_other_provider [] ct other later h = (refl, refl)
execute_other_provider (x ∷ xs) ct other later h =
    same_entry later other ct (execute_from (x ∷ xs) ct []).0 (other_from (x ∷ xs) ct [] other h)
