-- ===== src/Providers/Fallback/Rounds.antt =====
-- What one round of the loop of `Execute` (pkg/providers/fallback.go) does when it goes on, and the runs
-- of such rounds as a relation between trackers.
use elvis.Base.{
  ◌≡◌, refl, ◌⊎◌, inl, inr, true, false, some, List, [], ◌∷◌, Option-cases, Bool-cases, arith,
}
use elvis.Strings.{Unicode}
use elvis.Providers.Types.{FailoverError, is_retriable}
use elvis.Providers.Cooldown.{CooldownTracker, is_available, mark_failure}
use elvis.Providers.Classifier.{RunError, classify_error}
use elvis.Providers.Fallback.{
  FallbackCandidate, FallbackAttempt, classified, Outcome, Reply, response, error, Turn, Round,
  continue, return, skip_attempt, failed_attempt, after_error, after_run, round,
}

abbrev pub Pair : Type 0 → Type 0
Pair R = FallbackCandidate × Turn R

module _ {R : Type 0} ⦃u : Unicode⦄ where
  -- The candidate's provider is in cooldown.
  abbrev pub Skipped : CooldownTracker → Pair R → FallbackAttempt → CooldownTracker → Type 0
  Skipped ct (c, t) a ct' =
      (is_available t.available_at c.provider ct ≡ false) × (a ≡ skip_attempt c t ct) × (ct' ≡ ct)

  -- `run` was called and failed with an error that the classifier calls retriable.
  abbrev pub Failed : CooldownTracker → Pair R → FallbackAttempt → CooldownTracker → Type 0
  Failed ct (c, t) a ct' =
      (is_available t.available_at c.provider ct ≡ true)
      × ((e : RunError) × (f : FailoverError RunError) × (t.reply ≡ error e)
          × (t.canceled_after ≡ false)
          × (classify_error (some e) c.provider c.model ≡ some f)
          × (is_retriable f ≡ true)
          × (a ≡ failed_attempt c t (classified f) (some f.reason))
          × (ct' ≡ mark_failure t.failed_at c.provider f.reason ct))

  -- A round that the loop goes on from, with the attempt that it records and the tracker behind it.
  abbrev pub Step : CooldownTracker → Pair R → FallbackAttempt → CooldownTracker → Type 0
  Step ct x a ct' = (x.1.canceled_before ≡ false) × (Skipped ct x a ct' ⊎ Failed ct x a ct')

  -- Such rounds for all candidates of a list, in order.
  pub data Steps
      : CooldownTracker → List (Pair R) → List FallbackAttempt → CooldownTracker → Type 0 where
    done : {ct : CooldownTracker} → Steps ct [] [] ct
    step :
        {ct ct₁ ct₂ : CooldownTracker} {x : Pair R} {xs : List (Pair R)} {a : FallbackAttempt}
        {attempts : List FallbackAttempt}
        → Step ct x a ct₁
        → Steps ct₁ xs attempts ct₂
        → Steps ct (x ∷ xs) (a ∷ attempts) ct₂

  pub Round-cases :
      (r : Round R)
      → ((ct : CooldownTracker) × (a : FallbackAttempt) × (r ≡ continue ct a))
        ⊎ ((ct : CooldownTracker) × (out : Outcome R) × (r ≡ return ct out))
  Round-cases (continue ct a) = inl (ct, a, refl)
  Round-cases (return ct out) = inr (ct, out, refl)

  after_error-continue :
      (c : FallbackCandidate) (t : Turn R) (e : RunError) (ct : CooldownTracker)
      {ct' : CooldownTracker} {a : FallbackAttempt}
      → after_error c t e ct ≡ continue ct' a
      → (f : FailoverError RunError) × (classify_error (some e) c.provider c.model ≡ some f)
        × (is_retriable f ≡ true)
        × (a ≡ failed_attempt c t (classified f) (some f.reason))
        × (ct' ≡ mark_failure t.failed_at c.provider f.reason ct)
  unfolding after_error
  after_error-continue c t e ct h =
      elim (Option-cases (classify_error (some e) c.provider c.model)) [
        | inl missing ↦ absurd (ground arith)
        | inr (f, is) ↦ elim (Bool-cases (is_retriable f)) [
          | inl again ↦ (f, is, again, ground arith, ground arith)
          | inr final ↦ absurd (ground arith)
        ]
      ]

  reply-Failed :
      (c : FallbackCandidate) (t : Turn R) (reply : Reply R) (ct : CooldownTracker)
      (attempts : List FallbackAttempt) {ct' : CooldownTracker} {a : FallbackAttempt}
      → is_available t.available_at c.provider ct ≡ true
      → t.reply ≡ reply
      → after_run c t reply ct attempts ≡ continue ct' a
      → Failed ct (c, t) a ct'
  unfolding after_run
  reply-Failed c t (response r) ct attempts ready e h = absurd (ground arith)
  reply-Failed c t (error x) ct attempts ready e h = elim (Bool-cases t.canceled_after) [
    | inl gone ↦ absurd (ground arith)
    | inr alive ↦
        let (f, is, again, recorded, marked) =
          after_error-continue c t x ct (rw (alive, after_run) at h) in
        (ready, (x, f, e, alive, is, again, recorded, marked))
  ]

  pub round-Step :
      (c : FallbackCandidate) (t : Turn R) (ct : CooldownTracker) (attempts : List FallbackAttempt)
      {ct' : CooldownTracker} {a : FallbackAttempt}
      → round c t ct attempts ≡ continue ct' a
      → Step ct (c, t) a ct'
  unfolding round
  round-Step c t ct attempts h = elim (Bool-cases t.canceled_before) [
    | inl gone ↦ absurd (ground arith)
    | inr alive ↦ elim (Bool-cases (is_available t.available_at c.provider ct)) [
      | inl ready ↦
          (alive, inr (reply-Failed c t t.reply ct attempts ready refl (rw (alive, ready) at h)))
      | inr cooling ↦ (alive, inl (cooling, ground arith, ground arith))
    ]
  ]
