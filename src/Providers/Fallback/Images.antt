-- ===== src/Providers/Fallback/Images.antt =====
-- `ExecuteImage` of pkg/providers/fallback.go.
use elvis.Base.{
  ◌≡◌, refl, ap, ◌∙◌, ◌⊎◌, inl, inr, Bool, false, ◌||◌, List, [], ◌∷◌, ◌++◌, append_assoc,
  append-nil, Bool-cases, arith,
}
use elvis.Strings.{Unicode, to_lower}
use elvis.Providers.Classifier.{RunError, message, is_image_dimension_error, is_image_size_error}
use elvis.Providers.Fallback.{
  FallbackCandidate, FallbackAttempt, raw, exhausted, failure, Reply, response, error, Turn,
  image_round, execute_image_from, execute_image,
}

Sum-cases : {A B : Type 0} (s : A ⊎ B) → ((a : A) × (s ≡ inl a)) ⊎ ((b : B) × (s ≡ inr b))
Sum-cases (inl a) = inl (a, refl)
Sum-cases (inr b) = inr (b, refl)

-- An image error of the endpoint: one that would fail for every candidate.
abbrev pub is_image_error : ⦃u : Unicode⦄ → RunError → Bool
is_image_error e =
    is_image_dimension_error (to_lower (message e)) || is_image_size_error (to_lower (message e))

module _ {R : Type 0} ⦃u : Unicode⦄ where
  -- The candidate was called, failed with another error than an image error, and is recorded so.
  abbrev pub ImageTried : FallbackCandidate × Turn R → FallbackAttempt → Type 0
  ImageTried (c, t) a =
      (t.canceled_before ≡ false)
      × (a.provider ≡ c.provider)
      × (a.model ≡ c.model)
      × (a.skipped ≡ false)
      × ((e : RunError) × (t.reply ≡ error e) × (is_image_error e ≡ false) × (a.error ≡ raw e))

  abbrev pub AllImageTried : List (FallbackCandidate × Turn R) → List FallbackAttempt → Type 0
  AllImageTried [] [] = Unit
  AllImageTried [] (a ∷ as') = ⊥
  AllImageTried (x ∷ xs) [] = ⊥
  AllImageTried (x ∷ xs) (a ∷ as') = ImageTried x a × AllImageTried xs as'

  round-ImageTried :
      (c : FallbackCandidate) (t : Turn R) (reply : Reply R) (attempts : List FallbackAttempt)
      {a : FallbackAttempt}
      → t.canceled_before ≡ false
      → t.reply ≡ reply
      → image_round c t reply attempts ≡ inr a
      → ImageTried (c, t) a
  unfolding image_round
  round-ImageTried c t (response r) attempts alive e h = absurd (ground arith)
  round-ImageTried c t (error x) attempts alive e h =
      (alive, ground arith, ground arith, ground arith, (x, e, ground arith, ground arith))

  round-not-exhausted :
      (c : FallbackCandidate) (t : Turn R) (reply : Reply R) (attempts : List FallbackAttempt)
      {all_attempts : List FallbackAttempt}
      → image_round c t reply attempts ≡ inl (failure (exhausted all_attempts))
      → ⊥
  unfolding image_round
  round-not-exhausted c t (response r) attempts h = ground arith
  round-not-exhausted c t (error x) attempts h = ground arith

  exhausted_image_from :
      (xs : List (FallbackCandidate × Turn R)) (attempts : List FallbackAttempt)
      {all_attempts : List FallbackAttempt}
      → execute_image_from xs attempts ≡ failure (exhausted all_attempts)
      → (new : List FallbackAttempt) × (all_attempts ≡ attempts ++ new) × AllImageTried xs new
  unfolding execute_image_from
  exhausted_image_from [] attempts h = ([], cc (append-nil attempts), tt)
  exhausted_image_from ((c, t) ∷ xs) attempts h = elim (Bool-cases t.canceled_before) [
    | inl gone ↦ absurd (ground arith)
    | inr alive ↦ elim (Sum-cases (image_round c t t.reply attempts)) [
      | inl (out, e) ↦ absurd (
          round-not-exhausted c t t.reply attempts
            (e ∙ ap inl (rw (alive, e, execute_image_from) at h)))
      | inr (a, e) ↦
          let (new, same, tried) =
            exhausted_image_from xs (attempts ++ a ∷ []) (rw (alive, e, execute_image_from) at h) in
          (
            a ∷ new,
            same ∙ append_assoc attempts (a ∷ []) new,
            (round-ImageTried c t t.reply attempts alive refl e, tried),
          )
    ]
  ]

-- When `ExecuteImage` returns the error that all candidates failed, every one of them was called, in
-- order, and failed with an error about neither the dimensions nor the size of the image.
pub execute_image-exhausted :
    {R : Type 0} ⦃u : Unicode⦄ (xs : List (FallbackCandidate × Turn R))
    {attempts : List FallbackAttempt}
    → execute_image xs ≡ failure (exhausted attempts)
    → AllImageTried xs attempts
unfolding execute_image
execute_image-exhausted [] h = absurd (ground arith)
execute_image-exhausted (x ∷ xs) {attempts} h =
    let (new, same, tried) = exhausted_image_from (x ∷ xs) [] h in rw same tried
