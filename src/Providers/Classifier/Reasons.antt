-- ===== src/Providers/Classifier/Reasons.antt =====
-- What `ClassifyError` of pkg/providers/error_classifier.go can return.
use elvis.Base.{
  ℕ, ◌≡◌, ◌≢◌, refl, subst, ◌⊎◌, inl, inr, Bool, true, false, ◌||◌, Option, none, some, Text, ltb,
  Bool-cases, arith,
}
use elvis.Strings.{Unicode, to_lower}
use elvis.Providers.Types.{FailoverReason, timeout, overloaded, unknown, FailoverError}
use elvis.Providers.Classifier.{
  RunError, canceled, deadline_exceeded, failed_with, is_image_dimension_error, is_image_size_error,
  extract_http_status, classify_by_status, classify_by_message, classify_text, classify_error, wrap,
}

-- The reasons that the classifier gives.
abbrev pub is_given : FailoverReason → Bool
is_given overloaded = false
is_given unknown = false
is_given _ = true

abbrev all_given : Option FailoverReason → Bool
all_given none = true
all_given (some r) = is_given r

given_by_status : (status : ℕ) → all_given (classify_by_status status) ≡ true
unfolding classify_by_status
given_by_status status = ground arith

given_by_message : (msg : Text) → all_given (classify_by_message msg) ≡ true
unfolding classify_by_message
given_by_message msg = ground arith

-- A status is given only with the reason that the table of statuses has for it.
abbrev Fits : Option (FailoverReason × ℕ) → Type 0
Fits none = Unit
Fits (some (r, status)) =
    (is_given r ≡ true) × ((status ≡ 0) ⊎ (classify_by_status status ≡ some r))

by_message-Fits :
    (o : Option FailoverReason)
    → all_given o ≡ true
    → Fits (elim o as (λ _. Option (FailoverReason × ℕ)) [ some r ↦ some (r, 0) | none ↦ none ])
by_message-Fits none h = tt
by_message-Fits (some r) h = (h, inl refl)

by_status-Fits :
    (msg : Text) (status : ℕ) (o : Option FailoverReason)
    → all_given o ≡ true
    → ((r : FailoverReason) → o ≡ some r → classify_by_status status ≡ some r)
    → Fits (elim o as (λ _. Option (FailoverReason × ℕ)) [
      | some r ↦ some (r, status)
      | none ↦ elim (classify_by_message msg) as (λ _. Option (FailoverReason × ℕ)) [
        | some r ↦ some (r, 0)
        | none ↦ none
      ]
    ])
by_status-Fits msg status none h k =
    by_message-Fits (classify_by_message msg) (given_by_message msg)
by_status-Fits msg status (some r) h k = (h, inr (k r refl))

classify_text-Fits : (msg : Text) → Fits (classify_text msg)
unfolding classify_text
classify_text-Fits msg =
    elim (Bool-cases (is_image_dimension_error msg || is_image_size_error msg)) [
      | inl image ↦ rw (image, classify_text) (refl, inl refl)
      | inr plain ↦ elim (Bool-cases (ltb 0 (extract_http_status msg))) [
        | inl found ↦
            rw (plain, found, classify_text)
              (by_status-Fits msg (extract_http_status msg)
                (classify_by_status (extract_http_status msg))
                (given_by_status (extract_http_status msg)) (λ r e. e))
        | inr missing ↦
            rw (plain, missing, classify_text)
              (by_message-Fits (classify_by_message msg) (given_by_message msg))
      ]
    ]

-- What a classified error has in common with the error that it was made from.
abbrev pub Classified : RunError → Text → Text → FailoverError RunError → Type 0
Classified e provider model f =
    (f.provider ≡ provider)
    × (f.model ≡ model)
    × (f.wrapped ≡ e)
    × (e ≢ canceled)
    × (is_given f.reason ≡ true)
    × ((f.status ≡ 0) ⊎ (classify_by_status f.status ≡ some f.reason))

abbrev ClassifiedOrNone : RunError → Text → Text → Option (FailoverError RunError) → Type 0
ClassifiedOrNone e provider model none = Unit
ClassifiedOrNone e provider model (some f) = Classified e provider model f

wrap-ClassifiedOrNone :
    (e : RunError) (provider model : Text) (o : Option (FailoverReason × ℕ))
    → e ≢ canceled
    → Fits o
    → ClassifiedOrNone e provider model (wrap e provider model o)
wrap-ClassifiedOrNone e provider model none ne h = tt
wrap-ClassifiedOrNone e provider model (some (r, status)) ne (given, fits) =
    (refl, refl, refl, ne, given, fits)

-- An error that `ClassifyError` classifies keeps the provider, the model and the error that it was given,
-- and this was no cancellation. Its reason is never "overloaded" or "unknown", and its status is 0 or
-- one that the table of statuses has this reason for.
pub classify_error-Classified :
    ⦃u : Unicode⦄ (e : RunError) (provider model : Text) (f : FailoverError RunError)
    → classify_error (some e) provider model ≡ some f
    → Classified e provider model f
unfolding classify_error
classify_error-Classified canceled provider model f h = absurd (ground arith)
classify_error-Classified deadline_exceeded provider model f h =
    subst (ClassifiedOrNone deadline_exceeded provider model) h (
      wrap-ClassifiedOrNone deadline_exceeded provider model (some (timeout, 0))
        (λ e. absurd (ground arith)) (refl, inl refl))
classify_error-Classified (failed_with s) provider model f h =
    subst (ClassifiedOrNone (failed_with s) provider model) h (
      wrap-ClassifiedOrNone (failed_with s) provider model (classify_text (to_lower s))
        (λ e. absurd (ground arith)) (classify_text-Fits (to_lower s)))
