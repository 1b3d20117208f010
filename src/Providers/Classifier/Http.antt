-- ===== src/Providers/Classifier/Http.antt =====
-- The pattern for "HTTP" in `extractHTTPStatus` of pkg/providers/error_classifier.go, which stands in
-- upper case.
use elvis.Base.{
  ℕ, ◌≡◌, ◌≢◌, refl, true, false, [], ◌∷◌, Option, none, some, Text, All, ◌==◌, map, arith,
}
use elvis.Strings.{Unicode, to_lower, is_ascii, lower_byte}
use elvis.Strings.Lower.{IsLow, map-lower_byte-IsLow}
use elvis.Providers.Regex.{match_at, search_from, find_submatch}
use elvis.Providers.Classifier.{
  status_pattern, http_pattern, first_status, extract_http_status, parse_digits,
}

http_absent :
    (prev : Option ℕ) (s : Text) → All (λ c. c ≢ b'H') s → search_from http_pattern prev s ≡ none
unfolding search_from match_at
http_absent prev [] h = refl
http_absent prev (c ∷ s) (h, hs) =
    let other : (c == b'H') ≡ false = ground arith in
    rw (other, search_from, match_at) (http_absent (some c) s hs)

low-Lacks : (s : Text) → All IsLow s → All (λ c. c ≢ b'H') s
low-Lacks [] h = tt
low-Lacks (c ∷ s) (h, hs) = ((λ e. absurd (ground arith)), low-Lacks s hs)

status_only :
    (s : Text)
    → All (λ c. c ≢ b'H') s
    → first_status (status_pattern ∷ http_pattern ∷ []) s ≡ first_status (status_pattern ∷ []) s
unfolding first_status
status_only s h = go (find_submatch status_pattern s)
  where
    no_http : first_status (http_pattern ∷ []) s ≡ 0
    no_http = rw (http_absent none s h, first_status) refl

    go :
        (o : Option Text)
        → (elim o as (λ _. ℕ) [
          | some digits ↦ parse_digits digits
          | none ↦ first_status (http_pattern ∷ []) s
        ])
          ≡ (elim o as (λ _. ℕ) [ some digits ↦ parse_digits digits | none ↦ 0 ])
    go none = no_http
    go (some digits) = refl

-- An ASCII message that has been put in lower case, as `ClassifyError` does it, never matches the
-- pattern for "HTTP": only the pattern for "status" ever gives a status.
pub extract_http_status-status :
    ⦃u : Unicode⦄ (s : Text)
    → is_ascii s ≡ true
    → extract_http_status (to_lower s) ≡ first_status (status_pattern ∷ []) (to_lower s)
unfolding extract_http_status to_lower
extract_http_status-status s h =
    rw (h, to_lower) (status_only (map lower_byte s) (low-Lacks _ (map-lower_byte-IsLow s h)))
