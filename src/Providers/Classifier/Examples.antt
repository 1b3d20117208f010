-- ===== src/Providers/Classifier/Examples.antt =====
-- Messages of the kinds in pkg/providers/error_classifier_test.go.
use elvis.Base.{[], ◌∷◌, ◌≡◌, refl, some, none, true, codes}
use elvis.Providers.Types.{rate_limit, billing, auth, FailoverError}
use elvis.Providers.Classifier.{
  classify_text, is_image_size_error, RunError, failed_with, classify_error, first_status,
  status_pattern, extract_http_status,
}
use elvis.Strings.{to_lower, is_ascii}
use elvis.Strings.Sample.{ascii_only}
use elvis.Providers.Classifier.Http.{extract_http_status-status}
use elvis.Providers.Classifier.Reasons.{Classified, classify_error-Classified}

rate_limited : classify_text (codes "api error: status: 429 slow down") ≡ some (rate_limit, 429)
unfolding classify_text
rate_limited = refl

unpaid : classify_text (codes "error 402 here") ≡ some (billing, 0)
unfolding classify_text
unpaid = refl

bad_key : classify_text (codes "invalid api-key, invalid_api_key") ≡ some (auth, 0)
unfolding classify_text
bad_key = refl

large_image : is_image_size_error (codes "image exceeds 5 mb") ≡ true
unfolding is_image_size_error
large_image = refl

exhausted : classify_text (codes "resource has been exhausted") ≡ some (rate_limit, 0)
unfolding classify_text
exhausted = refl

unclassified : classify_text (codes "http 500 x") ≡ none
unfolding classify_text
unclassified = refl

abbrev too_fast : RunError
too_fast = failed_with (codes "Status: 429 Slow down")

abbrev too_fast_error : FailoverError RunError
too_fast_error = record {
  reason = rate_limit;
  provider = codes "groq";
  model = codes "llama";
  status = 429;
  wrapped = too_fast;
}

classified_by_status :
    classify_error (some too_fast) (codes "groq") (codes "llama") ≡ some too_fast_error
unfolding classify_error
classified_by_status = refl

classify_error-Classified_example :
    Classified too_fast (codes "groq") (codes "llama") too_fast_error
classify_error-Classified_example =
    classify_error-Classified too_fast (codes "groq") (codes "llama") too_fast_error
      classified_by_status

http_is_ascii : is_ascii (codes "HTTP 503 error") ≡ true
unfolding is_ascii
http_is_ascii = refl

extract_http_status-status_example :
    extract_http_status (to_lower (codes "HTTP 503 error"))
    ≡ first_status (status_pattern ∷ []) (to_lower (codes "HTTP 503 error"))
extract_http_status-status_example =
    extract_http_status-status (codes "HTTP 503 error") http_is_ascii
