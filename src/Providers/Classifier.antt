-- ===== src/Providers/Classifier.antt =====
-- pkg/providers/error_classifier.go: the reason of a failed request, by its error's message.
use Prim.Native.String.{String}
pub mod Http
pub mod Reasons
mod Examples
use elvis.Base.{
  ℕ, ◌+◌, ◌-◌, ◌*◌, Bool, true, false, ◌&&◌, ◌||◌, List, [], ◌∷◌, ◌++◌, Option, none, some, Text,
  codes, any, leb, ltb, ◌==◌, is_nil, if◌then◌else◌,
}
use elvis.Strings.{Unicode, to_lower, contains}
use elvis.Providers.Types.{
  FailoverReason, auth, rate_limit, billing, timeout, format, FailoverError,
}
use elvis.Providers.Regex.{
  Piece, one, capture, maybe, star, boundary, is_digit, is_re_space, match_string, find_submatch,
  word, exact, class_of, dot,
}

-- A Go error: the two values of package context that the code compares with, or any other error,
-- which is known by its message.
pub data RunError : Type 0 where
  canceled deadline_exceeded : RunError
  failed_with : Text → RunError

abbrev pub message : RunError → Text
message canceled = codes "context canceled"
message deadline_exceeded = codes "context deadline exceeded"
message (failed_with s) = s

pub data ErrorPattern : Type 0 where
  substr : String → ErrorPattern
  rxp : List Piece → ErrorPattern

abbrev pub rate_limit_patterns : List ErrorPattern
rate_limit_patterns =
    rxp (word "rate" ++ one (class_of "_ ") ∷ word "limit")
    ∷ substr "too many requests"
    ∷ substr "429"
    ∷ substr "exceeded your current quota"
    ∷ rxp (word "exceeded" ++ star dot ∷ word "quota")
    ∷ rxp (word "resource has been exhausted")
    ∷ rxp (word "resource" ++ star dot ∷ word "exhausted")
    ∷ substr "resource_exhausted"
    ∷ substr "quota exceeded"
    ∷ substr "usage limit"
    ∷ []

abbrev pub overloaded_patterns : List ErrorPattern
overloaded_patterns =
    rxp (word "overloaded_error")
    ∷ rxp (
        word "\"type\""
        ++ star is_re_space ∷ word ":"
        ++ star is_re_space ∷ word "\"overloaded_error\"")
    ∷ substr "overloaded"
    ∷ []

abbrev pub timeout_patterns : List ErrorPattern
timeout_patterns =
    substr "timeout"
    ∷ substr "timed out"
    ∷ substr "deadline exceeded"
    ∷ substr "context deadline exceeded"
    ∷ []

abbrev pub billing_patterns : List ErrorPattern
billing_patterns =
    rxp (boundary ∷ word "402" ++ boundary ∷ [])
    ∷ substr "payment required"
    ∷ substr "insufficient credits"
    ∷ substr "credit balance"
    ∷ substr "plans & billing"
    ∷ substr "insufficient balance"
    ∷ []

abbrev pub auth_patterns : List ErrorPattern
auth_patterns =
    rxp (word "invalid" ++ maybe (class_of "_ ") ∷ word "api" ++ maybe (class_of "_ ") ∷ word "key")
    ∷ substr "incorrect api key"
    ∷ substr "invalid token"
    ∷ substr "authentication"
    ∷ substr "re-authenticate"
    ∷ substr "oauth token refresh failed"
    ∷ substr "unauthorized"
    ∷ substr "forbidden"
    ∷ substr "access denied"
    ∷ substr "expired"
    ∷ substr "token has expired"
    ∷ rxp (boundary ∷ word "401" ++ boundary ∷ [])
    ∷ rxp (boundary ∷ word "403" ++ boundary ∷ [])
    ∷ substr "no credentials found"
    ∷ substr "no api key found"
    ∷ []

abbrev pub format_patterns : List ErrorPattern
format_patterns =
    substr "string should match pattern"
    ∷ substr "tool_use.id"
    ∷ substr "tool_use_id"
    ∷ substr "messages.1.content.1.tool_use.id"
    ∷ substr "invalid request format"
    ∷ []

abbrev pub image_dimension_patterns : List ErrorPattern
image_dimension_patterns = rxp (word "image dimensions exceed max") ∷ []

abbrev pub image_size_patterns : List ErrorPattern
image_size_patterns = rxp (word "image exceeds" ++ star dot ∷ word "mb") ∷ []

-- No pattern of the code is the empty string, which `matchesAny` would pass over.
unfoldable pub matches : Text → ErrorPattern → Bool
unfolding match_string contains
matches msg (rxp ps) = match_string ps msg
matches msg (substr s) = contains msg (codes s)

unfoldable pub matches_any : Text → List ErrorPattern → Bool
unfolding matches
matches_any msg patterns = any (matches msg) patterns

unfoldable pub is_image_dimension_error : Text → Bool
unfolding matches_any
is_image_dimension_error msg = matches_any msg image_dimension_patterns

unfoldable pub is_image_size_error : Text → Bool
unfolding matches_any
is_image_size_error msg = matches_any msg image_size_patterns

abbrev pub transient_status_codes : List ℕ
transient_status_codes = 500 ∷ 502 ∷ 503 ∷ 521 ∷ 522 ∷ 523 ∷ 524 ∷ 529 ∷ []

-- The empty reason is `none`.
unfoldable pub classify_by_status : ℕ → Option FailoverReason
classify_by_status status =
    if status == 401 || status == 403
    then some auth
    else if status == 402
    then some billing
    else if status == 408
    then some timeout
    else if status == 429
    then some rate_limit
    else if status == 400
    then some format
    else if any (λ c. c == status) transient_status_codes
    then some timeout
    else none

unfoldable pub classify_by_message : Text → Option FailoverReason
unfolding matches_any
classify_by_message msg =
    if matches_any msg rate_limit_patterns
    then some rate_limit
    else if matches_any msg overloaded_patterns
    then some rate_limit
    else if matches_any msg billing_patterns
    then some billing
    else if matches_any msg timeout_patterns
    then some timeout
    else if matches_any msg auth_patterns
    then some auth
    else if matches_any msg format_patterns
    then some format
    else none

-- `parseDigits`
unfoldable pub parse_from : ℕ → Text → ℕ
parse_from n [] = n
parse_from n (c ∷ s) = parse_from (if is_digit c then n * 10 + (c - b'0') else n) s

unfoldable pub parse_digits : Text → ℕ
unfolding parse_from
parse_digits s = parse_from 0 s

-- `(\d{3})`
abbrev pub three_digits : List Piece
three_digits = capture is_digit ∷ capture is_digit ∷ capture is_digit ∷ []

abbrev pub is_separator : ℕ → Bool
is_separator c = c == b':' || is_re_space c

-- `status[:\s]+(\d{3})`
abbrev pub status_pattern : List Piece
status_pattern = exact "status" ++ one is_separator ∷ star is_separator ∷ three_digits

abbrev pub is_slash_or_space : ℕ → Bool
is_slash_or_space c = c == b'/' || is_re_space c

-- `HTTP[/\s]+\d*\.?\d*\s+(\d{3})`
abbrev pub http_pattern : List Piece
http_pattern =
    exact "HTTP"
    ++ one is_slash_or_space
      ∷ star is_slash_or_space
      ∷ star is_digit
      ∷ maybe (class_of ".")
      ∷ star is_digit
      ∷ one is_re_space
      ∷ star is_re_space
      ∷ three_digits

-- The loop over the patterns; 0 where none is found.
unfoldable pub first_status : List (List Piece) → Text → ℕ
unfolding match_string parse_digits
first_status [] msg = 0
first_status (p ∷ ps) msg = elim (find_submatch p msg) [
  | some digits ↦ parse_digits digits
  | none ↦ first_status ps msg
]

unfoldable pub extract_http_status : Text → ℕ
unfolding first_status
extract_http_status msg = first_status (status_pattern ∷ http_pattern ∷ []) msg

-- The reason and the status that the message of an error gives, after lower-casing.
unfoldable pub classify_text : Text → Option (FailoverReason × ℕ)
unfolding is_image_dimension_error is_image_size_error extract_http_status classify_by_status
    classify_by_message
classify_text msg =
    if is_image_dimension_error msg || is_image_size_error msg
    then some (format, 0)
    else let status = extract_http_status msg in
      elim (if ltb 0 status then classify_by_status status else none) [
        | some r ↦ some (r, status)
        | none ↦ elim (classify_by_message msg) [ some r ↦ some (r, 0) | none ↦ none ]
      ]

abbrev wrap : RunError → Text → Text → Option (FailoverReason × ℕ) → Option (FailoverError RunError)
wrap e provider model none = none
wrap e provider model (some (r, status)) =
    some (record { reason = r; provider = provider; model = model; status = status; wrapped = e })

unfoldable pub classify_error :
    ⦃u : Unicode⦄ → Option RunError → Text → Text → Option (FailoverError RunError)
unfolding to_lower classify_text
classify_error none provider model = none
classify_error (some canceled) provider model = none
classify_error (some deadline_exceeded) provider model =
    wrap deadline_exceeded provider model (some (timeout, 0))
classify_error (some (failed_with s)) provider model =
    wrap (failed_with s) provider model (classify_text (to_lower s))
