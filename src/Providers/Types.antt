-- ===== src/Providers/Types.antt =====
-- pkg/providers/types.go: why a request failed.
use elvis.Base.{ℕ, Bool, true, false, Text, List, ◌==◌}

-- The values of the string type `FailoverReason`; its empty string is an `Option`'s `none`.
pub data FailoverReason : Type 0 where
  auth rate_limit billing timeout format overloaded unknown : FailoverReason

abbrev rank : FailoverReason → ℕ
rank auth = 0
rank rate_limit = 1
rank billing = 2
rank timeout = 3
rank format = 4
rank overloaded = 5
rank unknown = 6

-- Equality of the strings.
abbrev pub reason_eq : FailoverReason → FailoverReason → Bool
reason_eq r q = rank r == rank q

abbrev pub is_billing : FailoverReason → Bool
is_billing billing = true
is_billing _ = false

-- `FailoverError`, over the type of the error that it wraps.
pub record FailoverError (E : Type 0) : Type 0 where
  pub reason : FailoverReason
  pub provider : Text
  pub model : Text
  pub status : ℕ
  pub wrapped : E

abbrev not_format : FailoverReason → Bool
not_format format = false
not_format _ = true

unfoldable pub is_retriable : {E : Type 0} → FailoverError E → Bool
is_retriable e = not_format e.reason

pub record ModelConfig : Type 0 where
  pub primary : Text
  pub fallbacks : List Text
