-- ===== src/Strings/Sample.antt =====
-- A table of lower-case letters for tests: it leaves every text with other bytes than ASCII as it is.
use elvis.Strings.{Unicode}

instance abbrev pub ascii_only : Unicode
ascii_only = record { lower_unicode = λ s. s }
