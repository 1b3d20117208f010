-- ===== src/Providers/Cooldown.antt =====
-- pkg/providers/cooldown.go: the cooldown of each provider.
-- A time is its nanoseconds, and 0 is the zero time; a duration is nanoseconds too. The clock is read
-- once by each method, so its value is an argument. The counters are Go ints, left unbounded.
pub mod Backoff
pub mod Availability
pub mod Counts
mod Examples
use elvis.Base.{
  ℕ, suc, ◌+◌, ◌-◌, ◌*◌, ◌^◌, min, max, Bool, true, false, ◌&&◌, not, Option, none, some, [], Text,
  Dict, lookup, insert, ltb, ◌==◌, if◌then◌else◌,
}
use elvis.Providers.Types.{FailoverReason, billing, reason_eq, is_billing}

abbrev pub millisecond : ℕ
millisecond = 1_000_000

abbrev pub minute : ℕ
minute = 60_000 * millisecond

abbrev pub hour : ℕ
hour = 60 * minute

abbrev pub default_failure_window : ℕ
default_failure_window = 24 * hour

pub record CooldownEntry : Type 0 where
  pub error_count : ℕ
  pub failure_counts : FailoverReason → ℕ
  pub cooldown_end : ℕ
  pub disabled_until : ℕ
  pub disabled_reason : Option FailoverReason
  pub last_failure : ℕ

pub record CooldownTracker : Type 0 where
  pub entries : Dict CooldownEntry
  pub failure_window : ℕ

unfoldable pub new_cooldown_tracker : CooldownTracker
new_cooldown_tracker = record { entries = []; failure_window = default_failure_window }

-- `math.Pow` is exact at these exponents.
unfoldable pub calculate_standard_cooldown : ℕ → ℕ
calculate_standard_cooldown error_count =
    let n = max 1 error_count in
    let exp = min (n - 1) 3 in let ms = min 3_600_000 (60_000 * 5 ^ exp) in ms * millisecond

unfoldable pub calculate_billing_cooldown : ℕ → ℕ
calculate_billing_cooldown billing_error_count =
    let n = max 1 billing_error_count in
    let exp = min (n - 1) 10 in
    let ms = min (24 * 60 * 60 * 1000) (5 * 60 * 60 * 1000 * 2 ^ exp) in ms * millisecond

abbrev pub no_failures : FailoverReason → ℕ
no_failures _ = 0

-- `FailureCounts[reason]++`
unfoldable pub increment : FailoverReason → (FailoverReason → ℕ) → FailoverReason → ℕ
increment r counts q = if reason_eq r q then suc (counts q) else counts q

unfoldable pub new_entry : CooldownEntry
new_entry = record {
  error_count = 0;
  failure_counts = no_failures;
  cooldown_end = 0;
  disabled_until = 0;
  disabled_reason = none;
  last_failure = 0;
}

abbrev or_new : Option CooldownEntry → CooldownEntry
unfolding new_entry
or_new none = new_entry
or_new (some e) = e

-- The entry that `getOrCreate` returns. The caller writes it back under the same lock.
unfoldable pub get_or_create : CooldownTracker → Text → CooldownEntry
unfolding or_new
get_or_create ct provider = or_new (lookup provider ct.entries)

-- Go's `now.Sub(last) > window` is false where the clock has gone back.
unfoldable pub reset_old : ℕ → ℕ → CooldownEntry → CooldownEntry
reset_old window now e =
    if not (e.last_failure == 0) && ltb window (now - e.last_failure)
    then record e { error_count = 0; failure_counts = no_failures }
    else e

unfoldable pub count_failure : ℕ → FailoverReason → CooldownEntry → CooldownEntry
unfolding increment
count_failure now r e = record e {
  error_count = suc e.error_count;
  failure_counts = increment r e.failure_counts;
  last_failure = now;
}

unfoldable pub set_cooldown : ℕ → FailoverReason → CooldownEntry → CooldownEntry
set_cooldown now r e =
    if is_billing r
    then record e {
      disabled_until = now + calculate_billing_cooldown (e.failure_counts billing);
      disabled_reason = some billing;
    }
    else record e { cooldown_end = now + calculate_standard_cooldown e.error_count }

-- What `MarkFailure` does to the entry.
unfoldable pub fail_entry : ℕ → ℕ → FailoverReason → CooldownEntry → CooldownEntry
unfolding reset_old count_failure set_cooldown
fail_entry window now r e = set_cooldown now r (count_failure now r (reset_old window now e))

unfoldable pub mark_failure : ℕ → Text → FailoverReason → CooldownTracker → CooldownTracker
mark_failure now provider r ct =
    let e = fail_entry ct.failure_window now r (get_or_create ct provider) in
    record ct { entries = insert provider e ct.entries }

unfoldable pub clear_entry : CooldownEntry → CooldownEntry
clear_entry e = record e {
  error_count = 0;
  failure_counts = no_failures;
  cooldown_end = 0;
  disabled_until = 0;
  disabled_reason = none;
}

unfoldable pub mark_success : Text → CooldownTracker → CooldownTracker
mark_success provider ct = elim (lookup provider ct.entries) [
  | none ↦ ct
  | some e ↦ record ct { entries = insert provider (clear_entry e) ct.entries }
]

unfoldable pub entry_available : ℕ → CooldownEntry → Bool
entry_available now e =
    if not (e.disabled_until == 0) && ltb now e.disabled_until
    then false
    else if not (e.cooldown_end == 0) && ltb now e.cooldown_end
    then false
    else true

unfoldable pub is_available : ℕ → Text → CooldownTracker → Bool
unfolding entry_available
is_available now provider ct = elim (lookup provider ct.entries) [
  | none ↦ true
  | some e ↦ entry_available now e
]

-- One of the two tests of `CooldownRemaining`: `remaining` after it.
abbrev longer : ℕ → ℕ → ℕ → ℕ
longer now until remaining =
    if not (until == 0) && ltb now until
    then if ltb remaining (until - now) then until - now else remaining
    else remaining

unfoldable pub entry_remaining : ℕ → CooldownEntry → ℕ
entry_remaining now e = longer now e.cooldown_end (longer now e.disabled_until 0)

unfoldable pub cooldown_remaining : ℕ → Text → CooldownTracker → ℕ
unfolding entry_remaining
cooldown_remaining now provider ct = elim (lookup provider ct.entries) [
  | none ↦ 0
  | some e ↦ entry_remaining now e
]

unfoldable pub error_count : Text → CooldownTracker → ℕ
error_count provider ct = elim (lookup provider ct.entries) [ none ↦ 0 | some e ↦ e.error_count ]

unfoldable pub failure_count : Text → FailoverReason → CooldownTracker → ℕ
failure_count provider r ct = elim (lookup provider ct.entries) [
  | none ↦ 0
  | some e ↦ e.failure_counts r
]
