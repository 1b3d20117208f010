-- ===== src/Providers/Cooldown/Examples.antt =====
-- A tracker of pkg/providers/cooldown.go at work, and the theorems about it at concrete states.
use elvis.Base.{
  ℕ, ◌+◌, ◌-◌, ◌*◌, ◌≡◌, refl, true, false, some, List, [], ◌∷◌, Text, codes, lookup, insert,
  text_eq, arith,
}
use elvis.Providers.Types.{
  FailoverReason, auth, rate_limit, billing, timeout, format, overloaded, unknown,
}
use elvis.Providers.Cooldown.{
  minute, hour, calculate_standard_cooldown, CooldownEntry, CooldownTracker, new_cooldown_tracker,
  new_entry, get_or_create, reset_old, count_failure, set_cooldown, fail_entry, mark_failure,
  is_available, cooldown_remaining, error_count, failure_count,
}
use elvis.Providers.Cooldown.Availability.{blocked_until, mark_failure_blocks, mark_failure_expires}
use elvis.Providers.Cooldown.Counts.{
  Event, failed, succeeded, apply_events, Steady, error_count-sum,
}

abbrev openai : Text
openai = codes "openai"

abbrev groq : Text
groq = codes "groq"

abbrev start : ℕ
start = 1_000_000_000_000_000

abbrev failed_once : CooldownTracker
failed_once = mark_failure start openai rate_limit new_cooldown_tracker

abbrev failed_entry : CooldownEntry
failed_entry = fail_entry new_cooldown_tracker.failure_window start rate_limit new_entry

waits_a_minute : cooldown_remaining (start + 1) openai failed_once ≡ minute - 1
unfolding cooldown_remaining mark_failure fail_entry get_or_create new_cooldown_tracker new_entry
    reset_old count_failure set_cooldown calculate_standard_cooldown lookup insert text_eq
waits_a_minute = refl

found_entry : lookup openai failed_once.entries ≡ some failed_entry
unfolding mark_failure get_or_create new_cooldown_tracker lookup insert text_eq
found_entry = refl

abbrev more_failures : List (ℕ × FailoverReason)
more_failures = (start + 5 * minute, billing) ∷ (start + 2 * hour, timeout) ∷ []

steady : Steady failed_once.failure_window failed_entry.last_failure more_failures
unfolding mark_failure new_cooldown_tracker fail_entry new_entry reset_old count_failure
    set_cooldown
steady = ground arith

abbrev history : List Event
history =
    failed start openai rate_limit
    ∷ failed (start + hour) groq billing
    ∷ succeeded groq
    ∷ failed (start + 2 * hour) openai auth
    ∷ []

mark_failure_blocks_example :
    is_available (start + hour) openai (mark_failure (start + 1) openai billing failed_once) ≡ false
mark_failure_blocks_example =
    mark_failure_blocks (start + 1) (start + hour) openai billing failed_once (ground arith)

free_at_first : blocked_until openai new_cooldown_tracker ≡ 0
unfolding blocked_until lookup new_cooldown_tracker
free_at_first = refl

mark_failure_expires_example :
    is_available (start + hour) openai (mark_failure start openai auth new_cooldown_tracker) ≡ true
mark_failure_expires_example =
    mark_failure_expires start (start + hour) openai auth new_cooldown_tracker (ground arith)
      (ground (arith, free_at_first))

error_count-sum_example :
    let ct = apply_events history new_cooldown_tracker in
    error_count openai ct
    ≡ failure_count openai auth ct
      + failure_count openai rate_limit ct
      + failure_count openai billing ct
      + failure_count openai timeout ct
      + failure_count openai format ct
      + failure_count openai overloaded ct
      + failure_count openai unknown ct
error_count-sum_example = error_count-sum history openai
