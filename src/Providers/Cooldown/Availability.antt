-- ===== src/Providers/Cooldown/Availability.antt =====
-- When a provider may be asked again: `IsAvailable` and `CooldownRemaining` after `MarkFailure` and
-- `MarkSuccess` of pkg/providers/cooldown.go.
use elvis.Base.{
  ℕ, ◌+◌, ◌-◌, ◌*◌, ◌≤◌, ◌<◌, max, ◌≡◌, refl, ap, ◌≢◌, inl, inr, if◌then◌else◌, ◌↔◌, Bool, true,
  false, Option, none, some, Text, lookup, text_eq-false, lookup-insert_self, lookup-insert_ne,
  Option-cases, arith,
}
use elvis.Providers.Types.{FailoverReason, billing, is_billing}
use elvis.Providers.Cooldown.{
  minute, hour, CooldownEntry, CooldownTracker, reset_old, count_failure, fail_entry, error_count,
  get_or_create, mark_failure, clear_entry, mark_success, entry_available, is_available,
  entry_remaining, cooldown_remaining,
}
use elvis.Providers.Cooldown.Backoff.{standard_bounded, billing_cooldown_bounded}

abbrev block_end : Option CooldownEntry → ℕ
block_end none = 0
block_end (some e) = max e.disabled_until e.cooldown_end

-- The time up to which a provider is blocked; 0 for one that never failed.
unfoldable pub blocked_until : Text → CooldownTracker → ℕ
blocked_until provider ct = block_end (lookup provider ct.entries)

entry_available_iff :
    (now : ℕ) (e : CooldownEntry)
    → (entry_available now e ≡ true) ↔ (max e.disabled_until e.cooldown_end ≤ now)
unfolding entry_available
entry_available_iff now e = ground arith

entry_remaining-eq :
    (now : ℕ) (e : CooldownEntry)
    → entry_remaining now e ≡ max e.disabled_until e.cooldown_end - now
unfolding entry_remaining
entry_remaining-eq now e = ground arith

-- A provider is available exactly from the end of its longest block on, and what
-- `CooldownRemaining` returns is exactly the time until then: 0 when it is available.
pub available_and_remaining :
    (now : ℕ) (provider : Text) (ct : CooldownTracker)
    → ((is_available now provider ct ≡ true) ↔ (blocked_until provider ct ≤ now))
      × (cooldown_remaining now provider ct ≡ blocked_until provider ct - now)
unfolding is_available cooldown_remaining blocked_until
available_and_remaining now provider ct = go (lookup provider ct.entries)
  where
    go :
        (o : Option CooldownEntry)
        → ((elim o [ none ↦ true | some e ↦ entry_available now e ] ≡ true) ↔ (block_end o ≤ now))
          × (elim o [ none ↦ 0 | some e ↦ entry_remaining now e ] ≡ block_end o - now)
    go none = ground arith
    go (some e) = (entry_available_iff now e, entry_remaining-eq now e)

abbrev pub least_penalty : FailoverReason → ℕ
least_penalty r = if is_billing r then 5 * hour else minute

abbrev pub most_penalty : FailoverReason → ℕ
most_penalty r = if is_billing r then 24 * hour else hour

-- A failure never shortens the other kind of block, so only the upper bound looks at the old entry.
fail_entry_block :
    (window now : ℕ) (r : FailoverReason) (e : CooldownEntry)
    → let f = fail_entry window now r e in
      (now + least_penalty r ≤ max f.disabled_until f.cooldown_end)
      × (max f.disabled_until f.cooldown_end
          ≤ max (now + most_penalty r) (max e.disabled_until e.cooldown_end))
unfolding fail_entry
fail_entry_block window now r e =
    let f = count_failure now r (reset_old window now e) in
    ground
      (arith, standard_bounded f.error_count, billing_cooldown_bounded (f.failure_counts billing))

blocked_until-mark_failure :
    (now : ℕ) (provider : Text) (r : FailoverReason) (ct : CooldownTracker)
    → let f = fail_entry ct.failure_window now r (get_or_create ct provider) in
      blocked_until provider (mark_failure now provider r ct) ≡ max f.disabled_until f.cooldown_end
unfolding mark_failure blocked_until
blocked_until-mark_failure now provider r ct =
    ap block_end (lookup-insert_self provider _ ct.entries)

get_or_create-blocked_until :
    (provider : Text) (ct : CooldownTracker)
    → let e = get_or_create ct provider in
      max e.disabled_until e.cooldown_end ≡ blocked_until provider ct
unfolding get_or_create blocked_until
get_or_create-blocked_until provider ct = elim (Option-cases (lookup provider ct.entries)) [
  | inl e ↦ rw e
  | inr (x, e) ↦ rw e
]

false_of_iff : {b : Bool} {P : Type 0} → (b ≡ true) ↔ P → ¬ P → b ≡ false
false_of_iff {b = true} iff h = absurd (h (iff.0 refl))
false_of_iff {b = false} iff h = refl

-- After a failure at `now` the provider is unavailable for at least a minute, and for at least five
-- hours if it was a billing failure, whatever its state was before.
pub mark_failure_blocks :
    (now later : ℕ) (provider : Text) (r : FailoverReason) (ct : CooldownTracker)
    → later < now + least_penalty r
    → is_available later provider (mark_failure now provider r ct) ≡ false
mark_failure_blocks now later provider r ct h =
    let (low, high) = fail_entry_block ct.failure_window now r (get_or_create ct provider) in
    let same = blocked_until-mark_failure now provider r ct in
    let iff = (available_and_remaining later provider (mark_failure now provider r ct)).0 in
    false_of_iff iff (omega arith)

-- An hour after a failure, or a day after a billing failure, the provider is available again, if no
-- block from before the failure lasts longer.
pub mark_failure_expires :
    (now later : ℕ) (provider : Text) (r : FailoverReason) (ct : CooldownTracker)
    → now + most_penalty r ≤ later
    → blocked_until provider ct ≤ later
    → is_available later provider (mark_failure now provider r ct) ≡ true
mark_failure_expires now later provider r ct h k =
    let (low, high) = fail_entry_block ct.failure_window now r (get_or_create ct provider) in
    let same = blocked_until-mark_failure now provider r ct in
    let before = get_or_create-blocked_until provider ct in
    let iff = (available_and_remaining later provider (mark_failure now provider r ct)).0 in
    iff.1 (omega arith)

-- A success makes a provider available at every time, and clears its counters.
pub mark_success_unblocks :
    (now : ℕ) (provider : Text) (ct : CooldownTracker)
    → (is_available now provider (mark_success provider ct) ≡ true)
      × (error_count provider (mark_success provider ct) ≡ 0)
unfolding mark_success is_available error_count entry_available clear_entry
mark_success_unblocks now provider ct = elim (Option-cases (lookup provider ct.entries)) [
  | inl e ↦ ground arith
  | inr (x, e) ↦ ground (arith, lookup-insert_self provider (clear_entry x) ct.entries)
]

pub lookup-mark_other :
    (now : ℕ) (marked other : Text) (r : FailoverReason) (ct : CooldownTracker)
    → marked ≢ other
    → (lookup other (mark_failure now marked r ct).entries ≡ lookup other ct.entries)
      × (lookup other (mark_success marked ct).entries ≡ lookup other ct.entries)
unfolding mark_failure mark_success
lookup-mark_other now marked other r ct h =
    let ne = text_eq-false h in
    (
      lookup-insert_ne marked other _ ct.entries ne,
      elim (Option-cases (lookup marked ct.entries)) [
        | inl e ↦ ground arith
        | inr (x, e) ↦ ground (arith, lookup-insert_ne marked other (clear_entry x) ct.entries)
      ],
    )

-- What a tracker says of a provider goes by its entry.
pub same_entry :
    (later : ℕ) (provider : Text) (ct ct' : CooldownTracker)
    → lookup provider ct'.entries ≡ lookup provider ct.entries
    → (is_available later provider ct' ≡ is_available later provider ct)
      × (error_count provider ct' ≡ error_count provider ct)
unfolding is_available error_count
same_entry later provider ct ct' same = ground arith
