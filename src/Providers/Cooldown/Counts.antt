-- ===== src/Providers/Cooldown/Counts.antt =====
-- The counters of pkg/providers/cooldown.go over sequences of failures and successes.
use elvis.Base.{
  ℕ, suc, ◌+◌, ◌≤◌, ◌≡◌, refl, Bool, true, false, Option, none, some, List, [], ◌∷◌, Text, length,
  lookup, insert, text_eq, lookup-insert, lookup-insert_self, if◌then◌else◌, arith,
}
use elvis.Providers.Types.{
  FailoverReason, auth, rate_limit, billing, timeout, format, overloaded, unknown,
}
use elvis.Providers.Cooldown.{
  CooldownEntry, CooldownTracker, new_cooldown_tracker, fail_entry, get_or_create, mark_failure,
  clear_entry, mark_success, error_count, failure_count,
}

-- What the fallback chain tells a tracker.
pub data Event : Type 0 where
  failed : ℕ → Text → FailoverReason → Event
  succeeded : Text → Event

abbrev pub apply_event : Event → CooldownTracker → CooldownTracker
apply_event (failed now provider r) ct = mark_failure now provider r ct
apply_event (succeeded provider) ct = mark_success provider ct

unfoldable pub apply_events : List Event → CooldownTracker → CooldownTracker
apply_events [] ct = ct
apply_events (e ∷ es) ct = apply_events es (apply_event e ct)

abbrev sum_counts : (FailoverReason → ℕ) → ℕ
sum_counts c = c auth + c rate_limit + c billing + c timeout + c format + c overloaded + c unknown

abbrev Balanced : Option CooldownEntry → Type 0
Balanced none = Unit
Balanced (some e) = e.error_count ≡ sum_counts e.failure_counts

fail_entry-Balanced :
    (window now : ℕ) (r : FailoverReason) (e : CooldownEntry)
    → Balanced (some e)
    → Balanced (some (fail_entry window now r e))
unfolding fail_entry
fail_entry-Balanced window now auth e h = ground arith
fail_entry-Balanced window now rate_limit e h = ground arith
fail_entry-Balanced window now billing e h = ground arith
fail_entry-Balanced window now timeout e h = ground arith
fail_entry-Balanced window now format e h = ground arith
fail_entry-Balanced window now overloaded e h = ground arith
fail_entry-Balanced window now unknown e h = ground arith

get_or_create-Balanced :
    (ct : CooldownTracker) (provider : Text)
    → Balanced (lookup provider ct.entries)
    → Balanced (some (get_or_create ct provider))
unfolding get_or_create
get_or_create-Balanced ct provider h = go (lookup provider ct.entries) refl h
  where
    go :
        (o : Option CooldownEntry)
        → lookup provider ct.entries ≡ o
        → Balanced o
        → Balanced (some (get_or_create ct provider))
    go none e h = rw e (refl)
    go (some x) e h = rw e h

abbrev AllBalanced : CooldownTracker → Type 0
AllBalanced ct = (provider : Text) → Balanced (lookup provider ct.entries)

insert-Balanced :
    (k j : Text) (e : CooldownEntry) (ct : CooldownTracker)
    → Balanced (some e)
    → AllBalanced ct
    → Balanced (lookup j (insert k e ct.entries))
insert-Balanced k j e ct h all = rw (lookup-insert k j e ct.entries) (go (text_eq k j))
  where
    go : (b : Bool) → Balanced (if b then some e else lookup j ct.entries)
    go true = h
    go false = all j

apply_event-AllBalanced :
    (ev : Event) (ct : CooldownTracker) → AllBalanced ct → AllBalanced (apply_event ev ct)
unfolding mark_failure mark_success
apply_event-AllBalanced (failed now provider r) ct h = λ q.
    insert-Balanced provider q _ ct
      (fail_entry-Balanced ct.failure_window now r _
        (get_or_create-Balanced ct provider (h provider)))
      h
apply_event-AllBalanced (succeeded provider) ct h = λ q. go q (lookup provider ct.entries)
  where
    go :
        (q : Text) (o : Option CooldownEntry)
        → Balanced (
            lookup q
              (elim o as (λ _. CooldownTracker) [
                | none ↦ ct
                | some e ↦ record ct { entries = insert provider (clear_entry e) ct.entries }
              ]).entries)
    go q none = h q
    go q (some e) = insert-Balanced provider q _ ct (unfold clear_entry in refl) h

apply_events-AllBalanced :
    (es : List Event) (ct : CooldownTracker) → AllBalanced ct → AllBalanced (apply_events es ct)
unfolding apply_events
apply_events-AllBalanced [] ct h = h
apply_events-AllBalanced (e ∷ es) ct h =
    apply_events-AllBalanced es (apply_event e ct) (apply_event-AllBalanced e ct h)

-- After any sequence of failures and successes, at any times, the error count of a provider is the
-- sum of its failure counts over all reasons.
pub error_count-sum :
    (es : List Event) (provider : Text)
    → let ct = apply_events es new_cooldown_tracker in
      error_count provider ct
      ≡ failure_count provider auth ct
        + failure_count provider rate_limit ct
        + failure_count provider billing ct
        + failure_count provider timeout ct
        + failure_count provider format ct
        + failure_count provider overloaded ct
        + failure_count provider unknown ct
unfolding error_count failure_count
error_count-sum es provider =
    go (lookup provider _) (apply_events-AllBalanced es new_cooldown_tracker start provider)
  where
    start : AllBalanced new_cooldown_tracker
    start q = unfold new_cooldown_tracker lookup in tt

    go :
        (o : Option CooldownEntry)
        → Balanced o
        → let count =
            λ (r : FailoverReason). elim o as (λ _. ℕ) [ none ↦ 0 | some e ↦ e.failure_counts r ] in
          elim o as (λ _. ℕ) [ none ↦ 0 | some e ↦ e.error_count ]
          ≡ count auth
            + count rate_limit
            + count billing
            + count timeout
            + count format
            + count overloaded
            + count unknown
    go none h = refl
    go (some e) h = h

-- The failures of a list come one after another, each no later than the window after the one before.
abbrev pub Steady : ℕ → ℕ → List (ℕ × FailoverReason) → Type 0
Steady window last [] = Unit
Steady window last ((now, r) ∷ fs) = (now ≤ last + window) × Steady window now fs

abbrev pub failures : Text → List (ℕ × FailoverReason) → List Event
failures provider [] = []
failures provider ((now, r) ∷ fs) = failed now provider r ∷ failures provider fs

mark_failure-entry :
    (now : ℕ) (provider : Text) (r : FailoverReason) (ct : CooldownTracker) {e : CooldownEntry}
    → lookup provider ct.entries ≡ some e
    → now ≤ e.last_failure + ct.failure_window
    → (f : CooldownEntry) × (lookup provider (mark_failure now provider r ct).entries ≡ some f)
      × (f.error_count ≡ suc e.error_count)
      × (f.last_failure ≡ now)
unfolding mark_failure get_or_create
mark_failure-entry now provider r ct {e} found h = (
  fail_entry ct.failure_window now r e,
  rw found (lookup-insert_self provider _ ct.entries),
  unfold fail_entry in ground arith,
  unfold fail_entry in ground arith,
)

-- Failures that keep coming within the window count up, whatever their reasons: each adds one to the
-- error count, so that the backoff grows, until a success or a pause longer than the window.
pub error_count-failures :
    (fs : List (ℕ × FailoverReason)) (provider : Text) (ct : CooldownTracker) {e : CooldownEntry}
    → lookup provider ct.entries ≡ some e
    → Steady ct.failure_window e.last_failure fs
    → error_count provider (apply_events (failures provider fs) ct) ≡ e.error_count + length fs
unfolding apply_events error_count
error_count-failures [] provider ct found h = rw (found, error_count) (omega arith)
error_count-failures ((now, r) ∷ fs) provider ct {e} found (near, steady) =
    let (f, found', count, last) = mark_failure-entry now provider r ct found near in
    let rest =
      error_count-failures fs provider (mark_failure now provider r ct) {e = f} found'
        (rw last (unfold mark_failure in steady)) in
    omega (arith, rest, count)
