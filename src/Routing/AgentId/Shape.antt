-- ===== src/Routing/AgentId/Shape.antt =====
-- What `NormalizeAgentID` and `NormalizeAccountID` (pkg/routing/agent_id.go) return.
use elvis.Base.{
  ℕ, zero, suc, ◌≤◌, ◌≡◌, ◌≢◌, refl, ◌⊎◌, inl, inr, Bool, true, false, [], ◌∷◌, ◌++◌, Text, length,
  length-take, take, all, All, All-take, All-reverse, is_nil, Bool-cases, ltb, ◌==◌, arith,
  if◌then◌else◌,
}
use mathlib.Core.List.{reverse, reverse-append, cons-ne-nil}
use elvis.Strings.{Unicode, to_lower, trim_space}
use elvis.Strings.Trim.{IsInk, trim_space-ink}
use elvis.Strings.Lower.{IsLow, to_lower-low}
use elvis.Routing.AgentId.{
  default_agent_id, default_account_id, is_id_byte, is_valid_id, replace_invalid, strip_leading,
  strip_trailing, or_default, sanitize, normalize_id, normalize_agent_id, normalize_account_id,
}

abbrev pub IsIdByte : ℕ → Type 0
IsIdByte c = is_id_byte c ≡ true

abbrev pub NoLeadingDash : Text → Type 0
NoLeadingDash [] = Unit
NoLeadingDash (c ∷ s) = c ≢ b'-'

-- What every normalised ID is.
pub record IsNormalized (s : Text) : Type 0 where
  pub some_byte : s ≢ []
  pub short : length s ≤ 64
  pub id_bytes : All IsIdByte s
  pub no_dash : NoLeadingDash s

pub replace_invalid-IsIdByte : (r : Bool) (s : Text) → All IsIdByte (replace_invalid r s)
unfolding replace_invalid
replace_invalid-IsIdByte r [] = tt
replace_invalid-IsIdByte true (c ∷ s) = elim (Bool-cases (is_id_byte c)) [
  | inl e ↦ rw (e, replace_invalid) (e, replace_invalid-IsIdByte false s)
  | inr e ↦ rw (e, replace_invalid) (replace_invalid-IsIdByte true s)
]
replace_invalid-IsIdByte false (c ∷ s) = elim (Bool-cases (is_id_byte c)) [
  | inl e ↦ rw (e, replace_invalid) (e, replace_invalid-IsIdByte false s)
  | inr e ↦ rw (e, replace_invalid) (refl, replace_invalid-IsIdByte true s)
]

strip_leading-All : (s : Text) → All IsIdByte s → All IsIdByte (strip_leading s)
unfolding strip_leading
strip_leading-All [] h = tt
strip_leading-All (c ∷ s) h = elim (Bool-cases (c == b'-')) [
  | inl e ↦ rw (e, strip_leading) (strip_leading-All s h.1)
  | inr e ↦ rw (e, strip_leading) h
]

strip_leading-dash : (s : Text) → NoLeadingDash (strip_leading s)
unfolding strip_leading
strip_leading-dash [] = tt
strip_leading-dash (c ∷ s) = elim (Bool-cases (c == b'-')) [
  | inl e ↦ rw (e, strip_leading) (strip_leading-dash s)
  | inr e ↦ rw (e, strip_leading) (ground arith)
]

-- Stripping at the end keeps the head, or leaves nothing.
last_kept :
    (s : Text) (c : ℕ)
    → (strip_leading (s ++ c ∷ []) ≡ [])
      ⊎ ((t : Text) × (strip_leading (s ++ c ∷ []) ≡ t ++ c ∷ []))
unfolding strip_leading
last_kept [] c = elim (Bool-cases (c == b'-')) [
  | inl e ↦ inl (rw (e, strip_leading))
  | inr e ↦ inr ([], rw (e, strip_leading))
]
last_kept (x ∷ s) c = elim (Bool-cases (x == b'-')) [
  | inl e ↦ rw (e, strip_leading) (last_kept s c)
  | inr e ↦ inr (x ∷ s, rw (e, strip_leading))
]

strip_trailing-dash : (s : Text) → NoLeadingDash s → NoLeadingDash (strip_trailing s)
unfolding strip_trailing
strip_trailing-dash [] h = unfold strip_leading in tt
strip_trailing-dash (c ∷ s) h = rw (reverse-append (c ∷ []) s) (elim (last_kept (reverse s) c) [
  | inl e ↦ rw e tt
  | inr (t, e) ↦ rw (e, reverse-append t (c ∷ [])) h
])

take-dash : (n : ℕ) (s : Text) → NoLeadingDash s → NoLeadingDash (take n s)
take-dash zero s h = tt
take-dash (suc n) [] h = tt
take-dash (suc n) (c ∷ s) h = h

clip-IsNormalized :
    (fallback s : Text)
    → IsNormalized fallback
    → All IsIdByte s
    → NoLeadingDash s
    → IsNormalized (or_default fallback (if ltb 64 (length s) then take 64 s else s))
clip-IsNormalized fallback [] f ids dash = f
clip-IsNormalized fallback (c ∷ s) f ids dash = elim (Bool-cases (ltb 64 (length (c ∷ s)))) [
  | inl long ↦ rw long (record {
    some_byte = cons-ne-nil c (take 63 s);
    short = omega (arith, length-take 64 (c ∷ s));
    id_bytes = All-take IsIdByte 64 (c ∷ s) ids;
    no_dash = dash;
  })
  | inr fits ↦
      rw fits (record {
        some_byte = cons-ne-nil c s;
        short = ground arith;
        id_bytes = ids;
        no_dash = dash;
      })
]

strip_trailing-All : (s : Text) → All IsIdByte s → All IsIdByte (strip_trailing s)
unfolding strip_trailing
strip_trailing-All s h =
    All-reverse IsIdByte (strip_leading (reverse s))
      (strip_leading-All (reverse s) (All-reverse IsIdByte s h))

sanitize-IsNormalized :
    (fallback lower : Text) → IsNormalized fallback → IsNormalized (sanitize fallback lower)
unfolding sanitize
sanitize-IsNormalized fallback lower f =
    let stripped = strip_leading (replace_invalid false lower) in
    clip-IsNormalized fallback (strip_trailing stripped) f
      (strip_trailing-All stripped (strip_leading-All _ (replace_invalid-IsIdByte false lower)))
      (strip_trailing-dash stripped (strip_leading-dash (replace_invalid false lower)))

all-All : (s : Text) → all is_id_byte s ≡ true → All IsIdByte s
all-All [] h = tt
all-All (c ∷ s) h = (ground arith, all-All s (ground arith))

pub All-all : (s : Text) → All IsIdByte s → all is_id_byte s ≡ true
All-all [] h = refl
All-all (c ∷ s) (p, h) = rw p (All-all s h)

is_valid_id-IsNormalized : (s : Text) → is_valid_id s ≡ true → IsNormalized s
unfolding is_valid_id
is_valid_id-IsNormalized [] h = absurd (ground arith)
is_valid_id-IsNormalized (c ∷ s) h = record {
  some_byte = cons-ne-nil c s;
  short = ground arith;
  id_bytes = (ground arith, all-All s (ground arith));
  no_dash = ground arith;
}

normalize_id-IsNormalized :
    ⦃u : Unicode⦄ (fallback id : Text)
    → IsNormalized fallback
    → IsNormalized (normalize_id fallback id)
unfolding normalize_id
normalize_id-IsNormalized fallback id f = elim (Bool-cases (is_nil (trim_space id))) [
  | inl e ↦ rw e f
  | inr e ↦ elim (Bool-cases (is_valid_id (to_lower (trim_space id)))) [
    | inl v ↦ rw (e, v) (is_valid_id-IsNormalized (to_lower (trim_space id)) v)
    | inr v ↦ rw (e, v) (sanitize-IsNormalized fallback (to_lower (trim_space id)) f)
  ]
]

-- For every text, the normalised agent and account IDs are not empty, have at most 64 bytes, all of
-- `[a-z0-9_-]`, and do not begin with a dash.
pub normalize_ids-IsNormalized :
    ⦃u : Unicode⦄ (id : Text)
    → IsNormalized (normalize_agent_id id) × IsNormalized (normalize_account_id id)
unfolding normalize_agent_id normalize_account_id
normalize_ids-IsNormalized id = (
  normalize_id-IsNormalized default_agent_id id (record {
    some_byte = cons-ne-nil _ _;
    short = omega arith;
    id_bytes = all-All default_agent_id refl;
    no_dash = omega arith;
  }),
  normalize_id-IsNormalized default_account_id id (record {
    some_byte = cons-ne-nil _ _;
    short = omega arith;
    id_bytes = all-All default_account_id refl;
    no_dash = omega arith;
  }),
)

id_byte-IsInk : (c : ℕ) → IsIdByte c → IsInk c × IsLow c
id_byte-IsInk c h = ground arith

pub id_bytes-IsInk : (s : Text) → All IsIdByte s → All IsInk s × All IsLow s
id_bytes-IsInk [] h = (tt, tt)
id_bytes-IsInk (c ∷ s) (p, h) =
    let (ink, low) = id_byte-IsInk c p in
    let (inks, lows) = id_bytes-IsInk s h in ((ink, inks), (low, lows))

-- An ID that is valid already is kept.
pub normalize_id-valid :
    ⦃u : Unicode⦄ (fallback id : Text) → is_valid_id id ≡ true → normalize_id fallback id ≡ id
unfolding normalize_id
normalize_id-valid fallback [] v = absurd (unfold is_valid_id in ground arith)
normalize_id-valid fallback (c ∷ s) v =
    let (ink, low) = id_bytes-IsInk (c ∷ s) (is_valid_id-IsNormalized (c ∷ s) v).id_bytes in
    rw (trim_space-ink (c ∷ s) ink, to_lower-low (c ∷ s) low, v)
