-- ===== src/Routing/AgentId/Fixed.antt =====
-- Which IDs `NormalizeAgentID` (pkg/routing/agent_id.go) leaves alone, and where it does not keep to its
-- doc comment.
use elvis.Base.{
  ℕ, ◌≤◌, ◌≡◌, ◌≢◌, refl, sym, ap, subst, ◌∙◌, inl, inr, Bool, true, false, [], ◌∷◌, ◌++◌, Text,
  length, length-append, take, take_of_length, take_of_length-le, append_assoc, if◌then◌else◌, All,
  Bool-cases, ltb, arith,
}
use mathlib.Core.List.{reverse, reverse-append, reverse-reverse}
use elvis.Strings.{Unicode}
use elvis.Strings.Trim.{trim_space-ink}
use elvis.Strings.Lower.{to_lower-low}
use elvis.Routing.AgentId.{
  is_alnum, is_valid_id, replace_invalid, strip_leading, strip_trailing, or_default, sanitize,
  normalize_id, normalize_agent_id,
}
use elvis.Routing.AgentId.Shape.{
  IsIdByte, IsNormalized, All-all, id_bytes-IsInk, normalize_id-valid, normalize_ids-IsNormalized,
}

abbrev pub begins_alnum : Text → Bool
begins_alnum [] = false
begins_alnum (c ∷ s) = is_alnum c

is_valid_id_of : (s : Text) → IsNormalized s → begins_alnum s ≡ true → is_valid_id s ≡ true
unfolding is_valid_id
is_valid_id_of [] n h = absurd (ground arith)
is_valid_id_of (c ∷ s) n h = ground (arith, All-all s n.id_bytes.1)

-- Where the normalised ID begins with a letter or a digit, normalising it again changes nothing.
pub normalize_agent_id_idem :
    ⦃u : Unicode⦄ (id : Text)
    → begins_alnum (normalize_agent_id id) ≡ true
    → normalize_agent_id (normalize_agent_id id) ≡ normalize_agent_id id
normalize_agent_id_idem id h =
    unfold normalize_agent_id in
    normalize_id-valid _ (normalize_agent_id id)
      (is_valid_id_of (normalize_agent_id id) (normalize_ids-IsNormalized id).0 h)

replace_invalid-fixed : (r : Bool) (s : Text) → All IsIdByte s → replace_invalid r s ≡ s
unfolding replace_invalid
replace_invalid-fixed r [] h = refl
replace_invalid-fixed r (c ∷ s) (p, h) =
    rw (p, replace_invalid) (ap (◌∷◌ c) (replace_invalid-fixed false s h))

strip_trailing-fixed : (s : Text) (c : ℕ) → c ≢ b'-' → strip_trailing (s ++ c ∷ []) ≡ s ++ c ∷ []
unfolding strip_trailing strip_leading
strip_trailing-fixed s c h =
    ap (λ t. reverse (strip_leading t)) (reverse-append s (c ∷ []))
    ∙ ap reverse kept
    ∙ ap reverse (sym (reverse-append s (c ∷ [])))
    ∙ reverse-reverse (s ++ c ∷ [])
  where
    kept : strip_leading (c ∷ reverse s) ≡ c ∷ reverse s
    kept = ground arith

clip-take : (s : Text) → (if ltb 64 (length s) then take 64 s else s) ≡ take 64 s
clip-take s = elim (Bool-cases (ltb 64 (length s))) [
  | inl long ↦ rw long
  | inr fits ↦ rw fits (sym (take_of_length-le 64 s (ground arith)))
]

-- What `sanitize` does to ID bytes between two bytes that are no dashes.
sanitize-framed :
    (fallback : Text) (a : ℕ) (s : Text) (b : ℕ)
    → a ≢ b'-'
    → b ≢ b'-'
    → All IsIdByte (a ∷ s ++ b ∷ [])
    → sanitize fallback (a ∷ s ++ b ∷ []) ≡ take 64 (a ∷ s ++ b ∷ [])
unfolding sanitize
sanitize-framed fallback a s b ha hb ids =
    ap (λ t. finish (strip_trailing (strip_leading t)))
      (replace_invalid-fixed false (a ∷ s ++ b ∷ []) ids)
    ∙ ap (λ t. finish (strip_trailing t)) head_kept
    ∙ ap finish (strip_trailing-fixed (a ∷ s) b hb)
    ∙ ap (or_default fallback) (clip-take (a ∷ s ++ b ∷ []))
  where
    finish : Text → Text
    finish t = or_default fallback (if ltb 64 (length t) then take 64 t else t)

    head_kept : strip_leading (a ∷ s ++ b ∷ []) ≡ a ∷ s ++ b ∷ []
    head_kept = unfold strip_leading in ground arith

-- A text of ID bytes goes through trimming and lower-casing as it is.
normalize_id-sanitize :
    ⦃u : Unicode⦄ (fallback : Text) (c : ℕ) (s : Text)
    → All IsIdByte (c ∷ s)
    → is_valid_id (c ∷ s) ≡ false
    → normalize_id fallback (c ∷ s) ≡ sanitize fallback (c ∷ s)
unfolding normalize_id
normalize_id-sanitize fallback c s ids invalid =
    let (ink, low) = id_bytes-IsInk (c ∷ s) ids in
    rw (trim_space-ink (c ∷ s) ink, to_lower-low (c ∷ s) low, invalid)

-- An ID of at most 64 bytes that begins with an underscore and does not end with a dash is returned as
-- it is, though it is not of the documented form `[a-z0-9][a-z0-9_-]{0,63}`.
pub normalize_agent_id-underscore :
    ⦃u : Unicode⦄ (s : Text) (b : ℕ)
    → All IsIdByte (s ++ b ∷ [])
    → b ≢ b'-'
    → length s ≤ 62
    → (normalize_agent_id (b'_' ∷ s ++ b ∷ []) ≡ b'_' ∷ s ++ b ∷ [])
      × (is_valid_id (b'_' ∷ s ++ b ∷ []) ≡ false)
unfolding normalize_agent_id is_valid_id
normalize_agent_id-underscore s b ids hb short = (
  normalize_id-sanitize _ b'_' (s ++ b ∷ []) (refl, ids) (unfold is_valid_id in refl)
      ∙ sanitize-framed _ b'_' s b (omega arith) hb (refl, ids)
      ∙ take_of_length-le 64 (b'_' ∷ s ++ b ∷ []) (omega (arith, length-append s (b ∷ []))),
  refl,
)

-- Cutting at 64 bytes comes after the dashes are stripped: an ID of ID bytes whose 64th is a dash
-- ends in that dash, which the doc comment rules out.
pub normalize_agent_id-dash_end :
    ⦃u : Unicode⦄ (a : ℕ) (s t : Text) (b : ℕ)
    → All IsIdByte (a ∷ (s ++ b'-' ∷ t) ++ b ∷ [])
    → a ≢ b'-'
    → b ≢ b'-'
    → length s ≡ 62
    → normalize_agent_id (a ∷ (s ++ b'-' ∷ t) ++ b ∷ []) ≡ a ∷ s ++ b'-' ∷ []
unfolding normalize_agent_id
normalize_agent_id-dash_end a s t b ids ha hb long =
    normalize_id-sanitize _ a _ ids (too_long)
    ∙ sanitize-framed _ a (s ++ b'-' ∷ t) b ha hb ids
    ∙ ap (◌∷◌ a) (ap (take 63) regroup ∙ cut)
  where
    too_long : is_valid_id (a ∷ (s ++ b'-' ∷ t) ++ b ∷ []) ≡ false
    too_long =
        unfold is_valid_id in
        ground (arith, length-append (s ++ b'-' ∷ t) (b ∷ []), length-append s (b'-' ∷ t))

    regroup : (s ++ b'-' ∷ t) ++ b ∷ [] ≡ (s ++ b'-' ∷ []) ++ (t ++ b ∷ [])
    regroup = simp append_assoc

    cut : take 63 ((s ++ b'-' ∷ []) ++ (t ++ b ∷ [])) ≡ s ++ b'-' ∷ []
    cut =
        subst (λ n. take n ((s ++ b'-' ∷ []) ++ (t ++ b ∷ [])) ≡ s ++ b'-' ∷ []) {y = 63}
          (omega (arith, length-append s (b'-' ∷ [])))
          (take_of_length (s ++ b'-' ∷ []) (t ++ b ∷ []))
