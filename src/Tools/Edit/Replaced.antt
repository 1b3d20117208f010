-- ===== src/Tools/Edit/Replaced.antt =====
-- pkg/tools/edit.go: what an edit replaces, and where.
use elvis.Base.{
  ℕ, zero, suc, ◌+◌, ◌≡◌, ◌≢◌, refl, sym, ap, subst, ◌≤◌, length-drop, ◌∙◌, Bool, true, false, ◌||◌,
  not, Bool-cases, [], ◌∷◌, ◌++◌, append_assoc, Option, none, some, ◌⊎◌, inl, inr, Text, length,
  take, drop, is_nil, ltb, if◌then◌else◌, arith, tests,
}
use elvis.Strings.{has_prefix, contains}
use elvis.Providers.Extraction.{index}
use elvis.Tools.Edit.{
  count_from, count, replace_first, EditError, not_found, ambiguous, replace_edit_content,
}

has_prefix-drop : (s p : Text) → has_prefix s p ≡ true → s ≡ p ++ drop (length p) s
unfolding has_prefix
has_prefix-drop s [] h = refl
has_prefix-drop [] (c ∷ p) h = absurd (ground arith)
has_prefix-drop (d ∷ s) (c ∷ p) h =
    let same : d ≡ c = ground arith in
    let rest : has_prefix s p ≡ true = ground arith in
    ap (λ x. x ∷ s) same ∙ ap (λ l. c ∷ l) (has_prefix-drop s p rest)

abbrev Splits : Text → Text → ℕ → Type 0
Splits s p i = s ≡ take i s ++ (p ++ drop (i + length p) s)

Splits-zero : (s p : Text) (i : ℕ) → has_prefix s p ≡ true → 0 ≡ i → Splits s p i
Splits-zero s p i h e = subst (Splits s p) e (
    has_prefix-drop s p h
    ∙ ap (λ k. p ++ drop k s) (let z : length p ≡ 0 + length p = omega arith in z))

Splits-suc : (c : ℕ) (s p : Text) (j i : ℕ) → Splits s p j → suc j ≡ i → Splits (c ∷ s) p i
Splits-suc c s p j i h e = subst (Splits (c ∷ s) p) e (
    ap (λ l. c ∷ l) h
    ∙ ap (λ k. c ∷ (take j s ++ (p ++ drop k (c ∷ s))))
        (let z : suc (j + length p) ≡ suc j + length p = omega arith in z))

index-Splits : (s p : Text) (i : ℕ) → index s p ≡ some i → Splits s p i
unfolding index
index-Splits [] p i h = go (has_prefix [] p) refl h
  where
    go : (b : Bool) → has_prefix [] p ≡ b → (if b then some 0 else none) ≡ some i → Splits [] p i
    go true e q = Splits-zero [] p i e (ground arith)
    go false e q = absurd (cc)
index-Splits (c ∷ s) p i h = go (has_prefix (c ∷ s) p) refl (index s p) (index-Splits s p) h
  where
    go :
        (b : Bool)
        → has_prefix (c ∷ s) p ≡ b
        → (o : Option ℕ) → ((j : ℕ) → o ≡ some j → Splits s p j)
        → (if b then some 0 else elim o as (λ _. Option ℕ) [ none ↦ none | some j ↦ some (suc j) ])
          ≡ some i
        → Splits (c ∷ s) p i
    go true e o r q = Splits-zero (c ∷ s) p i e (ground arith)
    go false e none r q = absurd (cc)
    go false e (some j) r q = Splits-suc c s p j i (r j refl) (ground arith)

index-contains : (s p : Text) → contains s p ≡ true → index s p ≢ none
unfolding contains index
index-contains [] p h e = ground arith
index-contains (c ∷ s) p h e = go (has_prefix (c ∷ s) p) h (index s p) (index-contains s p) e
  where
    go :
        (b : Bool)
        → (b || contains s p) ≡ true
        → (o : Option ℕ) → (contains s p ≡ true → o ≢ none)
        → (if b then some 0 else elim o as (λ _. Option ℕ) [ none ↦ none | some j ↦ some (suc j) ])
          ≡ none
        → ⊥
    go true b o r n = absurd (cc)
    go false b none r n = r b refl
    go false b (some j) r n = absurd (cc)

-- No occurrence is counted only where there is none.
count_from-zero :
    (fuel : ℕ) (s p : Text)
    → length s ≤ fuel
    → is_nil p ≡ false
    → count_from fuel s p ≡ 0
    → index s p ≡ none
unfolding count_from index has_prefix
count_from-zero fuel s [] l h z = absurd (cc)
count_from-zero zero [] (c ∷ p) l h z = refl
count_from-zero zero (d ∷ s) (c ∷ p) l h z = absurd (omega arith)
count_from-zero (suc fuel) s (c ∷ p) l h z = go (index s (c ∷ p)) z
  where
    go :
        (o : Option ℕ)
        → (elim o as (λ _. ℕ) [
          | none ↦ 0
          | some i ↦ suc (count_from fuel (drop (i + length (c ∷ p)) s) (c ∷ p))
        ])
          ≡ 0
        → o ≡ none
    go none z = refl
    go (some i) z = absurd (omega arith)

count_from-suc :
    (fuel : ℕ) (s p : Text) (i : ℕ)
    → index s p ≡ some i
    → count_from (suc fuel) s p ≡ suc (count_from fuel (drop (i + length p) s) p)
unfolding count_from
count_from-suc fuel s p i e =
    ap
      (λ o. elim o as (λ _. ℕ) [
        | none ↦ 0
        | some i ↦ suc (count_from fuel (drop (i + length p) s) p)
      ])
      e

none_more : (k : ℕ) → ltb 1 (suc k) ≡ false → k ≡ 0
none_more k h = grind tests

-- Where no two occurrences are counted, there is none after the first.
after-none :
    (s p : Text) (i : ℕ)
    → index s p ≡ some i
    → is_nil p ≡ false
    → ltb 1 (count s p) ≡ false
    → index (drop (i + length p) s) p ≡ none
unfolding count count_from index has_prefix
after-none s [] i e h c = absurd (cc)
after-none [] (d ∷ p) i e h c = absurd (cc)
after-none (x ∷ s) (d ∷ p) i e h c =
    count_from-zero (length s) (drop (i + length (d ∷ p)) (x ∷ s)) (d ∷ p)
      (omega (arith, length-drop (i + length (d ∷ p)) (x ∷ s))) h
      (none_more _ (ap (ltb 1) (sym (count_from-suc (length s) (x ∷ s) (d ∷ p) i e)) ∙ c))

abbrev get_left : {E : Type 0} → Text → Text ⊎ EditError E → Text
get_left d (inl t) = t
get_left d (inr e) = d

-- An edit that succeeds has found the old text and puts the new text in its place, with the rest of the
-- file as it was; and after the place that it changed, the old text, unless it is empty, does not occur.
pub replace_edit_content-replaced :
    {E : Type 0} (content old_text new_text result : Text)
    → replace_edit_content {E = E} content old_text new_text ≡ inl result
    → (before : Text) × (after : Text) × (content ≡ before ++ (old_text ++ after))
      × (result ≡ before ++ (new_text ++ after))
      × ((is_nil old_text ≡ true) ⊎ (index after old_text ≡ none))
unfolding replace_edit_content replace_first
replace_edit_content-replaced {E} content old_text new_text result h =
    go (contains content old_text) refl (ltb 1 (count content old_text)) refl
      (index content old_text) refl h
  where
    outcome : Bool → Bool → Option ℕ → Text ⊎ EditError E
    outcome b c o =
        if not b
        then inr not_found
        else if c
        then inr (ambiguous (count content old_text))
        else inl (elim o as (λ _. Text) [
          | none ↦ content
          | some i ↦ take i content ++ new_text ++ drop (i + length old_text) content
        ])

    go :
        (b : Bool)
        → contains content old_text ≡ b
        → (c : Bool) → ltb 1 (count content old_text) ≡ c
        → (o : Option ℕ) → index content old_text ≡ o
        → outcome b c o ≡ inl result
        → (before : Text) × (after : Text) × (content ≡ before ++ (old_text ++ after))
          × (result ≡ before ++ (new_text ++ after))
          × ((is_nil old_text ≡ true) ⊎ (index after old_text ≡ none))
    go false b c k o e q = absurd (cc)
    go true b true k o e q = absurd (cc)
    go true b false k none e q = absurd (index-contains content old_text b e)
    go true b false k (some i) e q = (
      take i content,
      drop (i + length old_text) content,
      index-Splits content old_text i e,
      ap (get_left result) (sym q)
          ∙ append_assoc (take i content) new_text (drop (i + length old_text) content),
      elim (Bool-cases (is_nil old_text)) [
        | inl empty ↦ inl empty
        | inr n ↦ inr (after-none content old_text i e n k)
      ],
    )
