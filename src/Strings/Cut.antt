-- ===== src/Strings/Cut.antt =====
-- Cutting a text at the first separator.
use elvis.Base.{ℕ, suc, ◌≡◌, ◌≢◌, sym, ap, ◌∙◌, [], ◌∷◌, ◌++◌, Option, some, Text, All, arith}
use elvis.Strings.{cut, split_n}

-- No byte of a text is the separator.
abbrev pub Lacks : ℕ → Text → Type 0
Lacks sep = All (λ c. c ≢ sep)

pub cut-append : (sep : ℕ) (s t : Text) → Lacks sep s → cut sep (s ++ sep ∷ t) ≡ some (s, t)
unfolding cut
cut-append sep [] t h = ground arith
cut-append sep (c ∷ s) t (p, h) = ground (arith, cut-append sep s t h)

-- So the two parts of a text in which the first has no separator are determined.
pub append-injective :
    (sep : ℕ) (s s' t t' : Text)
    → Lacks sep s
    → Lacks sep s'
    → s ++ sep ∷ t ≡ s' ++ sep ∷ t'
    → (s ≡ s') × (t ≡ t')
append-injective sep s s' t t' h h' e =
    let same : ◌≡◌ {A = Option (Text × Text)} (some (s, t)) (some (s', t')) =
      sym (cut-append sep s t h) ∙ ap (cut sep) e ∙ cut-append sep s' t' h' in
    ground arith

pub split_n-append :
    (n sep : ℕ) (s t : Text)
    → Lacks sep s
    → split_n (suc (suc n)) sep (s ++ sep ∷ t) ≡ s ∷ split_n (suc n) sep t
unfolding split_n
split_n-append n sep s t h = rw (cut-append sep s t h, split_n)
