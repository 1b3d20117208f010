-- ===== src/Skills/SearchCache/Bounded.antt =====
-- pkg/skills/search_cache.go: the cache stays within its number of entries, and its order lists them all.
use elvis.Base.{
  ℕ, suc, ◌≤◌, ◌<◌, ◌≡◌, refl, sym, ap, subst, ◌∙◌, Bool, true, false, ◌||◌, List, [], ◌∷◌, ◌++◌,
  Option, none, some, Text, Dict, lookup, insert, length, text_eq, text_eq_refl, text_eq_iff, any,
  All, is_nil, leb, if◌then◌else◌, arith,
}
use elvis.Strings.{Unicode}
use elvis.Skills.SearchCache.{
  CacheEntry, SearchCache, normalize_query, build_trigrams, remove_key, delete, move_to_end,
  keeps_key, expire, evict_expired, evict_oldest, put,
}

abbrev has : Text → List Text → Bool
has key order = any (text_eq key) order

module _ {R : Type 0} where
  -- Each entry's key is in the order.
  abbrev pub Listed : List Text → Dict (CacheEntry R) → Type 0
  Listed order = All (λ p. has p.0 order ≡ true)

  All-delete :
      (P : Text × CacheEntry R → Type 0) (key : Text) (entries : Dict (CacheEntry R))
      → All P entries
      → All (λ p. P p × (text_eq p.0 key ≡ false)) (delete key entries)
  unfolding delete
  All-delete P key [] h = tt
  All-delete P key ((k, e) ∷ entries) (h, rest) =
      go (text_eq k key) refl (All-delete P key entries rest)
    where
      go :
          (b : Bool)
          → text_eq k key ≡ b
          → All (λ p. P p × (text_eq p.0 key ≡ false)) (delete key entries)
          → All
              (λ p. P p × (text_eq p.0 key ≡ false))
              (if b then delete key entries else (k, e) ∷ delete key entries)
      go true d r = r
      go false d r = ((h, d), r)

  All-map {ℓ} :
      {P Q : Text × CacheEntry R → Type ℓ}
      → ((p : Text × CacheEntry R) → P p → Q p)
      → (entries : Dict (CacheEntry R)) → All P entries
      → All Q entries
  All-map f [] h = tt
  All-map f (p ∷ entries) (h, rest) = (f p h, All-map f entries rest)

  length-delete :
      (key : Text) (entries : Dict (CacheEntry R)) → length (delete key entries) ≤ length entries
  unfolding delete
  length-delete key [] = omega arith
  length-delete key ((k, e) ∷ entries) = go (text_eq k key) (length-delete key entries)
    where
      go :
          (b : Bool)
          → length (delete key entries) ≤ length entries
          → length (if b then delete key entries else (k, e) ∷ delete key entries)
            ≤ suc (length entries)
      go true h = omega arith
      go false h = omega arith

  -- What evicting leaves: at most one entry less than allowed, all of them in the order.
  evict_oldest-bound :
      (order : List Text) (entries : Dict (CacheEntry R)) (max_entries : ℕ)
      → 0 < max_entries
      → Listed order entries
      → let left = evict_oldest order entries max_entries in
        (suc (length left.0) ≤ max_entries) × Listed left.1 left.0
  unfolding evict_oldest
  evict_oldest-bound [] [] max_entries h l = (omega arith, tt)
  evict_oldest-bound [] (p ∷ entries) max_entries h (l, rest) = absurd (ground arith)
  evict_oldest-bound (oldest ∷ order) entries max_entries h l =
      go (leb max_entries (length entries)) refl
        (evict_oldest-bound order (delete oldest entries) max_entries h deleted)
    where
      step :
          (p : Text × CacheEntry R)
          → (has p.0 (oldest ∷ order) ≡ true) × (text_eq p.0 oldest ≡ false)
          → has p.0 order ≡ true
      step p (q, d) = sym (ap (λ b. b || has p.0 order) d) ∙ q

      deleted : Listed order (delete oldest entries)
      deleted =
          All-map step (delete oldest entries)
            (All-delete (λ p. has p.0 (oldest ∷ order) ≡ true) oldest entries l)

      pair : Dict (CacheEntry R) → List Text → Dict (CacheEntry R) × List Text
      pair d o = (d, o)

      Good : Dict (CacheEntry R) × List Text → Type 0
      Good left = (suc (length left.0) ≤ max_entries) × Listed left.1 left.0

      go :
          (b : Bool)
          → leb max_entries (length entries) ≡ b
          → Good (evict_oldest order (delete oldest entries) max_entries)
          → Good (elim b as (λ _. Dict (CacheEntry R) × List Text) [
            | true ↦ evict_oldest order (delete oldest entries) max_entries
            | false ↦ pair entries (oldest ∷ order)
          ])
      go true e r = r
      go false e r = (ground arith, l)

rotate_or : (a b c : Bool) → ((a || b) || c) ≡ true → (b || (a || c)) ≡ true
rotate_or true true c h = refl
rotate_or true false c h = refl
rotate_or false b c h = h

unrotate_or : (a b c : Bool) → (b || (a || c)) ≡ true → ((a || b) || c) ≡ true
unrotate_or true b c h = refl
unrotate_or false b c h = h

module _ {R : Type 0} (now : ℕ) where
  -- Each entry's key is in one of two lists.
  abbrev Within : List Text → List Text → Dict (CacheEntry R) → Type 0
  Within order extra = All (λ p. (has p.0 order || has p.0 extra) ≡ true)

  abbrev Expired : List Text → SearchCache R → SearchCache R → Type 0
  Expired extra sc r =
      Within r.order extra r.entries
      × (length r.entries ≤ length sc.entries)
      × (r.max_entries ≡ sc.max_entries)

  expire-Expired :
      (keys extra : List Text) (sc : SearchCache R)
      → Within keys extra sc.entries
      → Expired extra sc (expire now keys sc)
  unfolding expire
  expire-Expired [] extra sc w = (w, omega arith, refl)
  expire-Expired (key ∷ keys) extra sc w =
      go (keeps_key now sc key) (expire-Expired keys (key ∷ extra) sc kept)
        (expire-Expired keys extra shorter deleted)
    where
      shorter : SearchCache R
      shorter = record sc { entries = delete key sc.entries }

      kept : Within keys (key ∷ extra) sc.entries
      kept =
          All-map (λ p h. rotate_or (text_eq p.0 key) (has p.0 keys) (has p.0 extra) h) sc.entries w

      deleted : Within keys extra (delete key sc.entries)
      deleted =
          All-map (λ p h. sym (ap (λ b. (b || has p.0 keys) || has p.0 extra) h.1) ∙ h.0)
            (delete key sc.entries)
            (All-delete (λ p. (has p.0 (key ∷ keys) || has p.0 extra) ≡ true) key sc.entries w)

      go :
          (b : Bool)
          → Expired (key ∷ extra) sc (expire now keys sc)
          → Expired extra shorter (expire now keys shorter)
          → Expired extra sc (elim b as (λ _. SearchCache R) [
            | true ↦ let rest = expire now keys sc in record rest { order = key ∷ rest.order }
            | false ↦ expire now keys shorter
          ])
      go true (a, b, c) r = (
        All-map
            (λ p h.
              unrotate_or (text_eq p.0 key) (has p.0 (expire now keys sc).order) (has p.0 extra) h)
            (expire now keys sc).entries a,
        b,
        c,
      )
      go false r (a, b, c) = (a, omega (arith, length-delete key sc.entries), c)

module _ {R : Type 0} where
  -- What holds of every cache that `Put` and `Get` leave.
  abbrev pub IsBounded : SearchCache R → Type 0
  IsBounded sc =
      (0 < sc.max_entries) × (length sc.entries ≤ sc.max_entries) × Listed sc.order sc.entries

  All-insert :
      (P : Text × CacheEntry R → Type 0) (key : Text) (e : CacheEntry R)
      (entries : Dict (CacheEntry R))
      → P (key, e)
      → All P entries
      → All P (insert key e entries)
  unfolding insert
  All-insert P key e [] h rest = (h, tt)
  All-insert P key e ((k, x) ∷ entries) h (a, rest) =
      go (text_eq k key) (All-insert P key e entries h rest)
    where
      go :
          (b : Bool)
          → All P (insert key e entries)
          → All P (if b then (key, e) ∷ entries else (k, x) ∷ insert key e entries)
      go true r = (h, rest)
      go false r = (a, r)

  length-insert :
      (key : Text) (e : CacheEntry R) (entries : Dict (CacheEntry R))
      → length (insert key e entries)
        ≡ elim (lookup key entries) [ none ↦ suc (length entries) | some _ ↦ length entries ]
  unfolding insert lookup
  length-insert key e [] = refl
  length-insert key e ((k, x) ∷ entries) =
      go (text_eq k key) (lookup key entries) (length-insert key e entries)
    where
      go :
          (b : Bool) (o : Option (CacheEntry R))
          → length (insert key e entries)
            ≡ elim o [ none ↦ suc (length entries) | some _ ↦ length entries ]
          → length (if b then (key, e) ∷ entries else (k, x) ∷ insert key e entries)
            ≡ elim (if b then some x else o) [
              | none ↦ suc (suc (length entries))
              | some _ ↦ suc (length entries)
            ]
      go true o h = refl
      go false none h = ap suc h
      go false (some y) h = ap suc h

has-append : (k : Text) (xs ys : List Text) → has k (xs ++ ys) ≡ (has k xs || has k ys)
has-append k [] ys = refl
has-append k (x ∷ xs) ys =
    ap (λ b. text_eq k x || b) (has-append k xs ys) ∙ assoc (text_eq k x) (has k xs) (has k ys)
  where
    assoc : (a b c : Bool) → (a || (b || c)) ≡ ((a || b) || c)
    assoc true b c = refl
    assoc false b c = refl

or_true : (b : Bool) → (b || true) ≡ true
or_true true = refl
or_true false = refl

-- Moving a key to the end loses none.
has-moved :
    (k key : Text) (order : List Text)
    → has k order ≡ true
    → has k (remove_key key order ++ key ∷ []) ≡ true
unfolding remove_key
has-moved k key [] h = absurd (ground arith)
has-moved k key (x ∷ order) h = go (text_eq x key) refl (text_eq k x) refl (has-moved k key order) h
  where
    go :
        (b : Bool)
        → text_eq x key ≡ b
        → (c : Bool) → text_eq k x ≡ c
        → (has k order ≡ true → has k (remove_key key order ++ key ∷ []) ≡ true)
        → (c || has k order) ≡ true
        → has k ((if b then order else x ∷ remove_key key order) ++ key ∷ []) ≡ true
    go true e true f rec h =
        has-append k order (key ∷ [])
        ∙ ap (λ b. has k order || (b || false)) (ap (text_eq k) (sym ((text_eq_iff x key).0 e)) ∙ f)
        ∙ or_true (has k order)
    go true e false f rec h =
        has-append k order (key ∷ []) ∙ ap (λ b. b || (text_eq k key || false)) h
    go false e true f rec h = rw f refl
    go false e false f rec h = rw f (rec h)

module _ {R : Type 0} ⦃u : Unicode⦄ where
  expired-Bounded : (now : ℕ) (sc : SearchCache R) → IsBounded sc → IsBounded (evict_expired now sc)
  unfolding evict_expired
  expired-Bounded now sc (p, l, o) =
      let (within, shorter, same) =
        expire-Expired now sc.order [] sc (All-map (λ q h. ap (λ b. b || false) h) sc.entries o) in
      (
        subst (λ n. 0 < n) (sym same) p,
        subst (λ n. length (expire now sc.order sc).entries ≤ n) (sym same) (omega arith),
        All-map (λ q h. no_more (has q.0 (expire now sc.order sc).order) h)
            (expire now sc.order sc).entries within,
      )
    where
      no_more : (b : Bool) → (b || false) ≡ true → b ≡ true
      no_more true h = refl
      no_more false h = h

  updated-Bounded :
      (key : Text) (e : CacheEntry R) (sc : SearchCache R)
      → IsBounded sc
      → (old : CacheEntry R) → lookup key sc.entries ≡ some old
      → IsBounded (move_to_end key (record sc { entries = insert key e sc.entries }))
  unfolding move_to_end
  updated-Bounded key e sc (p, l, o) old found = (
    p,
    omega (
      arith,
      length-insert key e sc.entries
          ∙ ap
              (λ x. elim x as (λ _. ℕ) [
                | none ↦ suc (length sc.entries)
                | some _ ↦ length sc.entries
              ])
              found,
    ),
    All-insert (λ q. has q.0 (remove_key key sc.order ++ key ∷ []) ≡ true) key e sc.entries
        (has-append key (remove_key key sc.order) (key ∷ [])
          ∙ ap (λ b. has key (remove_key key sc.order) || (b || false)) (text_eq_refl key)
          ∙ or_true (has key (remove_key key sc.order)))
        (All-map (λ q h. has-moved q.0 key sc.order h) sc.entries o),
  )

  inserted-Bounded :
      (key : Text) (e : CacheEntry R) (sc : SearchCache R)
      → IsBounded sc
      → let left = evict_oldest sc.order sc.entries sc.max_entries in
        IsBounded (record sc { entries = insert key e left.0; order = left.1 ++ key ∷ [] })
  inserted-Bounded key e sc (p, l, o) =
      let left = evict_oldest sc.order sc.entries sc.max_entries in
      let (room, listed) = evict_oldest-bound sc.order sc.entries sc.max_entries p o in
      (
        p,
        at_most (lookup key left.0) (length-insert key e left.0) room,
        All-insert (λ q. has q.0 (left.1 ++ key ∷ []) ≡ true) key e left.0
            (has-append key left.1 (key ∷ [])
              ∙ ap (λ b. has key left.1 || (b || false)) (text_eq_refl key)
              ∙ or_true (has key left.1))
            (All-map
              (λ q h.
                has-append q.0 left.1 (key ∷ []) ∙ ap (λ b. b || (text_eq q.0 key || false)) h)
              left.0 listed),
      )
    where
      at_most :
          {m n : ℕ} (x : Option (CacheEntry R))
          → m ≡ elim x as (λ _. ℕ) [ none ↦ suc n | some _ ↦ n ]
          → suc n ≤ sc.max_entries
          → m ≤ sc.max_entries
      at_most none h k = omega arith
      at_most (some y) h k = omega arith

  -- A cache that holds no more entries than it may, at least one, and lists the keys of all of them in its
  -- order, stays such a cache under `Put`, which may expire, update, evict and insert entries.
  pub put-IsBounded :
      (now created : ℕ) (query : Text) (results : R) (sc : SearchCache R)
      → IsBounded sc
      → IsBounded (put now created query results sc)
  unfolding put
  put-IsBounded now created query results sc h = go (is_nil key) (lookup key alive.entries) refl
    where
      key : Text
      key = normalize_query query

      entry : CacheEntry R
      entry = record {
        query = key;
        trigrams = build_trigrams key;
        results = results;
        created_at = created;
      }

      alive : SearchCache R
      alive = evict_expired now sc

      bounded : IsBounded alive
      bounded = expired-Bounded now sc h

      updated : SearchCache R
      updated = move_to_end key (record alive { entries = insert key entry alive.entries })

      inserted : SearchCache R
      inserted =
          let evicted = evict_oldest alive.order alive.entries alive.max_entries in
          record alive { entries = insert key entry evicted.0; order = evicted.1 ++ key ∷ [] }

      go :
          (b : Bool) (o : Option (CacheEntry R))
          → lookup key alive.entries ≡ o
          → IsBounded (
              if b
              then sc
              else elim o as (λ _. SearchCache R) [ some _ ↦ updated | none ↦ inserted ])
      go true o e = h
      go false (some old) e = updated-Bounded key entry alive bounded old e
      go false none e = inserted-Bounded key entry alive bounded
