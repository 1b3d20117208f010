-- ===== src/Skills/SearchCache.antt =====
-- pkg/skills/search_cache.go: searches and their results, found again by similar queries; the least
-- recently used ones are evicted. `R` stands for the results. A similarity is a fraction, and fractions
-- are compared by products: for texts below 2²⁰ bytes the comparisons of the float64 are the same ones.
-- The order of a `range` over the map is the list's. Each method holds the mutex.
pub mod Bounded
mod Examples
use elvis.Base.{
  ℕ, zero, suc, ◌+◌, ◌-◌, ◌*◌, Bool, true, false, ◌&&◌, ◌||◌, not, List, [], ◌∷◌, ◌++◌, Option,
  none, some, Text, Dict, lookup, insert, length, text_eq, is_nil, ltb, leb, ◌==◌, if◌then◌else◌, ℤ,
  pos, negsuc,
}
use elvis.Strings.{Unicode, trim_space, to_lower}

pub record CacheEntry (R : Type 0) : Type 0 where
  pub query : Text
  pub trigrams : List ℕ
  pub results : R
  pub created_at : ℕ

-- `order` has the oldest key first. Times are in nanoseconds.
pub record SearchCache (R : Type 0) : Type 0 where
  pub entries : Dict (CacheEntry R)
  pub order : List Text
  pub max_entries : ℕ
  pub ttl : ℕ

abbrev positive_or : ℤ → ℕ → ℕ
positive_or (pos zero) d = d
positive_or (pos (suc n)) d = suc n
positive_or (negsuc n) d = d

unfoldable pub normalize_query : ⦃u : Unicode⦄ → Text → Text
normalize_query q = to_lower (trim_space q)

-- A number into a sorted list without repetition.
unfoldable pub insert_sorted : ℕ → List ℕ → List ℕ
insert_sorted n [] = n ∷ []
insert_sorted n (m ∷ ms) =
    let rest = insert_sorted n ms in
    if ltb n m then n ∷ m ∷ ms else if n == m then m ∷ ms else m ∷ rest

unfoldable pub build_trigrams : Text → List ℕ
build_trigrams (a ∷ b ∷ c ∷ s) =
    insert_sorted (a * 0x10000 + b * 0x100 + c) (build_trigrams (b ∷ c ∷ s))
build_trigrams _ = []

-- The loop over two sorted lists; the fuel is their length together.
unfoldable pub intersection : ℕ → List ℕ → List ℕ → ℕ
intersection zero xs ys = 0
intersection (suc fuel) [] ys = 0
intersection (suc fuel) (x ∷ xs) [] = 0
intersection (suc fuel) (x ∷ xs) (y ∷ ys) =
    let both = intersection fuel xs ys in
    let left = intersection fuel xs (y ∷ ys) in
    let right = intersection fuel (x ∷ xs) ys in
    if x == y then suc both else if ltb x y then left else right

-- A similarity, as a numerator and a denominator.
unfoldable pub jaccard_similarity : List ℕ → List ℕ → ℕ × ℕ
jaccard_similarity [] [] = (1, 1)
jaccard_similarity a b =
    let common = intersection (length a + length b) a b in (common, length a + length b - common)

-- 0.7
abbrev is_similar : ℕ × ℕ → Bool
is_similar s = leb (7 * s.1) (10 * s.0)

abbrev more_similar : ℕ × ℕ → ℕ × ℕ → Bool
more_similar s t = ltb (t.0 * s.1) (s.0 * t.1)

unfoldable pub remove_key : Text → List Text → List Text
remove_key key [] = []
remove_key key (k ∷ ks) = if text_eq k key then ks else k ∷ remove_key key ks

module _ {R : Type 0} where
  unfoldable pub new_search_cache : ℤ → ℤ → SearchCache R
  new_search_cache max_entries ttl = record {
    entries = [];
    order = [];
    max_entries = positive_or max_entries 50;
    ttl = positive_or ttl 300000000000;
  }

  unfoldable pub len : SearchCache R → ℕ
  len sc = length sc.entries

  unfoldable pub delete : Text → Dict (CacheEntry R) → Dict (CacheEntry R)
  delete key [] = []
  delete key ((k, e) ∷ entries) =
      let rest = delete key entries in if text_eq k key then rest else (k, e) ∷ rest

  unfoldable pub move_to_end : Text → SearchCache R → SearchCache R
  move_to_end key sc = record sc { order = remove_key key sc.order ++ key ∷ [] }

  abbrev pub is_alive : ℕ → ℕ → CacheEntry R → Bool
  is_alive now ttl e = ltb (now - e.created_at) ttl

  abbrev pub keeps_key : ℕ → SearchCache R → Text → Bool
  keeps_key now sc key = elim (lookup key sc.entries) [
    | none ↦ false
    | some e ↦ is_alive now sc.ttl e
  ]

  unfoldable pub expire : ℕ → List Text → SearchCache R → SearchCache R
  expire now [] sc = record sc { order = [] }
  expire now (key ∷ keys) sc = elim (keeps_key now sc key) [
    | true ↦ let rest = expire now keys sc in record rest { order = key ∷ rest.order }
    | false ↦ expire now keys (record sc { entries = delete key sc.entries })
  ]

  unfoldable pub evict_expired : ℕ → SearchCache R → SearchCache R
  evict_expired now sc = expire now sc.order sc

  -- Down to less than `max_entries`; the recursion is on the order.
  unfoldable pub evict_oldest :
      List Text → Dict (CacheEntry R) → ℕ → Dict (CacheEntry R) × List Text
  evict_oldest [] entries max_entries = (entries, [])
  evict_oldest (oldest ∷ order) entries max_entries = elim (leb max_entries (length entries)) [
    | true ↦ evict_oldest order (delete oldest entries) max_entries
    | false ↦ (entries, oldest ∷ order)
  ]

  -- `created` is the clock when the entry is made.
  unfoldable pub put : ⦃u : Unicode⦄ → ℕ → ℕ → Text → R → SearchCache R → SearchCache R
  put now created query results sc =
      let normalized = normalize_query query in
      let alive = evict_expired now sc in
      let entry : CacheEntry R = record {
        query = normalized;
        trigrams = build_trigrams normalized;
        results = results;
        created_at = created;
      } in
      if is_nil normalized then sc else elim (lookup normalized alive.entries) [
        | some _ ↦
            move_to_end normalized
              (record alive { entries = insert normalized entry alive.entries })
        | none ↦
            let evicted = evict_oldest alive.order alive.entries alive.max_entries in
            record alive {
              entries = insert normalized entry evicted.0;
              order = evicted.1 ++ normalized ∷ [];
            }
      ]

  -- The best live entry so far with its similarity; nothing is as similar as 0.
  unfoldable pub best_entry :
      ℕ
      → ℕ
      → List ℕ
      → Dict (CacheEntry R)
      → Option (CacheEntry R) × (ℕ × ℕ)
      → Option (CacheEntry R) × (ℕ × ℕ)
  best_entry now ttl trigrams [] best = best
  best_entry now ttl trigrams ((k, e) ∷ entries) best =
      let sim = jaccard_similarity trigrams e.trigrams in
      best_entry now ttl trigrams entries
        (if is_alive now ttl e && more_similar sim best.1 then (some e, sim) else best)

  abbrev similar_entry : ℕ → Text → SearchCache R → SearchCache R × Option R
  similar_entry now normalized sc =
      let best = best_entry now sc.ttl (build_trigrams normalized) sc.entries (none, (0, 1)) in
      elim best.0 [
        | none ↦ (sc, none)
        | some e ↦
            if is_similar best.1 then (move_to_end e.query sc, some e.results) else (sc, none)
      ]

  -- The clock is read once.
  unfoldable pub get : ⦃u : Unicode⦄ → ℕ → Text → SearchCache R → SearchCache R × Option R
  get now query sc =
      let normalized = normalize_query query in
      if is_nil normalized then (sc, none) else elim (lookup normalized sc.entries) [
        | none ↦ similar_entry now normalized sc
        | some e ↦
            if is_alive now sc.ttl e
            then (move_to_end normalized sc, some e.results)
            else similar_entry now normalized sc
      ]
