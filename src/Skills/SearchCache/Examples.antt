-- ===== src/Skills/SearchCache/Examples.antt =====
-- The cache of pkg/skills/search_cache.go at concrete queries.
use elvis.Base.{ℕ, ◌≡◌, refl, none, some, codes, pos, arith, lookup, insert, text_eq}
use elvis.Strings.Sample.{ascii_only}
use elvis.Skills.SearchCache.{
  SearchCache, new_search_cache, put, get, jaccard_similarity, build_trigrams, normalize_query,
  evict_expired, expire, evict_oldest, best_entry, insert_sorted, intersection, delete,
}
use elvis.Skills.SearchCache.Bounded.{IsBounded, put-IsBounded}
use elvis.Strings.{to_lower, trim_space, trim_from, space_width, last_space_width}

-- At most one entry, which lives 100 ns.
abbrev cache : SearchCache ℕ
cache = put 5 5 (codes "Hello") 1 (new_search_cache (pos 1) (pos 100))

found : (get 6 (codes " hello ") cache).1 ≡ some 1
unfolding get normalize_query to_lower trim_space trim_from space_width last_space_width lookup put
    evict_expired expire new_search_cache insert evict_oldest text_eq
found = refl

gone : (get 105 (codes "hello") cache).1 ≡ none
unfolding get normalize_query to_lower trim_space trim_from space_width last_space_width lookup put
    evict_expired expire new_search_cache insert evict_oldest text_eq best_entry
gone = refl

-- One trigram of three is common.
similarity :
    jaccard_similarity (build_trigrams (codes "hell")) (build_trigrams (codes "ello")) ≡ (1, 3)
unfolding jaccard_similarity build_trigrams insert_sorted intersection
similarity = refl

evicted : (get 8 (codes "hello") (put 7 7 (codes "weather") 2 cache)).1 ≡ none
unfolding get normalize_query to_lower trim_space trim_from space_width last_space_width lookup put
    evict_expired expire new_search_cache evict_oldest insert text_eq delete best_entry
    jaccard_similarity build_trigrams insert_sorted intersection
evicted = refl

abbrev empty : SearchCache ℕ
empty = new_search_cache (pos 1) (pos 100)

empty-IsBounded : IsBounded empty
unfolding new_search_cache
empty-IsBounded = (omega arith, omega arith, tt)

put-IsBounded_example : IsBounded (put 7 7 (codes "weather") 2 empty)
put-IsBounded_example = put-IsBounded 7 7 (codes "weather") 2 empty empty-IsBounded
