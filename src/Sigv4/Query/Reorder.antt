-- ===== src/Sigv4/Query/Reorder.antt =====
-- src/pa/sigv4.rs: `canonical_query` and the order of the parameters.
use mathlib.Core.List.{Permᴰ}
use agent_voice.Common.{ℕ, ◌≡◌, List, [], ◌∷◌, map, ap, Bytes}
use agent_voice.Common.Split.{split, join}
use agent_voice.Common.OrderLaws.{sort-perm, map-perm, pair_leb-IsTotal}
use agent_voice.Common.Order.{pair_leb}
use agent_voice.Sigv4.Query.{encode_pair, show_pair, canonical_pairs, canonical_query}

pairs-perm :
    {parts others : List Bytes}
    → Permᴰ parts others
    → canonical_pairs parts ≡ canonical_pairs others
unfolding canonical_pairs
pairs-perm p =
    ap (λ sorted. join (b'&' ∷ []) (map show_pair sorted))
      (sort-perm pair_leb pair_leb-IsTotal (map-perm encode_pair p))

-- Two queries whose parameters, the parts between `&`, are the same in any order have one canonical
-- query.
canonical_query-perm :
    (c d : ℕ) (query other : Bytes)
    → Permᴰ (split b'&' (c ∷ query)) (split b'&' (d ∷ other))
    → canonical_query (c ∷ query) ≡ canonical_query (d ∷ other)
unfolding canonical_query
canonical_query-perm c d query other p = pairs-perm p
