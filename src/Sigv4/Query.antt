-- ===== src/Sigv4/Query.antt =====
-- src/pa/sigv4.rs: `canonical_uri_and_query` and `canonical_query`.
pub mod Reorder
use mathlib.Core.Path.{◌≡◌}
use agent_voice.Common.{
  ℕ, Bool, true, false, not, ◌&&◌, ◌||◌, Option, none, some, List, [], ◌∷◌, ◌++◌, map, leb, ltb,
  ◌==◌, if◌then◌else◌, any, Bytes,
}
use agent_voice.Common.Results.{Result, ok, err, ◌>>=◌, ◌>>◌, guard}
use agent_voice.Common.Split.{split, split_once, join}
use agent_voice.Common.Order.{pair_leb, sort}
use agent_voice.Sigv4.Kinds.{SigResult, invalid_uri}
use agent_voice.Sigv4.Percent.{percent_encode}

-- Some character is a control character: a byte of the ASCII ones, or U+0080 to U+009F in UTF-8.
unfoldable pub has_control : Bytes → Bool
has_control [] = false
has_control (c ∷ []) = ltb c 0x20 || c == 0x7f
has_control (c ∷ next ∷ rest) =
    (ltb c 0x20 || (c == 0x7f || (c == 0xc2 && (leb 0x80 next && leb next 0x9f))))
    || has_control (next ∷ rest)

-- `split_once(sep).unwrap_or((text, ""))`
unfoldable pub split_or_all : ℕ → Bytes → Bytes × Bytes
split_or_all sep text = elim (split_once sep text) [ none ↦ (text, []) | some parts ↦ parts ]

unfoldable pub encode_pair : Bytes → Bytes × Bytes
unfolding split_or_all
encode_pair pair =
    let (name, value) = split_or_all b'=' pair in
    (percent_encode false true name, percent_encode false true value)

unfoldable pub show_pair : Bytes × Bytes → Bytes
show_pair (name, value) = name ++ b'=' ∷ value

-- The lines of `canonical_query` for the parts between `&`.
unfoldable pub canonical_pairs : List Bytes → Bytes
unfolding encode_pair show_pair
canonical_pairs parts = join (b'&' ∷ []) (map show_pair (sort pair_leb (map encode_pair parts)))

unfoldable pub canonical_query : Bytes → Bytes
unfolding canonical_pairs
canonical_query [] = []
canonical_query (c ∷ raw_query) = canonical_pairs (split b'&' (c ∷ raw_query))

abbrev root_or : Bytes → Bytes
root_or [] = b'/' ∷ []
root_or (c ∷ path) = c ∷ path

abbrev starts_with_slash : Bytes → Bool
starts_with_slash [] = false
starts_with_slash (c ∷ path) = c == b'/'

unfoldable pub canonical_uri_and_query : Bytes → SigResult (Bytes × Bytes)
unfolding split_or_all
canonical_uri_and_query uri = do
  guard (not (has_control uri || any (λ c. c == b'#') uri)) invalid_uri
  let raw_path = root_or (split_or_all b'?' uri).0
  let raw_query = (split_or_all b'?' uri).1
  guard (starts_with_slash raw_path) invalid_uri
  ok (percent_encode true true raw_path, canonical_query raw_query)
