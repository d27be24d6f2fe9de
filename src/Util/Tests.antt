-- ===== src/Util/Tests.antt =====
-- The theorems of the utilities and of the maps on concrete texts.
use gloox.Base.{refl, ◌≡◌, codes, ◌++◌, equal, []}
use gloox.Base.{List, ◌∷◌, arith, Bytes, none}
use gloox.Util.Lookup.{
  lookup, lookup_code, lookup2, lookup2_code, internal_log2, IsLog2, lookup2_code-lookup2,
  internal_log2-IsLog2,
}
use gloox.Base.Int.{negsuc}
use gloox.Connection.{atoi}
use gloox.Util.Numbers.{long2string, atoi-long2string}
use gloox.Util.Escape.{append_escaped, append_escaped-escape, escape}

append_escaped-escape_example :
    append_escaped (codes "<a>") (codes "x < \"y\" & z")
    ≡ codes "<a>" ++ escape (codes "x < \"y\" & z")
append_escaped-escape_example = append_escaped-escape (codes "<a>") (codes "x < \"y\" & z")

abbrev show_values : List Bytes
show_values = codes "away" ∷ codes "chat" ∷ codes "dnd" ∷ []

found_code :
    lookup_code (lookup (codes "dnd") show_values none) show_values (codes "?") ≡ codes "dnd"
unfolding lookup lookup_code equal
found_code = refl

lookup2_code-lookup2_example :
    lookup2_code (lookup2 (codes "dnd") show_values none) show_values (codes "?") ≡ codes "dnd"
unfolding lookup equal
lookup2_code-lookup2_example =
    lookup2_code-lookup2 (codes "dnd") (codes "?") show_values (omega arith) (omega arith)

internal_log2-IsLog2_example : IsLog2 1000 (internal_log2 1000)
internal_log2-IsLog2_example = internal_log2-IsLog2 1000 (omega arith)

atoi-long2string_example : atoi (long2string (negsuc 41)) ≡ negsuc 41
atoi-long2string_example = atoi-long2string (negsuc 41) (omega arith)
