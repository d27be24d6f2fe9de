-- ===== src/Privacy/Tests.antt =====
-- The theorems of privacy lists on a list of two items.
use gloox.Util.Valid.{check_valid_xml_chars, is_valid_byte}
use gloox.Base.{◌≡◌, refl, true, [], ◌∷◌, codes, arith}
use gloox.Privacy.{
  PrivacyItem, type_jid, type_undefined, action_deny, action_allow, empty_query, query_tag,
  pl_store, read_query, read_packets, with_packets,
}
use gloox.Privacy.RoundTrip.{IsStorable, read_query-query_tag}
use gloox.Tag.{tag, nil, no_head, nodes}
use gloox.Tag.Children.{children}

abbrev bad : PrivacyItem
bad = record { type_of = type_jid; action = action_deny; packet_type = 6; value = codes "bad@x" }

abbrev others : PrivacyItem
others = record { type_of = type_undefined; action = action_allow; packet_type = 0; value = [] }

bad-IsStorable : IsStorable bad
unfolding check_valid_xml_chars is_valid_byte
bad-IsStorable = record { some_packets = omega arith; valid_value = refl }

others-IsStorable : IsStorable others
unfolding check_valid_xml_chars
others-IsStorable = record { some_packets = omega arith; valid_value = refl }

valid_name : check_valid_xml_chars (codes "block") ≡ true
unfolding check_valid_xml_chars is_valid_byte
valid_name = refl

read_query-query_tag_example :
    read_query (query_tag pl_store (codes "block") (bad ∷ others ∷ []))
    ≡ record empty_query { names = codes "block" ∷ []; items = bad ∷ others ∷ [] }
read_query-query_tag_example =
    read_query-query_tag (codes "block") (bad ∷ others ∷ []) valid_name
      (bad-IsStorable, (others-IsStorable, tt))

-- An item for all packets has no children, which are read back as no packets.
all_packets : read_packets 0 (children (nodes (with_packets 15 (tag no_head nil)))) ≡ 0
unfolding read_packets with_packets children
all_packets = refl
