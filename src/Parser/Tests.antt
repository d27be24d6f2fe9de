-- ===== src/Parser/Tests.antt =====
-- The theorems of the parser on concrete texts.
use gloox.Base.{
  ◌≡◌, refl, true, false, Bytes, codes, some, List, [], ◌∷◌, ◌++◌, All, equal, ◌+◌, is_empty, inl,
  inr,
}
use gloox.Parser.Chunks.{feed-append, fed_on}
use gloox.Parser.CharRef.{code_point, code_point-utf8}
use gloox.Parser.Decode.{utf8}
use gloox.Base.{◌<◌}
use gloox.Parser.Errors.{Refusal, feed-Refusal}
use gloox.Parser.Feed.{feed}
use gloox.Parser.Pieces.{feed_pieces}
use gloox.Parser.RoundTrip.Heads.{IsReadableHead}
use gloox.Parser.RoundTrip.Names.{IsName, is_plain}
use gloox.Parser.RoundTrip.Readable.{IsReadableTag}
use gloox.Parser.RoundTrip.Stanzas.{stanzas_xml, Delivered, stanzas-Delivered}
use gloox.Parser.{new_parser, is_whitespace}
use gloox.Tag.Attributes.{no_attribute}
use gloox.Tag.Printer.{
  xml, nodes_xml, around, open_xml, close_xml, attributes_xml, attribute_xml, qualified,
}
use gloox.Tag.{Attribute, Head, Tag, tag, no_head, nil, child, text}
use gloox.Util.Escape.{append_escaped}
use gloox.Util.Valid.{check_valid_xml_chars, is_valid_byte}

abbrev id_attribute : Attribute
id_attribute = record no_attribute { name = codes "id"; value = codes "a&b" }

abbrev message_head : Head
message_head = record no_head {
  name = codes "message";
  prefix = codes "c";
  attribs = some (id_attribute ∷ []);
}

abbrev body_head : Head
body_head = record no_head { name = codes "body" }

abbrev stanzas : List Tag
stanzas =
    tag message_head (child (tag body_head (text (codes "1 < 2") nil)) nil) ∷ tag body_head nil ∷ []

abbrev first_piece : Bytes
first_piece = codes "<c:message id='a&a"

abbrev later_pieces : List Bytes
later_pieces = codes "mp;b'><body>1 &lt; 2</bo" ∷ codes "dy></c:message><body/>" ∷ []

stanzas-IsReadableTag : All IsReadableTag stanzas
unfolding equal check_valid_xml_chars is_valid_byte is_plain is_whitespace
stanzas-IsReadableTag =
    ((message_ok, ((body_ok, (refl, refl, refl, Prim.tt)), Prim.tt)), ((body_ok, Prim.tt), Prim.tt))
  where
    name : (n : Bytes) → is_empty n ≡ false → All (λ c. is_plain c ≡ true) n → IsName n
    name n e h = record { not_empty = e; plain = h }

    body_ok : IsReadableHead body_head
    body_ok = record {
      name_ok = name (codes "body") refl (refl, (refl, (refl, (refl, Prim.tt))));
      not_stream = refl;
      prefix_ok = inl refl;
      attribs_ok = Prim.tt;
      declares = Prim.tt;
    }

    message_ok : IsReadableHead message_head
    message_ok = record {
      name_ok =
          name (codes "message") refl
            (refl, (refl, (refl, (refl, (refl, (refl, (refl, Prim.tt)))))));
      not_stream = refl;
      prefix_ok = inr (name (codes "c") refl (refl, Prim.tt), refl);
      attribs_ok = (
        record {
          name_ok = name (codes "id") refl (refl, (refl, Prim.tt));
          prefix_ok = inl refl;
          value_ok = refl;
        },
        Prim.tt,
      );
      declares = ((λ e. cc), Prim.tt);
    }

stanzas-Delivered_example :
    Delivered stanzas (feed_pieces (new_parser true) first_piece later_pieces)
unfolding stanzas_xml xml nodes_xml around open_xml close_xml attributes_xml attribute_xml qualified
    append_escaped
stanzas-Delivered_example =
    stanzas-Delivered stanzas first_piece later_pieces stanzas-IsReadableTag refl

feed-append_example :
    feed (new_parser true) (codes "<a>x&a" ++ codes "mp;</a><")
    ≡ fed_on
        (new_parser true)
        (codes "<a>x&a")
        (codes "mp;</a><")
        (feed (new_parser true) (codes "<a>x&a"))
feed-append_example = feed-append (new_parser true) (codes "<a>x&a") (codes "mp;</a><")

feed-Refusal_example : Refusal (0 + 10) (feed (new_parser true) (codes "<a b='c'<>"))
feed-Refusal_example = feed-Refusal (new_parser true) (codes "<a b='c'<>")

code_point-utf8_example :
    (code_point (226 ∷ 130 ∷ 172 ∷ []) ≡ some 8364) × All (λ c. c < 256) (226 ∷ 130 ∷ 172 ∷ [])
unfolding utf8
code_point-utf8_example = code_point-utf8 8364 (226 ∷ 130 ∷ 172 ∷ []) refl
