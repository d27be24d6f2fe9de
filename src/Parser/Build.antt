-- ===== src/Parser/Build.antt =====
-- `Parser::addTag`, `addAttribute`, `addCData` and `closeTag`.
use gloox.Base.{
  Bool, true, false, not, ◌&&◌, ◌||◌, List, [], ◌∷◌, ◌++◌, map, ◌==◌, if◌then◌else◌, Bytes, codes,
  equal, is_empty,
}
use gloox.Parser.{Parser, cleanup, stream_event}
use gloox.StringMap.{StringMap, insert}
use gloox.Tag.Attributes.{
  xmlns_name, new_attribute, set_attr_prefix, set_attributes, set_xmlns, tag_xmlns,
}
use gloox.Tag.{
  Attribute, Head, Tag, tag, nil, head, add_child, new_tag, set_prefix, add_cdata as tag_add_cdata,
}

-- `XMLNS_STREAM` of src/gloox.cpp.
abbrev pub xmlns_stream : Bytes
xmlns_stream = codes "http://etherx.jabber.org/streams"

abbrev pub stream_name : Bytes
stream_name = codes "stream"

-- `m_root`, above the tag `t`, and the same with all that is open joined to it.
unfoldable pub root : Tag → List Tag → Tag
root t [] = t
root t (u ∷ up) = root u up

unfoldable pub whole : Tag → List Tag → Tag
whole t [] = t
whole t (u ∷ up) = whole (add_child t u) up

-- `Parser::addAttribute`.
unfoldable pub add_attribute : Parser → Parser
add_attribute p =
    let attr = new_attribute p.attrib p.value [] in
    let q = record p {
      attrib = [];
      value = [];
      attrib_prefix = [];
      have_attrib_prefix = false;
      attrib_is_xmlns = false;
    } in
    if p.attrib_is_xmlns
    then record q {
      xmlnss = insert p.attrib p.value p.xmlnss;
      attribs = p.attribs ++ ((set_attr_prefix xmlns_name attr).0 ∷ []);
    }
    else record q {
      attribs =
          p.attribs
          ++ ((if is_empty p.attrib_prefix then attr else (set_attr_prefix p.attrib_prefix attr).0)
              ∷ []);
      xmlns = if equal p.attrib xmlns_name then p.value else p.xmlns;
    }

-- `Parser::addCData`: without an open tag the text stays where it is.
unfoldable pub add_cdata_to : List Tag → Parser → Parser
add_cdata_to [] p = p
add_cdata_to (t ∷ up) p =
    if is_empty p.cdata then p else record p { path = (tag_add_cdata p.cdata t).0 ∷ up; cdata = [] }

unfoldable pub add_cdata : Parser → Parser
add_cdata p = add_cdata_to p.path p

-- The new tag with all that has been collected for it, below the tags `up`.
abbrev pub take_attributes : List Attribute → Head → Head
take_attributes [] h = h
take_attributes (a ∷ attribs) h = set_attributes (a ∷ attribs) h

abbrev pub take_xmlnss : StringMap → Head → Head
take_xmlnss [] h = h
take_xmlnss (x ∷ xmlnss) h = record h { xmlnss = x ∷ xmlnss }

unfoldable pub new_head : Parser → Head
new_head p =
    let h = head (new_tag p.tag_name []) in
    let prefixed = if p.have_tag_prefix then (set_prefix p.tag_prefix h).0 else h in
    let filled = take_xmlnss p.xmlnss (take_attributes p.attribs prefixed) in
    (set_xmlns filled (map head p.path) p.xmlns []).0

-- `m_root == m_current && m_tagPrefix == "stream"`: the root gets the namespace of the prefix.
unfoldable pub stream_root : Bytes → Head → List Tag → Head
stream_root prefix h [] =
    if equal prefix stream_name then (set_xmlns h [] xmlns_stream prefix).0 else h
stream_root prefix h (u ∷ up) = h

-- The members that `addTag` has emptied into the tag.
abbrev pub collected : Parser → Parser
collected p = record p { have_tag_prefix = false; attribs = []; xmlnss = []; xmlns = [] }

-- Behind the namespaces of the new tag.
unfoldable pub add_head : Head → Parser → Parser
add_head h p =
    if equal p.tag_name stream_name
      && equal (tag_xmlns (head (root (tag h nil) p.path)) []) xmlns_stream
    then cleanup (stream_event (whole (tag h nil) p.path) p)
    else let q = record p { path = tag (stream_root p.tag_prefix h p.path) nil ∷ p.path } in
      if equal p.tag_name (codes "xml") && p.preamble == 2 then cleanup q else q

-- `Parser::addTag`.
unfoldable pub add_tag : Parser → Parser
add_tag p = add_head (new_head p) (collected p)

-- The second half of `closeTag`, with the tag `t` at the end of the path `t ∷ up`.
unfoldable pub close_path : Tag → List Tag → Parser → Parser
close_path t [] p = cleanup (stream_event t p)
close_path t (u ∷ up) p = record p { path = add_child t u ∷ up }

-- The name and the prefix of the closing tag against those of `m_current`.
unfoldable pub closes : Parser → Head → Bool
closes p h = not (
    not (equal h.name p.tag_name) || (not (is_empty h.prefix) && not (equal h.prefix p.tag_prefix)))

unfoldable pub close_at : List Tag → Parser → Parser × Bool
close_at [] p = (p, false)
close_at (t ∷ up) p =
    if closes p (head t)
    then (close_path t up (record p { tag_prefix = []; have_tag_prefix = false }), true)
    else (p, false)

-- `Parser::closeTag`.
unfoldable pub close_tag : Parser → Parser × Bool
close_tag p =
    if equal p.tag_name stream_name && equal p.tag_prefix stream_name
    then (p, true)
    else close_at p.path p
