-- ===== src/Parser.antt =====
-- The data of src/parser.h: the states and the members of class `Parser`, `cleanup` and the test
-- for white space of src/parser.cpp.
-- `m_root` and `m_current` are one value here, `path`: the open tags from `m_current` up to
-- `m_root`, each with the nodes that it has so far. A child joins the nodes of the tag above when
-- it is closed; nothing is added to the tag above in between. `m_xmlnss` is null where the map is
-- empty. `handled` lists what `handleTag` has been called with. `m_deleteRoot` only says who frees
-- the root, and is left out.
pub mod Decode
pub mod Build
pub mod Step
pub mod Feed
pub mod Lookahead
pub mod Buffer
pub mod Window
pub mod Chunks
pub mod CharRef
pub mod Errors
pub mod Pieces
pub mod RoundTrip
pub mod Tests
use gloox.Base.{ℕ, ◌||◌, ◌==◌, Bool, true, false, List, [], ◌∷◌, ◌++◌, if◌then◌else◌, Bytes}
use gloox.StringMap.{StringMap}
use gloox.Tag.{Tag, Attribute}

-- `ParserInternalState`.
pub data State : Type 0 where
  initial inter_tag tag_opening tag_opening_slash tag_opening_lt tag_inside : State
  tag_name_collect tag_name_complete tag_name_almost_complete : State
  tag_attribute tag_attribute_complete tag_attribute_equal : State
  tag_closing tag_closing_slash tag_value_apos tag_attribute_value : State
  tag_preamble tag_cdata_section : State

pub record Parser : Type 0 where
  pub tag_handler : Bool
  pub handled : List Tag
  pub path : List Tag
  pub xmlnss : StringMap
  pub state : State
  pub attribs : List Attribute
  pub tag_name : Bytes
  pub cdata : Bytes
  pub attrib : Bytes
  pub value : Bytes
  pub xmlns : Bytes
  pub tag_prefix : Bytes
  pub attrib_prefix : Bytes
  pub back_buffer : Bytes
  pub preamble : ℕ
  pub quote : Bool
  pub have_tag_prefix : Bool
  pub have_attrib_prefix : Bool
  pub attrib_is_xmlns : Bool

-- The constructor, with or without a handler.
abbrev pub new_parser : Bool → Parser
new_parser handler = record {
  tag_handler = handler;
  handled = [];
  path = [];
  xmlnss = [];
  state = initial;
  attribs = [];
  tag_name = [];
  cdata = [];
  attrib = [];
  value = [];
  xmlns = [];
  tag_prefix = [];
  attrib_prefix = [];
  back_buffer = [];
  preamble = 0;
  quote = false;
  have_tag_prefix = false;
  have_attrib_prefix = false;
  attrib_is_xmlns = false;
}

-- `Parser::cleanup`. It leaves `m_quote`, `m_attribIsXmlns` and `m_backBuffer` as they are.
unfoldable pub cleanup : Parser → Parser
cleanup p = record p {
  path = [];
  xmlnss = [];
  cdata = [];
  tag_name = [];
  attrib = [];
  attrib_prefix = [];
  tag_prefix = [];
  have_attrib_prefix = false;
  have_tag_prefix = false;
  value = [];
  xmlns = [];
  attribs = [];
  state = initial;
  preamble = 0;
}

-- `Parser::isWhitespace`.
unfoldable pub is_whitespace : ℕ → Bool
is_whitespace c = c == 0x09 || c == 0x0a || c == 0x0d || c == 0x20

-- `Parser::streamEvent`.
unfoldable pub stream_event : Tag → Parser → Parser
stream_event t p = if p.tag_handler then record p { handled = p.handled ++ (t ∷ []) } else p
