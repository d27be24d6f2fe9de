-- ===== src/Parser/RoundTrip/Tags.antt =====
-- Whole tags: the parser reads what the printer wrote.
use gloox.Base.{
  ◌≡◌, ap, ap₂, ◌∙◌, Bool, true, false, List, [], ◌∷◌, ◌++◌, append_assoc, Bytes, equal,
}
use gloox.Parser.Build.{stream_name}
use gloox.Parser.RoundTrip.Close.{empties, end_tag}
use gloox.Parser.RoundTrip.Content.{opened}
use gloox.Parser.RoundTrip.Heads.{IsReadableHead, plain_head}
use gloox.Parser.RoundTrip.Open.{opening, left_prefix, left_prefix_lem, opens, Runs-headed}
use gloox.Parser.RoundTrip.Readable.{IsReadableTag, AreReadable, plain_tag, plain_nodes}
use gloox.Parser.RoundTrip.Runs.{Runs-append}
use gloox.Parser.{tag_inside}
use gloox.Tag.Attributes.{attributes}
use gloox.Tag.Printer.{xml, nodes_xml, close_xml, qualified, attributes_xml}
use gloox.Tag.{Head, Tag, tag, Nodes, nil, child, text, head, nodes, append}
use gloox.Parser.RoundTrip.Nodes.{
  TagRead, body, ending, TagRuns, NodesRuns, name_of, respelled, xml_lem, runs_nil, runs_text,
  runs_child, blank,
}

plain_tag_lem :
    (t u : Tag)
    → plain_head (head t) ≡ plain_head (head u)
    → plain_nodes (nodes t) ≡ plain_nodes (nodes u)
    → plain_tag t ≡ plain_tag u
plain_tag_lem (tag g ms) (tag h ns) eg en = ap₂ tag eg en

-- A tag whose start tag ends in '>'.
runs_full :
    (h : Head) (ns : Nodes)
    → IsReadableHead h
    → NodesRuns true ns
    → (handled path : List Tag) (left : Bytes) → equal left stream_name ≡ false
    → TagRead handled path h.name (tag h ns) (opening handled path left) (
        (qualified h.prefix h.name ++ attributes_xml (attributes h))
        ++ (b'>' ∷ (nodes_xml ns ++ close_xml h)))
unfolding NodesRuns append close_xml
runs_full h ns r ih handled path left el =
    let open_tag = opens handled path left h r el in
    let inner =
      ih handled path (left_prefix left h) open_tag.0 nil tag_inside h.name []
        (left_prefix_lem handled path left h r el) (blank opened) in
    let same_head = inner.same_head ∙ open_tag.1 in
    record {
      read = inner.read;
      same = plain_tag_lem inner.read (tag h ns) same_head inner.same_nodes;
      leads = Runs-append (Runs-headed handled path left h r) (
          Runs-append open_tag.2 (
            respelled
              (append_assoc (nodes_xml ns) (b'<' ∷ [])
                (b'/' ∷ (qualified h.prefix h.name ++ (b'>' ∷ []))))
              (Runs-append inner.leads
                (end_tag handled path inner.prefix inner.read h r same_head))));
    }

runs_tag : (h : Head) (ns : Nodes) → IsReadableHead h → NodesRuns true ns → TagRuns (tag h ns)
unfolding TagRuns body ending name_of
runs_tag h nil r ih handled path left el =
    let got = empties handled path left h r el in
    record {
      read = tag got.0 nil;
      same = ap (λ (g : Head). tag g nil) got.1;
      leads = Runs-append (Runs-headed handled path left h r) got.2;
    }
runs_tag h (child t ns) r ih handled path left el =
    runs_full h (child t ns) r ih handled path left el
runs_tag h (text s ns) r ih handled path left el = runs_full h (text s ns) r ih handled path left el

pub xml-body : (t : Tag) → IsReadableTag t → xml t ≡ b'<' ∷ body t
xml-body (tag h ns) r = xml_lem h ns r.0.name_ok.not_empty

mutual
  pub tag_runs : (t : Tag) → IsReadableTag t → TagRuns t
  tag_runs (tag h ns) r = runs_tag h ns r.0 (nodes_run true ns r.1)

  nodes_run : (b : Bool) (ns : Nodes) → AreReadable b ns → NodesRuns b ns
  nodes_run b nil r = runs_nil b
  nodes_run b (child t ns) r =
      runs_child b t ns (xml-body t r.0) (tag_runs t r.0) (nodes_run true ns r.1)
  nodes_run true (text s ns) r = runs_text s ns r.1 r.2 (nodes_run false ns r.3)
  nodes_run false (text s ns) r = cc
