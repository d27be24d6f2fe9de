-- ===== src/Parser/RoundTrip/Nodes.antt =====
-- The nodes of an open tag, up to the '<' of its end tag: texts and children, from what is known
-- of the children.
use gloox.Base.{
  ◌≡◌, refl, sym, ap, subst, ◌∙◌, Bool, true, false, List, [], ◌∷◌, ◌++◌, append_assoc, Bytes,
  equal, is_empty,
}
use gloox.Parser.Build.{stream_name, add_cdata, add_cdata_to}
use gloox.Parser.RoundTrip.Content.{content, IsBetween, opened, Runs-text}
use gloox.Parser.RoundTrip.Content
use gloox.Parser.RoundTrip.Heads.{plain_head}
use gloox.Parser.RoundTrip.Open.{fresh, opening, closed}
use gloox.Parser.RoundTrip.Readable.{
  plain_tag, plain_nodes, append-nil_nodes, append_assoc_nodes, plain-append,
}
use gloox.Parser.RoundTrip.Runs.{Runs, Runs-append, Runs-byte}
use gloox.Parser.Step.{step_in, step_inside, step_inter_tag}
use gloox.Parser.{Parser, State, tag_inside, inter_tag, is_whitespace}
use gloox.Tag.Attributes.{attributes}
use gloox.Tag.Printer.{xml, nodes_xml, around, open_xml, close_xml, qualified, attributes_xml}
use gloox.Tag.{
  Head, Tag, tag, Nodes, nil, child, text, head, nodes, append, add_child,
  add_cdata as tag_add_cdata,
}
use gloox.Util.Escape.{append_escaped-escape, append_escaped}
use gloox.Util.Valid.{check_valid_xml_chars}

-- The text collected since the last tag, as a node.
abbrev pending : Bytes → Nodes
pending [] = nil
pending (c ∷ d) = text (c ∷ d) nil

-- Where a list of nodes may be read: at a place with no text before it, or behind a text.
pub data Ready : Bool → State → Bytes → Type 0 where
  blank : {st : State} → IsBetween st → Ready true st []
  full :
      {d : Bytes} → is_empty d ≡ false → check_valid_xml_chars d ≡ true → Ready false tag_inside d

flushed : Bytes → Head → Nodes → Tag
flushed [] h ns = tag h ns
flushed (c ∷ d) h ns = tag (record h { has_cdata = true }) (append ns (text (c ∷ d) nil))

-- '<' puts the collected text into the open tag.
flush :
    (handled path : List Tag) (left : Bytes) (h : Head) (ns : Nodes) {b : Bool} {st : State}
    {d : Bytes} (n : Bytes)
    → Ready b st d
    → Runs
        (content (fresh handled (tag h ns ∷ path) left) st n d)
        (b'<' ∷ [])
        (opening handled (flushed d h ns ∷ path) left)
unfolding step_in step_inside step_inter_tag is_whitespace flushed add_cdata add_cdata_to
    tag_add_cdata append
flush handled path left h ns n (blank opened) = Runs-byte _ b'<' _ (λ cs. refl)
flush handled path left h ns n (blank Content.closed) = Runs-byte _ b'<' _ (λ cs. refl)
flush handled path left h ns {d = []} n (full e v) = cc
flush handled path left h ns {d = c ∷ d} n (full e v) = Runs-byte _ b'<' _ (λ cs. rw v)

flushed-head :
    (d : Bytes) (h : Head) (ns : Nodes) → plain_head (head (flushed d h ns)) ≡ plain_head h
unfolding flushed
flushed-head [] h ns = refl
flushed-head (c ∷ d) h ns = refl

nodes-flushed : (d : Bytes) (h : Head) (ns : Nodes) → nodes (flushed d h ns) ≡ append ns (pending d)
unfolding flushed
nodes-flushed [] h ns = sym (append-nil_nodes ns)
nodes-flushed (c ∷ d) h ns = refl

-- What is read of the nodes `ns` behind the nodes `acc` of an open tag, up to the next '<'.
pub record NodesRead (handled path : List Tag) (h : Head) (acc : Nodes) (p : Parser) (xs : Bytes)
    : Type 0 where
  pub read : Tag
  pub prefix : Bytes
  pub not_stream : equal prefix stream_name ≡ false
  pub same_head : plain_head (head read) ≡ plain_head h
  pub same_nodes : plain_nodes (nodes read) ≡ plain_nodes acc
  pub leads : Runs p xs (opening handled (read ∷ path) prefix)

pub record TagRead (handled path : List Tag) (n : Bytes) (t : Tag) (p : Parser) (xs : Bytes)
    : Type 0 where
  pub read : Tag
  pub same : plain_tag read ≡ plain_tag t
  pub leads : Runs p xs (closed handled path read n)

-- The text of a tag behind its '<'.
unfoldable pub ending : Head → Nodes → Bytes
ending h nil = b'/' ∷ b'>' ∷ []
ending h ns = b'>' ∷ (nodes_xml ns ++ close_xml h)

unfoldable pub body : Tag → Bytes
body (tag h ns) = (qualified h.prefix h.name ++ attributes_xml (attributes h)) ++ ending h ns

pub xml_lem :
    (h : Head) (ns : Nodes) → is_empty h.name ≡ false → xml (tag h ns) ≡ b'<' ∷ body (tag h ns)
unfolding xml nodes_xml around body ending open_xml
xml_lem h nil e = rw e
xml_lem h (child t ns) e = rw e
xml_lem h (text s ns) e = rw e

pub respelled : {p q : Parser} {xs ys : Bytes} → xs ≡ ys → Runs p xs q → Runs p ys q
respelled {p} {q} e r = subst (λ (zs : Bytes). Runs p zs q) e r

unfoldable pub name_of : Tag → Bytes
name_of (tag h ns) = h.name

unfoldable pub TagRuns : Tag → Type 0
TagRuns t =
    (handled path : List Tag) (left : Bytes)
    → equal left stream_name ≡ false
    → TagRead handled path (name_of t) t (opening handled path left) (body t)

unfoldable pub NodesRuns : Bool → Nodes → Type 0
NodesRuns b ns =
    (handled path : List Tag) (left : Bytes) (h : Head) (acc : Nodes) (st : State) (n d : Bytes)
    → equal left stream_name ≡ false
    → Ready b st d
    → NodesRead handled path h (append (append acc (pending d)) ns)
        (content (fresh handled (tag h acc ∷ path) left) st n d) (nodes_xml ns ++ (b'<' ∷ []))

pub runs_nil : (b : Bool) → NodesRuns b nil
unfolding NodesRuns nodes_xml
runs_nil b handled path left h acc st n d el r = record {
  read = flushed d h acc;
  prefix = left;
  not_stream = el;
  same_head = flushed-head d h acc;
  same_nodes =
      ap plain_nodes (nodes-flushed d h acc ∙ sym (append-nil_nodes (append acc (pending d))));
  leads = flush handled path left h acc n r;
}

pub runs_text :
    (s : Bytes) (ns : Nodes)
    → is_empty s ≡ false
    → check_valid_xml_chars s ≡ true
    → NodesRuns false ns
    → NodesRuns true (text s ns)
unfolding NodesRuns nodes_xml append
runs_text [] ns e v ih handled path left h acc st n d el r = cc
runs_text (c ∷ s) ns e v ih handled path left h acc st n (_ ∷ _) el r = elim r [ ]
runs_text (c ∷ s) ns e v ih handled path left h acc st n [] el (blank b) =
    let found = ih handled path left h acc tag_inside [] (c ∷ s) el (full refl v) in
    record {
      read = found.read;
      prefix = found.prefix;
      not_stream = found.not_stream;
      same_head = found.same_head;
      same_nodes =
          found.same_nodes
          ∙ ap plain_nodes (
              append_assoc_nodes acc (text (c ∷ s) nil) ns
              ∙ ap (λ (ms : Nodes). append ms (text (c ∷ s) ns)) (sym (append-nil_nodes acc)));
      leads =
          respelled
            (ap (λ (xs : Bytes). xs ++ (nodes_xml ns ++ (b'<' ∷ [])))
                (sym (append_escaped-escape [] (c ∷ s)))
              ∙ sym (append_assoc (append_escaped [] (c ∷ s)) (nodes_xml ns) (b'<' ∷ [])))
            (Runs-append (Runs-text (fresh handled (tag h acc ∷ path) left) n c s b refl)
              found.leads);
    }

child_nodes :
    (ms : Nodes) (u t : Tag) (ns : Nodes)
    → plain_tag u ≡ plain_tag t
    → plain_nodes (append (append (append ms (child u nil)) nil) ns)
      ≡ plain_nodes (append ms (child t ns))
unfolding append
child_nodes ms u t ns e =
    ap (λ (ks : Nodes). plain_nodes (append ks ns)) (append-nil_nodes (append ms (child u nil)))
    ∙ ap plain_nodes (append_assoc_nodes ms (child u nil) ns)
    ∙ plain-append ms (child u ns)
    ∙ ap (λ (x : Tag). append (plain_nodes ms) (child x (plain_nodes ns))) e
    ∙ sym (plain-append ms (child t ns))

pub runs_child :
    (b : Bool) (t : Tag) (ns : Nodes)
    → xml t ≡ b'<' ∷ body t
    → TagRuns t
    → NodesRuns true ns
    → NodesRuns b (child t ns)
unfolding NodesRuns TagRuns nodes_xml add_child equal
runs_child b t ns ex it ih handled path left h acc st n d el r =
    within (flushed d h acc) refl (it handled (flushed d h acc ∷ path) left el)
  where
    within :
        (u : Tag)
        → flushed d h acc ≡ u
        → TagRead handled (u ∷ path) (name_of t) t (opening handled (u ∷ path) left) (body t)
        → NodesRead handled path h
            (append (append acc (pending d)) (child t ns))
            (content (fresh handled (tag h acc ∷ path) left) st n d)
            (nodes_xml (child t ns) ++ (b'<' ∷ []))
    within (tag g ms) eu got =
        let rest =
          ih handled path [] (record g { has_children = true }) (append ms (child got.read nil))
            inter_tag (name_of t) [] refl (blank Content.closed) in
        record {
          read = rest.read;
          prefix = rest.prefix;
          not_stream = rest.not_stream;
          same_head =
              rest.same_head
              ∙ ap (λ (x : Tag). plain_head (head x)) (sym eu)
              ∙ flushed-head d h acc;
          same_nodes =
              rest.same_nodes
              ∙ child_nodes ms got.read t ns got.same
              ∙ ap (λ (ks : Nodes). plain_nodes (append ks (child t ns)))
                  (ap nodes (sym eu) ∙ nodes-flushed d h acc);
          leads =
              respelled
                (sym (append_assoc (b'<' ∷ body t) (nodes_xml ns) (b'<' ∷ []))
                  ∙ ap (λ (xs : Bytes). (xs ++ nodes_xml ns) ++ (b'<' ∷ [])) (sym ex))
                (Runs-append
                  (subst
                    (λ (x : Tag).
                      Runs (content (fresh handled (tag h acc ∷ path) left) st n d) (b'<' ∷ [])
                        (opening handled (x ∷ path) left))
                    eu (flush handled path left h acc n r))
                  (Runs-append got.leads rest.leads));
        }
