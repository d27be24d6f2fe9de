-- ===== src/Parser/RoundTrip/Stanzas.antt =====
-- Stanzas one after the other: a parser that is fed what the printer wrote hands them on in order.
use gloox.Base.{
  ℕ, ◌≡◌, refl, sym, ap, ap₂, subst, ◌∙◌, true, List, [], ◌∷◌, ◌++◌, append_assoc, append-nil,
  Bytes, Option, none, equal,
}
use gloox.Parser.Build.{add_cdata, add_cdata_to}
use gloox.Parser.Feed.{run, feed}
use gloox.Parser.RoundTrip.Content.{content}
use gloox.Parser.RoundTrip.Open.{fresh, opening, closed}
use gloox.Parser.RoundTrip.Readable.{IsReadableTag, plain_tag}
use gloox.Parser.RoundTrip.Runs.{Runs, Runs-nil, Runs-append, Runs-byte}
use gloox.Parser.Step.{step_in, step_inter_tag, step_initial}
use gloox.Parser.{Parser, new_parser, inter_tag, is_whitespace}
use gloox.Tag.Printer.{xml}
use gloox.Tag.{Tag}
use gloox.Base.{map, All}
use gloox.Parser.Pieces.{concat, feed_pieces, fed_pieces}
use gloox.Parser.RoundTrip.Nodes.{TagRead, body, TagRuns, name_of, respelled}
use gloox.Parser.RoundTrip.Tags.{tag_runs, xml-body}

-- The text of stanzas that are sent one after the other.
unfoldable pub stanzas_xml : List Tag → Bytes
stanzas_xml [] = []
stanzas_xml (t ∷ ts) = xml t ++ stanzas_xml ts

-- Between two stanzas.
data Idle (handled : List Tag) : Parser → Type 0 where
  first : handled ≡ [] → Idle handled (new_parser true)
  later : Idle handled (content (fresh handled [] []) inter_tag [] [])

idle_handled : {handled : List Tag} {p : Parser} → Idle handled p → p.handled ≡ handled
idle_handled (first e) = sym e
idle_handled later = refl

begin :
    {handled : List Tag} {p : Parser} → Idle handled p → Runs p (b'<' ∷ []) (opening handled [] [])
unfolding step_in step_initial step_inter_tag is_whitespace add_cdata add_cdata_to
begin (first e) = rw e (Runs-byte _ b'<' _ (λ cs. refl))
begin later = Runs-byte _ b'<' _ (λ cs. refl)

-- What a parser between two stanzas makes of the stanzas `ts`.
record Reading (handled : List Tag) (ts : List Tag) (p : Parser) : Type 0 where
  tags : List Tag
  end : Parser
  same : map plain_tag tags ≡ map plain_tag ts
  idle : Idle (handled ++ tags) end
  leads : Runs p (stanzas_xml ts) end

Reading-next :
    (t : Tag) (ts handled : List Tag) {p : Parser}
    → IsReadableTag t
    → Idle handled p
    → ((q : Parser) → (us : List Tag) → Idle us q → Reading us ts q)
    → TagRead handled [] (name_of t) t (opening handled [] []) (body t)
    → Reading handled (t ∷ ts) p
unfolding stanzas_xml
Reading-next t ts handled r idle ih got =
    let rest = ih (closed handled [] got.read (name_of t)) (handled ++ (got.read ∷ [])) later in
    record {
      tags = got.read ∷ rest.tags;
      end = rest.end;
      same = ap₂ (λ (u : Tag) (us : List Tag). u ∷ us) got.same rest.same;
      idle =
          subst (λ (us : List Tag). Idle us rest.end)
            (append_assoc handled (got.read ∷ []) rest.tags) rest.idle;
      leads =
          Runs-append (respelled (sym (xml-body t r)) (Runs-append (begin idle) got.leads))
            rest.leads;
    }

reading :
    (ts : List Tag)
    → All IsReadableTag ts
    → (p : Parser) (handled : List Tag) → Idle handled p
    → Reading handled ts p
unfolding stanzas_xml equal TagRuns
reading [] r p handled idle = record {
  tags = [];
  end = p;
  same = refl;
  idle = subst (λ (us : List Tag). Idle us p) (sym (append-nil handled)) idle;
  leads = Runs-nil p;
}
reading (t ∷ ts) r p handled idle =
    Reading-next t ts handled r.0 idle (reading ts r.1) (tag_runs t r.0 handled [] [] refl)

fed_whole :
    (q : Parser) (xs : Bytes) → Runs (new_parser true) xs q → feed (new_parser true) xs ≡ (q, none)
unfolding feed run
fed_whole q xs r = ap (run (new_parser true) 0 0) (sym (append-nil xs)) ∙ r.leads [] 0

-- The text was accepted, and `handleTag` was called with the tags `ts` in order, up to what a
-- reader cannot see of a tag.
abbrev pub Delivered : List Tag → Parser × Option ℕ → Type 0
Delivered ts r = (r.1 ≡ none) × (map plain_tag (r.0).handled ≡ map plain_tag ts)

-- The tags `ts`, printed one after the other and fed to a new parser cut into any pieces, are
-- accepted and handed on in order, each with the name, the prefix, the attributes in their order and
-- the texts and children that it had. The condition on each tag is `IsReadableTag`: the bytes of
-- its name, of its prefix and of the names of its attributes are plain, no name and no prefix is
-- "stream", the texts are not empty, are valid and never stand side by side, the attributes can be
-- read back, and no attribute contradicts the one called "xmlns".
pub stanzas-Delivered :
    (ts : List Tag) (a : Bytes) (bs : List Bytes)
    → All IsReadableTag ts
    → a ++ concat bs ≡ stanzas_xml ts
    → Delivered ts (feed_pieces (new_parser true) a bs)
stanzas-Delivered ts a bs r e =
    let got = reading ts r (new_parser true) [] (first refl) in
    subst (Delivered ts)
      (sym (
        fed_pieces (new_parser true) got.end a bs
          (ap (feed (new_parser true)) e ∙ fed_whole got.end (stanzas_xml ts) got.leads)))
      (refl, ap (map plain_tag) (idle_handled got.idle) ∙ got.same)
