-- ===== src/Parser/RoundTrip/Open.antt =====
-- The text of a start tag: from the byte behind '<' to the '>' or the '/' that ends it.
use gloox.Base.{
  ◌≡◌, refl, sym, ap, subst, ◌⊎◌, inl, inr, Bool, true, false, not, List, [], ◌∷◌, ◌++◌, map, arith,
  Bytes, equal, equal_refl, is_empty, if◌then◌else◌,
}
use gloox.Parser.Build.{
  new_head, add_head, add_tag, close_tag, close_at, close_path, closes, stream_name, stream_root,
  collected as emptied,
}
use gloox.Parser.RoundTrip.Attributes.{IsNamed, collecting, complete, plain_attribute, collected}
use gloox.Parser.RoundTrip.Content.{content}
use gloox.Parser.RoundTrip.Heads.{
  IsReadableHead, plain_head, all_xmlns, all_xmlnss, behind, behind-IsNamed, Runs-attributes,
}
use gloox.Parser.RoundTrip.Names.{IsName, naming, Runs-tag_name, Runs-naming}
use gloox.Parser.RoundTrip.NewHead.{new_head-plain}
use gloox.Parser.RoundTrip.Runs.{Runs, Runs-append, Runs-byte}
use gloox.Parser.Step.{
  next, step_in, step_name_collect, step_almost_complete, step_end, step_colon, after_close,
}
use gloox.Parser.{
  Parser, State, new_parser, tag_opening, tag_inside, inter_tag, tag_name_collect, is_whitespace,
  stream_event, cleanup,
}
use gloox.Tag.Attributes.{attributes}
use gloox.Tag.Printer.{qualified, attributes_xml}
use gloox.Tag.{Head, Tag, tag, nil, head, add_child}

-- A parser between two bytes of which only these members say anything.
abbrev pub fresh : List Tag → List Tag → Bytes → Parser
fresh handled path prefix = record (new_parser true) {
  handled = handled;
  path = path;
  tag_prefix = prefix;
}

abbrev pub opening : List Tag → List Tag → Bytes → Parser
opening handled path prefix = record (fresh handled path prefix) { state = tag_opening }

-- Behind the start tag's name, with its own prefix or the one that was left.
abbrev pub named : List Tag → List Tag → Bytes → Bytes → Bytes → Parser
named handled path left x n = record (fresh handled path (if is_empty x then left else x)) {
  have_tag_prefix = not (is_empty x);
  tag_name = n;
}

abbrev pub headed : List Tag → List Tag → Bytes → Head → Parser
headed handled path left h =
    collected (named handled path left h.prefix h.name) (behind tag_name_collect (attributes h))
      (map plain_attribute (attributes h)) (all_xmlnss (attributes h) [])
      (all_xmlns (attributes h) [])

module _ (handled path : List Tag) (left : Bytes) where
  Runs-qualified :
      (x n : Bytes)
      → (x ≡ []) ⊎ IsName x
      → IsName n
      → Runs
          (opening handled path left)
          (qualified x n)
          (collected (named handled path left x n) tag_name_collect [] [] [])
  unfolding qualified step_in step_name_collect step_colon is_whitespace
  Runs-qualified x n (inl e) hn =
      subst
        (λ (y : Bytes).
          Runs (opening handled path left) (qualified y n)
            (collected (named handled path left y n) tag_name_collect [] [] []))
        (sym e) (Runs-tag_name (fresh handled path left) n hn)
  Runs-qualified x n (inr hx) hn = rw (hx.not_empty) (
      Runs-append (Runs-tag_name (fresh handled path left) x hx) (
        Runs-append
          (Runs-byte _ b':' (naming (record (fresh handled path x) { have_tag_prefix = true }) [])
            (λ cs. refl))
          (Runs-naming (record (fresh handled path x) { have_tag_prefix = true }) n [] hn.plain)))

  prefix-IsName : (h : Head) → IsReadableHead h → (h.prefix ≡ []) ⊎ IsName h.prefix
  prefix-IsName h r = elim (r.prefix_ok) [ inl e ↦ inl e | inr p ↦ inr p.0 ]

  -- The whole start tag, but for its end.
  pub Runs-headed :
      (h : Head)
      → IsReadableHead h
      → Runs
          (opening handled path left)
          (qualified h.prefix h.name ++ attributes_xml (attributes h))
          (headed handled path left h)
  Runs-headed h r = Runs-append (Runs-qualified h.prefix h.name (prefix-IsName h r) r.name_ok) (
      Runs-attributes (attributes h) (named handled path left h.prefix h.name) [] [] [] collecting
        r.attribs_ok)

stream_root_lem :
    (x : Bytes) (h : Head) (path : List Tag)
    → equal x stream_name ≡ false
    → stream_root x h path ≡ h
unfolding stream_root
stream_root_lem x h [] e = rw e
stream_root_lem x h (u ∷ up) e = refl

-- An ordinary tag: neither a stream header nor an XML declaration.
add_head_lem :
    (h : Head) (p : Parser)
    → equal p.tag_name stream_name ≡ false
    → p.preamble ≡ 0
    → equal p.tag_prefix stream_name ≡ false
    → add_head h p ≡ record p { path = tag h nil ∷ p.path }
unfolding add_head
add_head_lem h p en ep ex = rw (en, stream_root_lem p.tag_prefix h p.path ex) (rw ep (ground arith))

pub add_tag_lem :
    (p : Parser)
    → equal p.tag_name stream_name ≡ false
    → p.preamble ≡ 0
    → equal p.tag_prefix stream_name ≡ false
    → add_tag p ≡ record (emptied p) { path = tag (new_head p) nil ∷ p.path }
unfolding add_tag
add_tag_lem p en ep ex = add_head_lem (new_head p) (emptied p) en ep ex

-- The prefix that the parser is left with behind a start tag.
abbrev pub left_prefix : Bytes → Head → Bytes
left_prefix left h = if is_empty h.prefix then left else h.prefix

module _ (handled path : List Tag) (left : Bytes) (h : Head) (r : IsReadableHead h)
    (el : equal left stream_name ≡ false) where
  pub left_prefix_lem : equal (left_prefix left h) stream_name ≡ false
  left_prefix_lem = elim (r.prefix_ok) [ inl e ↦ rw e el | inr p ↦ rw (p.0.not_empty) p.1 ]

  prefix_back : (if not (is_empty h.prefix) then left_prefix left h else []) ≡ h.prefix
  prefix_back = elim (r.prefix_ok) [ inl e ↦ rw e | inr p ↦ rw (p.0.not_empty) ]

  -- The parser behind the start tag `h`.
  abbrev pub within : Head → Parser
  within g = content (fresh handled (tag g nil ∷ path) (left_prefix left h)) tag_inside h.name []

  add_tag-headed :
      (st : State)
      → record (add_tag (record (headed handled path left h) { state = st })) { state = tag_inside }
        ≡ within (new_head (record (headed handled path left h) { state = st }))
  add_tag-headed st =
      ap (λ (p : Parser). record p { state = tag_inside })
        (add_tag_lem (record (headed handled path left h) { state = st }) r.not_stream refl
          left_prefix_lem)

  pub new_head-headed :
      (st : State)
      → plain_head (new_head (record (headed handled path left h) { state = st })) ≡ plain_head h
  new_head-headed st =
      new_head-plain h r (record (headed handled path left h) { state = st }) refl prefix_back refl
        refl

  from : State → Parser
  from st = record (headed handled path left h) { state = st }

  abbrev pub Opens : Parser → Type 0
  Opens p = (g : Head) × (plain_head g ≡ plain_head h) × Runs p (b'>' ∷ []) (within g)

  Opens-from : (st : State) → IsNamed st → Opens (from st)
  unfolding from step_in step_name_collect step_almost_complete step_end is_whitespace
  Opens-from st collecting = (
    new_head (from st),
    new_head-headed st,
    Runs-byte _ b'>' _ (λ cs. ap (λ (p : Parser). next p 0) (add_tag-headed st)),
  )
  Opens-from st complete = (
    new_head (from tag_inside),
    new_head-headed tag_inside,
    Runs-byte _ b'>' _ (λ cs.
        ap (λ (p : Parser). next p 0)
          (add_tag_lem (from tag_inside) r.not_stream refl left_prefix_lem)),
  )

  -- A start tag that ends in '>'.
  pub opens : Opens (headed handled path left h)
  unfolding from
  opens =
      Opens-from (behind tag_name_collect (attributes h)) (behind-IsNamed (attributes h) collecting)

-- The parser behind the end of the tag `t`.
abbrev pub closed : List Tag → List Tag → Tag → Bytes → Parser
closed handled [] t n = content (fresh (handled ++ (t ∷ [])) [] []) inter_tag [] []
closed handled (u ∷ up) t n = content (fresh handled (add_child t u ∷ up) []) inter_tag n []

plain_name : (g h : Head) → plain_head g ≡ plain_head h → equal g.name h.name ≡ true
plain_name g h e = rw (ap (λ (x : Head). x.name) e) (equal_refl h.name)

closes_lem :
    (p : Parser) (g h : Head)
    → plain_head g ≡ plain_head h
    → p.tag_name ≡ h.name
    → (is_empty h.prefix ≡ true) ⊎ (p.tag_prefix ≡ h.prefix)
    → closes p g ≡ true
unfolding closes
closes_lem p g h e en (inl ex) =
    rw (ap (λ (x : Head). x.name) e, ap (λ (x : Head). x.prefix) e, en, equal_refl, ex)
closes_lem p g h e en (inr ex) =
    rw (ap (λ (x : Head). x.name) e, ap (λ (x : Head). x.prefix) e, en, ex, equal_refl, equal_refl)
      (ground arith)

-- `closeTag` at the name and the prefix of the tag that is open.
pub close_tag_lem :
    (handled path : List Tag) (t : Tag) (h : Head) (x : Bytes) (st : State) (have : Bool)
    → plain_head (head t) ≡ plain_head h
    → equal h.name stream_name ≡ false
    → (is_empty h.prefix ≡ true) ⊎ (x ≡ h.prefix)
    → after_close (
        close_tag (record (fresh handled (t ∷ path) x) {
          state = st;
          tag_name = h.name;
          have_tag_prefix = have;
        }))
      ≡ next (closed handled path t h.name) 0
unfolding close_tag close_at after_close
close_tag_lem handled path t h x st have e en ex =
    rw
      (
        en,
        closes_lem
            (record (fresh handled (t ∷ path) x) {
              state = st;
              tag_name = h.name;
              have_tag_prefix = have;
            })
            (head t) h e refl ex,
      )
      (ends path)
  where
    ends :
        (up : List Tag)
        → next
            (record (close_path t up
              (record (fresh handled (t ∷ up) []) { state = st; tag_name = h.name })) {
                state = inter_tag;
              })
            0
          ≡ next (closed handled up t h.name) 0
    ends [] = unfold close_path cleanup stream_event in refl
    ends (u ∷ up) = unfold close_path in refl
