-- ===== src/Parser/RoundTrip/Close.antt =====
-- The text of an end tag, and the '/' that ends a start tag with no content.
use gloox.Base.{
  ◌≡◌, refl, sym, ap, ◌∙◌, ◌⊎◌, inl, inr, Bool, true, false, List, [], ◌∷◌, ◌++◌, Bytes, equal,
  is_empty,
}
use gloox.Parser.Build.{new_head, close_tag, stream_name}
use gloox.Parser.RoundTrip.Attributes.{IsNamed, collecting, complete}
use gloox.Parser.RoundTrip.Heads.{IsReadableHead, plain_head, behind, behind-IsNamed}
use gloox.Parser.RoundTrip.Names.{IsName, closing, Runs-closing_name, Runs-closing}
use gloox.Parser.RoundTrip.Open.{
  fresh, opening, headed, left_prefix, left_prefix_lem, add_tag_lem, new_head-headed, closed,
  close_tag_lem,
}
use gloox.Parser.RoundTrip.Runs.{Runs, Runs-append, Runs-byte}
use gloox.Parser.Step.{
  step_in, step_tag_opening, step_name_collect, step_almost_complete, step_opening_slash,
  step_closing, step_colon, after_close,
}
use gloox.Parser.{
  Parser, State, tag_opening_slash, tag_closing_slash, tag_closing, tag_name_collect, is_whitespace,
}
use gloox.Tag.Attributes.{attributes}
use gloox.Tag.Printer.{qualified}
use gloox.Tag.{Head, Tag, tag, nil, head}

module _ (handled path : List Tag) (left : Bytes) (h : Head) (r : IsReadableHead h)
    (el : equal left stream_name ≡ false) where
  same_prefix : (is_empty h.prefix ≡ true) ⊎ (left_prefix left h ≡ h.prefix)
  same_prefix = elim (r.prefix_ok) [ inl e ↦ inl (rw e) | inr p ↦ inr (rw (p.0.not_empty)) ]

  slashed : Parser
  slashed = record (headed handled path left h) { state = tag_opening_slash }

  slash :
      (st : State)
      → IsNamed st
      → Runs (record (headed handled path left h) { state = st }) (b'/' ∷ []) slashed
  unfolding slashed step_in step_name_collect step_almost_complete is_whitespace
  slash st collecting = Runs-byte _ b'/' _ (λ cs. refl)
  slash st complete = Runs-byte _ b'/' _ (λ cs. refl)

  slash_end : Runs slashed (b'>' ∷ []) (closed handled path (tag (new_head slashed) nil) h.name)
  unfolding slashed step_in step_opening_slash is_whitespace
  slash_end = Runs-byte _ b'>' _ (λ cs.
      ap (λ (p : Parser). after_close (close_tag p))
        (add_tag_lem slashed r.not_stream refl (left_prefix_lem handled path left h r el))
      ∙ close_tag_lem handled path (tag (new_head slashed) nil) h (left_prefix left h)
          tag_opening_slash false (new_head-headed handled path left h r el tag_opening_slash)
          r.not_stream same_prefix)

  -- A tag with no content.
  pub empties :
      (g : Head) × (plain_head g ≡ plain_head h)
      × Runs
          (headed handled path left h)
          (b'/' ∷ b'>' ∷ [])
          (closed handled path (tag g nil) h.name)
  unfolding slashed
  empties = (
    new_head slashed,
    new_head-headed handled path left h r el tag_opening_slash,
    Runs-append
        (slash (behind tag_name_collect (attributes h)) (behind-IsNamed (attributes h) collecting))
        slash_end,
  )

-- The end tag, read while the tag `t` is open.
module _ (handled path : List Tag) (left : Bytes) (t : Tag) (h : Head) (r : IsReadableHead h)
    (same : plain_head (head t) ≡ plain_head h) where
  ending : Bytes → Bytes → Bool → Parser
  ending n x have = closing (record (fresh handled (t ∷ path) x) { have_tag_prefix = have }) n

  ends :
      (x : Bytes) (have : Bool)
      → (is_empty h.prefix ≡ true) ⊎ (x ≡ h.prefix)
      → Runs (ending h.name x have) (b'>' ∷ []) (closed handled path t h.name)
  unfolding ending step_in step_closing
  ends x have ex =
      Runs-byte _ b'>' _
        (λ cs. close_tag_lem handled path t h x tag_closing have same r.not_stream ex)

  end_qualified :
      (y : Bytes)
      → h.prefix ≡ y
      → (y ≡ []) ⊎ IsName y
      → Runs
          (record (fresh handled (t ∷ path) left) { state = tag_closing_slash })
          (qualified y h.name ++ (b'>' ∷ []))
          (closed handled path t h.name)
  unfolding ending qualified step_in step_closing step_colon
  end_qualified y ey (inl e) = rw e (
      Runs-append (Runs-closing_name (fresh handled (t ∷ path) left) h.name r.name_ok)
        (ends left false (inl (rw (ey ∙ e)))))
  end_qualified y ey (inr hy) = rw (hy.not_empty) (
      Runs-append
        (Runs-append (Runs-closing_name (fresh handled (t ∷ path) left) y hy) (
          Runs-append (Runs-byte _ b':' (ending [] y true) (λ cs. refl)) (
            Runs-closing (record (fresh handled (t ∷ path) y) { have_tag_prefix = true }) h.name []
              r.name_ok.plain)))
        (ends y true (inr (sym ey))))

  pub end_tag :
      Runs
        (opening handled (t ∷ path) left)
        (b'/' ∷ (qualified h.prefix h.name ++ (b'>' ∷ [])))
        (closed handled path t h.name)
  unfolding step_in step_tag_opening is_whitespace
  end_tag =
      Runs-append
        (Runs-byte _ b'/' (record (fresh handled (t ∷ path) left) { state = tag_closing_slash })
          (λ cs. refl))
        (end_qualified h.prefix refl (elim (r.prefix_ok) [ inl e ↦ inl e | inr p ↦ inr p.0 ]))
