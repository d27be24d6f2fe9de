-- ===== src/Parser/Buffer.antt =====
-- What builds the tags leaves the back buffer alone.
use gloox.Base.{◌≡◌, refl, false, List, [], ◌∷◌, arith}
use gloox.Parser.Build.{
  add_attribute, add_cdata, add_cdata_to, add_tag, add_head, new_head, close_tag, close_at,
  close_path,
}
use gloox.Parser.{Parser, cleanup, stream_event}
use gloox.Tag.{Tag, Head}

pub stream_event-back_buffer :
    (t : Tag) (p : Parser) → (stream_event t p).back_buffer ≡ p.back_buffer
unfolding stream_event
stream_event-back_buffer t p = ground arith

pub add_head-back_buffer : (h : Head) (p : Parser) → (add_head h p).back_buffer ≡ p.back_buffer
unfolding add_head cleanup stream_event
add_head-back_buffer h p = ground arith

pub add_tag-back_buffer : (p : Parser) → (add_tag p).back_buffer ≡ p.back_buffer
unfolding add_tag
add_tag-back_buffer p = add_head-back_buffer (new_head p) _

pub add_cdata-back_buffer : (p : Parser) → (add_cdata p).back_buffer ≡ p.back_buffer
unfolding add_cdata
add_cdata-back_buffer p = go p.path
  where
    go : (path : List Tag) → (add_cdata_to path p).back_buffer ≡ p.back_buffer
    go [] = unfold add_cdata_to in refl
    go (t ∷ up) = unfold add_cdata_to in ground arith

pub add_attribute-back_buffer : (p : Parser) → (add_attribute p).back_buffer ≡ p.back_buffer
unfolding add_attribute
add_attribute-back_buffer p = ground arith

pub close_path-back_buffer :
    (t : Tag) (up : List Tag) (p : Parser) → (close_path t up p).back_buffer ≡ p.back_buffer
unfolding close_path cleanup
close_path-back_buffer t [] p = stream_event-back_buffer t p
close_path-back_buffer t (u ∷ up) p = refl

pub close_at-back_buffer :
    (path : List Tag) (p : Parser) → (close_at path p).0.back_buffer ≡ p.back_buffer
unfolding close_at
close_at-back_buffer [] p = refl
close_at-back_buffer (t ∷ up) p =
    ground
      (arith, close_path-back_buffer t up (record p { tag_prefix = []; have_tag_prefix = false }))

pub close_tag-back_buffer : (p : Parser) → (close_tag p).0.back_buffer ≡ p.back_buffer
unfolding close_tag
close_tag-back_buffer p = ground (arith, close_at-back_buffer p.path p)
