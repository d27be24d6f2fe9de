-- ===== src/Parser/Step.antt =====
-- The switch of `Parser::feed` over `m_state`: what one byte does, with the bytes behind it.
use gloox.Base.{
  ℕ, Bool, true, false, not, ◌&&◌, ◌||◌, [], ◌∷◌, ◌++◌, leb, ◌==◌, if◌then◌else◌, Bytes, codes,
  equal, is_empty, length, take,
}
use gloox.Parser.Build.{add_attribute, add_cdata, add_tag, close_tag}
use gloox.Parser.Decode.{Decoded, decode_valid, decode_invalid, decode_insufficient, decode}
use gloox.Parser.{
  Parser, State, initial, inter_tag, tag_opening, tag_opening_slash, tag_opening_lt, tag_inside,
  tag_name_collect, tag_name_complete, tag_name_almost_complete, tag_attribute,
  tag_attribute_complete, tag_attribute_equal, tag_closing, tag_closing_slash, tag_value_apos,
  tag_attribute_value, tag_preamble, tag_cdata_section, cleanup, is_whitespace,
}
use gloox.Tag.Attributes.{xmlns_name}

-- What the body of the loop does: `next` goes on and has moved `i` by the number, `reject` returns
-- `i`, and `wait` returns -1 with the rest in the back buffer.
pub data Step : Type 0 where
  next : Parser → ℕ → Step
  reject : Parser → Step
  wait : Parser → Step

abbrev pub goto : State → Parser → Step
goto s p = next (record p { state = s }) 0

-- `cleanup(); return i;`
abbrev pub fail : Parser → Step
fail p = reject (cleanup p)

-- `ForwardScanState`.
pub data Scanned : Type 0 where
  forward_found forward_not_found forward_insufficient_size : Scanned

unfoldable pub forward_scan : Bytes → Bytes → Scanned
forward_scan needle text =
    if leb (length needle) (length text)
    then if equal (take (length needle) text) needle then forward_found else forward_not_found
    else forward_insufficient_size

-- `decode( i, data )`, and where it leads when it is valid.
unfoldable pub after_decode : State → Parser → Decoded → Step
after_decode s p (decode_valid q diff) = next (record q { state = s }) diff
after_decode s p decode_invalid = fail p
after_decode s p (decode_insufficient q) = wait q

unfoldable pub step_initial : Parser → ℕ → Step
step_initial p c =
    if is_whitespace c then next p 0 else if c == b'<' then goto tag_opening p else fail p

-- `m_current` is null where the path is empty.
unfoldable pub step_inter_tag : Parser → ℕ → Bytes → Step
step_inter_tag p c cs =
    let q = record p { tag_name = [] } in
    if is_whitespace c
    then next
        (record q {
          state = tag_inside;
          cdata = if is_empty p.path then p.cdata else p.cdata ++ (c ∷ []);
        })
        0
    else if c == b'&'
    then after_decode tag_inside q (decode q cs)
    else if c == b'<'
    then goto tag_opening q
    else if is_empty p.path
    then next q 0
    else next (record q { cdata = p.cdata ++ (c ∷ []); state = tag_inside }) 0

unfoldable pub after_cdata_scan : Parser → ℕ → Bytes → Scanned → Step
after_cdata_scan p c cs forward_found = next (record p { state = tag_cdata_section }) 7
after_cdata_scan p c cs forward_not_found = fail p
after_cdata_scan p c cs forward_insufficient_size = wait (record p { back_buffer = c ∷ cs })

unfoldable pub step_tag_opening : Parser → ℕ → Bytes → Step
step_tag_opening p c cs =
    if is_whitespace c
    then next p 0
    else if c == b'<' || c == b'>' || c == b'&'
    then fail p
    else if c == b'/'
    then goto tag_closing_slash p
    else if c == b'?'
    then next (record p { state = tag_name_collect; preamble = 1 }) 0
    else if c == b'!'
    then after_cdata_scan p c cs (forward_scan (codes "![CDATA[") (c ∷ cs))
    else next (record p { tag_name = p.tag_name ++ (c ∷ []); state = tag_name_collect }) 0

unfoldable pub after_end_scan : Parser → ℕ → Bytes → Scanned → Step
after_end_scan p c cs forward_found = next (record p { state = tag_inside }) 2
after_end_scan p c cs forward_not_found = next (record p { cdata = p.cdata ++ (c ∷ []) }) 0
after_end_scan p c cs forward_insufficient_size = wait (record p { back_buffer = c ∷ cs })

unfoldable pub step_cdata : Parser → ℕ → Bytes → Step
step_cdata p c cs =
    if c == b']'
    then after_end_scan p c cs (forward_scan (codes "]]>") (c ∷ cs))
    else next (record p { cdata = p.cdata ++ (c ∷ []) }) 0

-- `case ':'`: the name so far is the prefix, unless there is one.
unfoldable pub step_colon : Parser → Step
step_colon p =
    if not p.have_tag_prefix
    then next (record p { have_tag_prefix = true; tag_prefix = p.tag_name; tag_name = [] }) 0
    else fail p

unfoldable pub step_name_collect : Parser → ℕ → Step
step_name_collect p c =
    if is_whitespace c
    then goto tag_name_complete p
    else if c == b'<' || c == b'?' || c == b'!' || c == b'&'
    then fail p
    else if c == b'/'
    then goto tag_opening_slash p
    else if c == b'>'
    then goto tag_inside (add_tag p)
    else if c == b':'
    then step_colon p
    else next (record p { tag_name = p.tag_name ++ (c ∷ []) }) 0

unfoldable pub step_inside : Parser → ℕ → Bytes → Step
step_inside p c cs =
    let q = record p { tag_name = [] } in
    if c == b'<'
    then goto tag_opening (add_cdata q)
    else if c == b'&'
    then after_decode tag_inside q (decode q cs)
    else next (record q { cdata = p.cdata ++ (c ∷ []) }) 0

-- `if( !closeTag() ) { cleanup(); return i; }  m_state = InterTag;`
unfoldable pub after_close : Parser × Bool → Step
after_close (p, true) = goto inter_tag p
after_close (p, false) = fail p

unfoldable pub step_opening_slash : Parser → ℕ → Step
step_opening_slash p c =
    if is_whitespace c
    then next p 0
    else if c == b'>'
    then after_close (close_tag (add_tag p))
    else fail p

unfoldable pub step_closing_slash : Parser → ℕ → Step
step_closing_slash p c =
    if is_whitespace c
    then next p 0
    else if c == b'>' || c == b'<' || c == b'/'
    then fail p
    else next (record p { tag_name = p.tag_name ++ (c ∷ []); state = tag_closing }) 0

unfoldable pub step_closing : Parser → ℕ → Step
step_closing p c =
    if c == b'<' || c == b'/' || c == b'!' || c == b'?' || c == b'&'
    then fail p
    else if c == b':'
    then step_colon p
    else if c == b'>'
    then after_close (close_tag p)
    else next (record p { tag_name = p.tag_name ++ (c ∷ []) }) 0

-- `case '?'` and `case '>'` of the two states behind a name. `m_state = TagInside` stands before
-- `addTag`, which may reset it.
unfoldable pub step_question : Parser → Step
step_question p = if p.preamble == 1 then next (record p { preamble = 2 }) 0 else fail p

unfoldable pub step_end : Parser → Step
step_end p = if p.preamble == 1 then fail p else next (add_tag (record p { state = tag_inside })) 0

unfoldable pub step_name_complete : Parser → ℕ → Step
step_name_complete p c =
    if is_whitespace c
    then next p 0
    else if c == b'<' || c == b'!' || c == b'&'
    then fail p
    else if c == b'/'
    then goto tag_opening_slash p
    else if c == b'>'
    then step_end p
    else if c == b'?'
    then step_question p
    else next (record p { attrib = p.attrib ++ (c ∷ []); state = tag_attribute }) 0

unfoldable pub step_attribute_colon : Parser → Step
step_attribute_colon p =
    if not p.have_attrib_prefix && not (equal p.attrib xmlns_name)
    then next (record p { have_attrib_prefix = true; attrib_prefix = p.attrib; attrib = [] }) 0
    else if equal p.attrib xmlns_name
    then next (record p { attrib_is_xmlns = true; attrib = [] }) 0
    else fail p

unfoldable pub step_attribute : Parser → ℕ → Step
step_attribute p c =
    if is_whitespace c
    then goto tag_attribute_complete p
    else if c == b'<' || c == b'/' || c == b'>' || c == b'?' || c == b'!' || c == b'&'
    then fail p
    else if c == b'='
    then goto tag_attribute_equal p
    else if c == b':'
    then step_attribute_colon p
    else next (record p { attrib = p.attrib ++ (c ∷ []) }) 0

unfoldable pub step_attribute_complete : Parser → ℕ → Step
step_attribute_complete p c =
    if is_whitespace c then next p 0 else if c == b'=' then goto tag_attribute_equal p else fail p

unfoldable pub step_attribute_equal : Parser → ℕ → Step
step_attribute_equal p c =
    if is_whitespace c
    then next p 0
    else if c == 0x22
    then next (record p { quote = true; state = tag_attribute_value }) 0
    else if c == 0x27
    then goto tag_attribute_value p
    else fail p

-- `addAttribute(); m_state = TagNameAlmostComplete; m_quote = false;`
unfoldable pub step_value_end : Parser → Step
step_value_end p =
    next (record (add_attribute p) { state = tag_name_almost_complete; quote = false }) 0

unfoldable pub step_value : Parser → ℕ → Bytes → Step
step_value p c cs =
    if c == b'<'
    then fail p
    else if c == 0x27
    then if p.quote then next (record p { value = p.value ++ (c ∷ []) }) 0 else step_value_end p
    else if c == 0x22
    then step_value_end p
    else if c == b'&'
    then after_decode tag_attribute_value p (decode p cs)
    else next (record p { value = p.value ++ (c ∷ []) }) 0

unfoldable pub step_almost_complete : Parser → ℕ → Step
step_almost_complete p c =
    if is_whitespace c
    then goto tag_name_complete p
    else if c == b'/'
    then goto tag_opening_slash p
    else if c == b'>'
    then step_end p
    else if c == b'?'
    then step_question p
    else fail p

unfoldable pub step_in : State → Parser → ℕ → Bytes → Step
step_in initial p c cs = step_initial p c
step_in inter_tag p c cs = step_inter_tag p c cs
step_in tag_opening p c cs = step_tag_opening p c cs
step_in tag_cdata_section p c cs = step_cdata p c cs
step_in tag_name_collect p c cs = step_name_collect p c
step_in tag_inside p c cs = step_inside p c cs
step_in tag_opening_slash p c cs = step_opening_slash p c
step_in tag_closing_slash p c cs = step_closing_slash p c
step_in tag_closing p c cs = step_closing p c
step_in tag_name_complete p c cs = step_name_complete p c
step_in tag_attribute p c cs = step_attribute p c
step_in tag_attribute_complete p c cs = step_attribute_complete p c
step_in tag_attribute_equal p c cs = step_attribute_equal p c
step_in tag_attribute_value p c cs = step_value p c cs
step_in tag_name_almost_complete p c cs = step_almost_complete p c
step_in tag_opening_lt p c cs = next p 0
step_in tag_value_apos p c cs = next p 0
step_in tag_preamble p c cs = next p 0
