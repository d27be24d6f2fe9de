-- ===== src/Util/Valid.antt =====
-- `util::checkValidXMLChars`: the loop breaks at the first byte that it refuses.
use gloox.Base.{
  ℕ, ◌≡◌, refl, Bool, true, false, ◌&&◌, ◌||◌, [], ◌∷◌, ◌++◌, arith, leb, ltb, ◌==◌, if◌then◌else◌,
  Bytes,
}

-- One round of the loop: whether it goes on.
unfoldable pub is_valid_byte : ℕ → Bool
is_valid_byte c =
    if ltb c 0x20
    then c == 0x09 || c == 0x0a || c == 0x0d
    else if leb 0xf5 c
    then false
    else if c == 0xc0 || c == 0xc1
    then false
    else true

unfoldable pub check_valid_xml_chars : Bytes → Bool
unfolding is_valid_byte
check_valid_xml_chars [] = true
check_valid_xml_chars (c ∷ cs) = is_valid_byte c && check_valid_xml_chars cs

pub check_valid-append :
    (a b : Bytes)
    → check_valid_xml_chars (a ++ b) ≡ (check_valid_xml_chars a && check_valid_xml_chars b)
unfolding check_valid_xml_chars
check_valid-append [] b = refl
check_valid-append (c ∷ a) b = ground (arith, check_valid-append a b)
