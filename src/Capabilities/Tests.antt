-- ===== src/Capabilities/Tests.antt =====
-- The theorems of capabilities, and the example of XEP-0115, section 5.2.
use mathlib.Core.List.Perm as Perm
use gloox.Base.{◌≡◌, refl, none, some, [], ◌∷◌, List, Bytes, codes}
use gloox.StringMap.{less}
use gloox.Capabilities.Order.{ver-Perm}
use gloox.Capabilities.{
  Identity, Disco, Capabilities, ver, generate, sort, insert_sorted, identity_text, lines,
  form_text,
}

abbrev exodus : Identity
exodus = record { category = codes "client"; type_of = codes "pc"; name = codes "Exodus 0.9.1" }

abbrev features : List Bytes
features =
    codes "http://jabber.org/protocol/disco#info"
    ∷ codes "http://jabber.org/protocol/disco#items"
    ∷ codes "http://jabber.org/protocol/muc"
    ∷ codes "http://jabber.org/protocol/caps"
    ∷ []

abbrev first : Disco
first = record { identities = exodus ∷ []; features = codes "b" ∷ codes "a" ∷ []; form = none }

abbrev second : Disco
second = record { identities = exodus ∷ []; features = codes "a" ∷ codes "b" ∷ []; form = none }

abbrev capabilities : Capabilities
capabilities = record { disco = some first; node = codes "n"; stored_ver = [] }

ver-Perm_example :
    ver (record capabilities { disco = some first })
    ≡ ver (record capabilities { disco = some second })
ver-Perm_example =
    ver-Perm capabilities first second (Perm.refl _) (Perm.swap (codes "a") (codes "b") []) refl

generate_example :
    generate (exodus ∷ []) features none
    ≡ codes
        "client/pc//Exodus 0.9.1<http://jabber.org/protocol/caps<http://jabber.org/protocol/disco#info<http://jabber.org/protocol/disco#items<http://jabber.org/protocol/muc<"
unfolding generate sort insert_sorted identity_text lines form_text less
generate_example = refl
