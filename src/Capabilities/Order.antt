-- ===== src/Capabilities/Order.antt =====
-- The verification string forgets the order in which identities and features are listed.
use mathlib.Core.List.{Perm, Permᴰ}
use mathlib.Core.Logic.{∥∥₁_elim}
use gloox.Base.{◌≡◌, ap, ap₂, ◌∙◌, List, [], ◌∷◌, ◌++◌, Option, some, Bytes, map}
use gloox.Capabilities.Sorting.{sort-Perm}
use gloox.Capabilities.{
  Identity, Field, Disco, Capabilities, sort, identity_text, lines, form_text, generate, hash_of,
  ver, remove_node_handlers, register_node_handler,
}
use gloox.Base64.{encode64}
use gloox.Sha.{init, feed, binary}

map-Permᴰ :
    {xs ys : List Identity} → Permᴰ xs ys → Permᴰ (map identity_text xs) (map identity_text ys)
map-Permᴰ Permᴰ.nil = Permᴰ.nil
map-Permᴰ (Permᴰ.cons e d) = Permᴰ.cons (ap identity_text e) (map-Permᴰ d)
map-Permᴰ (Permᴰ.swap e f) = Permᴰ.swap (ap identity_text e) (ap identity_text f)
map-Permᴰ (Permᴰ.trans d e) = Permᴰ.trans (map-Permᴰ d) (map-Permᴰ e)

equation_prop : (xs ys : List Bytes) → IsProp (xs ≡ ys)
equation_prop xs ys = hlevel

sort-map-Perm :
    {xs ys : List Identity} → Perm xs ys → sort (map identity_text xs) ≡ sort (map identity_text ys)
sort-map-Perm {xs} {ys} p =
    ∥∥₁_elim p (equation_prop (sort (map identity_text xs)) (sort (map identity_text ys)))
      (λ d. sort-Perm ∣ map-Permᴰ d ∣₁)

-- The string is the same for the same identities and features in any order, with the same form.
pub generate-Perm :
    (is js : List Identity) (fs gs : List Bytes) (form : Option (List Field))
    → Perm is js
    → Perm fs gs
    → generate is fs form ≡ generate js gs form
unfolding generate
generate-Perm is js fs gs form p q =
    ap₂ (λ (a b : List Bytes). lines a ++ (lines b ++ form_text form)) (sort-map-Perm p)
      (sort-Perm q)

hash_of-Perm :
    (d e : Disco)
    → Perm d.identities e.identities
    → Perm d.features e.features
    → d.form ≡ e.form
    → hash_of d ≡ hash_of e
unfolding hash_of
hash_of-Perm d e p q r =
    ap (λ (s : Bytes). encode64 ((binary (feed init s)).1))
      (generate-Perm d.identities e.identities d.features e.features d.form p q
        ∙ ap (generate e.identities e.features) r)

-- Two clients that list the same identities and features, in any orders, and the same form announce the
-- same version and register for the same node.
pub ver-Perm :
    (c : Capabilities) (d e : Disco)
    → Perm d.identities e.identities
    → Perm d.features e.features
    → d.form ≡ e.form
    → ver (record c { disco = some d }) ≡ ver (record c { disco = some e })
unfolding ver
ver-Perm c d e p q r =
    ap
      (λ (h : Bytes). (h, remove_node_handlers ∷ register_node_handler (c.node ++ (b'#' ∷ h)) ∷ []))
      (hash_of-Perm d e p q r)
