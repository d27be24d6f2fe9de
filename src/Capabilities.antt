-- ===== src/Capabilities.antt =====
-- Class `Capabilities` of src/capabilities.cpp: the verification string of XEP-0115. What the `Disco` of
-- the client gives, its identities, features and form, are arguments.
pub mod Sorting
pub mod Order
pub mod Tests
use gloox.Base.{
  Bool, true, false, List, [], ◌∷◌, ◌++◌, Option, none, some, if◌then◌else◌, Bytes, codes, equal,
  map,
}
use gloox.Base64.{encode64}
use gloox.Map.{Map, insert_pair}
use gloox.Sha.{init, feed, binary}
use gloox.StringMap.{less}

-- `Disco::Identity`, as far as it is read.
pub record Identity : Type 0 where
  pub category : Bytes
  pub type_of : Bytes
  pub name : Bytes

-- `DataFormField`.
pub record Field : Type 0 where
  pub name : Bytes
  pub values : List Bytes

-- `DataFormField::value`.
abbrev pub value : Field → Bytes
value f = elim (f.values) [ [] ↦ [] | v ∷ vs ↦ v ]

-- `std::list::sort` of strings.
unfoldable pub insert_sorted : Bytes → List Bytes → List Bytes
insert_sorted x [] = x ∷ []
insert_sorted x (y ∷ ys) =
    let rest = insert_sorted x ys in if less y x then y ∷ rest else x ∷ y ∷ ys

unfoldable pub sort : List Bytes → List Bytes
sort [] = []
sort (x ∷ xs) = insert_sorted x (sort xs)

-- The language of an identity is left empty.
unfoldable pub identity_text : Identity → Bytes
identity_text i = i.category ++ (b'/' ∷ (i.type_of ++ (b'/' ∷ (b'/' ∷ i.name))))

-- The strings of a list, each with a '<' behind it.
unfoldable pub lines : List Bytes → Bytes
lines [] = []
lines (s ∷ ss) = s ++ (b'<' ∷ lines ss)

-- The loop over the fields: the lines of `FORM_TYPE`, and the other fields by their names.
unfoldable pub form_types : List Field → Bytes
form_types [] = []
form_types (f ∷ fs) =
    let rest = form_types fs in
    if equal f.name (codes "FORM_TYPE") then value f ++ (b'<' ∷ rest) else rest

unfoldable pub other_fields : List Field → Map (List Bytes) → Map (List Bytes)
other_fields [] m = m
other_fields (f ∷ fs) m =
    let rest = other_fields fs (insert_pair f.name f.values m) in
    let skipped = other_fields fs m in if equal f.name (codes "FORM_TYPE") then skipped else rest

unfoldable pub field_lines : Map (List Bytes) → Bytes
field_lines [] = []
field_lines ((name, values) ∷ m) = name ++ (b'<' ∷ (lines values ++ field_lines m))

unfoldable pub form_text : Option (List Field) → Bytes
form_text none = []
form_text (some fields) = form_types fields ++ field_lines (other_fields fields [])

-- `generate`.
unfoldable pub generate : List Identity → List Bytes → Option (List Field) → Bytes
generate identities features form =
    lines (sort (map identity_text identities)) ++ (lines (sort features) ++ form_text form)

-- What `ver` asks of the `Disco`.
pub data DiscoCall : Type 0 where
  remove_node_handlers : DiscoCall
  register_node_handler : Bytes → DiscoCall

-- The members; `disco` is what the `Disco` has, if there is one.
pub record Disco : Type 0 where
  pub identities : List Identity
  pub features : List Bytes
  pub form : Option (List Field)

pub record Capabilities : Type 0 where
  pub disco : Option Disco
  pub node : Bytes
  pub stored_ver : Bytes

unfoldable pub hash_of : Disco → Bytes
hash_of d = encode64 ((binary (feed init (generate d.identities d.features d.form))).1)

-- `ver`.
unfoldable pub ver : Capabilities → Bytes × List DiscoCall
ver c = elim (c.disco) [
  | none ↦ (c.stored_ver, [])
  | some d ↦
      (hash_of d, remove_node_handlers ∷ register_node_handler (c.node ++ (b'#' ∷ hash_of d)) ∷ [])
]
