-- ===== src/StringMap.antt =====
-- `StringMap` of src/gloox.h, a `std::map<std::string, std::string>`: a list sorted by its keys.
use gloox.Base.{
  Bool, true, false, ◌&&◌, ◌||◌, List, [], ◌∷◌, Option, none, some, ltb, ◌==◌, if◌then◌else◌, Bytes,
  equal,
}

abbrev pub StringMap : Type 0
StringMap = List (Bytes × Bytes)

-- `operator<` of `std::string`, which compares as unsigned bytes.
unfoldable pub less : Bytes → Bytes → Bool
less [] [] = false
less [] (y ∷ ys) = true
less (x ∷ xs) [] = false
less (x ∷ xs) (y ∷ ys) = ltb x y || (x == y && less xs ys)

unfoldable pub find : Bytes → StringMap → Option Bytes
find k [] = none
find k ((j, v) ∷ m) = if equal j k then some v else find k m

-- `map[k] = v`.
unfoldable pub insert : Bytes → Bytes → StringMap → StringMap
insert k v [] = (k, v) ∷ []
insert k v ((j, w) ∷ m) =
    if equal j k
    then (j, v) ∷ m
    else if less k j
    then (k, v) ∷ (j, w) ∷ m
    else (j, w) ∷ insert k v m
