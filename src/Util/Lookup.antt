-- ===== src/Util/Lookup.antt =====
-- `util::internalLog2`, `_lookup` and `_lookup2`: codes of strings by their place in a table, or by the
-- bit of that number. `unsigned` has 32 bits.
use gloox.Base.{
  ℕ, suc, ◌+◌, ◌/◌, ◌%◌, ◌^◌, ◌≤◌, ◌<◌, ◌≡◌, refl, sym, ap, ◌∙◌, Bool, true, false, List, [], ◌∷◌,
  Option, none, some, arith, leb, ltb, lt→ltb, all_below, all_below_sound, ◌-◌, ==_iff, ◌==◌,
  Bool-cases, inl, inr, if◌then◌else◌, Bytes, equal, equal_iff, length, get_or,
}

-- `if( n >= 1 << k ) { n >>= k; pos += k; }`
abbrev halve : ℕ → ℕ × ℕ → ℕ × ℕ
halve k (n, pos) = if leb (2 ^ k) n then (n / 2 ^ k, pos + k) else (n, pos)

-- The last test leaves `n` as it is; `none` stands for -1.
abbrev last_bit : ℕ × ℕ → Option ℕ
last_bit (n, pos) = if n == 0 then none else some (if leb 2 n then pos + 1 else pos)

unfoldable pub internal_log2 : ℕ → Option ℕ
internal_log2 n = last_bit (halve 2 (halve 4 (halve 8 (halve 16 (n, 0)))))

-- The loop of `_lookup`.
unfoldable pub place : Bytes → List Bytes → ℕ
place s [] = 0
place s (v ∷ vs) = if equal s v then 0 else suc (place s vs)

-- `_lookup( str, values, size, def )`, with `none` for a `def` below 0.
unfoldable pub lookup : Bytes → List Bytes → Option ℕ → ℕ
unfolding place
lookup s vs none = place s vs
lookup s vs (some d) = if place s vs == length vs then d else place s vs

-- `_lookup( code, values, size, def )`.
unfoldable pub lookup_code : ℕ → List Bytes → Bytes → Bytes
lookup_code code vs d = if ltb code (length vs) then get_or vs code d else d

place-bound : (s : Bytes) (vs : List Bytes) → place s vs ≤ length vs
unfolding place
place-bound s [] = omega arith
place-bound s (v ∷ vs) = ground (arith, place-bound s vs)

get_or-place :
    (s : Bytes) (vs : List Bytes) (d : Bytes)
    → place s vs < length vs
    → get_or vs (place s vs) d ≡ s
unfolding place
get_or-place s [] d h = absurd (omega arith)
get_or-place s (v ∷ vs) d h = elim (Bool-cases (equal s v)) [
  | inl e ↦ rw e (sym ((equal_iff s v).0 e))
  | inr e ↦ rw e (get_or-place s vs d (ground arith))
]

-- What `internalLog2` returns: -1 at 0, and otherwise the place of the highest bit.
abbrev pub IsLog2 : ℕ → Option ℕ → Type 0
IsLog2 n none = n ≡ 0
IsLog2 n (some k) = (2 ^ k ≤ n) × (n < 2 ^ (k + 1))

-- For every `unsigned` of 32 bits `internalLog2` gives the place of its highest bit, and -1 just for 0.
pub internal_log2-IsLog2 : (n : ℕ) → n < 2 ^ 32 → IsLog2 n (internal_log2 n)
unfolding internal_log2
internal_log2-IsLog2 n h = go (internal_log2 n) refl
  where
    go : (o : Option ℕ) → internal_log2 n ≡ o → IsLog2 n o
    go none e = ground arith
    go (some k) e = ground arith

-- The default of `_lookup2`, as `_lookup` takes it.
abbrev log_of : Option ℕ → Option ℕ
log_of none = none
log_of (some d) = if d == 0 then some 0 else internal_log2 d

-- `_lookup2( str, values, size, def )`: `1 << i`.
unfoldable pub lookup2 : Bytes → List Bytes → Option ℕ → ℕ
unfolding lookup internal_log2
lookup2 s vs def = 2 ^ lookup s vs (log_of def) % 2 ^ 32

abbrev at_log : Option ℕ → List Bytes → Bytes → Bytes
at_log none vs d = if ltb (2 ^ 32 - 1) (length vs) then get_or vs (2 ^ 32 - 1) d else d
at_log (some i) vs d = if ltb i (length vs) then get_or vs i d else d

-- `_lookup2( code, values, size, def )`; -1 is the greatest `unsigned`.
unfoldable pub lookup2_code : ℕ → List Bytes → Bytes → Bytes
unfolding internal_log2
lookup2_code code vs d = at_log (internal_log2 code) vs d

is_log : Option ℕ → ℕ → Bool
is_log none k = false
is_log (some i) k = i == k

logs_of_powers : all_below 31 (λ k. is_log (internal_log2 (2 ^ k % 2 ^ 32)) k) ≡ true
unfolding all_below internal_log2 is_log
logs_of_powers = refl

internal_log2-power : (k : ℕ) → k < 31 → internal_log2 (2 ^ k % 2 ^ 32) ≡ some k
unfolding is_log
internal_log2-power k h =
    go (internal_log2 (2 ^ k % 2 ^ 32))
      (all_below_sound 31 (λ j. is_log (internal_log2 (2 ^ j % 2 ^ 32)) j) k logs_of_powers h)
  where
    go : (o : Option ℕ) → is_log o k ≡ true → o ≡ some k
    go none e = cc
    go (some i) e = ap some ((==_iff i k).0 e)

-- A string of a table with at most 31 entries is the one at the bit that `_lookup2` gives for it.
pub lookup2_code-lookup2 :
    (s d : Bytes) (vs : List Bytes)
    → length vs ≤ 31
    → lookup s vs none < length vs
    → lookup2_code (lookup2 s vs none) vs d ≡ s
unfolding lookup2 lookup2_code lookup
lookup2_code-lookup2 s d vs b h =
    ap (λ (o : Option ℕ). at_log o vs d) (internal_log2-power (place s vs) (omega arith))
    ∙ rw (lt→ltb (place s vs) (length vs) h) (get_or-place s vs d h)
