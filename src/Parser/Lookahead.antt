-- ===== src/Parser/Lookahead.antt =====
-- What `decode` and `forwardScan` read of the bytes ahead: once they answer, more bytes behind do
-- not change the answer, and they never move past the bytes that are there.
use gloox.Base.{
  find_byte, ℕ, suc, ◌-◌, ◌≤◌, ◌<◌, ◌≡◌, refl, ap, Bool, true, false, ◌||◌, List, [], ◌∷◌, ◌++◌,
  Option, none, some, arith, ltb, if◌then◌else◌, Bytes, length, length-append, take,
}
use gloox.Parser.Decode.{
  Decoded, decode_valid, decode_invalid, decode_insufficient, decode, entity, store, decode_found,
}
use gloox.Parser.Step.{
  Scanned, forward_found, forward_not_found, forward_insufficient_size, forward_scan,
}
use gloox.Parser.{Parser, State, inter_tag}

abbrev Found : Option ℕ → Option ℕ → Bytes → Type 0
Found none o xs = Unit {0}
Found (some n) o xs = (o ≡ some n) × (n < length xs)

find_byte-append : (b : ℕ) (xs ys : Bytes) → Found (find_byte b xs) (find_byte b (xs ++ ys)) xs
unfolding find_byte
find_byte-append b [] ys = tt
find_byte-append b (x ∷ xs) ys = ground (arith, find_byte-append b xs ys)

pub take-append {ℓ} :
    {A : Type ℓ} (n : ℕ) (xs ys : List A) → n ≤ length xs → take n (xs ++ ys) ≡ take n xs
take-append ℕ.zero xs ys h = refl
take-append (ℕ.suc n) [] ys h = elim h [ ]
take-append (ℕ.suc n) (x ∷ xs) ys h = ap (◌∷◌ x) (take-append n xs ys (omega arith))

-- What is known of one call of `decode` with the bytes `xs`, and with more behind them.
abbrev pub Settled : Parser → Bytes → Decoded → Decoded → Type 0
Settled p xs (decode_valid q n) d =
    (d ≡ decode_valid q n) × (n ≤ length xs) × (q.back_buffer ≡ p.back_buffer)
Settled p xs decode_invalid d = d ≡ decode_invalid
Settled p xs (decode_insufficient q) d = q ≡ record p { back_buffer = b'&' ∷ xs }

store-back_buffer :
    (s : State) (rep : Bytes) (p : Parser) → (store s rep p).back_buffer ≡ p.back_buffer
unfolding store
store-back_buffer inter_tag rep p = refl
store-back_buffer _ rep p = refl

decode_found-append :
    (p : Parser) (xs ys : Bytes) (n : ℕ)
    → n < length xs
    → Settled p xs (decode_found p xs (suc n)) (decode_found p (xs ++ ys) (suc n))
unfolding decode_found
decode_found-append p xs ys n h =
    rw (take-append (suc n - 1) xs ys (omega arith))
      (go (ltb (suc n) 3 || ltb 9 (suc n)) (entity (suc n) (take (suc n - 1) xs)))
  where
    valid : Option Bytes → Decoded
    valid none = decode_invalid
    valid (some rep) = decode_valid (store p.state rep p) (suc n)

    go :
        (b : Bool) (o : Option Bytes)
        → Settled p xs
            (if b then decode_invalid else valid o)
            (if b then decode_invalid else valid o)
    go true o = refl
    go false none = refl
    go false (some rep) = (refl, h, store-back_buffer p.state rep p)

pub decode-append : (p : Parser) (xs ys : Bytes) → Settled p xs (decode p xs) (decode p (xs ++ ys))
unfolding decode
decode-append p xs ys =
    go (find_byte b';' xs) (find_byte b';' (xs ++ ys)) (find_byte-append b';' xs ys)
  where
    after : Bytes → Option ℕ → Decoded
    after zs none = decode_insufficient (record p { back_buffer = b'&' ∷ zs })
    after zs (some n) = decode_found p zs (suc n)

    go : (o u : Option ℕ) → Found o u xs → Settled p xs (after xs o) (after (xs ++ ys) u)
    go none u h = refl
    go (some n) u h = rw h.0 (decode_found-append p xs ys n h.1)

abbrev pub ScanSettled : Scanned → Scanned → ℕ → ℕ → Type 0
ScanSettled forward_insufficient_size t n m = Unit {0}
ScanSettled forward_found t n m = (t ≡ forward_found) × (n ≤ m)
ScanSettled forward_not_found t n m = t ≡ forward_not_found

pub forward_scan-append :
    (needle xs ys : Bytes)
    → ScanSettled
        (forward_scan needle xs)
        (forward_scan needle (xs ++ ys))
        (length needle)
        (length xs)
unfolding forward_scan
forward_scan-append needle xs ys =
    ground (arith, take-append (length needle) xs ys, length-append xs ys)
