-- ===== src/Util/Escape.antt =====
-- `util::escape` and `util::appendEscaped`, over the tables of src/util.cpp.
use gloox.Base.{
  ℕ, suc, ◌+◌, ◌≤◌, ◌<◌, ◌≡◌, refl, sym, ap, ◌∙◌, List, [], ◌∷◌, ◌++◌, append-nil, append_assoc,
  Option, none, some, arith, leb, ltb, lt→ltb, ◌==◌, if◌then◌else◌, Bytes, codes, take, drop,
  length, length-append, Option-cases, Bool-cases, map, inl, inr,
}

-- `escape_chars` beside `escape_seqs`.
abbrev pub escape_table : List (ℕ × Bytes)
escape_table =
    (b'&', codes "amp;")
    ∷ (b'<', codes "lt;")
    ∷ (b'>', codes "gt;")
    ∷ (0x27, codes "apos;")
    ∷ (0x22, codes "quot;")
    ∷ []

-- `escape_chars` beside `escape_seqs_full`.
abbrev pub escape_table_full : List (ℕ × Bytes)
escape_table_full =
    (b'&', codes "&amp;")
    ∷ (b'<', codes "&lt;")
    ∷ (b'>', codes "&gt;")
    ∷ (0x27, codes "&apos;")
    ∷ (0x22, codes "&quot;")
    ∷ []

-- The inner loop over `val`: the sequence at the first character that is equal.
unfoldable pub find_seq : List (ℕ × Bytes) → ℕ → Option Bytes
find_seq [] c = none
find_seq ((e, seq) ∷ table) c = if c == e then some seq else find_seq table c

-- What stands for one byte: '&' written over it with the sequence inserted behind, or the byte.
abbrev pub replaced : ℕ → Option Bytes → Bytes
replaced c none = c ∷ []
replaced c (some seq) = b'&' ∷ seq

unfoldable pub escape_byte : ℕ → Bytes
escape_byte c = replaced c (find_seq escape_table c)

unfoldable pub escape : Bytes → Bytes
escape [] = []
escape (c ∷ cs) = escape_byte c ++ escape cs

-- The loop of `appendEscaped` at index `i`, with the bytes from there on.
record Range : Type 0 where
  target : Bytes
  range_start : ℕ
  range_count : ℕ

flush : Bytes → Range → Bytes
flush text r =
    if ltb 0 r.range_count
    then r.target ++ take r.range_count (drop r.range_start text)
    else r.target

append_seq : Bytes → ℕ → Range → Option Bytes → Range
append_seq text i r none = r
append_seq text i r (some seq) = record {
  target = flush text r ++ seq;
  range_start = i + 1;
  range_count = 0;
}

count_byte : ℕ → Range → Range
count_byte i r = record r {
  range_count = if leb r.range_start i then r.range_count + 1 else r.range_count;
}

append_loop : Bytes → ℕ → Bytes → Range → Bytes
append_loop text i [] r = flush text r
append_loop text i (c ∷ cs) r =
    append_loop text (i + 1) cs (count_byte i (append_seq text i r (find_seq escape_table_full c)))

unfoldable pub append_escaped : Bytes → Bytes → Bytes
unfolding append_loop append_seq count_byte flush find_seq
append_escaped target text =
    append_loop text 0 text (record { target = target; range_start = 0; range_count = 0 })

pub escape-append : (a b : Bytes) → escape (a ++ b) ≡ escape a ++ escape b
unfolding escape
escape-append [] b = refl
escape-append (c ∷ a) b =
    ap (◌++◌ (escape_byte c)) (escape-append a b)
    ∙ sym (append_assoc (escape_byte c) (escape a) (escape b))

-- The pending range `mid` of `text` stands before index `i`, and none of it needs escaping.
take-middle : (mid rest : Bytes) → take (length mid) (mid ++ rest) ≡ mid
take-middle [] rest = refl
take-middle (c ∷ mid) rest = ap (◌∷◌ c) (take-middle mid rest)

drop-prefix : (pre rest : Bytes) → drop (length pre) (pre ++ rest) ≡ rest
drop-prefix [] rest = refl
drop-prefix (c ∷ pre) rest = drop-prefix pre rest

-- What the loop knows: `mid` pends behind `pre`, and `rest` is still to read.
record Pends (text : Bytes) (i : ℕ) (pre mid rest : Bytes) (r : Range) : Type 0 where
  splits : text ≡ pre ++ (mid ++ rest)
  index : i ≡ length pre + length mid
  starts : r.range_start ≡ length pre
  counts : r.range_count ≡ length mid

flush_lem :
    (pre mid rest : Bytes) (r : Range)
    → r.range_start ≡ length pre
    → r.range_count ≡ length mid
    → flush (pre ++ (mid ++ rest)) r ≡ r.target ++ mid
unfolding flush
flush_lem pre [] rest r hs hc = rw (hc, append-nil)
flush_lem pre (c ∷ mid) rest r hs hc =
    rw (hs, hc, drop-prefix pre ((c ∷ mid) ++ rest), take-middle mid rest)
      (rw (lt→ltb 0 (suc (length mid)) (omega arith)))

count_byte_pending :
    (i : ℕ) (r : Range)
    → r.range_start ≤ i
    → count_byte i r ≡ record r { range_count = r.range_count + 1 }
unfolding count_byte
count_byte_pending i r h = ground arith

count_byte_escaped : (i : ℕ) (r : Range) → i < r.range_start → count_byte i r ≡ r
unfolding count_byte
count_byte_escaped i r h = ground arith

Pends-none :
    (text : Bytes) (i : ℕ) (pre mid : Bytes) (c : ℕ) (rest : Bytes) (r : Range)
    → Pends text i pre mid (c ∷ rest) r
    → Pends text (i + 1) pre (mid ++ (c ∷ [])) rest (record r { range_count = r.range_count + 1 })
Pends-none text i pre mid c rest r h = record {
  splits = rw append_assoc h.splits;
  index = omega (arith, h.index, length-append mid (c ∷ []));
  starts = h.starts;
  counts = omega (arith, h.counts, length-append mid (c ∷ []));
}

Pends-some :
    (text : Bytes) (i : ℕ) (pre mid : Bytes) (c : ℕ) (rest seq : Bytes) (r : Range)
    → Pends text i pre mid (c ∷ rest) r
    → Pends text (i + 1) (pre ++ (mid ++ (c ∷ []))) [] rest (append_seq text i r (some seq))
unfolding append_seq
Pends-some text i pre mid c rest seq r h =
    let len : length (pre ++ (mid ++ (c ∷ []))) ≡ i + 1 =
      omega (arith, h.index, length-append pre (mid ++ (c ∷ [])), length-append mid (c ∷ [])) in
    record {
      splits = rw (append_assoc pre, append_assoc mid) h.splits;
      index = omega (arith, len);
      starts = sym len;
      counts = refl;
    }

-- One round of the loop, whichever way its byte goes.
round_none :
    (text : Bytes) (i : ℕ) (c : ℕ) (r : Range)
    → r.range_start ≤ i
    → find_seq escape_table_full c ≡ none
    → count_byte i (append_seq text i r (find_seq escape_table_full c))
      ≡ record r { range_count = r.range_count + 1 }
unfolding append_seq
round_none text i c r h e = rw e (count_byte_pending i r h)

round_some :
    (text : Bytes) (i : ℕ) (c : ℕ) (seq : Bytes) (r : Range)
    → find_seq escape_table_full c ≡ some seq
    → count_byte i (append_seq text i r (find_seq escape_table_full c))
      ≡ append_seq text i r (some seq)
unfolding append_seq
round_some text i c seq r e =
    rw e (count_byte_escaped i (append_seq text i r (some seq)) (omega arith))

-- What `appendEscaped` puts for one byte.
abbrev put_for : ℕ → Option Bytes → Bytes
put_for c none = c ∷ []
put_for c (some seq) = seq

-- The two tables agree: the second one has the '&' in its sequences.
tables_agree :
    (table full : List (ℕ × Bytes)) (c : ℕ)
    → full ≡ map (λ (e : ℕ × Bytes). (e.0, b'&' ∷ e.1)) table
    → put_for c (find_seq full c) ≡ replaced c (find_seq table c)
unfolding find_seq
tables_agree table full c e = ap (λ (f : List (ℕ × Bytes)). put_for c (find_seq f c)) e ∙ go table
  where
    go :
        (table : List (ℕ × Bytes))
        → put_for c (find_seq (map (λ (e : ℕ × Bytes). (e.0, b'&' ∷ e.1)) table) c)
          ≡ replaced c (find_seq table c)
    go [] = refl
    go ((d, seq) ∷ table) = elim (Bool-cases (c == d)) [
      | inl q ↦ rw q refl
      | inr q ↦ rw q (go table)
    ]

escape_byte_eq :
    (c : ℕ) {o : Option Bytes} → find_seq escape_table_full c ≡ o → escape_byte c ≡ put_for c o
unfolding escape_byte
escape_byte_eq c e = sym (tables_agree escape_table escape_table_full c refl) ∙ ap (put_for c) e

append_loop_lem :
    (text : Bytes) (i : ℕ) (pre mid rest : Bytes) (r : Range)
    → Pends text i pre mid rest r
    → append_loop text i rest r ≡ r.target ++ (mid ++ escape rest)
unfolding append_loop escape
append_loop_lem text i pre mid [] r h =
    rw h.splits
      (flush_lem pre mid [] r h.starts h.counts ∙ ap (◌++◌ r.target) (sym (append-nil mid)))
append_loop_lem text i pre mid (c ∷ rest) r h = elim (Option-cases (find_seq escape_table_full c)) [
  | inl e ↦
      ap (append_loop text (i + 1) rest)
        (round_none text i c r (omega (arith, h.index, h.starts)) e)
      ∙ append_loop_lem text (i + 1) pre (mid ++ (c ∷ [])) rest _
          (Pends-none text i pre mid c rest r h)
      ∙ rw (escape_byte_eq c e) (ap (◌++◌ r.target) (append_assoc mid (c ∷ []) (escape rest)))
  | inr (seq, e) ↦
      ap (append_loop text (i + 1) rest) (round_some text i c seq r e)
      ∙ append_loop_lem text (i + 1) (pre ++ (mid ++ (c ∷ []))) [] rest _
          (Pends-some text i pre mid c rest seq r h)
      ∙ rw (escape_byte_eq c e) (
          unfold append_seq in
          rw (h.splits, flush_lem pre mid (c ∷ rest) r h.starts h.counts) (simp append_assoc))
]

-- Copying whole ranges gives what escaping byte by byte gives, behind the target.
pub append_escaped-escape :
    (target text : Bytes) → append_escaped target text ≡ target ++ escape text
unfolding append_escaped
append_escaped-escape target text =
    append_loop_lem text 0 [] [] text _
      (record { splits = refl; index = omega arith; starts = refl; counts = refl })
