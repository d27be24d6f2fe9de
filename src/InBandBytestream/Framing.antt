-- ===== src/InBandBytestream/Framing.antt =====
-- The loop of `send`: it ends, and what it numbers fits the wire.
use gloox.Base.{
  ℕ, zero, suc, ◌+◌, ◌≤◌, ◌<◌, ◌≡◌, refl, ap, ◌∙◌, Bool, true, false, List, ◌∷◌, Option, none, some,
  Bytes, is_empty, length, length-take, length-drop, length_pos, take, drop, arith, if◌then◌else◌,
  Bool-cases, inl, inr, ◌==◌, All,
}
use gloox.Base.Int.{ℤ, pos, negsuc, increment}
use gloox.InBandBytestream.{
  Stream, Effect, send_set, send_result, send_error, handle_open, handle_data_ack, handle_close,
  handle_data, data_packet, wrap, send_from, send, behind, sent, peer, ibb_data,
}

-- From -1 to 65534: what the counters hold between two packets.
abbrev pub IsCounter : ℤ → Type 0
IsCounter (pos n) = n < 65535
IsCounter (negsuc n) = n ≡ 0

-- From 0 to 65535.
abbrev pub IsNumber : ℤ → Type 0
IsNumber (pos n) = n ≤ 65535
IsNumber (negsuc n) = ⊥

abbrev pub IsFrame : ℕ → Effect → Type 0
IsFrame b (send_set to i context) = IsNumber i.seq × (length i.payload ≤ b)
IsFrame b (send_result to id) = ⊥
IsFrame b (send_error to id e) = ⊥
IsFrame b handle_open = ⊥
IsFrame b handle_data_ack = ⊥
IsFrame b handle_close = ⊥
IsFrame b (handle_data bytes) = ⊥

increment-IsNumber : (z : ℤ) → IsCounter z → IsNumber (increment z)
increment-IsNumber (pos n) h = omega arith
increment-IsNumber (negsuc zero) h = omega arith
increment-IsNumber (negsuc (suc n)) h = absurd (omega arith)

wrap-IsCounter : (z : ℤ) → IsNumber z → IsCounter (wrap z)
wrap-IsCounter (pos n) h = elim (Bool-cases (n == 65535)) [
  | inl e ↦ rw e refl
  | inr e ↦ rw e (ground arith)
]
wrap-IsCounter (negsuc n) h = elim h [ ]

abbrev Frames : ℕ → Option (Stream × List Effect) → Type 0
Frames b none = ⊥
Frames b (some (t, es)) = IsCounter t.sequence × All (IsFrame b) es

Frames-behind :
    (b : ℕ) (e : Effect) (o : Option (Stream × List Effect))
    → IsFrame b e
    → Frames b o
    → Frames b (behind e o)
Frames-behind b e none h k = elim k [ ]
Frames-behind b e (some (t, es)) h k = (k.0, (h, k.1))

send_from-Frames :
    (n : ℕ) (to bytes : Bytes) (s : Stream)
    → IsCounter s.sequence
    → 0 < s.block_size
    → length bytes < n
    → Frames s.block_size (send_from n to s bytes)
unfolding send_from
send_from-Frames zero to bytes s h b l = absurd (omega arith)
send_from-Frames (suc n) to bytes s h b l = elim (Bool-cases (is_empty (drop s.block_size bytes))) [
  | inl last ↦ rw last (next, (frame, tt))
  | inr more ↦ rw more (
      Frames-behind s.block_size
        (send_set to (data_packet s.sid (increment s.sequence) (take s.block_size bytes)) ibb_data)
        _ frame
        (send_from-Frames n to (drop s.block_size bytes)
          (record s { sequence = wrap (increment s.sequence) }) next b
          (omega
            (arith, length-drop s.block_size bytes, length_pos (drop s.block_size bytes) more))))
]
  where
    next : IsCounter (wrap (increment s.sequence))
    next = wrap-IsCounter (increment s.sequence) (increment-IsNumber s.sequence h)

    frame : IsNumber (increment s.sequence) × (length (take s.block_size bytes) ≤ s.block_size)
    frame = (increment-IsNumber s.sequence h, length-take s.block_size bytes)

-- What a call of `send` that sends leaves and puts on the wire.
abbrev pub Framed : ℕ → Option (Stream × List Effect × Bool) → Type 0
Framed b none = ⊥
Framed b (some (t, es, ok)) = (ok ≡ true) × IsCounter t.sequence × All (IsFrame b) es

Framed-sent : (b : ℕ) (o : Option (Stream × List Effect)) → Frames b o → Framed b (sent o)
Framed-sent b none k = k
Framed-sent b (some (t, es)) k = (refl, k.0, k.1)

-- With a block size that is not 0 the loop of `send` ends for every text, within one round more than
-- the text has bytes. All that it sends are packets with at most a block each, numbered from 0 to
-- 65535, and the counter stays between -1 and 65534.
pub send-Framed :
    (s : Stream) (bytes : Bytes)
    → s.is_open ≡ true
    → s.has_client ≡ true
    → IsCounter s.sequence
    → 0 < s.block_size
    → Framed s.block_size (send s bytes)
unfolding send
send-Framed s bytes o c h b =
    simp (o, c)
      (Framed-sent s.block_size (send_from (length bytes + 1) (peer s) s bytes)
        (send_from-Frames (length bytes + 1) (peer s) bytes s h b (omega arith)))

goes_on :
    (b : Bool) (p : Stream × List Effect) (e : Effect) (o : Option (Stream × List Effect))
    → b ≡ false
    → o ≡ none
    → (if b then some p else behind e o) ≡ none
goes_on b p e o h k = rw (h, k) refl

-- With the block size 0, which `setBlockSize` accepts, the loop on a text that is not empty never
-- ends: no number of rounds is enough.
pub send_from-endless :
    (n c : ℕ) (to bytes : Bytes) (s : Stream)
    → s.block_size ≡ 0
    → send_from n to s (c ∷ bytes) ≡ none
unfolding send_from
send_from-endless zero c to bytes s e = refl
send_from-endless (suc n) c to bytes s e =
    goes_on _ _ _ _ (ap (λ (b : ℕ). is_empty (drop b (c ∷ bytes))) e)
      (ap (λ (b : ℕ). send_from n to t (drop b (c ∷ bytes))) e ∙ send_from-endless n c to bytes t e)
  where
    t : Stream
    t = record s { sequence = wrap (increment s.sequence) }
