-- ===== src/InBandBytestream/Delivery.antt =====
-- Two ends of a stream: what `send` puts on the wire, `handleIq` of the other end hands on.
use gloox.Base.{
  ℕ, zero, suc, ◌+◌, ◌≤◌, ◌<◌, ◌≡◌, refl, sym, ap, subst, Bool, true, false, List, [], ◌∷◌, ◌++◌,
  Option, none, some, Bytes, equal_refl, is_empty, length, take, drop, take-append-drop,
  length-drop, is_empty_eq, length_pos, arith, Bool-cases, inl, inr,
}
use gloox.Base.Int.{ℤ, pos, negsuc, increment, eq_ℤ}
use gloox.InBandBytestream.{
  Stream, Effect, send_set, send_result, send_error, handle_open, handle_data_ack, handle_close,
  handle_data, Iq, set, Ibb, data_packet, handle_iq, wrap, send_from, send, behind, sent, peer,
  ibb_data,
}

-- A set IQ on the wire, as the other end gets it.
abbrev pub arrived : Bytes → Ibb → Iq
arrived from i = record { subtype = set; from = from; id = []; ibb = some i }

-- The other end takes the stanzas in the order in which they were sent.
unfoldable pub deliver : Bytes → Stream → List Effect → Stream × List Effect
deliver from r [] = (r, [])
deliver from r (send_set to i context ∷ es) =
    let got = handle_iq r (arrived from i) in
    let rest = deliver from got.stream es in (rest.0, got.effects ++ rest.1)
deliver from r (send_result to id ∷ es) = deliver from r es
deliver from r (send_error to id e ∷ es) = deliver from r es
deliver from r (handle_open ∷ es) = deliver from r es
deliver from r (handle_data_ack ∷ es) = deliver from r es
deliver from r (handle_close ∷ es) = deliver from r es
deliver from r (handle_data bytes ∷ es) = deliver from r es

-- The bytes that a handler is given.
abbrev pub received : List Effect → Bytes
received [] = []
received (send_set to i context ∷ es) = received es
received (send_result to id ∷ es) = received es
received (send_error to id e ∷ es) = received es
received (handle_open ∷ es) = received es
received (handle_data_ack ∷ es) = received es
received (handle_close ∷ es) = received es
received (handle_data bytes ∷ es) = bytes ++ received es

-- The receiving end `r` waits for the packet that the sending end `s` numbers next.
pub record InSync (r s : Stream) : Type 0 where
  pub ready : r.is_open ≡ true
  pub handled : r.has_handler ≡ true
  pub same_sid : r.sid ≡ s.sid
  pub same_count : r.last_chunk_received ≡ s.sequence

eq_ℤ_refl : (z : ℤ) → eq_ℤ z z ≡ true
eq_ℤ_refl (pos n) = ground arith
eq_ℤ_refl (negsuc n) = ground arith

abbrev counted : Stream → Stream
counted s = record s { sequence = wrap (increment s.sequence) }

-- One packet is taken, and the ends stay in step.
handle_iq-packet :
    (from payload : Bytes) (r s : Stream)
    → InSync r s
    → is_empty payload ≡ false
    → handle_iq r (arrived from (data_packet s.sid (increment s.sequence) payload)) ≡ record {
      stream = record r { last_chunk_received = wrap (increment r.last_chunk_received) };
      effects = send_result from [] ∷ handle_data payload ∷ [];
      taken = true;
    }
unfolding handle_iq
handle_iq-packet from payload r s h e =
    rw
      (
        h.ready,
        h.handled,
        ← h.same_count,
        ← h.same_sid,
        equal_refl r.sid,
        eq_ℤ_refl (increment r.last_chunk_received),
        e,
      )
      refl

-- What the other end makes of a run of the loop that sends `bytes`.
abbrev Carries : Bytes → Stream → Bytes → Option (Stream × List Effect) → Type 0
Carries from r bytes none = ⊥
Carries from r bytes (some (t, es)) =
    (received (deliver from r es).1 ≡ bytes) × InSync (deliver from r es).0 t

after : Stream → Stream
after r = record r { last_chunk_received = wrap (increment r.last_chunk_received) }

after-InSync : {r s : Stream} → InSync r s → InSync (after r) (counted s)
unfolding after
after-InSync h = record {
  ready = h.ready;
  handled = h.handled;
  same_sid = h.same_sid;
  same_count = ap (λ (z : ℤ). wrap (increment z)) h.same_count;
}

deliver-packet :
    (from to payload : Bytes) (r s : Stream) (es : List Effect)
    → InSync r s
    → is_empty payload ≡ false
    → deliver from r (send_set to (data_packet s.sid (increment s.sequence) payload) ibb_data ∷ es)
      ≡ (
        (deliver from (after r) es).0,
        send_result from [] ∷ handle_data payload ∷ (deliver from (after r) es).1,
      )
unfolding deliver after
deliver-packet from to payload r s es h e = rw (handle_iq-packet from payload r s h e) refl

Carries-behind :
    (from to payload rest : Bytes) (r s : Stream) (o : Option (Stream × List Effect))
    → InSync r s
    → is_empty payload ≡ false
    → Carries from (after r) rest o
    → Carries from r
        (payload ++ rest)
        (behind (send_set to (data_packet s.sid (increment s.sequence) payload) ibb_data) o)
Carries-behind from to payload rest r s none h e k = elim k [ ]
Carries-behind from to payload rest r s (some (t, es)) h e k =
    rw (deliver-packet from to payload r s es h e) (ap (λ (x : Bytes). payload ++ x) k.0, k.1)

take_filled : (n : ℕ) (xs : Bytes) → 0 < n → is_empty xs ≡ false → is_empty (take n xs) ≡ false
take_filled zero xs h e = absurd (omega arith)
take_filled (suc n) [] h e = cc
take_filled (suc n) (c ∷ xs) h e = refl

send_from-Carries :
    (n : ℕ) (from to bytes : Bytes) (r s : Stream)
    → InSync r s
    → 0 < s.block_size
    → is_empty bytes ≡ false
    → length bytes ≤ n
    → Carries from r bytes (send_from n to s bytes)
unfolding send_from deliver
send_from-Carries zero from to bytes r s h b e l = absurd (omega (arith, length_pos bytes e))
send_from-Carries (suc n) from to bytes r s h b e l =
    elim (Bool-cases (is_empty (drop s.block_size bytes))) [
      | inl last ↦ rw last (with_rest (some (counted s, [])) (none_left (is_empty_eq _ last)))
      | inr more ↦ rw more (
          with_rest (send_from n to (counted s) (drop s.block_size bytes)) (
            send_from-Carries n from to (drop s.block_size bytes) (after r) (counted s)
              (after-InSync h) b more (omega (arith, length-drop s.block_size bytes))))
    ]
  where
    with_rest :
        (o : Option (Stream × List Effect))
        → Carries from (after r) (drop s.block_size bytes) o
        → Carries from r bytes (
            behind
              (send_set to
                (data_packet s.sid (increment s.sequence) (take s.block_size bytes))
                ibb_data)
              o)
    with_rest o k =
        subst
          (λ (x : Bytes). Carries from r x (
            behind
              (send_set to (data_packet s.sid (increment s.sequence) (take s.block_size bytes))
                ibb_data)
              o))
          (take-append-drop s.block_size bytes)
          (Carries-behind from to (take s.block_size bytes) (drop s.block_size bytes) r s o h
            (take_filled s.block_size bytes b e) k)

    none_left :
        drop s.block_size bytes ≡ []
        → Carries from (after r) (drop s.block_size bytes) (some (counted s, []))
    none_left k = (sym k, after-InSync h)

-- What `send` returns when it sends: true, stanzas that the other end hands on as `bytes` and no
-- others, and ends that are in step again.
abbrev pub Delivers : Bytes → Stream → Bytes → Option (Stream × List Effect × Bool) → Type 0
Delivers from r bytes none = ⊥
Delivers from r bytes (some (t, es, ok)) =
    (ok ≡ true) × (received (deliver from r es).1 ≡ bytes) × InSync (deliver from r es).0 t

Delivers-sent :
    (from bytes : Bytes) (r : Stream) (o : Option (Stream × List Effect))
    → Carries from r bytes o
    → Delivers from r bytes (sent o)
Delivers-sent from bytes r none k = k
Delivers-sent from bytes r (some (t, es)) k = (refl, k.0, k.1)

-- A stream that is open and has a client sends every text that is not empty to its end: the call
-- returns true, the other end, in step with it, hands on exactly that text from the stanzas, and the two
-- ends are in step again, also where the numbers wrap round at 65535. The block size is not 0.
pub send-Delivers :
    (from bytes : Bytes) (r s : Stream)
    → InSync r s
    → s.is_open ≡ true
    → s.has_client ≡ true
    → 0 < s.block_size
    → is_empty bytes ≡ false
    → Delivers from r bytes (send s bytes)
unfolding send
send-Delivers from bytes r s h o c b e =
    simp (o, c)
      (Delivers-sent from bytes r (send_from (length bytes + 1) (peer s) s bytes)
        (send_from-Carries (length bytes + 1) from (peer s) bytes r s h b e (omega arith)))
