-- ===== src/InBandBytestream/Order.antt =====
-- What the receiving end accepts, and the numbers on the wire.
use gloox.Base.{
  ◌≡◌, refl, sym, ap, Bool, true, false, not, ◌||◌, List, [], ◌∷◌, Option, none, some, Bytes, equal,
  equal_iff, is_empty, arith, if◌then◌else◌,
}
use gloox.Base.Int.{ℤ, pos, negsuc, increment, eq_ℤ}
use gloox.InBandBytestream.{
  Stream, Effect, send_set, send_result, send_error, handle_open, handle_data_ack, handle_close,
  handle_data, Iq, Ibb, handle_iq, handle_ibb, handle_first, handle_packet, Handled, refuse, closed,
  wrap, is_ibb_close, is_ibb_open, is_set,
}

-- The texts that a handler is given.
abbrev pub texts_of : List Effect → List Bytes
texts_of [] = []
texts_of (send_set to i context ∷ es) = texts_of es
texts_of (send_result to id ∷ es) = texts_of es
texts_of (send_error to id e ∷ es) = texts_of es
texts_of (handle_open ∷ es) = texts_of es
texts_of (handle_data_ack ∷ es) = texts_of es
texts_of (handle_close ∷ es) = texts_of es
texts_of (handle_data bytes ∷ es) = bytes ∷ texts_of es

-- Nothing is handed on, or it is the text of the packet that is due on an open stream, which stays
-- open and counts it.
pub data Accepts (s : Stream) (iq : Iq) (h : Handled) : Type 0 where
  nothing : texts_of h.effects ≡ [] → Accepts s iq h
  due :
      (i : Ibb)
      → iq.ibb ≡ some i
      → s.is_open ≡ true
      → i.sid ≡ s.sid
      → i.seq ≡ increment s.last_chunk_received
      → is_empty i.payload ≡ false
      → texts_of h.effects ≡ i.payload ∷ []
      → h.stream ≡ record s { last_chunk_received = wrap i.seq }
      → Accepts s iq h

eq_ℤ_eq : (y z : ℤ) → eq_ℤ y z ≡ true → y ≡ z
eq_ℤ_eq (pos m) (pos n) e = ground arith
eq_ℤ_eq (pos m) (negsuc n) e = cc
eq_ℤ_eq (negsuc m) (pos n) e = cc
eq_ℤ_eq (negsuc m) (negsuc n) e = ground arith

Accepts-if :
    (s : Stream) (iq : Iq) (b : Bool) (h k : Handled)
    → (b ≡ true → Accepts s iq h)
    → (b ≡ false → Accepts s iq k)
    → Accepts s iq (if b then h else k)
Accepts-if s iq true h k p q = p refl
Accepts-if s iq false h k p q = q refl

not-true : (b : Bool) → not b ≡ false → b ≡ true
not-true true e = refl
not-true false e = cc

or_false : (a b : Bool) → (a || b) ≡ false → (a ≡ false) × (b ≡ false)
or_false true b e = cc
or_false false b e = (refl, e)

closed_texts : (s : Stream) → texts_of (closed s).1 ≡ []
unfolding closed
closed_texts s = ground arith

handle_packet-Accepts :
    (s : Stream) (iq : Iq) (i : Ibb)
    → iq.ibb ≡ some i
    → s.is_open ≡ true
    → i.sid ≡ s.sid
    → Accepts s iq (handle_packet s iq i)
unfolding handle_packet
handle_packet-Accepts s iq i ei o n =
    Accepts-if s iq (not (eq_ℤ (increment s.last_chunk_received) i.seq)) _ _ (λ e. nothing refl)
      (λ e.
        Accepts-if s iq (is_empty i.payload) _ _ (λ f. nothing refl)
          (λ f.
            let k = eq_ℤ_eq (increment s.last_chunk_received) i.seq (not-true _ e) in
            due i ei o n (sym k) f refl
              (ap (λ (z : ℤ). record s { last_chunk_received = wrap z }) k)))

handle_ibb-Accepts :
    (s : Stream) (iq : Iq) (i : Ibb) → iq.ibb ≡ some i → Accepts s iq (handle_ibb s iq i)
unfolding handle_ibb handle_first
handle_ibb-Accepts s iq i ei =
    Accepts-if s iq (not s.has_handler || not (is_set iq.subtype) || not (equal i.sid s.sid)) _ _
      (λ e. nothing refl)
      (λ e.
        Accepts-if s iq (not s.is_open) _ _
          (λ o. Accepts-if s iq (is_ibb_open i.type_of) _ _ (λ t. nothing refl) (λ t. nothing refl))
          (λ o.
            Accepts-if s iq (is_ibb_close i.type_of) _ _ (λ t. nothing (closed_texts s))
              (λ t.
                handle_packet-Accepts s iq i ei (not-true s.is_open o)
                  ((equal_iff i.sid s.sid).0 (not-true _ (or_false _ _ e).1)))))

-- Whatever stanza arrives, in whatever state: `handleIq` hands a text on only if the stream is open and
-- the stanza carries its session id and the number that is due. Then it is the text of the stanza,
-- which is not empty, and the stream stays open with the number counted.
pub handle_iq-Accepts : (s : Stream) (iq : Iq) → Accepts s iq (handle_iq s iq)
unfolding handle_iq
handle_iq-Accepts s iq = go (iq.ibb) refl
  where
    go :
        (o : Option Ibb)
        → iq.ibb ≡ o
        → Accepts s iq (elim o [ none ↦ refuse s | some i ↦ handle_ibb s iq i ])
    go none e = nothing refl
    go (some i) e = handle_ibb-Accepts s iq i e
