-- ===== src/InBandBytestream/Tests.antt =====
-- The theorems of in-band bytestreams on a stream of blocks of two bytes whose numbers wrap round.
use gloox.Base.{◌≡◌, refl, true, none, some, ◌∷◌, codes, arith}
use gloox.Base.Int.{pos}
use gloox.InBandBytestream.Delivery.{InSync, Delivers, send-Delivers}
use gloox.InBandBytestream.Framing.{Framed, send-Framed, send_from-endless}
use gloox.InBandBytestream.Order.{Accepts, handle_iq-Accepts}
use gloox.InBandBytestream.{Stream, Iq, set, new_stream, data_packet, send, send_from, handle_iq}

abbrev sender : Stream
sender = record (new_stream true true (codes "a") (codes "a") (codes "b") (codes "s1")) {
  is_open = true;
  block_size = 2;
  sequence = pos 65534;
}

abbrev receiver : Stream
receiver = record (new_stream true true (codes "b") (codes "a") (codes "b") (codes "s1")) {
  is_open = true;
  last_chunk_received = pos 65534;
}

in_sync : InSync receiver sender
in_sync = record { ready = refl; handled = refl; same_sid = refl; same_count = refl }

send-Delivers_example : Delivers (codes "a") receiver (codes "hello") (send sender (codes "hello"))
send-Delivers_example =
    send-Delivers (codes "a") (codes "hello") receiver sender in_sync refl refl (omega arith) refl

send-Framed_example : Framed 2 (send sender (codes "hello"))
send-Framed_example = send-Framed sender (codes "hello") refl refl (omega arith) (omega arith)

send_from-endless_example :
    send_from 9 (codes "b") (record sender { block_size = 0 }) (b'h' ∷ codes "ello") ≡ none
send_from-endless_example =
    send_from-endless 9 b'h' (codes "b") (codes "ello") (record sender { block_size = 0 }) refl

abbrev packet : Iq
packet = record {
  subtype = set;
  from = codes "a";
  id = codes "x";
  ibb = some (data_packet (codes "s1") (pos 65535) (codes "he"));
}

handle_iq-Accepts_example : Accepts receiver packet (handle_iq receiver packet)
handle_iq-Accepts_example = handle_iq-Accepts receiver packet
