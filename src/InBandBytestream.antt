-- ===== src/InBandBytestream.antt =====
-- Class `InBandBytestream` of src/inbandbytestream.cpp: bytes cut into numbered stanzas.
-- An operation returns the stream and what it does, in order: the stanzas it hands to the client and
-- the calls of its handler. A handler does not call the stream back. The ids of stanzas are left to
-- the client. `block_size` is not negative.
pub mod Delivery
pub mod Framing
pub mod Order
pub mod Tests
use gloox.Base.{
  ℕ, zero, suc, ◌+◌, Bool, true, false, not, ◌&&◌, ◌||◌, List, [], ◌∷◌, ◌++◌, Option, none, some,
  if◌then◌else◌, Bytes, equal, is_empty, length, take, drop, ◌==◌,
}
use gloox.Base.Int.{ℤ, pos, negsuc, increment, eq_ℤ}

-- `IBBType`.
pub data IbbType : Type 0 where
  ibb_open ibb_data ibb_close ibb_invalid : IbbType

-- Class `IBB`.
pub record Ibb : Type 0 where
  pub sid : Bytes
  pub seq : ℤ
  pub block_size : ℤ
  pub payload : Bytes
  pub type_of : IbbType

-- The constructors `IBB( sid, blocksize )`, `IBB( sid, seq, data )` and `IBB( sid )`.
abbrev pub open_request : Bytes → ℤ → Ibb
open_request sid block_size = record {
  sid = sid;
  seq = pos 0;
  block_size = block_size;
  payload = [];
  type_of = ibb_open;
}

abbrev pub data_packet : Bytes → ℤ → Bytes → Ibb
data_packet sid seq payload = record {
  sid = sid;
  seq = seq;
  block_size = pos 0;
  payload = payload;
  type_of = ibb_data;
}

abbrev pub close_request : Bytes → Ibb
close_request sid = record {
  sid = sid;
  seq = pos 0;
  block_size = pos 0;
  payload = [];
  type_of = ibb_close;
}

-- The errors that `returnError` is called with, all of type `modify`.
pub data StanzaError : Type 0 where
  item_not_found bad_request : StanzaError

pub data Effect : Type 0 where
  -- `m_clientbase->send( iq, this, context )` with an IQ of type `set`
  send_set : Bytes → Ibb → IbbType → Effect
  send_result : Bytes → Bytes → Effect
  send_error : Bytes → Bytes → StanzaError → Effect
  handle_open handle_data_ack handle_close : Effect
  handle_data : Bytes → Effect

-- The members of the stream, with `client_jid` for `m_clientbase->jid()`.
pub record Stream : Type 0 where
  pub has_client : Bool
  pub has_handler : Bool
  pub client_jid : Bytes
  pub initiator : Bytes
  pub target : Bytes
  pub sid : Bytes
  pub is_open : Bool
  pub block_size : ℕ
  pub sequence : ℤ
  pub last_chunk_received : ℤ

-- What stands in an IQ; `ibb` is the extension `ExtIBB`.
pub data IqType : Type 0 where
  get set result error : IqType

pub record Iq : Type 0 where
  pub subtype : IqType
  pub from : Bytes
  pub id : Bytes
  pub ibb : Option Ibb

abbrev pub is_set : IqType → Bool
is_set get = false
is_set set = true
is_set result = false
is_set error = false

abbrev pub is_ibb_open : IbbType → Bool
is_ibb_open ibb_open = true
is_ibb_open ibb_data = false
is_ibb_open ibb_close = false
is_ibb_open ibb_invalid = false

abbrev pub is_ibb_close : IbbType → Bool
is_ibb_close ibb_open = false
is_ibb_close ibb_data = false
is_ibb_close ibb_close = true
is_ibb_close ibb_invalid = false

-- `if( n == 65535 ) n = -1;`
abbrev pub wrap : ℤ → ℤ
wrap (pos n) = if n == 65535 then negsuc 0 else pos n
wrap (negsuc n) = negsuc n

-- The constructor.
abbrev pub new_stream : Bool → Bool → Bytes → Bytes → Bytes → Bytes → Stream
new_stream has_client has_handler client_jid initiator target sid = record {
  has_client = has_client;
  has_handler = has_handler;
  client_jid = client_jid;
  initiator = initiator;
  target = target;
  sid = sid;
  is_open = false;
  block_size = 4096;
  sequence = negsuc 0;
  last_chunk_received = negsuc 0;
}

unfoldable pub connect : Stream → List Effect × Bool
connect s =
    if not s.has_client
    then ([], false)
    else if equal s.target s.client_jid
    then ([], true)
    else (send_set s.target (open_request s.sid (pos s.block_size)) ibb_open ∷ [], true)

-- `closed()`, by the remote entity.
unfoldable pub closed : Stream → Stream × List Effect
closed s =
    if not s.is_open
    then (s, [])
    else (record s { is_open = false }, if s.has_handler then handle_close ∷ [] else [])

unfoldable pub handle_iq_id : Stream → IqType → IbbType → Stream × List Effect
unfolding closed
handle_iq_id s result ibb_open =
    if s.has_handler then (record s { is_open = true }, handle_open ∷ []) else (s, [])
handle_iq_id s result ibb_data = if s.has_handler then (s, handle_data_ack ∷ []) else (s, [])
handle_iq_id s result ibb_close = (s, [])
handle_iq_id s result ibb_invalid = (s, [])
handle_iq_id s error context = closed s
handle_iq_id s get context = (s, [])
handle_iq_id s set context = (s, [])

-- What an operation of the receiving side returns.
pub record Handled : Type 0 where
  pub stream : Stream
  pub effects : List Effect
  pub taken : Bool

abbrev pub refuse : Stream → Handled
refuse s = record { stream = s; effects = []; taken = false }

-- A request while the stream is not open.
unfoldable pub handle_first : Stream → Iq → Ibb → Handled
handle_first s iq i =
    if is_ibb_open i.type_of
    then record {
      stream = record s { is_open = true };
      effects = send_result iq.from iq.id ∷ handle_open ∷ [];
      taken = true;
    }
    else refuse s

-- A numbered packet while it is open.
unfoldable pub handle_packet : Stream → Iq → Ibb → Handled
handle_packet s iq i =
    let next = increment s.last_chunk_received in
    if not (eq_ℤ next i.seq)
    then record {
      stream = record s { is_open = false; last_chunk_received = next };
      effects = send_error iq.from iq.id item_not_found ∷ [];
      taken = false;
    }
    else if is_empty i.payload
    then record {
      stream = record s { is_open = false; last_chunk_received = wrap next };
      effects = send_error iq.from iq.id bad_request ∷ [];
      taken = false;
    }
    else record {
      stream = record s { last_chunk_received = wrap next };
      effects = send_result iq.from iq.id ∷ handle_data i.payload ∷ [];
      taken = true;
    }

unfoldable pub handle_ibb : Stream → Iq → Ibb → Handled
unfolding handle_first handle_packet closed
handle_ibb s iq i =
    if not s.has_handler || not (is_set iq.subtype) || not (equal i.sid s.sid)
    then refuse s
    else if not s.is_open
    then handle_first s iq i
    else if is_ibb_close i.type_of
    then record {
      stream = (closed s).0;
      effects = send_result iq.from iq.id ∷ (closed s).1;
      taken = true;
    }
    else handle_packet s iq i

-- `handleIq`.
unfoldable pub handle_iq : Stream → Iq → Handled
unfolding handle_ibb
handle_iq s iq = elim (iq.ibb) [ none ↦ refuse s | some i ↦ handle_ibb s iq i ]

-- `handleMessage`, from an address and with an extension.
unfoldable pub handle_message_ibb : Stream → Ibb → Stream × List Effect
handle_message_ibb s i =
    if not s.is_open
    then (s, [])
    else if not (eq_ℤ s.last_chunk_received i.seq) || is_empty i.payload
    then (record s { is_open = false }, [])
    else (
      record s { last_chunk_received = increment s.last_chunk_received },
      handle_data i.payload ∷ [],
    )

unfoldable pub handle_message : Stream → Bytes → Option Ibb → Stream × List Effect
unfolding handle_message_ibb
handle_message s from ibb =
    if not (equal from s.target) || not s.has_handler
    then (s, [])
    else elim ibb [ none ↦ (s, []) | some i ↦ handle_message_ibb s i ]

abbrev pub behind : Effect → Option (Stream × List Effect) → Option (Stream × List Effect)
behind e none = none
behind e (some (t, es)) = some (t, e ∷ es)

-- The loop of `send` on the bytes from `pos` on; `none` where the fuel does not last.
unfoldable pub send_from : ℕ → Bytes → Stream → Bytes → Option (Stream × List Effect)
send_from zero to s rest = none
send_from (suc n) to s rest =
    let seq = increment s.sequence in
    let packet = send_set to (data_packet s.sid seq (take s.block_size rest)) ibb_data in
    let t = record s { sequence = wrap seq } in
    let more = behind packet (send_from n to t (drop s.block_size rest)) in
    if is_empty (drop s.block_size rest) then some (t, packet ∷ []) else more

abbrev pub peer : Stream → Bytes
peer s = if equal s.client_jid s.target then s.initiator else s.target

abbrev pub sent : Option (Stream × List Effect) → Option (Stream × List Effect × Bool)
sent none = none
sent (some (t, es)) = some (t, es, true)

unfoldable pub send : Stream → Bytes → Option (Stream × List Effect × Bool)
unfolding send_from
send s bytes =
    if not s.is_open || not s.has_client
    then some (s, [], false)
    else sent (send_from (length bytes + 1) (peer s) s bytes)

unfoldable pub close : Stream → Stream × List Effect
close s = if not s.has_client then (record s { is_open = false }, []) else (
  record s { is_open = false },
  send_set s.target (close_request s.sid) ibb_close
      ∷ (if s.has_handler then handle_close ∷ [] else []),
)
