-- ===== src/HttpProxy.antt =====
-- Class `ConnectionHTTPProxy` of src/connectionhttpproxy.cpp: a connection through a proxy with CONNECT.
-- An operation returns the proxy and its calls in order, as in Socks5Proxy. What the connection below
-- answers is an argument: `accepts` for its `send`; it does not call back from within a call. `resolve`
-- is the first host that `DNS::resolve` gives for a name. Logging is left out. Data come from the
-- connection below, so that it is there when they are handled.
pub mod Answer
pub mod Throws
pub mod Tests
use gloox.Base.{
  ℕ, ◌-◌, Bool, true, false, not, ◌&&◌, ◌||◌, List, [], ◌∷◌, ◌++◌, Option, none, some,
  if◌then◌else◌, Bytes, codes, equal, is_empty, length, take, drop, ltb, ◌==◌,
}
use gloox.Base.Int.{ℤ, pos, negsuc}
use gloox.Base64.{encode64}
use gloox.Connection.{
  ConnectionState, ConnectionError, disconnected, connecting, connected, io_error,
  proxy_auth_required, proxy_auth_failed, not_connected,
}
use gloox.Socks5Proxy.{
  Call, lower_connect, lower_disconnect, lower_cleanup, lower_send, told_connect, told_disconnect,
  told_data,
}
use gloox.Util.Numbers.{long2string}

pub record HttpProxy : Type 0 where
  pub has_connection : Bool
  pub has_handler : Bool
  pub state : ConnectionState
  pub user : Bytes
  pub password : Bytes
  pub server : Bytes
  pub port : ℤ
  pub http11 : Bool
  pub handshake_buffer : Bytes

-- The constructors, with the server's name behind `prep::idna`. The second one does not set
-- `m_http11`, which then has any value.
abbrev pub new_http_proxy : Bool → Bool → Bytes → ℤ → Bool → HttpProxy
new_http_proxy has_handler has_connection server port http11 = record {
  has_connection = has_connection;
  has_handler = has_handler;
  state = disconnected;
  user = [];
  password = [];
  server = server;
  port = port;
  http11 = http11;
  handshake_buffer = [];
}

abbrev pub set_server : HttpProxy → Bytes → ℤ → HttpProxy
set_server p host port = record p { server = host; port = port }

abbrev pub set_proxy_auth : HttpProxy → Bytes → Bytes → HttpProxy
set_proxy_auth p user password = record p { user = user; password = password }

abbrev pub set_http11 : HttpProxy → Bool → HttpProxy
set_http11 p http11 = record p { http11 = http11 }

abbrev pub set_connection_impl : HttpProxy → Bool → HttpProxy
set_connection_impl p given = record p { has_connection = given }

-- `connect()`, where the connection below answers `answer` to its own.
unfoldable pub connect : ConnectionError → HttpProxy → HttpProxy × List Call × ConnectionError
connect answer p =
    if p.has_connection && p.has_handler
    then (record p { state = connecting }, lower_connect ∷ [], answer)
    else (p, [], not_connected)

unfoldable pub disconnect : HttpProxy → HttpProxy × List Call
disconnect p =
    (record p { state = disconnected }, if p.has_connection then lower_disconnect ∷ [] else [])

unfoldable pub cleanup : HttpProxy → HttpProxy × List Call
cleanup p = (record p { state = disconnected }, if p.has_connection then lower_cleanup ∷ [] else [])

unfoldable pub send : (Bytes → Bool) → HttpProxy → Bytes → List Call × Bool
send accepts p bytes =
    if p.has_connection then (lower_send bytes ∷ [], accepts bytes) else ([], false)

abbrev tell : HttpProxy → ConnectionError → List Call
tell p error = if p.has_handler then told_disconnect error ∷ [] else []

unfoldable pub handle_disconnect : HttpProxy → ConnectionError → HttpProxy × List Call
handle_disconnect p reason = (record p { state = disconnected }, tell p reason)

-- `!text.compare( at, length( part ), part )` for a place in the text.
unfoldable pub stands_at : ℕ → Bytes → Bytes → Bool
unfolding equal
stands_at at part text = equal (take (length part) (drop at text)) part

abbrev pub crlf : Bytes
crlf = 13 ∷ 10 ∷ []

-- The test whether the text is a whole header that opens the connection. The end is looked at only
-- behind a beginning of twelve bytes.
unfoldable pub opens : Bytes → Bool
unfolding stands_at
opens text =
    (stands_at 0 (codes "HTTP/1.0 200") text || stands_at 0 (codes "HTTP/1.1 200") text)
    && stands_at (length text - 4) (crlf ++ crlf) text

-- What is done with the bytes of the answer. `none`: `compare` throws, for a text of fewer than nine
-- bytes.
unfoldable pub answered : HttpProxy → Option (HttpProxy × List Call)
unfolding opens stands_at
answered p =
    if opens p.handshake_buffer
    then some (record p { state = connected; handshake_buffer = [] }, told_connect ∷ [])
    else if ltb (length p.handshake_buffer) 9
    then none
    else if stands_at 9 (codes "407") p.handshake_buffer
    then some (p, told_disconnect proxy_auth_required ∷ lower_disconnect ∷ [])
    else if stands_at 9 (codes "403") p.handshake_buffer
        || stands_at 9 (codes "404") p.handshake_buffer
    then some (p, told_disconnect proxy_auth_failed ∷ lower_disconnect ∷ [])
    else some (p, [])

abbrev pub buffered : HttpProxy → Bytes → HttpProxy
buffered p bytes = record p { handshake_buffer = p.handshake_buffer ++ bytes }

abbrev pub in_state : ConnectionState → HttpProxy → Bytes → Option (HttpProxy × List Call)
in_state disconnected p bytes = some (p, [])
in_state connecting p bytes = answered (buffered p bytes)
in_state connected p bytes = some (p, told_data bytes ∷ [])

unfoldable pub handle_received_data : HttpProxy → Bytes → Option (HttpProxy × List Call)
unfolding answered
handle_received_data p bytes = if not p.has_handler then some (p, []) else in_state p.state p bytes

-- The host that is asked for.
abbrev pub asked_host : (Bytes → Option (Bytes × ℤ)) → HttpProxy → Bytes × ℤ
asked_host resolve p = elim p.port [
  | pos n ↦ (p.server, pos n)
  | negsuc n ↦
      if n == 0
      then elim (resolve p.server) [ none ↦ (p.server, negsuc n) | some host ↦ host ]
      else (p.server, negsuc n)
]

abbrev pub authorization : HttpProxy → Bytes
authorization p =
    if not (is_empty p.user) && not (is_empty p.password)
    then codes "Proxy-Authorization: Basic " ++ (encode64 (p.user ++ (b':' ∷ p.password)) ++ crlf)
    else []

-- The message to the proxy for a host and a port.
unfoldable pub connect_request : HttpProxy → Bytes × ℤ → Bytes
unfolding long2string encode64
connect_request p host =
    codes "CONNECT "
    ++ host.0
    ++ b':' ∷ long2string host.1
    ++ codes " HTTP/1."
    ++ long2string (pos (if p.http11 then 1 else 0))
    ++ crlf
    ++ codes "Host: "
    ++ host.0
    ++ crlf
    ++ codes "Content-Length: 0"
    ++ crlf
    ++ codes "Proxy-Connection: Keep-Alive"
    ++ crlf
    ++ codes "Pragma: no-cache"
    ++ crlf
    ++ codes "User-Agent: gloox/1.1-svn"
    ++ crlf
    ++ authorization p
    ++ crlf

unfoldable pub handle_connect :
    (Bytes → Option (Bytes × ℤ)) → (Bytes → Bool) → HttpProxy → HttpProxy × List Call
unfolding connect_request
handle_connect resolve accepts p =
    let os = connect_request p (asked_host resolve p) in
    if not p.has_connection
    then (p, [])
    else if accepts os
    then (p, lower_send os ∷ [])
    else (record p { state = disconnected }, lower_send os ∷ tell p io_error)

abbrev pub after_calls : List Call → Option (HttpProxy × List Call) → Option (HttpProxy × List Call)
after_calls calls none = none
after_calls calls (some rest) = some (rest.0, calls ++ rest.1)

-- Pieces that arrive one after the other, with all the calls they make.
unfoldable pub run : HttpProxy → List Bytes → Option (HttpProxy × List Call)
unfolding handle_received_data
run p [] = some (p, [])
run p (piece ∷ pieces) = elim (handle_received_data p piece) [
  | none ↦ none
  | some step ↦ after_calls step.1 (run step.0 pieces)
]
