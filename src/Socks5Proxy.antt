-- ===== src/Socks5Proxy.antt =====
-- Class `ConnectionSOCKS5Proxy` of src/connectionsocks5proxy.cpp: a connection through a proxy.
-- An operation returns the proxy and its calls in order: those of the connection below and those of
-- the handler above. What the connection below answers is an argument: `accepts` for its `send`,
-- `below` for its `state()`; it does not call back from within a call. `resolve` is the port of the
-- first host that `DNS::resolve` gives for a name. Logging is left out.
pub mod Negotiation
pub mod States
pub mod Server
pub mod Handshake
pub mod Pieces
pub mod Tests
use gloox.Base.{
  ℕ, zero, suc, ◌+◌, ◌/◌, ◌%◌, Bool, true, false, not, ◌&&◌, ◌||◌, List, [], ◌∷◌, ◌++◌, Option,
  none, some, if◌then◌else◌, Bytes, is_empty, length, get_or, ◌==◌, ltb,
}
use gloox.Base.Int.{ℤ, pos, negsuc}
use gloox.Connection.{
  ConnectionState, ConnectionError, disconnected, connecting, connected, no_error, io_error,
  connection_refused, proxy_auth_required, proxy_auth_failed, proxy_no_supported_auth,
  not_connected, strncpy,
}

-- `Socks5State`.
pub data Socks5State : Type 0 where
  s5_disconnected s5_connecting s5_negotiating s5_authenticating s5_connected : Socks5State

pub record Proxy : Type 0 where
  pub has_connection : Bool
  pub has_handler : Bool
  pub state : ConnectionState
  pub s5_state : Socks5State
  pub user : Bytes
  pub password : Bytes
  pub server : Bytes
  pub port : ℤ
  pub ip : Bool
  pub handshake_buffer : Bytes

pub data Call : Type 0 where
  -- calls of `m_connection`
  lower_connect lower_disconnect lower_cleanup : Call
  lower_send : Bytes → Call
  -- calls of `m_handler`
  told_connect : Call
  told_disconnect : ConnectionError → Call
  told_data : Bytes → Call

-- The constructors, with the server's name behind `prep::idna`.
abbrev pub new_proxy : Bool → Bool → Bytes → ℤ → Bool → Proxy
new_proxy has_handler has_connection server port ip = record {
  has_connection = has_connection;
  has_handler = has_handler;
  state = disconnected;
  s5_state = s5_disconnected;
  user = [];
  password = [];
  server = server;
  port = port;
  ip = ip;
  handshake_buffer = [];
}

abbrev pub set_server : Proxy → Bytes → ℤ → Bool → Proxy
set_server p host port ip = record p { server = host; port = port; ip = ip }

abbrev pub set_proxy_auth : Proxy → Bytes → Bytes → Proxy
set_proxy_auth p user password = record p { user = user; password = password }

abbrev pub set_connection_impl : Proxy → Bool → Proxy
set_connection_impl p given = record p { has_connection = given }

abbrev pub is_connected : ConnectionState → Bool
is_connected disconnected = false
is_connected connecting = false
is_connected connected = true

-- `connect()`, where the connection below answers `answer` to its own `connect()`.
unfoldable pub connect :
    ConnectionState → ConnectionError → Proxy → Proxy × List Call × ConnectionError
connect below answer p =
    if p.has_connection && is_connected below && p.has_handler
    then (record p { state = connected; s5_state = s5_connected }, [], no_error)
    else if p.has_connection && p.has_handler
    then (record p { state = connecting; s5_state = s5_connecting }, lower_connect ∷ [], answer)
    else (p, [], not_connected)

unfoldable pub cleanup : Proxy → Proxy × List Call
cleanup p = (
  record p { state = disconnected; s5_state = s5_disconnected },
  if p.has_connection then lower_cleanup ∷ [] else [],
)

unfoldable pub disconnect : Proxy → Proxy × List Call
unfolding cleanup
disconnect p =
    ((cleanup p).0, (if p.has_connection then lower_disconnect ∷ [] else []) ++ (cleanup p).1)

unfoldable pub send : (Bytes → Bool) → Proxy → Bytes → List Call × Bool
send accepts p bytes =
    if p.has_connection then (lower_send bytes ∷ [], accepts bytes) else ([], false)

-- `if( m_handler ) m_handler->handleDisconnect( this, error )`.
abbrev pub tell : Proxy → ConnectionError → List Call
tell p error = if p.has_handler then told_disconnect error ∷ [] else []

-- `if( !send( data ) ) { cleanup(); m_handler->handleDisconnect( this, ConnIoError ); }`.
unfoldable pub send_or_clean : (Bytes → Bool) → Proxy → Bytes → Proxy × List Call
unfolding send cleanup
send_or_clean accepts p bytes =
    if (send accepts p bytes).1
    then (p, (send accepts p bytes).0)
    else ((cleanup p).0, (send accepts p bytes).0 ++ ((cleanup p).1 ++ tell p io_error))

-- `handleDisconnect`.
unfoldable pub handle_disconnect : Proxy → ConnectionError → Proxy × List Call
unfolding cleanup
handle_disconnect p reason = ((cleanup p).0, (cleanup p).1 ++ tell p reason)

abbrev pub has_auth : Proxy → Bool
has_auth p = not (is_empty p.user) && not (is_empty p.password)

abbrev pub greeting : Proxy → Bytes
greeting p = if has_auth p then 5 ∷ 2 ∷ 0 ∷ 2 ∷ [] else 5 ∷ 1 ∷ 0 ∷ []

-- `handleConnect`: the connection below is up.
unfoldable pub handle_connect : (Bytes → Bool) → Proxy → Proxy × List Call
unfolding send_or_clean
handle_connect accepts p =
    if p.has_connection then send_or_clean accepts p (greeting p) else (p, [])

-- The message with the user's name and password.
unfoldable pub credentials : Bytes → Bytes → Bytes
unfolding strncpy
credentials user password =
    1 ∷ length user % 256 ∷ (strncpy user ++ (length password % 256 ∷ strncpy password))
