-- ===== src/Socks5Proxy/States.antt =====
-- The two states that a proxy keeps, over every run of its operations.
use gloox.Base.{
  ℕ, ◌≡◌, refl, ◌∙◌, Bool, true, false, ◌&&◌, List, [], ◌∷◌, ◌++◌, Option, if◌then◌else◌, Bytes,
  Bool-cases, inl, inr,
}
use gloox.Base.Int.{ℤ}
use gloox.Connection.{
  ConnectionState, ConnectionError, disconnected, connecting, connected, no_error, io_error,
  connection_refused,
}
use gloox.Socks5Proxy.{
  Proxy, Call, Socks5State, s5_disconnected, s5_connecting, s5_negotiating, s5_authenticating,
  s5_connected, told_connect, set_server, set_proxy_auth, set_connection_impl, connect, disconnect,
  cleanup, send_or_clean, handle_connect, handle_disconnect, is_connected, credentials,
}
use gloox.Socks5Proxy.Negotiation.{
  negotiate, Reply, replied, choose_method, take_reply, take_status, finish, with_bytes, buffered,
  in_state, handle_received_data, empty_buffer,
}

-- The state that a proxy shows in each state of its handshake.
abbrev pub shown : Socks5State → ConnectionState
shown s5_disconnected = disconnected
shown s5_connecting = connecting
shown s5_negotiating = connecting
shown s5_authenticating = connecting
shown s5_connected = connected

abbrev pub IsAgreed : Proxy → Type 0
IsAgreed p = p.state ≡ shown p.s5_state

-- A call of the proxy, by its owner or by the connection below.
pub data Step : Proxy → Proxy → Type 0 where
  connects :
      (below : ConnectionState) (answer : ConnectionError) (p : Proxy)
      → Step p (connect below answer p).0
  disconnects : (p : Proxy) → Step p (disconnect p).0
  cleans : (p : Proxy) → Step p (cleanup p).0
  is_up : (accepts : Bytes → Bool) (p : Proxy) → Step p (handle_connect accepts p).0
  is_down : (reason : ConnectionError) (p : Proxy) → Step p (handle_disconnect p reason).0
  receives :
      (resolve : Bytes → Option ℤ) (accepts : Bytes → Bool) (bytes : Bytes) (p : Proxy)
      → Step p (handle_received_data resolve accepts p bytes).0
  sets_server :
      (host : Bytes) (port : ℤ) (ip : Bool) (p : Proxy) → Step p (set_server p host port ip)
  sets_auth : (user password : Bytes) (p : Proxy) → Step p (set_proxy_auth p user password)
  sets_connection : (given : Bool) (p : Proxy) → Step p (set_connection_impl p given)

pub data Reach (p : Proxy) : Proxy → Type 0 where
  here : Reach p p
  next : {q r : Proxy} → Reach p q → Step q r → Reach p r

cleanup-IsAgreed : (p : Proxy) → IsAgreed (cleanup p).0
unfolding cleanup
cleanup-IsAgreed p = refl

if-IsAgreed :
    (b : Bool) (r t : Proxy × List Call)
    → IsAgreed r.0
    → IsAgreed t.0
    → IsAgreed (if b then r else t).0
if-IsAgreed true r t h k = h
if-IsAgreed false r t h k = k

connect-IsAgreed :
    (below : ConnectionState) (answer : ConnectionError) (p : Proxy)
    → IsAgreed p
    → IsAgreed (connect below answer p).0
unfolding connect
connect-IsAgreed below answer p h =
    elim (Bool-cases (p.has_connection && is_connected below && p.has_handler)) [
      | inl e ↦ rw e refl
      | inr e ↦ rw e (elim (Bool-cases (p.has_connection && p.has_handler)) [
        | inl f ↦ rw f refl
        | inr f ↦ rw f h
      ])
    ]

send_or_clean-IsAgreed :
    (accepts : Bytes → Bool) (p : Proxy) (bytes : Bytes)
    → IsAgreed p
    → IsAgreed (send_or_clean accepts p bytes).0
unfolding send_or_clean
send_or_clean-IsAgreed accepts p bytes h = if-IsAgreed _ _ _ h (cleanup-IsAgreed p)

handle_connect-IsAgreed :
    (accepts : Bytes → Bool) (p : Proxy) → IsAgreed p → IsAgreed (handle_connect accepts p).0
unfolding handle_connect
handle_connect-IsAgreed accepts p h = if-IsAgreed _ _ _ (send_or_clean-IsAgreed accepts p _ h) h

finish-IsAgreed : (r : Reply) → IsAgreed r.proxy → IsAgreed (finish r).0
unfolding finish
finish-IsAgreed r h = if-IsAgreed _ _ _ h h

IsAgreedReply : Reply → Type 0
IsAgreedReply r = IsAgreed r.proxy

replied-IsAgreedReply :
    (r : Proxy × List Call) (e : ConnectionError) → IsAgreed r.0 → IsAgreedReply (replied r e)
unfolding IsAgreedReply
replied-IsAgreedReply r e h = h

if-IsAgreedReply :
    (b : Bool) (r t : Reply)
    → IsAgreedReply r
    → IsAgreedReply t
    → IsAgreedReply (if b then r else t)
if-IsAgreedReply true r t h k = h
if-IsAgreedReply false r t h k = k

with_bytes-IsAgreed :
    (need : ℕ) (p : Proxy) (step : Proxy → Bytes → Reply)
    → IsAgreed p
    → IsAgreedReply (step p p.handshake_buffer)
    → IsAgreed (with_bytes need p step).0
unfolding with_bytes IsAgreedReply
with_bytes-IsAgreed need p step h k =
    if-IsAgreed _ _ _ h (finish-IsAgreed (empty_buffer (step p p.handshake_buffer)) k)

kept-IsAgreedReply :
    (p : Proxy) (e : ConnectionError) → IsAgreed p → IsAgreedReply (replied (p, []) e)
unfolding IsAgreedReply
kept-IsAgreedReply p e h = h

ruleset replies = (if-IsAgreedReply, replied-IsAgreedReply, kept-IsAgreedReply)

take_reply-IsAgreed : (p : Proxy) (b : Bytes) → IsAgreed p → IsAgreedReply (take_reply p b)
unfolding take_reply
take_reply-IsAgreed p b a =
    if-IsAgreedReply _ _ _
      (if-IsAgreedReply _ _ _
        (replied-IsAgreedReply
          (record p { state = connected; s5_state = s5_connected }, told_connect ∷ []) no_error
          refl)
        (kept-IsAgreedReply p connection_refused a))
      (kept-IsAgreedReply p io_error a)

module _ (resolve : Bytes → Option ℤ) (accepts : Bytes → Bool) where
  negotiate-IsAgreed : (p : Proxy) → p.state ≡ connecting → IsAgreed (negotiate resolve accepts p).0
  unfolding negotiate
  negotiate-IsAgreed p h =
      send_or_clean-IsAgreed accepts (record p { s5_state = s5_negotiating }) _ h

  choose_method-IsAgreed :
      (p : Proxy) (b : Bytes)
      → IsAgreed p
      → p.state ≡ connecting
      → IsAgreedReply (choose_method resolve accepts p b)
  unfolding choose_method
  choose_method-IsAgreed p b a h =
      search
        (
          replies,
          negotiate-IsAgreed p h,
          send_or_clean-IsAgreed accepts (record p { s5_state = s5_authenticating })
              (credentials p.user p.password) h,
          a,
        )
        depth 12

  take_status-IsAgreed :
      (p : Proxy) (b : Bytes)
      → IsAgreed p
      → p.state ≡ connecting
      → IsAgreedReply (take_status resolve accepts p b)
  unfolding take_status
  take_status-IsAgreed p b a h = search (replies, negotiate-IsAgreed p h, a) depth 12

  in_state-IsAgreed :
      (s : Socks5State) (p : Proxy) (bytes : Bytes)
      → p.s5_state ≡ s
      → IsAgreed p
      → IsAgreed (in_state resolve accepts s p bytes).0
  unfolding in_state
  in_state-IsAgreed s5_disconnected p bytes e a = a
  in_state-IsAgreed s5_connected p bytes e a = a
  in_state-IsAgreed s5_connecting p bytes e a =
      with_bytes-IsAgreed 2 (buffered p bytes) (choose_method resolve accepts) a
        (choose_method-IsAgreed (buffered p bytes) (p.handshake_buffer ++ bytes) a (a ∙ rw e refl))
  in_state-IsAgreed s5_negotiating p bytes e a =
      with_bytes-IsAgreed 6 (buffered p bytes) (take_reply) a
        (take_reply-IsAgreed (buffered p bytes) (p.handshake_buffer ++ bytes) a)
  in_state-IsAgreed s5_authenticating p bytes e a =
      with_bytes-IsAgreed 2 (buffered p bytes) (take_status resolve accepts) a
        (take_status-IsAgreed (buffered p bytes) (p.handshake_buffer ++ bytes) a (a ∙ rw e refl))

  handle_received_data-IsAgreed :
      (p : Proxy) (bytes : Bytes)
      → IsAgreed p
      → IsAgreed (handle_received_data resolve accepts p bytes).0
  unfolding handle_received_data
  handle_received_data-IsAgreed p bytes a =
      if-IsAgreed _ _ _ a (in_state-IsAgreed p.s5_state p bytes refl a)

Step-IsAgreed : {p q : Proxy} → Step p q → IsAgreed p → IsAgreed q
unfolding disconnect handle_disconnect
Step-IsAgreed (connects below answer p) a = connect-IsAgreed below answer p a
Step-IsAgreed (disconnects p) a = cleanup-IsAgreed p
Step-IsAgreed (cleans p) a = cleanup-IsAgreed p
Step-IsAgreed (is_up accepts p) a = handle_connect-IsAgreed accepts p a
Step-IsAgreed (is_down reason p) a = cleanup-IsAgreed p
Step-IsAgreed (receives resolve accepts bytes p) a =
    handle_received_data-IsAgreed resolve accepts p bytes a
Step-IsAgreed (sets_server host port ip p) a = a
Step-IsAgreed (sets_auth user password p) a = a
Step-IsAgreed (sets_connection given p) a = a

-- After every sequence of calls, whatever arrives and whatever the connection below answers, a proxy
-- that began as new shows the state of its handshake: connected just if the handshake is over, and
-- disconnected just if there is none.
pub Reach-IsAgreed : {p q : Proxy} → IsAgreed p → Reach p q → IsAgreed q
Reach-IsAgreed a here = a
Reach-IsAgreed a (next r step) = Step-IsAgreed step (Reach-IsAgreed a r)
