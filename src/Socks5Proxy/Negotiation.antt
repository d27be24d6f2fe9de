-- ===== src/Socks5Proxy/Negotiation.antt =====
-- `negotiate` and `handleReceivedData` of src/connectionsocks5proxy.cpp.
use gloox.Base.{
  ℕ, zero, suc, ◌/◌, ◌%◌, Bool, true, false, not, ◌&&◌, ◌||◌, List, [], ◌∷◌, ◌++◌, Option, none,
  some, if◌then◌else◌, Bytes, is_empty, length, get_or, ◌==◌, ltb,
}
use gloox.Base.Int.{ℤ, pos, negsuc}
use gloox.Connection.{
  ConnectionError, connected, no_error, io_error, connection_refused, proxy_auth_required,
  proxy_auth_failed, proxy_no_supported_auth, strncpy, word16, htons, atoi,
}
use gloox.Socks5Proxy.{
  Proxy, Call, Socks5State, s5_disconnected, s5_connecting, s5_negotiating, s5_authenticating,
  s5_connected, lower_disconnect, told_connect, told_data, tell, send_or_clean, has_auth,
  credentials,
}

-- `atoi( s ) & 0xFF`.
abbrev low_byte : ℤ → ℕ
low_byte z = word16 z % 256

-- The loop over the digits of an address, with `left` for `4 - l`; `s` is what stands since the last dot.
unfoldable pub address_loop : ℕ → Bytes → Bytes → Bytes
unfolding atoi
address_loop zero s rest = []
address_loop (suc left) s [] = []
address_loop (suc left) s (c ∷ cs) =
    let s2 = (if c == b'.' then s else s ++ (c ∷ [])) in
    let more = address_loop left [] cs in
    let on = address_loop (suc left) s2 cs in
    if c == b'.' || is_empty cs then low_byte (atoi s2) ∷ more else on

-- The port that is asked for: `m_port`, or that of the first host if it is -1 and the name is resolved.
unfoldable pub asked_port : (Bytes → Option ℤ) → Proxy → ℤ
asked_port resolve p = go p.port
  where
    go : ℤ → ℤ
    go (negsuc zero) =
        if p.ip then negsuc 0 else elim (resolve p.server) [ none ↦ negsuc 0 | some port ↦ port ]
    go (negsuc (suc n)) = negsuc (suc n)
    go (pos n) = pos n

-- The request that `negotiate` sends.
unfoldable pub request : (Bytes → Option ℤ) → Proxy → Bytes
unfolding address_loop asked_port htons strncpy
request resolve p =
    let nport = htons (word16 (asked_port resolve p)) in
    let address =
      (if p.ip
        then 1 ∷ address_loop 4 [] p.server
        else 3 ∷ length p.server % 256 ∷ strncpy p.server) in
    5 ∷ 1 ∷ 0 ∷ (address ++ (nport % 256 ∷ (nport / 256) % 256 ∷ []))

unfoldable pub negotiate : (Bytes → Option ℤ) → (Bytes → Bool) → Proxy → Proxy × List Call
unfolding request send_or_clean
negotiate resolve accepts p =
    send_or_clean accepts (record p { s5_state = s5_negotiating }) (request resolve p)

-- A step of the handshake: the proxy, its calls and `connError`.
pub record Reply : Type 0 where
  pub proxy : Proxy
  pub calls : List Call
  pub error : ConnectionError

abbrev pub replied : Proxy × List Call → ConnectionError → Reply
replied r error = record { proxy = r.0; calls = r.1; error = error }

-- `case S5StateNegotiating` on at least six bytes.
unfoldable pub take_reply : Proxy → Bytes → Reply
take_reply p buffer =
    if get_or buffer 0 0 == 5
    then (if get_or buffer 1 0 == 0
        then replied (record p { state = connected; s5_state = s5_connected }, told_connect ∷ [])
            no_error
        else replied (p, []) connection_refused)
    else replied (p, []) io_error

abbrev pub empty_buffer : Reply → Reply
empty_buffer r = record {
  proxy = record (r.proxy) { handshake_buffer = [] };
  calls = r.calls;
  error = r.error;
}

-- `if( connError != ConnNoError )` behind the switch.
abbrev pub is_error : ConnectionError → Bool
is_error e = elim e [ no_error ↦ false | _ ↦ true ]

unfoldable pub finish : Reply → Proxy × List Call
finish r =
    if is_error r.error
    then (r.proxy, r.calls ++ (lower_disconnect ∷ tell r.proxy r.error))
    else (r.proxy, r.calls)

-- A case that waits for `need` bytes in the buffer.
unfoldable pub with_bytes : ℕ → Proxy → (Proxy → Bytes → Reply) → Proxy × List Call
unfolding finish
with_bytes need p step =
    if ltb (length p.handshake_buffer) need
    then (p, [])
    else finish (empty_buffer (step p p.handshake_buffer))

abbrev pub buffered : Proxy → Bytes → Proxy
buffered p bytes = record p { handshake_buffer = p.handshake_buffer ++ bytes }

module _ (resolve : Bytes → Option ℤ) (accepts : Bytes → Bool) where
  -- `case S5StateConnecting` on a buffer of at least two bytes.
  unfoldable pub choose_method : Proxy → Bytes → Reply
  unfolding negotiate send_or_clean credentials
  choose_method p buffer =
      let error =
        (if not (length buffer == 2) || not (get_or buffer 0 0 == 5) then io_error else no_error) in
      let method = get_or buffer 1 0 in
      if method == 0
      then replied (negotiate resolve accepts p) error
      else if method == 2 && has_auth p
      then replied
          (send_or_clean accepts (record p { s5_state = s5_authenticating })
            (credentials p.user p.password))
          error
      else if method == 255 && has_auth p
      then replied (p, []) proxy_no_supported_auth
      else replied (p, []) proxy_auth_required

  -- `case S5StateAuthenticating` on at least two bytes.
  unfoldable pub take_status : Proxy → Bytes → Reply
  unfolding negotiate
  take_status p buffer =
      if length buffer == 2 && get_or buffer 0 0 == 1 && get_or buffer 1 0 == 0
      then replied (negotiate resolve accepts p) no_error
      else replied (p, []) proxy_auth_failed

  -- The switch.
  unfoldable pub in_state : Socks5State → Proxy → Bytes → Proxy × List Call
  unfolding with_bytes choose_method take_reply take_status
  in_state s5_connecting p bytes = with_bytes 2 (buffered p bytes) choose_method
  in_state s5_negotiating p bytes = with_bytes 6 (buffered p bytes) take_reply
  in_state s5_authenticating p bytes = with_bytes 2 (buffered p bytes) take_status
  in_state s5_connected p bytes = (p, told_data bytes ∷ [])
  in_state s5_disconnected p bytes = (buffered p bytes, [])

  unfoldable pub handle_received_data : Proxy → Bytes → Proxy × List Call
  unfolding in_state
  handle_received_data p bytes =
      if not p.has_connection || not p.has_handler then (p, []) else in_state p.s5_state p bytes
