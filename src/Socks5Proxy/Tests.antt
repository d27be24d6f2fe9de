-- ===== src/Socks5Proxy/Tests.antt =====
-- The theorems of the SOCKS5 proxy on a proxy for a server with a name.
use gloox.Base.{◌≡◌, refl, Bool, true, false, Option, none, some, [], ◌∷◌, Bytes, codes, arith}
use gloox.Base.Int.{ℤ, pos}
use gloox.Connection.{disconnected, io_error, no_error, proxy_auth_required}
use gloox.Socks5Proxy.{
  Proxy, new_proxy, connect, handle_connect, handle_disconnect, lower_disconnect, told_disconnect,
  told_data, s5_negotiating,
}
use gloox.Socks5Proxy.Negotiation.{request, asked_port, handle_received_data}
use gloox.Socks5Proxy.States.{IsAgreed, here, next, connects, is_up, receives, Reach-IsAgreed}
use gloox.Socks5Proxy.Server.{read_request, by_name, Policy, fresh}
use gloox.Socks5Proxy.Handshake.{
  Fits, Satisfies, begun, exchange, Connects, read_request-request, exchange-Connects,
}
use gloox.Socks5Proxy.Pieces.{handle_received_data-append}

abbrev unresolved : Bytes → Option ℤ
unresolved name = none

abbrev accepting : Bytes → Bool
accepting bytes = true

abbrev host : Bytes
host = codes "example.org"

abbrev proxy : Proxy
proxy = new_proxy true true host (pos 5222) false

abbrev policy : Policy
policy = record { needs_credentials = true; user = codes "me"; password = codes "pw" }

Reach-IsAgreed_example :
    IsAgreed
      (handle_received_data unresolved accepting
        (handle_connect accepting (connect disconnected no_error proxy).0).0
        (5 ∷ 0 ∷ [])).0
Reach-IsAgreed_example = Reach-IsAgreed refl (
    next
      (next (next here (connects disconnected no_error proxy))
        (is_up accepting (connect disconnected no_error proxy).0))
      (receives unresolved accepting (5 ∷ 0 ∷ [])
        (handle_connect accepting (connect disconnected no_error proxy).0).0))

host-Fits : Fits host
host-Fits = record { short = omega arith; no_zero = ground arith }

read_request-request_example : read_request (request unresolved proxy) ≡ some (by_name host 5222)
unfolding asked_port
read_request-request_example =
    read_request-request unresolved proxy 5222 refl host-Fits refl (omega arith)

satisfied : Satisfies (codes "me") (codes "pw") policy
satisfied = record {
  same_user = refl;
  same_password = refl;
  user_fits = record { short = omega arith; no_zero = ground arith };
  password_fits = record { short = omega arith; no_zero = ground arith };
  has_user = refl;
  has_password = refl;
}

exchange-Connects_example : Connects unresolved host 5222 (codes "me") (codes "pw") policy (
    exchange unresolved policy 3 fresh
      (handle_connect (λ bytes. true) (begun host 5222 (codes "me") (codes "pw"))))
exchange-Connects_example =
    exchange-Connects unresolved host 5222 (codes "me") (codes "pw") policy host-Fits (omega arith)
      (λ e. satisfied)

abbrev negotiating : Proxy
negotiating = record proxy { s5_state = s5_negotiating }

handle_received_data-append_example :
    ((handle_received_data unresolved accepting negotiating (5 ∷ 0 ∷ [])).1 ≡ [])
    × (handle_received_data unresolved accepting
          (handle_received_data unresolved accepting negotiating (5 ∷ 0 ∷ [])).0
          (0 ∷ 1 ∷ 0 ∷ 0 ∷ [])
        ≡ handle_received_data unresolved accepting negotiating (5 ∷ 0 ∷ 0 ∷ 1 ∷ 0 ∷ 0 ∷ []))
handle_received_data-append_example =
    handle_received_data-append unresolved accepting negotiating (5 ∷ 0 ∷ []) (0 ∷ 1 ∷ 0 ∷ 0 ∷ [])
      (omega arith)

-- An address in digits.
address_request :
    request unresolved (new_proxy true true (codes "192.168.1.20") (pos 258) true)
    ≡ 5 ∷ 1 ∷ 0 ∷ 1 ∷ 192 ∷ 168 ∷ 1 ∷ 20 ∷ 1 ∷ 2 ∷ []
unfolding request
address_request = refl

-- The end of a reply that is cut behind its sixth byte is handed on as data.
reply_leaks :
    (handle_received_data unresolved accepting
      (handle_received_data unresolved accepting negotiating (5 ∷ 0 ∷ 0 ∷ 1 ∷ 0 ∷ 0 ∷ [])).0
      (0 ∷ 0 ∷ 0 ∷ 0 ∷ [])).1
    ≡ told_data (0 ∷ 0 ∷ 0 ∷ 0 ∷ []) ∷ []
unfolding handle_received_data
reply_leaks = refl

-- What a disconnect leaves in the buffer spoils the next handshake.
buffer_stays :
    (handle_received_data unresolved accepting
      (connect disconnected no_error
        (handle_disconnect
          (handle_received_data unresolved accepting
            (connect disconnected no_error proxy).0
            (5 ∷ [])).0
          io_error).0).0
      (5 ∷ 0 ∷ [])).1
    ≡ lower_disconnect ∷ told_disconnect proxy_auth_required ∷ []
unfolding handle_received_data connect handle_disconnect
buffer_stays = refl
