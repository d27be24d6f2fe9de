-- ===== src/HttpProxy/Tests.antt =====
-- The theorems of HttpProxy on concrete data.
use gloox.Base.{◌≡◌, refl, true, false, [], ◌∷◌, ◌++◌, none, some, codes}
use gloox.Base.Int.{pos}
use gloox.Connection.{proxy_auth_required}
use gloox.Socks5Proxy.{lower_disconnect, lower_send, told_connect, told_disconnect, told_data}
use gloox.HttpProxy.{
  HttpProxy, new_http_proxy, crlf, opens, handle_received_data, handle_connect, run,
}
use gloox.HttpProxy.Answer.{waiting, established, run-Connects}

abbrev proxy : HttpProxy
proxy = new_http_proxy true true (codes "host") (pos 5222) false

run-Connects_example :
    run (waiting proxy []) ((codes "HTTP/1.0 200 OK") ∷ crlf ∷ crlf ∷ (codes "<a/>") ∷ [])
    ≡ some (established proxy, told_connect ∷ told_data (codes "<a/>") ∷ [])
unfolding opens
run-Connects_example =
    run-Connects proxy false (codes " OK") (crlf ∷ []) crlf (codes " OK") (codes "<a/>" ∷ []) refl
      refl

-- A refusal.
refused_data :
    handle_received_data (waiting proxy []) (codes "HTTP/1.1 407 Authentication")
    ≡ some (
      waiting proxy (codes "HTTP/1.1 407 Authentication"),
      told_disconnect proxy_auth_required ∷ lower_disconnect ∷ [],
    )
unfolding handle_received_data
refused_data = refl

short_data : handle_received_data (waiting proxy []) (codes "HTTP/1.0") ≡ none
unfolding handle_received_data
short_data = refl

-- The request, with a name and a password.
sent_request :
    (handle_connect
      (λ name. none)
      (λ bytes. true)
      (record (waiting proxy []) { user = codes "me"; password = codes "pw" })).1
    ≡ lower_send (
        codes "CONNECT host:5222 HTTP/1.0"
        ++ crlf
        ++ codes "Host: host"
        ++ crlf
        ++ codes "Content-Length: 0"
        ++ crlf
        ++ codes "Proxy-Connection: Keep-Alive"
        ++ crlf
        ++ codes "Pragma: no-cache"
        ++ crlf
        ++ codes "User-Agent: gloox/1.1-svn"
        ++ crlf
        ++ codes "Proxy-Authorization: Basic bWU6cHc="
        ++ crlf
        ++ crlf)
      ∷ []
unfolding handle_connect gloox.Util.Numbers.digits_onto
sent_request = refl
