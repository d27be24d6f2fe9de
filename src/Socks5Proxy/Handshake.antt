-- ===== src/Socks5Proxy/Handshake.antt =====
-- The handshake: a proxy and a server that answer each other.
use gloox.Base.{
  ℕ, zero, suc, ◌+◌, ◌*◌, ◌/◌, ◌%◌, ◌<◌, ◌≡◌, refl, sym, ap, ◌∙◌, true, false, List, [], ◌∷◌, ◌++◌,
  append-nil, Option, some, if◌then◌else◌, Bytes, is_empty, equal_refl, length, take, drop, arith,
  Bool-cases, inl, inr, All, ◌==◌, ==_iff,
}
use gloox.Base.Int.{ℤ, pos}
use gloox.Connection.{disconnected, connected, no_error, strncpy, htons}
use gloox.Socks5Proxy.{
  Proxy, Call, s5_connected, s5_negotiating, s5_connecting, s5_authenticating, Socks5State,
  lower_send, told_connect, new_proxy, set_proxy_auth, connect, handle_connect, has_auth, greeting,
  credentials,
}
use gloox.Socks5Proxy.Negotiation.{request, asked_port, negotiate, handle_received_data}
use gloox.Socks5Proxy.Server.{
  read_field, read_methods, read_credentials, read_target, read_request, by_name, Stage, fresh,
  linked, Policy, serve, wants_request, wants_credentials,
}

take-append {ℓ} : {A : Type ℓ} (xs ys : List A) → take (length xs) (xs ++ ys) ≡ xs
take-append [] ys = refl
take-append (x ∷ xs) ys = ap (◌∷◌ x) (take-append xs ys)

drop-append {ℓ} : {A : Type ℓ} (xs ys : List A) → drop (length xs) (xs ++ ys) ≡ ys
drop-append [] ys = refl
drop-append (x ∷ xs) ys = drop-append xs ys

==_refl : (n : ℕ) → (n == n) ≡ true
==_refl n = (==_iff n n).1 refl

-- A text that fits into a field: at most 255 bytes, none of them zero.
pub record Fits (s : Bytes) : Type 0 where
  pub short : length s < 256
  pub no_zero : All (λ c. 0 < c) s

strncpy-id : (s : Bytes) → All (λ c. 0 < c) s → strncpy s ≡ s
unfolding strncpy
strncpy-id [] h = refl
strncpy-id (c ∷ cs) h = elim (Bool-cases (c == 0)) [
  | inl e ↦ absurd (omega (arith, (==_iff c 0).0 e, h.0))
  | inr e ↦ rw e (ap (◌∷◌ c) (strncpy-id cs h.1))
]

read_field-field :
    (s t : Bytes) → Fits s → read_field (length s % 256 ∷ (strncpy s ++ t)) ≡ some (s, t)
unfolding read_field
read_field-field s t h =
    rw (strncpy-id s h.no_zero, small, take-append s t, drop-append s t, ==_refl (length s)) refl
  where
    small : length s % 256 ≡ length s
    small = omega (arith, h.short)

-- The message with the credentials is read back as RFC 1929 has it.
read_credentials-credentials :
    (user password : Bytes)
    → Fits user
    → Fits password
    → read_credentials (credentials user password) ≡ some (user, password)
unfolding read_credentials credentials
read_credentials-credentials user password h k =
    rw
      (
        read_field-field user (length password % 256 ∷ strncpy password) h,
        sym (append-nil (strncpy password)),
        read_field-field password [] k,
      )
      refl

abbrev port_bytes : ℕ → Bytes
port_bytes nport = nport % 256 ∷ (nport / 256) % 256 ∷ []

htons_bytes :
    (n : ℕ) → n < 65536 → (htons (n % 65536) % 256) * 256 + (htons (n % 65536) / 256) % 256 ≡ n
unfolding htons
htons_bytes n h = omega arith

-- The request is read as RFC 1928 has it: a server's name that fits into a field, and a port below 65536.
pub read_request-request :
    (resolve : Bytes → Option ℤ) (p : Proxy) (n : ℕ)
    → p.ip ≡ false
    → Fits p.server
    → asked_port resolve p ≡ pos n
    → n < 65536
    → read_request (request resolve p) ≡ some (by_name p.server n)
unfolding read_request request read_target
read_request-request resolve p n e h a l =
    simp (e, a, read_field-field p.server (port_bytes (htons (n % 65536))) h, htons_bytes n l)

-- The proxy and the server, each with what it has to answer, for a number of messages of the proxy.
unfoldable pub exchange :
    (Bytes → Option ℤ) → Policy → ℕ → Stage → Proxy × List Call → Stage × Proxy × List Call
exchange resolve policy zero stage (p, calls) = (stage, p, calls)
exchange resolve policy (suc n) stage (p, lower_send message ∷ []) =
    let answer = serve policy stage message in
    exchange resolve policy n answer.0 (handle_received_data resolve (λ bytes. true) p answer.1)
exchange resolve policy (suc n) stage (p, calls) = (stage, p, calls)

-- What the server demands is what the proxy has been given.
pub record Satisfies (user password : Bytes) (policy : Policy) : Type 0 where
  pub same_user : policy.user ≡ user
  pub same_password : policy.password ≡ password
  pub user_fits : Fits user
  pub password_fits : Fits password
  pub has_user : is_empty user ≡ false
  pub has_password : is_empty password ≡ false

-- A new proxy whose connection has come up.
unfoldable pub begun : Bytes → ℕ → Bytes → Bytes → Proxy
unfolding connect
begun server n user password =
    (connect disconnected no_error
      (set_proxy_auth (new_proxy true true server (pos n) false) user password)).0

unfoldable pub done : Bytes → ℕ → Bytes → Bytes → Proxy
unfolding begun
done server n user password = record (begun server n user password) {
  state = connected;
  s5_state = s5_connected;
}

read_methods-greeting :
    (p : Proxy) → read_methods (greeting p) ≡ some (if has_auth p then 0 ∷ 2 ∷ [] else 0 ∷ [])
unfolding read_methods read_field
read_methods-greeting p = elim (Bool-cases (has_auth p)) [ inl e ↦ rw e refl | inr e ↦ rw e refl ]

module _ (resolve : Bytes → Option ℤ) (server : Bytes) (n : ℕ) (user password : Bytes)
    (policy : Policy) where
  -- The proxy is connected to the server, which is linked to what the proxy asked for.
  abbrev pub Connects : Stage × Proxy × List Call → Type 0
  Connects r = r ≡ (linked (by_name server n), done server n user password, told_connect ∷ [])

  abbrev ready : Socks5State → Proxy
  unfolding begun
  ready s = record (begun server n user password) { s5_state = s }

  exchange-done :
      (k : ℕ)
      → Connects (
          exchange resolve policy k
            (linked (by_name server n))
            (done server n user password, told_connect ∷ []))
  unfolding exchange
  exchange-done zero = refl
  exchange-done (suc k) = refl

  exchange-answer :
      (k : ℕ) (stage : Stage) (p : Proxy) (message : Bytes) (stage2 : Stage) (answer : Bytes)
      → serve policy stage message ≡ (stage2, answer)
      → exchange resolve policy (suc k) stage (p, lower_send message ∷ [])
        ≡ exchange resolve policy k stage2 (handle_received_data resolve (λ bytes. true) p answer)
  unfolding exchange
  exchange-answer k stage p message stage2 answer e = rw e refl

  serve-credentials :
      Satisfies user password policy
      → serve policy wants_credentials (credentials user password) ≡ (wants_request, 1 ∷ 0 ∷ [])
  unfolding serve
  serve-credentials c =
      rw
        (
          read_credentials-credentials user password c.user_fits c.password_fits,
          c.same_user,
          c.same_password,
          equal_refl user,
          equal_refl password,
        )
        refl

  serve-greeting-none :
      (p : Proxy)
      → policy.needs_credentials ≡ false
      → serve policy fresh (greeting p) ≡ (wants_request, 5 ∷ 0 ∷ [])
  unfolding serve
  serve-greeting-none p e =
      rw (read_methods-greeting p, e)
        (elim (Bool-cases (has_auth p)) [ inl f ↦ rw f refl | inr f ↦ rw f refl ])

  serve-greeting-auth :
      (p : Proxy)
      → policy.needs_credentials ≡ true
      → has_auth p ≡ true
      → serve policy fresh (greeting p) ≡ (wants_credentials, 5 ∷ 2 ∷ [])
  unfolding serve
  serve-greeting-auth p e f = rw (read_methods-greeting p, e, f) refl

  module _ (h : Fits server) (l : n < 65536) where
    -- The last two messages: the request, and the reply to it.
    exchange-request :
        (k : ℕ)
        → Connects (
            exchange resolve policy
              (suc k)
              wants_request
              (negotiate resolve (λ bytes. true) (ready s5_connecting)))
    unfolding exchange serve handle_received_data negotiate begun done
    exchange-request k =
        rw (read_request-request resolve (ready s5_negotiating) n refl h refl l) (exchange-done k)

    exchange-credentials :
        (k : ℕ)
        → Satisfies user password policy
        → Connects (
            exchange resolve policy
              (suc (suc k))
              wants_credentials
              (ready s5_authenticating, lower_send (credentials user password) ∷ []))
    unfolding handle_received_data begun
    exchange-credentials k c =
        exchange-answer (suc k) wants_credentials (ready s5_authenticating)
          (credentials user password) wants_request (1 ∷ 0 ∷ []) (serve-credentials c)
        ∙ exchange-request k

    -- A proxy and a server that follows RFC 1928 come to terms: if the server demands no credentials, or
    -- those that the proxy has been given, then within three messages of the proxy the server is linked
    -- to the name and port that the proxy was made for, and the proxy is connected and has told its
    -- handler. The name is of at most 255 bytes without a zero, the port below 65536.
    pub exchange-Connects :
        (policy.needs_credentials ≡ true → Satisfies user password policy)
        → Connects (
            exchange resolve policy 3 fresh
              (handle_connect (λ bytes. true) (begun server n user password)))
    unfolding handle_connect begun handle_received_data
    exchange-Connects c = elim (Bool-cases policy.needs_credentials) [
      | inl e ↦
          let s = c e in
          let auth : has_auth (ready s5_connecting) ≡ true = simp (s.has_user, s.has_password) in
          exchange-answer 2 fresh (ready s5_connecting) (greeting (ready s5_connecting))
            wants_credentials (5 ∷ 2 ∷ []) (serve-greeting-auth (ready s5_connecting) e auth)
          ∙ rw auth (exchange-credentials 0 s)
      | inr e ↦
          exchange-answer 2 fresh (ready s5_connecting) (greeting (ready s5_connecting))
            wants_request (5 ∷ 0 ∷ []) (serve-greeting-none (ready s5_connecting) e)
          ∙ exchange-request 1
    ]
