-- ===== src/Socks5Proxy/Server.antt =====
-- A SOCKS5 server as RFC 1928 and RFC 1929 describe it, as far as a client can tell: what it reads in a
-- client's messages and what it answers. This is the other end of the proxy's handshake, and the
-- measure for its messages.
use gloox.Base.{
  ℕ, ◌+◌, ◌*◌, Bool, false, ◌&&◌, ◌||◌, [], ◌∷◌, Option, none, some, if◌then◌else◌, Bytes, is_empty,
  equal, length, take, drop, ◌==◌,
}

-- A field: its length in one byte, then its bytes. The result is the field and what follows it.
unfoldable pub read_field : Bytes → Option (Bytes × Bytes)
read_field [] = none
read_field (n ∷ bytes) =
    if length (take n bytes) == n then some (take n bytes, drop n bytes) else none

-- The version, and a field with the methods that the client offers.
unfoldable pub read_methods : Bytes → Option Bytes
unfolding read_field
read_methods [] = none
read_methods (version ∷ bytes) =
    if version == 5
    then elim (read_field bytes) [
      | none ↦ none
      | some (methods, rest) ↦ if is_empty rest then some methods else none
    ]
    else none

-- The version 1, a name and a password.
unfoldable pub read_credentials : Bytes → Option (Bytes × Bytes)
unfolding read_field
read_credentials [] = none
read_credentials (version ∷ bytes) =
    if version == 1
    then elim (read_field bytes) [
      | none ↦ none
      | some (user, rest) ↦ elim (read_field rest) [
        | none ↦ none
        | some (password, rest2) ↦ if is_empty rest2 then some (user, password) else none
      ]
    ]
    else none

-- The last two bytes of a request: the port, its high byte first.
abbrev pub read_port : Bytes → Option ℕ
read_port [] = none
read_port (high ∷ []) = none
read_port (high ∷ low ∷ []) = some (high * 256 + low)
read_port (high ∷ low ∷ more ∷ rest) = none

-- What a client can ask to be connected to.
pub data Target : Type 0 where
  by_name : Bytes → ℕ → Target
  by_address : Bytes → ℕ → Target

abbrev pub with_port : (ℕ → Target) → Option ℕ → Option Target
with_port f none = none
with_port f (some port) = some (f port)

-- What follows the kind of address.
unfoldable pub read_target : ℕ → Bytes → Option Target
unfolding read_field
read_target kind bytes =
    if kind == 3
    then elim (read_field bytes) [
      | none ↦ none
      | some (name, rest) ↦ with_port (by_name name) (read_port rest)
    ]
    else if kind == 1
    then with_port (by_address (take 4 bytes)) (read_port (drop 4 bytes))
    else none

-- The version, the command CONNECT and a reserved byte, then the target.
unfoldable pub read_request : Bytes → Option Target
unfolding read_target
read_request (version ∷ command ∷ reserved ∷ kind ∷ bytes) =
    if version == 5 && command == 1 && reserved == 0 then read_target kind bytes else none
read_request _ = none

abbrev pub has_byte : ℕ → Bytes → Bool
has_byte b [] = false
has_byte b (c ∷ cs) = c == b || has_byte b cs

-- Where a server stands with a client; `linked` is where it has connected the client to its target.
pub data Stage : Type 0 where
  fresh : Stage
  wants_credentials : Stage
  wants_request : Stage
  linked : Target → Stage
  failed : Stage

-- A server that asks for these credentials, or for none.
pub record Policy : Type 0 where
  pub needs_credentials : Bool
  pub user : Bytes
  pub password : Bytes

abbrev pub on_methods : Policy → Option Bytes → Stage × Bytes
on_methods policy none = (failed, [])
on_methods policy (some methods) =
    if policy.needs_credentials
    then if has_byte 2 methods then (wants_credentials, 5 ∷ 2 ∷ []) else (failed, 5 ∷ 255 ∷ [])
    else if has_byte 0 methods
    then (wants_request, 5 ∷ 0 ∷ [])
    else (failed, 5 ∷ 255 ∷ [])

abbrev pub on_credentials : Policy → Option (Bytes × Bytes) → Stage × Bytes
on_credentials policy none = (failed, [])
on_credentials policy (some (user, password)) =
    if equal user policy.user && equal password policy.password
    then (wants_request, 1 ∷ 0 ∷ [])
    else (failed, 1 ∷ 1 ∷ [])

-- The reply names an address of the server, here 0.0.0.0:0.
abbrev pub on_request : Option Target → Stage × Bytes
on_request none = (failed, 5 ∷ 1 ∷ 0 ∷ 1 ∷ 0 ∷ 0 ∷ 0 ∷ 0 ∷ 0 ∷ 0 ∷ [])
on_request (some target) = (linked target, 5 ∷ 0 ∷ 0 ∷ 1 ∷ 0 ∷ 0 ∷ 0 ∷ 0 ∷ 0 ∷ 0 ∷ [])

-- The answer to one message.
unfoldable pub serve : Policy → Stage → Bytes → Stage × Bytes
unfolding read_methods read_credentials read_request
serve policy fresh message = on_methods policy (read_methods message)
serve policy wants_credentials message = on_credentials policy (read_credentials message)
serve policy wants_request message = on_request (read_request message)
serve policy (linked target) message = (linked target, [])
serve policy failed message = (failed, [])
