-- ===== src/Connection.antt =====
-- The states of a connection and its errors, of src/gloox.h, and `atoi` and `htons` as the proxies
-- use them.
use gloox.Base.{
  ℕ, zero, suc, ◌+◌, ◌-◌, ◌*◌, ◌/◌, ◌%◌, Bool, ◌&&◌, ◌||◌, [], ◌∷◌, Bytes, if◌then◌else◌, ◌==◌, leb,
}
use gloox.Base.Int.{ℤ, pos, negsuc}

-- `ConnectionState`.
pub data ConnectionState : Type 0 where
  disconnected connecting connected : ConnectionState

-- `ConnectionError`.
pub data ConnectionError : Type 0 where
  no_error stream_error stream_version_error stream_closed proxy_auth_required proxy_auth_failed :
      ConnectionError
  proxy_no_supported_auth io_error parse_error connection_refused dns_error out_of_memory :
      ConnectionError
  no_supported_auth tls_failed tls_not_available compression_failed authentication_failed :
      ConnectionError
  user_disconnected not_connected : ConnectionError

-- An `int` that is converted to `uint16_t`.
abbrev pub word16 : ℤ → ℕ
word16 (pos n) = n % 65536
word16 (negsuc n) = 65535 - n % 65536

-- `htons` on a machine that stores the low byte first.
unfoldable pub htons : ℕ → ℕ
htons w = (w % 256) * 256 + w / 256

-- `isspace` and `isdigit` in the C locale.
abbrev pub is_space : ℕ → Bool
is_space c = c == b' ' || leb 9 c && leb c 13

abbrev pub is_digit : ℕ → Bool
is_digit c = leb b'0' c && leb c b'9'

abbrev pub digits_from : ℕ → Bytes → ℕ
digits_from n [] = n
digits_from n (c ∷ cs) =
    let more = digits_from (n * 10 + (c - b'0')) cs in if is_digit c then more else n

abbrev pub negate : ℕ → ℤ
negate zero = pos 0
negate (suc n) = negsuc n

abbrev pub signed_from : Bytes → ℤ
signed_from [] = pos 0
signed_from (c ∷ cs) =
    if c == b'-'
    then negate (digits_from 0 cs)
    else if c == b'+'
    then pos (digits_from 0 cs)
    else pos (digits_from 0 (c ∷ cs))

-- `atoi` of a number that fits into an `int`.
unfoldable pub atoi : Bytes → ℤ
atoi [] = pos 0
atoi (c ∷ cs) = let rest = atoi cs in if is_space c then rest else signed_from (c ∷ cs)

-- `strncpy( d, s, length )`: what stands behind a zero byte is filled with zeros.
unfoldable pub zeros : Bytes → Bytes
zeros [] = []
zeros (c ∷ cs) = 0 ∷ zeros cs

unfoldable pub strncpy : Bytes → Bytes
unfolding zeros
strncpy [] = []
strncpy (c ∷ cs) = if c == 0 then zeros (c ∷ cs) else c ∷ strncpy cs
