-- ===== src/Base64/Tests.antt =====
-- The round trip on concrete bytes.
use gloox.Base.{◌≡◌, [], ◌∷◌, Bytes, All, ◌<◌, arith}
use gloox.Base64.RoundTrip.{decode64-encode64}
use gloox.Base64.{encode64, decode64}

abbrev packet : Bytes
packet = 0 ∷ 255 ∷ 128 ∷ 61 ∷ 7 ∷ []

packet_ok : All (λ c. c < 256) packet
packet_ok = (omega arith, (omega arith, (omega arith, (omega arith, (omega arith, Prim.tt)))))

decode64-encode64_example : decode64 (encode64 packet) ≡ packet
decode64-encode64_example = decode64-encode64 packet packet_ok
