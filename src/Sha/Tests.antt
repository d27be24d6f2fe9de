-- ===== src/Sha/Tests.antt =====
-- SHA-1 on the text of FIPS 180, and the theorems on it.
use gloox.Base.{◌≡◌, refl, [], ◌∷◌, List, Bytes, codes, arith}
use gloox.Sha.{
  init, initial_hash, zero_bytes, feed, hex, binary, feed_loop, feed_byte, process_full, count_bits,
  process, compress, finalize, pad, with_room,
}
use gloox.Sha.Reference.{sha1}
use gloox.Sha.Digest.{feed_all, concat, binary-feed_all, hex-feed_finalized}
use gloox.Sha.Fips.{fips_compress}
use gloox.Sha.Rounds.{compress-fips_compress}

abc : (hex (feed init (codes "abc"))).1 ≡ codes "a9993e364706816aba3e25717850c26c9cd0d89d"
unfolding hex feed feed_loop feed_byte process_full count_bits process compress finalize pad
    with_room
abc = refl

abbrev pieces : List Bytes
pieces = codes "a" ∷ [] ∷ codes "bc" ∷ []

binary-feed_all_example : (binary (feed_all init pieces)).1 ≡ sha1 (concat pieces)
binary-feed_all_example = binary-feed_all pieces (ground arith) (omega arith)

hex-feed_finalized_example : (hex (feed_all (feed (finalize init) (codes "abc")) pieces)).1 ≡ []
hex-feed_finalized_example = hex-feed_finalized init (codes "abc") pieces refl

compress-fips_compress_example :
    compress initial_hash (zero_bytes 64) ≡ fips_compress initial_hash (zero_bytes 64)
compress-fips_compress_example = compress-fips_compress initial_hash (zero_bytes 64) refl
