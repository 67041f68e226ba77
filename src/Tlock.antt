-- ===== src/Tlock.antt =====
-- sealed-sky-web/src/lib/tlock.ts: timelock encryption by tlock-js, whose armoured text is carried as
-- bytes. The three functions of tlock-js are parameters.
pub mod RoundTrip
use sealed_sky_verification.Common.{ℕ, List, [], ◌∷◌, ◌++◌, ◌%◌, map}
use sealed_sky_verification.Common.Text.{Text}
use sealed_sky_verification.Bytes.{Bytes}
use sealed_sky_verification.Codec.{Codec}
use sealed_sky_verification.Errors.{Result, ok, err, ◌>>=◌}

-- timelockEncrypt and timelockDecrypt with the client of the chain, and decodeArmor, whose text has
-- one code unit for each byte.
pub record Timelock : Type 0 where
  pub tl_encrypt : ℕ → Bytes → Result Text
  pub decode_armor : Text → Result Text
  pub tl_decrypt : Text → Result Bytes

-- `charCodeAt(i) & 0xff` for each code unit.
unfoldable pub bin_str_to_bytes : Text → Bytes
bin_str_to_bytes [] = []
bin_str_to_bytes (c ∷ s) = c % 256 ∷ bin_str_to_bytes s

-- The loop that appends a code unit for each byte.
bin_str_loop : Text → Bytes → Text
bin_str_loop s [] = s
bin_str_loop s (b ∷ bs) = bin_str_loop (s ++ (b ∷ [])) bs

unfoldable pub bytes_to_bin_str : Bytes → Text
unfolding bin_str_loop
bytes_to_bin_str bs = bin_str_loop [] bs

module _ (c : Codec) (t : Timelock) where
  unfoldable pub encrypt : ℕ → Text → Result Bytes
  unfolding bin_str_to_bytes
  encrypt round plaintext = do
    armored ← t.tl_encrypt round (c.encode plaintext)
    raw_bin ← t.decode_armor armored
    ok (bin_str_to_bytes raw_bin)

  unfoldable pub decrypt : Bytes → Result Text
  unfolding bytes_to_bin_str
  decrypt ct = do bytes ← t.tl_decrypt (bytes_to_bin_str ct); ok (c.decode bytes)
