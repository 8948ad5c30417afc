-- ===== src/Crypter/Redshirt.antt =====
-- syn_crypt_redshirt.c: the three variants of the "Uplink" format, a fixed XOR with or without a
-- digest in front.
pub mod RoundTrip
use Prim.Native.Nat.{bit_xor}
use syn_os.Common.{
  ℕ, suc, Bool, true, false, not, ◌&&◌, Option, none, some, [], ◌∷◌, Bytes, memcmp_eq, bytes_eq,
  length, take, drop, ltb, leb, ◌==◌, if◌then◌else◌,
}
use syn_os.Io.{
  io, crypto, corrupt, already_encrypted, not_encrypted, Call, ◌>>=◌, ◌>>◌, return, throw, require,
  try, attempt, open_write, write_chunks, write_file, unless_empty, fclose, remove,
}
use syn_os.Crypter.Ssl.{Ssl}
use syn_os.Crypter.Util.{
  marker_redshirt, marker_redshrt2, magic_synx, version, looks_encrypted, read_all,
}

-- `syn_redshirt_variant`
pub data Variant : Type 0 where
  v1_redshirt v2_redshrt2 v3_synx : Variant

-- `buf[i] ^= XOR_CONST` for every `i`
unfoldable pub xor_transform : Bytes → Bytes
xor_transform [] = []
xor_transform (b ∷ bs) = bit_xor b 0x80 ∷ xor_transform bs

swap_words : ℕ → Bytes → Bytes
swap_words (suc n) (a ∷ b ∷ c ∷ d ∷ rest) = d ∷ c ∷ b ∷ a ∷ swap_words n rest
swap_words _ bs = bs

-- five words of four bytes
unfoldable pub swap_sha1_word_endianness : Bytes → Bytes
unfolding swap_words
swap_sha1_word_endianness hash = swap_words 5 hash

-- `EVP_Digest(..) == 1 && out_len == expect_len`
unfoldable pub digest : (Bytes → Bytes) → Bytes → ℕ → Call Bytes
digest md text expect_len = do
  attempt crypto
  require (length (md text) == expect_len) crypto
  return (md text)

-- `fclose(out); remove(out_path); return SYN_CRYPT_ERR_CRYPTO;`
unfoldable pub give_up : Bytes → Call Bool
give_up out_path = do fclose out_path; remove out_path; throw crypto

-- `if (!wrote_ok) remove(out_path);` and the result
abbrev pub finish : Bytes → Bool → Call (Unit {0})
finish out_path true = return tt
finish out_path false = do remove out_path; throw io

-- the `else if` chain on the markers: which variant a file has
unfoldable pub variant_of : Bytes → Option Variant
variant_of file =
    if leb 9 (length file) && memcmp_eq file marker_redshrt2 9
    then some v2_redshrt2
    else if leb 9 (length file) && memcmp_eq file marker_redshirt 9
    then some v1_redshirt
    else if leb 4 (length file) && memcmp_eq file magic_synx 4
    then some v3_synx
    else none

module _ (ssl : Ssl) where
  abbrev pub write_v2 : Bytes → Bytes → Option Bytes → Call Bool
  write_v2 out_path ciphertext none = give_up out_path
  write_v2 out_path ciphertext (some hash) =
      write_chunks out_path
        (marker_redshrt2 ∷ swap_sha1_word_endianness hash ∷ unless_empty ciphertext)

  abbrev pub write_v3 : Bytes → Bytes → Option Bytes → Call Bool
  write_v3 out_path plaintext none = give_up out_path
  write_v3 out_path plaintext (some hash) =
      write_chunks out_path
        (magic_synx ∷ (version ∷ []) ∷ hash ∷ unless_empty (xor_transform plaintext))

  -- the branch of the variant, up to `wrote_ok`
  unfoldable pub write_variant : Variant → Bytes → Bytes → Call Bool
  write_variant v1_redshirt out_path plaintext =
      write_chunks out_path (marker_redshirt ∷ unless_empty (xor_transform plaintext))
  write_variant v2_redshrt2 out_path plaintext = do
    hash ← try (digest ssl.sha1 (xor_transform plaintext) 20)
    write_v2 out_path (xor_transform plaintext) hash
  write_variant v3_synx out_path plaintext = do
    hash ← try (digest ssl.sha256 plaintext 32)
    write_v3 out_path plaintext hash

  -- `syn_crypt_redshirt_encrypt`
  unfoldable pub encrypt : Bytes → Bytes → Variant → Call (Unit {0})
  encrypt in_path out_path variant = do
    seen ← looks_encrypted in_path
    require (not seen) already_encrypted
    plaintext ← read_all in_path
    open_write out_path
    wrote_ok ← write_variant variant out_path plaintext
    fclose out_path
    finish out_path wrote_ok

  -- the branch of the variant: the plaintext of a file, checked against its digest
  unfoldable pub open_variant : Option Variant → Bytes → Call Bytes
  open_variant none file = throw not_encrypted
  open_variant (some v1_redshirt) file = return (xor_transform (drop 9 file))
  open_variant (some v2_redshrt2) file = do
    require (not (ltb (length file) 29)) corrupt
    hash ← digest ssl.sha1 (drop 29 file) 20
    require (bytes_eq (take 20 (drop 9 file)) (swap_sha1_word_endianness hash)) corrupt
    return (xor_transform (drop 29 file))
  open_variant (some v3_synx) file = do
    require (not (ltb (length file) 37)) corrupt
    hash ← digest ssl.sha256 (xor_transform (drop 37 file)) 32
    require (bytes_eq (take 32 (drop 5 file)) hash) corrupt
    return (xor_transform (drop 37 file))

  -- `syn_crypt_redshirt_decrypt`
  unfoldable pub decrypt : Bytes → Bytes → Call (Unit {0})
  decrypt in_path out_path = do
    file ← read_all in_path
    plaintext ← open_variant (variant_of file) file
    write_file out_path (unless_empty plaintext)
