-- ===== src/Crypter/Rsa.antt =====
-- syn_crypt_rsa.c: "SYNR" | version | length(4) | wrapped key | iv(12) | tag(16) | ciphertext.
pub mod RoundTrip
use syn_os.Common.{
  ℕ, ◌+◌, ◌%◌, ◌^◌, Bool, not, ◌||◌, List, [], ◌∷◌, Bytes, memcmp_eq, be32, read_be32, length, take,
  drop, ltb, leb, ◌==◌,
}
use syn_os.Io.{
  crypto, bad_password, corrupt, format, already_encrypted, Call, ◌>>=◌, ◌>>◌, return, require,
  attempt, attempts, open_read, write_file, unless_empty, rand_bytes,
}
use syn_os.Crypter.Ssl.{Ssl}
use syn_os.Crypter.Util.{magic_rsa, version, looks_encrypted, read_all}
use syn_os.Crypter.Gcm.{gcm_seal, gcm_open, some_or}

abbrev pub min_header : ℕ
min_header = 9

pub record Header : Type 0 where
  pub wrapped_key : Bytes
  pub iv : Bytes
  pub tag : Bytes
  pub ciphertext : Bytes

-- `ntohl` of the four bytes behind the version
unfoldable pub wrapped_len : Bytes → ℕ
wrapped_len file = read_be32 (drop 1 (drop 4 file))

-- `min_header + wrapped_len + IV_LEN + TAG_LEN`, in a `size_t`
unfoldable pub full_header : Bytes → ℕ
full_header file = (min_header + wrapped_len file + 12 + 16) % 2 ^ 64

unfoldable pub split_header : Bytes → Header
split_header file =
    let p1 : Bytes = drop 4 (drop 1 (drop 4 file)) in
    let p2 : Bytes = drop (wrapped_len file) p1 in
    let p3 : Bytes = drop 12 p2 in
    record {
      wrapped_key = take (wrapped_len file) p1;
      iv = take 12 p2;
      tag = take 16 p3;
      ciphertext = drop 16 p3;
    }

unfoldable pub header_chunks : Header → List Bytes
header_chunks h =
    magic_rsa
    ∷ (version ∷ [])
    ∷ be32 (length h.wrapped_key % 2 ^ 32)
    ∷ h.wrapped_key
    ∷ h.iv
    ∷ h.tag
    ∷ unless_empty h.ciphertext

abbrev pub has_header : Bytes → Bool
has_header file = not (ltb (length file) min_header || not (memcmp_eq file magic_rsa 4))

-- the three tests on the lengths, denied
unfoldable pub header_fits : Bytes → Bool
header_fits file = not (
    ltb (length file) (wrapped_len file)
    || ltb (full_header file) min_header
    || ltb (length file) (full_header file))

module _ (ssl : Ssl) where
  -- context, init, padding, digest and the call itself, whose output buffer has 1024 bytes
  unfoldable pub wrap_key : Bytes → Bytes → Call Bytes
  wrap_key public aes_key = do
    attempts 4 crypto
    seed ← rand_bytes 32
    require (leb (length (ssl.oaep_encrypt public seed aes_key)) 1024) crypto
    return (ssl.oaep_encrypt public seed aes_key)

  -- context, init, padding, digest, the call that asks for the length, the call itself
  unfoldable pub unwrap_key : Bytes → Bytes → Call Bytes
  unwrap_key private wrapped = do
    attempts 5 bad_password
    require (leb (ssl.oaep_size private) 1024) bad_password
    attempt bad_password
    aes_key ← some_or bad_password (ssl.oaep_decrypt private wrapped)
    require (length aes_key == 32) bad_password
    return aes_key

  -- `syn_crypt_rsa_encrypt`
  unfoldable pub encrypt : Bytes → Bytes → Bytes → Call (Unit {0})
  unfolding header_chunks
  encrypt in_path out_path key_path = do
    seen ← looks_encrypted in_path
    require (not seen) already_encrypted
    pem ← open_read key_path
    public ← some_or format (ssl.pem_public pem)
    plaintext ← read_all in_path
    aes_key ← rand_bytes 32
    iv ← rand_bytes 12
    attempt crypto
    sealed ← gcm_seal ssl aes_key iv plaintext
    wrapped ← wrap_key public aes_key
    write_file out_path (
        header_chunks
          (record { wrapped_key = wrapped; iv = iv; tag = sealed.1; ciphertext = sealed.0 }))

  -- `syn_crypt_rsa_decrypt`
  unfoldable pub decrypt : Bytes → Bytes → Bytes → Call (Unit {0})
  decrypt in_path out_path key_path = do
    pem ← open_read key_path
    private ← some_or format (ssl.pem_private pem)
    file ← read_all in_path
    require (has_header file) format
    require (header_fits file) corrupt
    aes_key ← unwrap_key private (split_header file).wrapped_key
    attempt corrupt
    plaintext ←
        gcm_open ssl corrupt aes_key (split_header file).iv (split_header file).ciphertext
          (split_header file).tag
    write_file out_path (unless_empty plaintext)
