-- ===== src/Crypter/Blowfish.antt =====
-- syn_crypt_blowfish.c: "SYNB" | version | salt(16) | iv(8) | hmac(32) | ciphertext.
pub mod RoundTrip
use syn_os.Common.{
  ℕ, Bool, not, ◌||◌, List, [], ◌∷◌, Bytes, memcmp_eq, bytes_eq, length, take, drop, ltb, ◌==◌,
}
use syn_os.Io.{
  crypto, bad_password, format, already_encrypted, Call, ◌>>=◌, ◌>>◌, return, require, attempt,
  attempts, write_file, unless_empty, rand_bytes,
}
use syn_os.Crypter.Ssl.{Ssl}
use syn_os.Crypter.Util.{magic_blowfish, version, pbkdf2_iterations, looks_encrypted, read_all}
use syn_os.Crypter.Gcm.{evp_input, some_or}

abbrev pub header_len : ℕ
header_len = 61

pub record Header : Type 0 where
  pub salt : Bytes
  pub iv : Bytes
  pub mac : Bytes
  pub ciphertext : Bytes

unfoldable pub split_header : Bytes → Header
split_header file =
    let p1 : Bytes = drop 1 (drop 4 file) in
    let p2 : Bytes = drop 16 p1 in
    let p3 : Bytes = drop 8 p2 in
    record { salt = take 16 p1; iv = take 8 p2; mac = take 32 p3; ciphertext = drop 32 p3 }

unfoldable pub header_chunks : Header → List Bytes
header_chunks h =
    magic_blowfish ∷ (version ∷ []) ∷ h.salt ∷ h.iv ∷ h.mac ∷ unless_empty h.ciphertext

abbrev pub has_header : Bytes → Bool
has_header file = not (ltb (length file) header_len || not (memcmp_eq file magic_blowfish 4))

pub record Keys : Type 0 where
  pub cipher_key : Bytes
  pub hmac_key : Bytes

module _ (ssl : Ssl) where
  -- one PBKDF2 call, sliced in two
  abbrev pub keys_of : Bytes → Bytes → Keys
  keys_of password salt =
      let combined = ssl.pbkdf2 password salt pbkdf2_iterations 48 in
      record { cipher_key = take 16 combined; hmac_key = take 32 (drop 16 combined) }

  unfoldable pub derive_keys : Bytes → Bytes → Call Keys
  derive_keys password salt = do attempt crypto; return (keys_of password salt)

  -- context, cipher; update; final
  unfoldable pub cbc_encrypt : Bytes → Bytes → Bytes → Call Bytes
  cbc_encrypt key iv plaintext = do
    attempts 2 crypto
    input ← evp_input crypto plaintext
    attempts 2 crypto
    return (ssl.bf_encrypt key iv input)

  unfoldable pub cbc_decrypt : Bytes → Bytes → Bytes → Call Bytes
  cbc_decrypt key iv ciphertext = do
    attempts 2 crypto
    input ← evp_input crypto ciphertext
    attempts 2 crypto
    some_or crypto (ssl.bf_decrypt key iv input)

  -- `syn_crypt_blowfish_encrypt`
  unfoldable pub encrypt : Bytes → Bytes → Bytes → Call (Unit {0})
  unfolding header_chunks
  encrypt in_path out_path password = do
    seen ← looks_encrypted in_path
    require (not seen) already_encrypted
    plaintext ← read_all in_path
    salt ← rand_bytes 16
    iv ← rand_bytes 8
    keys ← derive_keys password salt
    attempt crypto
    ciphertext ← cbc_encrypt keys.cipher_key iv plaintext
    attempt crypto
    require (length (ssl.hmac keys.hmac_key ciphertext) == 32) crypto
    write_file out_path (
        header_chunks (record {
          salt = salt;
          iv = iv;
          mac = ssl.hmac keys.hmac_key ciphertext;
          ciphertext = ciphertext;
        }))

  -- `syn_crypt_blowfish_decrypt`
  unfoldable pub decrypt : Bytes → Bytes → Bytes → Call (Unit {0})
  decrypt in_path out_path password = do
    file ← read_all in_path
    require (has_header file) format
    keys ← derive_keys password (split_header file).salt
    attempt bad_password
    require (length (ssl.hmac keys.hmac_key (split_header file).ciphertext) == 32) bad_password
    require
        (bytes_eq (split_header file).mac (ssl.hmac keys.hmac_key (split_header file).ciphertext))
        bad_password
    attempt crypto
    plaintext ← cbc_decrypt keys.cipher_key (split_header file).iv (split_header file).ciphertext
    write_file out_path (unless_empty plaintext)
