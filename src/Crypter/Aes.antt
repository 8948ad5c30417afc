-- ===== src/Crypter/Aes.antt =====
-- syn_crypt_aes.c: "SYNA" | version | salt(16) | iv(12) | rounds(4) | tag(16) | ciphertext.
pub mod RoundTrip
use syn_os.Common.{
  ℕ, Bool, not, ◌&&◌, ◌||◌, List, [], ◌∷◌, Bytes, memcmp_eq, be32, length, take, drop, ltb,
}
use syn_os.Io.{
  io, crypto, bad_password, format, already_encrypted, Call, ◌>>=◌, ◌>>◌, return, require, attempt,
  open_write, write_chunks, write_file, unless_empty, fclose, rand_bytes,
}
use syn_os.Crypter.Ssl.{Ssl}
use syn_os.Crypter.Util.{magic_aes, version, pbkdf2_iterations, looks_encrypted, read_all}
use syn_os.Crypter.Gcm.{gcm_seal, gcm_open}

abbrev pub header_len : ℕ
header_len = 53

-- The pieces that `p` steps over.
pub record Header : Type 0 where
  pub salt : Bytes
  pub iv : Bytes
  pub iterations : Bytes
  pub tag : Bytes
  pub ciphertext : Bytes

unfoldable pub split_header : Bytes → Header
split_header file =
    let p1 : Bytes = drop 1 (drop 4 file) in
    let p2 : Bytes = drop 16 p1 in
    let p3 : Bytes = drop 12 p2 in
    let p4 : Bytes = drop 4 p3 in
    record {
      salt = take 16 p1;
      iv = take 12 p2;
      iterations = take 4 p3;
      tag = take 16 p4;
      ciphertext = drop 16 p4;
    }

unfoldable pub header_chunks : Header → List Bytes
header_chunks h =
    magic_aes ∷ (version ∷ []) ∷ h.salt ∷ h.iv ∷ h.iterations ∷ h.tag ∷ unless_empty h.ciphertext

-- `file_len < header_len || memcmp(file_buf, magic) != 0`, denied
abbrev pub has_header : Bytes → Bool
has_header file = not (ltb (length file) header_len || not (memcmp_eq file magic_aes 4))

module _ (ssl : Ssl) where
  unfoldable pub derive_key : Bytes → Bytes → Call Bytes
  derive_key password salt = do
    attempt crypto
    return (ssl.pbkdf2 password salt pbkdf2_iterations 32)

  -- `syn_crypt_aes_encrypt`
  unfoldable pub encrypt : Bytes → Bytes → Bytes → Call (Unit {0})
  unfolding header_chunks
  encrypt in_path out_path password = do
    seen ← looks_encrypted in_path
    require (not seen) already_encrypted
    plaintext ← read_all in_path
    salt ← rand_bytes 16
    iv ← rand_bytes 12
    key ← derive_key password salt
    attempt crypto
    sealed ← gcm_seal ssl key iv plaintext
    write_file out_path (
        header_chunks (record {
          salt = salt;
          iv = iv;
          iterations = be32 pbkdf2_iterations;
          tag = sealed.1;
          ciphertext = sealed.0;
        }))

  -- `syn_crypt_aes_decrypt`
  unfoldable pub decrypt : Bytes → Bytes → Bytes → Call (Unit {0})
  decrypt in_path out_path password = do
    file ← read_all in_path
    require (has_header file) format
    key ← derive_key password (split_header file).salt
    attempt crypto
    plaintext ←
        gcm_open ssl bad_password key (split_header file).iv (split_header file).ciphertext
          (split_header file).tag
    write_file out_path (unless_empty plaintext)
