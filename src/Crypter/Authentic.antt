-- ===== src/Crypter/Authentic.antt =====
-- A decryption that meets a file which it cannot vouch for fails and writes nothing, whatever else
-- goes wrong.
use mathlib.Core.Path.{subst}
use mathlib.Core.Option.{some-injective}
use syn_os.Common.{
  ℕ, ◌+◌, ◌^◌, ◌<◌, ◌≤◌, true, false, Option, none, some, ◌≡◌, ◌≢◌, refl, sym, ◌∙◌, arith, Bytes,
  length, take, take_all, drop, bytes_eq_ne, length-take, length-drop,
}
use syn_os.Io.{Files, Status, io, crypto, bad_password, Call, ◌>>=◌}
use syn_os.Io.Frame.{ReadOnly-attempt, ReadOnly-attempts, ReadOnly-open_read, ReadOnly-require}
use syn_os.Io.Refuse.{
  Refuses, Refuses-bind, Refuses-first, Gives-any, Refuses-Gives, Refuses-require, Refuses-throw,
  Gives, Gives-bind, Gives-return, Gives-open_read,
}
use syn_os.Crypter.Ssl.{Ssl}
use syn_os.Crypter.Util.{read_all, pbkdf2_iterations}
use syn_os.Crypter.Gcm.{int_of_size, evp_input, gcm_open}
use syn_os.Crypter.Keeps.{
  ReadOnly-read_all, ReadOnly-prefix_or, ReadOnly-digest, ReadOnly-read_bytes, ReadOnly-some_or,
  ReadOnly-derive_key, ReadOnly-derive_keys,
}
use syn_os.Crypter.Faultless.{int_of_size_small}
use syn_os.Crypter.Aes
use syn_os.Crypter.Blowfish
use syn_os.Crypter.Rsa
use syn_os.Crypter.Redshirt
use syn_os.Crypter.Redshirt.{Variant, v1_redshirt, v2_redshrt2, v3_synx}

Gives-derive_key :
    (ssl : Ssl) (fs : Files) (password salt : Bytes)
    → Gives fs
        (Aes.derive_key ssl password salt)
        (λ key. key ≡ ssl.pbkdf2 password salt pbkdf2_iterations 32)
unfolding Aes.derive_key
Gives-derive_key ssl fs password salt =
    Gives-bind fs _ _ _ _ (ReadOnly-attempt crypto) (Gives-any fs _) λ _ _. Gives-return fs _ _ refl

Gives-derive_keys :
    (ssl : Ssl) (fs : Files) (password salt : Bytes)
    → Gives fs
        (Blowfish.derive_keys ssl password salt)
        (λ k. k ≡ Blowfish.keys_of ssl password salt)
unfolding Blowfish.derive_keys
Gives-derive_keys ssl fs password salt =
    Gives-bind fs _ _ _ _ (ReadOnly-attempt crypto) (Gives-any fs _) λ _ _. Gives-return fs _ _ refl

gcm_open-Refuses :
    (ssl : Ssl) (fs : Files) (s : Status) (key iv text tag : Bytes) {n : ℕ}
    → int_of_size (length text) ≡ some n
    → ssl.gcm_decrypt key iv (take n text) tag ≡ none
    → Refuses fs (gcm_open ssl s key iv text tag)
unfolding gcm_open evp_input
gcm_open-Refuses ssl fs s key iv text tag {n} small bad =
    Refuses-bind fs _ _ (ReadOnly-attempts 4 s) λ _. rw small (
      Refuses-Gives fs _ _ (λ input. input ≡ take n text) (ReadOnly-prefix_or s text (some n))
        (Gives-return fs _ _ refl)
        λ input e.
          Refuses-bind fs _ _ (ReadOnly-attempts 3 s) λ _. rw (e, bad) (Refuses-throw fs s))

-- The digest that the variant stores is not the one of the content.
abbrev pub BadDigest : Ssl → Option Variant → Bytes → Type 0
BadDigest ssl (some v2_redshrt2) file =
    take 20 (drop 9 file) ≢ Redshirt.swap_sha1_word_endianness (ssl.sha1 (drop 29 file))
BadDigest ssl (some v3_synx) file =
    take 32 (drop 5 file) ≢ ssl.sha256 (Redshirt.xor_transform (drop 37 file))
BadDigest ssl _ file = ⊥

Gives-digest :
    (fs : Files) (md : Bytes → Bytes) (t : Bytes) (n : ℕ)
    → Gives fs (Redshirt.digest md t n) (λ h. h ≡ md t)
unfolding Redshirt.digest
Gives-digest fs md t n = Gives-bind fs _ _ _ _ (ReadOnly-attempt crypto) (Gives-any fs _) λ _ _.
    Gives-bind fs _ _ _ _ (ReadOnly-require _ _) (Gives-any fs _) λ _ _. Gives-return fs _ _ refl

open_variant-Refuses :
    (ssl : Ssl) (fs : Files) (v : Option Variant) (file : Bytes)
    → BadDigest ssl v file
    → Refuses fs (Redshirt.open_variant ssl v file)
unfolding Redshirt.open_variant
open_variant-Refuses ssl fs none file bad = absurd bad
open_variant-Refuses ssl fs (some v1_redshirt) file bad = absurd bad
open_variant-Refuses ssl fs (some v2_redshrt2) file bad =
    Refuses-bind fs _ _ (ReadOnly-require _ _) λ _.
      Refuses-Gives fs _ _ _ (ReadOnly-digest ssl _ _ _)
        (Gives-digest fs ssl.sha1 (drop 29 file) 20)
        λ h e. Refuses-require fs _ _ _ (rw e (bytes_eq_ne _ _ bad))
open_variant-Refuses ssl fs (some v3_synx) file bad =
    Refuses-bind fs _ _ (ReadOnly-require _ _) λ _.
      Refuses-Gives fs _ _ _ (ReadOnly-digest ssl _ _ _)
        (Gives-digest fs ssl.sha256 (Redshirt.xor_transform (drop 37 file)) 32)
        λ h e. Refuses-require fs _ _ _ (rw e (bytes_eq_ne _ _ bad))

-- `read_all` gives the file's content.
Gives-read_all : (fs : Files) (path : Bytes) → Gives fs (read_all path) (λ b. fs path ≡ some b)
unfolding read_all
Gives-read_all fs path =
    Gives-bind fs _ _ _ _ (ReadOnly-open_read path) (Gives-open_read fs path) λ b e.
      Gives-bind fs _ _ _ _ (ReadOnly-attempt io) (Gives-any fs _) λ _ _.
        Gives-bind fs _ _ _ _ (ReadOnly-attempt io) (Gives-any fs _) λ _ _.
          Gives-bind fs _ _ _ _ (ReadOnly-read_bytes b) (Gives-any fs _)
            λ _ _. Gives-return fs b _ e

header_short :
    (file : Bytes)
    → length file < 37 + Rsa.wrapped_len file
    → length file < 2 ^ 63
    → Rsa.header_fits file ≡ false
unfolding Rsa.header_fits Rsa.full_header
header_short file short small = ground arith

module _ (fs : Files) (i : Bytes) {file : Bytes} (there : fs i ≡ some file) where
  -- After `read_all`, what is left runs on the file.
  Refuses-read_all :
      {B : Type 0} (f : Bytes → Call B) → Refuses fs (f file) → Refuses fs (read_all i >>= f)
  Refuses-read_all f r =
      Refuses-Gives fs _ f (λ b. fs i ≡ some b) (ReadOnly-read_all i) (Gives-read_all fs i)
        λ b e. subst (λ c. Refuses fs (f c)) (some-injective _ _ (sym there ∙ e)) r

  -- Blowfish: where the HMAC of the ciphertext under the key of the password is not the stored one,
  -- decryption fails and no file changes, whatever calls fail.
  pub blowfish_tampered :
      (ssl : Ssl) (o password : Bytes)
      → (Blowfish.split_header file).mac
        ≢ ssl.hmac
            (Blowfish.keys_of ssl password (Blowfish.split_header file).salt).hmac_key
            (Blowfish.split_header file).ciphertext
      → Refuses fs (Blowfish.decrypt ssl i o password)
  unfolding Blowfish.decrypt
  blowfish_tampered ssl o password ne = Refuses-read_all _ (
      Refuses-bind fs _ _ (ReadOnly-require _ _) λ _.
        Refuses-Gives fs _ _ _ (ReadOnly-derive_keys ssl _ _) (Gives-derive_keys ssl fs password _)
          λ keys e. Refuses-bind fs _ _ (ReadOnly-attempt _) λ _.
            Refuses-bind fs _ _ (ReadOnly-require _ _)
              λ _. Refuses-require fs _ _ _ (rw e (bytes_eq_ne _ _ ne)))

  -- What OpenSSL is given of the ciphertext does not fit the tag.
  aes_prefix_tampered :
      (ssl : Ssl) (o password : Bytes) {n : ℕ}
      → int_of_size (length (Aes.split_header file).ciphertext) ≡ some n
      → ssl.gcm_decrypt
          (ssl.pbkdf2 password (Aes.split_header file).salt pbkdf2_iterations 32)
          (Aes.split_header file).iv
          (take n (Aes.split_header file).ciphertext)
          (Aes.split_header file).tag
        ≡ none
      → Refuses fs (Aes.decrypt ssl i o password)
  unfolding Aes.decrypt
  aes_prefix_tampered ssl o password small bad = Refuses-read_all _ (
      Refuses-bind fs _ _ (ReadOnly-require _ _) λ _.
        Refuses-Gives fs _ _ _ (ReadOnly-derive_key ssl _ _) (Gives-derive_key ssl fs password _)
          λ key e. Refuses-bind fs _ _ (ReadOnly-attempt _) λ _.
            Refuses-first fs _ _ (gcm_open-Refuses ssl fs bad_password key _ _ _ small (rw e bad)))

  -- AES: where the ciphertext has less than 2^31 bytes and the tag does not fit it under the key of
  -- the password, decryption fails and no file changes, whatever calls fail.
  pub aes_tampered :
      (ssl : Ssl) (o password : Bytes)
      → length (Aes.split_header file).ciphertext < 2 ^ 31
      → ssl.gcm_decrypt
          (ssl.pbkdf2 password (Aes.split_header file).salt pbkdf2_iterations 32)
          (Aes.split_header file).iv
          (Aes.split_header file).ciphertext
          (Aes.split_header file).tag
        ≡ none
      → Refuses fs (Aes.decrypt ssl i o password)
  aes_tampered ssl o password small bad =
      let text : Bytes = (Aes.split_header file).ciphertext in
      let cut : take (length text) text ≡ text = take_all (length text) text (omega arith) in
      aes_prefix_tampered ssl o password (int_of_size_small (length text) small) (rw cut bad)

  -- RSA: where the file, of less than 2^63 bytes, is shorter than 37 bytes and the wrapped key whose
  -- length it states, decryption fails and no file changes, whatever calls fail.
  pub rsa_header_refused :
      (ssl : Ssl) (o key_path : Bytes)
      → length file < 37 + Rsa.wrapped_len file
      → length file < 2 ^ 63
      → Refuses fs (Rsa.decrypt ssl i o key_path)
  unfolding Rsa.decrypt
  rsa_header_refused ssl o key_path short small =
      Refuses-bind fs _ _ (ReadOnly-open_read key_path) λ pem.
        Refuses-bind fs _ _ (ReadOnly-some_or _ _) λ private. Refuses-read_all _ (
          Refuses-bind fs _ _ (ReadOnly-require _ _)
            λ _. Refuses-require fs _ _ _ (header_short file short small))

  -- Redshirt: where the digest that a REDSHRT2 or SYNX file holds is not that of its content,
  -- decryption fails and no file changes, whatever calls fail.
  pub redshirt_tampered :
      (ssl : Ssl) (o : Bytes)
      → BadDigest ssl (Redshirt.variant_of file) file
      → Refuses fs (Redshirt.decrypt ssl i o)
  unfolding Redshirt.decrypt
  redshirt_tampered ssl o bad =
      Refuses-read_all _
        (Refuses-first fs _ _ (open_variant-Refuses ssl fs (Redshirt.variant_of file) file bad))

header_bounds :
    (file : Bytes)
    → Rsa.header_fits file ≡ true
    → length file < 2 ^ 63
    → (Rsa.full_header file ≡ 37 + Rsa.wrapped_len file) × (Rsa.full_header file ≤ length file)
unfolding Rsa.header_fits Rsa.full_header
header_bounds file fits small = ground arith

-- What the accepted lengths guarantee: the wrapped key, the iv and the tag lie inside the file, each
-- with its length, and the ciphertext is all the rest.
pub rsa_pieces :
    (file : Bytes)
    → Rsa.header_fits file ≡ true
    → length file < 2 ^ 63
    → (length (Rsa.split_header file).wrapped_key ≡ Rsa.wrapped_len file)
      × (length (Rsa.split_header file).iv ≡ 12)
      × (length (Rsa.split_header file).tag ≡ 16)
      × (length (Rsa.split_header file).ciphertext + Rsa.full_header file ≡ length file)
unfolding Rsa.split_header
rsa_pieces file fits small =
    let bound = header_bounds file fits small in
    omega (arith, bound.0, bound.1, length-take {0}, length-drop {0})
