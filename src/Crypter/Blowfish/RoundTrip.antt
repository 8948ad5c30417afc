-- ===== src/Crypter/Blowfish/RoundTrip.antt =====
-- The Blowfish format: what is written is read back.
use syn_os.Common.{
  ℕ, not, true, false, some, ◌++◌, ◌≡◌, ◌∙◌, ap, arith, Bytes, length, take, take-append,
  drop-append, length-append, bytes_eq, bytes_eq_refl, ◌==◌,
}
use syn_os.Io.{Files, update, done, tabulate, unless_empty, return, crypto, bad_password}
use syn_os.Io.Clean.{
  clean, later, flat, bind-done, clean-attempt, clean-attempts, clean-rand_bytes, clean-write_file,
  require-true, flat-unless_empty,
}
use syn_os.Crypter.Ssl.{Ssl, Laws}
use syn_os.Crypter.Util.{recognised}
use syn_os.Crypter.Gcm.{int_of_size}
use syn_os.Crypter.Faultless.{clean-looks_encrypted, clean-read_all, clean-evp_input, clean-some_or}
use syn_os.Crypter.Blowfish.{
  Header, keys_of, header_chunks, has_header, split_header, derive_keys, cbc_encrypt, cbc_decrypt,
  encrypt, decrypt,
}

pub record Sizes (h : Header) : Type 0 where
  pub salt : length h.salt ≡ 16
  pub iv : length h.iv ≡ 8
  pub mac : length h.mac ≡ 32

-- The pointer steps of the decryption find the pieces that the encryption wrote.
pub split-header_chunks : (h : Header) → Sizes h → split_header (flat (header_chunks h)) ≡ h
unfolding split_header header_chunks
split-header_chunks h s =
    let r3 = h.ciphertext in
    let r2 : Bytes = h.mac ++ r3 in
    let r1 : Bytes = h.iv ++ r2 in
    simp (flat-unless_empty h.ciphertext) (
      simp (
        drop-append 16 h.salt r1 s.salt,
        take-append 16 h.salt r1 s.salt,
        drop-append 8 h.iv r2 s.iv,
        take-append 8 h.iv r2 s.iv,
        drop-append 32 h.mac r3 s.mac,
        take-append 32 h.mac r3 s.mac,
      ))

has-header_chunks : (h : Header) → Sizes h → has_header (flat (header_chunks h)) ≡ true
unfolding header_chunks bytes_eq
has-header_chunks h s =
    let r3 : Bytes = flat (unless_empty h.ciphertext) in
    let r2 : Bytes = h.mac ++ r3 in
    let r1 : Bytes = h.iv ++ r2 in
    ground (arith, length-append h.salt r1, length-append h.iv r2, length-append h.mac r3)

-- What `encrypt` writes for these random bytes.
unfoldable pub sealed : Ssl → Bytes → (ℕ → ℕ) → Bytes → Header
sealed ssl password en plaintext =
    let keys = keys_of ssl password (tabulate 16 en) in
    let out = ssl.bf_encrypt keys.cipher_key (tabulate 8 (later en 16)) plaintext in
    record {
      salt = tabulate 16 en;
      iv = tabulate 8 (later en 16);
      mac = ssl.hmac keys.hmac_key out;
      ciphertext = out;
    }

module _ (ssl : Ssl) (laws : Laws ssl) (i o password : Bytes) (fs : Files) where
  clean-derive_keys :
      (en : ℕ → ℕ) (salt : Bytes)
      → derive_keys ssl password salt (clean fs en)
        ≡ (done (keys_of ssl password salt), clean fs en)
  unfolding derive_keys return
  clean-derive_keys en salt = bind-done _ _ (clean-attempt fs en crypto)

  clean-cbc_encrypt :
      (en : ℕ → ℕ) (key iv text : Bytes) {n : ℕ}
      → int_of_size (length text) ≡ some n
      → cbc_encrypt ssl key iv text (clean fs en)
        ≡ (done (ssl.bf_encrypt key iv (take n text)), clean fs en)
  unfolding cbc_encrypt return
  clean-cbc_encrypt en key iv text small =
      bind-done _ _ (clean-attempts fs en 2 crypto)
      ∙ bind-done _ _ (clean-evp_input fs en crypto text small)
      ∙ bind-done _ _ (clean-attempts fs en 2 crypto)

  clean-cbc_decrypt :
      (en : ℕ → ℕ) (key iv text : Bytes) {n : ℕ} {plain : Bytes}
      → int_of_size (length text) ≡ some n
      → ssl.bf_decrypt key iv (take n text) ≡ some plain
      → cbc_decrypt ssl key iv text (clean fs en) ≡ (done plain, clean fs en)
  unfolding cbc_decrypt
  clean-cbc_decrypt en key iv text small opens =
      bind-done _ _ (clean-attempts fs en 2 crypto)
      ∙ bind-done _ _ (clean-evp_input fs en crypto text small)
      ∙ bind-done _ _ (clean-attempts fs en 2 crypto)
      ∙ clean-some_or fs en crypto opens

  mac_size : (k t : Bytes) → (length (ssl.hmac k t) == 32) ≡ true
  mac_size k t = ground (arith, laws.length-hmac k t)

  pub clean-encrypt :
      (en : ℕ → ℕ) {plain : Bytes} {n : ℕ}
      → fs i ≡ some plain
      → recognised (take 9 plain) ≡ false
      → int_of_size (length plain) ≡ some n
      → encrypt ssl i o password (clean fs en) ≡ (
        done tt,
        clean
            (update fs o (some (flat (header_chunks (sealed ssl password en (take n plain))))))
            (later (later en 16) 8),
      )
  unfolding encrypt sealed
  clean-encrypt en {plain} e fresh small =
      let en' = later (later en 16) 8 in
      bind-done _ _ (clean-looks_encrypted fs en i e)
      ∙ bind-done _ _ (require-true _ _ (ap not fresh))
      ∙ bind-done _ _ (clean-read_all fs en i e)
      ∙ bind-done _ _ (clean-rand_bytes fs en 16)
      ∙ bind-done _ _ (clean-rand_bytes fs (later en 16) 8)
      ∙ bind-done _ _ (clean-derive_keys en' (tabulate 16 en))
      ∙ bind-done _ _ (clean-attempt fs en' crypto)
      ∙ bind-done _ _ (clean-cbc_encrypt en' _ _ plain small)
      ∙ bind-done _ _ (clean-attempt fs en' crypto)
      ∙ bind-done _ _ (require-true crypto (clean fs en') (mac_size _ _))
      ∙ clean-write_file fs en' o _

  pub clean-decrypt :
      (en : ℕ → ℕ) (h : Header) {n : ℕ} {plain : Bytes}
      → fs i ≡ some (flat (header_chunks h))
      → Sizes h
      → h.mac ≡ ssl.hmac (keys_of ssl password h.salt).hmac_key h.ciphertext
      → int_of_size (length h.ciphertext) ≡ some n
      → ssl.bf_decrypt (keys_of ssl password h.salt).cipher_key h.iv (take n h.ciphertext)
        ≡ some plain
      → decrypt ssl i o password (clean fs en) ≡ (done tt, clean (update fs o (some plain)) en)
  unfolding decrypt
  clean-decrypt en h {plain} e s mac small opens =
      bind-done _ _ (clean-read_all fs en i e)
      ∙ bind-done _ _ (require-true _ _ (has-header_chunks h s))
      ∙ rw (split-header_chunks h s) (
          bind-done _ _ (clean-derive_keys en h.salt)
          ∙ bind-done _ _ (clean-attempt fs en bad_password)
          ∙ bind-done _ _ (require-true bad_password (clean fs en) (mac_size _ _))
          ∙ bind-done _ _
              (require-true bad_password (clean fs en) (rw (← mac) (bytes_eq_refl h.mac)))
          ∙ bind-done _ _ (clean-attempt fs en crypto)
          ∙ bind-done _ _ (clean-cbc_decrypt en _ _ _ small opens)
          ∙ clean-write_file fs en o (unless_empty plain)
          ∙ rw (flat-unless_empty plain))
