-- ===== src/Crypter/Rsa/RoundTrip.antt =====
-- The RSA format: what is written is read back.
use syn_os.Common.{
  ℕ, ◌+◌, ◌^◌, ◌≤◌, ◌<◌, not, true, false, some, ◌++◌, ◌≡◌, refl, ◌∙◌, ap, arith, Bytes, length,
  take, take-append, drop-append, length-append, bytes_eq, le→leb,
}
use syn_os.Io.{
  Files, update, done, tabulate, unless_empty, return, crypto, bad_password, corrupt, format,
}
use syn_os.Io.Clean.{
  clean, later, flat, bind-done, clean-attempt, clean-attempts, clean-rand_bytes, clean-open_read,
  clean-write_file, require-true, length-tabulate, flat-unless_empty,
}
use syn_os.Crypter.Ssl.{Ssl, KeyPair}
use syn_os.Crypter.Util.{recognised}
use syn_os.Crypter.Gcm.{int_of_size}
use syn_os.Crypter.Faultless.{
  clean-looks_encrypted, clean-read_all, clean-gcm_seal, clean-gcm_open, clean-some_or,
}
use syn_os.Crypter.Rsa.{
  Header, header_chunks, has_header, header_fits, wrapped_len, full_header, split_header, wrap_key,
  unwrap_key, encrypt, decrypt,
}

pub record Sizes (h : Header) : Type 0 where
  pub wrapped_key : length h.wrapped_key ≤ 1024
  pub iv : length h.iv ≡ 12
  pub tag : length h.tag ≡ 16

module _ (h : Header) (s : Sizes h) where
  wrapped_len-header_chunks : wrapped_len (flat (header_chunks h)) ≡ length h.wrapped_key
  unfolding wrapped_len header_chunks
  wrapped_len-header_chunks = omega arith

  -- The pointer steps of the decryption find the pieces that the encryption wrote.
  pub split-header_chunks : split_header (flat (header_chunks h)) ≡ h
  unfolding split_header
  split-header_chunks =
      let r3 = h.ciphertext in
      let r2 : Bytes = h.tag ++ r3 in
      let r1 : Bytes = h.iv ++ r2 in
      rw wrapped_len-header_chunks (
        unfold header_chunks in
        simp (flat-unless_empty h.ciphertext) (
          simp (
            drop-append (length h.wrapped_key) h.wrapped_key r1 refl,
            take-append (length h.wrapped_key) h.wrapped_key r1 refl,
            drop-append 12 h.iv r2 s.iv,
            take-append 12 h.iv r2 s.iv,
            drop-append 16 h.tag r3 s.tag,
            take-append 16 h.tag r3 s.tag,
          )))

  length-header_chunks :
      length (flat (header_chunks h)) ≡ 37 + length h.wrapped_key + length h.ciphertext
  unfolding header_chunks
  length-header_chunks =
      let r3 = h.ciphertext in
      let r2 : Bytes = h.tag ++ r3 in
      let r1 : Bytes = h.iv ++ r2 in
      rw (flat-unless_empty h.ciphertext) (
        omega (
          arith,
          length-append h.wrapped_key r1,
          length-append h.iv r2,
          length-append h.tag r3,
          s.iv,
          s.tag,
        ))

  has-header_chunks : has_header (flat (header_chunks h)) ≡ true
  unfolding header_chunks bytes_eq
  has-header_chunks = ground arith

  fits-header_chunks : length h.ciphertext < 2 ^ 32 → header_fits (flat (header_chunks h)) ≡ true
  unfolding header_fits full_header
  fits-header_chunks short = ground (arith, wrapped_len-header_chunks, length-header_chunks)

-- What `encrypt` writes for these random bytes.
unfoldable pub sealed : Ssl → Bytes → (ℕ → ℕ) → Bytes → Header
sealed ssl public en plaintext =
    let en2 = later (later en 32) 12 in
    let out = ssl.gcm_encrypt (tabulate 32 en) (tabulate 12 (later en 32)) plaintext in
    record {
      wrapped_key = ssl.oaep_encrypt public (tabulate 32 en2) (tabulate 32 en);
      iv = tabulate 12 (later en 32);
      tag = out.1;
      ciphertext = out.0;
    }

module _ (ssl : Ssl) {public private : Bytes} (pair : KeyPair ssl public private)
    (i o key_path : Bytes) (fs : Files) where
  clean-wrap_key :
      (en : ℕ → ℕ) (key : Bytes)
      → length key ≡ 32
      → wrap_key ssl public key (clean fs en)
        ≡ (done (ssl.oaep_encrypt public (tabulate 32 en) key), clean fs (later en 32))
  unfolding wrap_key return
  clean-wrap_key en key size =
      bind-done _ _ (clean-attempts fs en 4 crypto)
      ∙ bind-done _ _ (clean-rand_bytes fs en 32)
      ∙ bind-done _ _ (require-true crypto _ (le→leb _ _ (pair.length-wrapped _ _ size)))

  clean-unwrap_key :
      (en : ℕ → ℕ) (wrapped key : Bytes)
      → ssl.oaep_decrypt private wrapped ≡ some key
      → length key ≡ 32
      → unwrap_key ssl private wrapped (clean fs en) ≡ (done key, clean fs en)
  unfolding unwrap_key return
  clean-unwrap_key en wrapped key opens size =
      bind-done _ _ (clean-attempts fs en 5 bad_password)
      ∙ bind-done _ _ (require-true bad_password _ (le→leb _ _ pair.size))
      ∙ bind-done _ _ (clean-attempt fs en bad_password)
      ∙ bind-done _ _ (clean-some_or fs en bad_password opens)
      ∙ bind-done _ _ (require-true bad_password (clean fs en) (ground arith))

  pub clean-encrypt :
      (en : ℕ → ℕ) {pem plain : Bytes} {n : ℕ}
      → fs i ≡ some plain
      → fs key_path ≡ some pem
      → ssl.pem_public pem ≡ some public
      → recognised (take 9 plain) ≡ false
      → int_of_size (length plain) ≡ some n
      → encrypt ssl i o key_path (clean fs en) ≡ (
        done tt,
        clean
            (update fs o (some (flat (header_chunks (sealed ssl public en (take n plain))))))
            (later (later (later en 32) 12) 32),
      )
  unfolding encrypt sealed
  clean-encrypt en {plain} e ek pem fresh small =
      let en2 = later (later en 32) 12 in
      bind-done _ _ (clean-looks_encrypted fs en i e)
      ∙ bind-done _ _ (require-true _ _ (ap not fresh))
      ∙ bind-done _ _ (clean-open_read fs en key_path ek)
      ∙ bind-done _ _ (clean-some_or fs en format pem)
      ∙ bind-done _ _ (clean-read_all fs en i e)
      ∙ bind-done _ _ (clean-rand_bytes fs en 32)
      ∙ bind-done _ _ (clean-rand_bytes fs (later en 32) 12)
      ∙ bind-done _ _ (clean-attempt fs en2 crypto)
      ∙ bind-done _ _ (clean-gcm_seal fs en2 ssl _ _ plain small)
      ∙ bind-done _ _ (clean-wrap_key en2 _ (length-tabulate 32 en))
      ∙ clean-write_file fs (later en2 32) o _

  pub clean-decrypt :
      (en : ℕ → ℕ) (h : Header) {n : ℕ} {pem key plain : Bytes}
      → fs i ≡ some (flat (header_chunks h))
      → fs key_path ≡ some pem
      → ssl.pem_private pem ≡ some private
      → Sizes h
      → length h.ciphertext < 2 ^ 32
      → ssl.oaep_decrypt private h.wrapped_key ≡ some key
      → length key ≡ 32
      → int_of_size (length h.ciphertext) ≡ some n
      → ssl.gcm_decrypt key h.iv (take n h.ciphertext) h.tag ≡ some plain
      → decrypt ssl i o key_path (clean fs en) ≡ (done tt, clean (update fs o (some plain)) en)
  unfolding decrypt
  clean-decrypt en h {key} {plain} e ek pem s short unwraps size small opens =
      bind-done _ _ (clean-open_read fs en key_path ek)
      ∙ bind-done _ _ (clean-some_or fs en format pem)
      ∙ bind-done _ _ (clean-read_all fs en i e)
      ∙ bind-done _ _ (require-true _ _ (has-header_chunks h s))
      ∙ bind-done _ _ (require-true _ _ (fits-header_chunks h s short))
      ∙ rw (split-header_chunks h s) (
          bind-done _ _ (clean-unwrap_key en h.wrapped_key key unwraps size)
          ∙ bind-done _ _ (clean-attempt fs en corrupt)
          ∙ bind-done _ _ (clean-gcm_open fs en ssl corrupt _ _ _ _ small opens)
          ∙ clean-write_file fs en o (unless_empty plain)
          ∙ rw (flat-unless_empty plain))
