-- ===== src/Crypter/Aes/RoundTrip.antt =====
-- The AES format: what is written is read back.
use syn_os.Common.{
  ℕ, not, true, false, some, ◌++◌, ◌≡◌, ◌∙◌, ap, arith, Bytes, length, take, take-append,
  drop-append, be32, length-append, bytes_eq,
}
use syn_os.Io.{Files, update, done, tabulate, unless_empty, return, crypto, bad_password}
use syn_os.Io.Clean.{
  clean, later, flat, bind-done, clean-attempt, clean-rand_bytes, clean-write_file, require-true,
  flat-unless_empty,
}
use syn_os.Crypter.Ssl.{Ssl}
use syn_os.Crypter.Util.{recognised, pbkdf2_iterations}
use syn_os.Crypter.Gcm.{int_of_size}
use syn_os.Crypter.Faultless.{clean-looks_encrypted, clean-read_all, clean-gcm_seal, clean-gcm_open}
use syn_os.Crypter.Aes.{
  Header, header_chunks, has_header, split_header, derive_key, encrypt, decrypt,
}

pub record Sizes (h : Header) : Type 0 where
  pub salt : length h.salt ≡ 16
  pub iv : length h.iv ≡ 12
  pub iterations : length h.iterations ≡ 4
  pub tag : length h.tag ≡ 16

-- The pointer steps of the decryption find the pieces that the encryption wrote.
pub split-header_chunks : (h : Header) → Sizes h → split_header (flat (header_chunks h)) ≡ h
unfolding split_header header_chunks
split-header_chunks h s =
    let r4 = h.ciphertext in
    let r3 : Bytes = h.tag ++ r4 in
    let r2 : Bytes = h.iterations ++ r3 in
    let r1 : Bytes = h.iv ++ r2 in
    simp (flat-unless_empty h.ciphertext) (
      simp (
        drop-append 16 h.salt r1 s.salt,
        take-append 16 h.salt r1 s.salt,
        drop-append 12 h.iv r2 s.iv,
        take-append 12 h.iv r2 s.iv,
        drop-append 4 h.iterations r3 s.iterations,
        take-append 4 h.iterations r3 s.iterations,
        drop-append 16 h.tag r4 s.tag,
        take-append 16 h.tag r4 s.tag,
      ))

has-header_chunks : (h : Header) → Sizes h → has_header (flat (header_chunks h)) ≡ true
unfolding header_chunks bytes_eq
has-header_chunks h s =
    let r4 : Bytes = flat (unless_empty h.ciphertext) in
    let r3 : Bytes = h.tag ++ r4 in
    let r2 : Bytes = h.iterations ++ r3 in
    let r1 : Bytes = h.iv ++ r2 in
    ground (
      arith,
      length-append h.salt r1,
      length-append h.iv r2,
      length-append h.iterations r3,
      length-append h.tag r4,
    )

-- What `encrypt` writes for these random bytes.
unfoldable pub sealed : Ssl → Bytes → (ℕ → ℕ) → Bytes → Header
sealed ssl password en plaintext =
    let key = ssl.pbkdf2 password (tabulate 16 en) pbkdf2_iterations 32 in
    let out = ssl.gcm_encrypt key (tabulate 12 (later en 16)) plaintext in
    record {
      salt = tabulate 16 en;
      iv = tabulate 12 (later en 16);
      iterations = be32 pbkdf2_iterations;
      tag = out.1;
      ciphertext = out.0;
    }

module _ (ssl : Ssl) (i o password : Bytes) where
  clean-derive_key :
      (fs : Files) (en : ℕ → ℕ) (salt : Bytes)
      → derive_key ssl password salt (clean fs en)
        ≡ (done (ssl.pbkdf2 password salt pbkdf2_iterations 32), clean fs en)
  unfolding derive_key return
  clean-derive_key fs en salt = bind-done _ _ (clean-attempt fs en crypto)

  pub clean-encrypt :
      (fs : Files) (en : ℕ → ℕ) {plain : Bytes} {n : ℕ}
      → fs i ≡ some plain
      → recognised (take 9 plain) ≡ false
      → int_of_size (length plain) ≡ some n
      → encrypt ssl i o password (clean fs en) ≡ (
        done tt,
        clean
            (update fs o (some (flat (header_chunks (sealed ssl password en (take n plain))))))
            (later (later en 16) 12),
      )
  unfolding encrypt sealed
  clean-encrypt fs en {plain} e fresh small =
      bind-done _ _ (clean-looks_encrypted fs en i e)
      ∙ bind-done _ _ (require-true _ _ (ap not fresh))
      ∙ bind-done _ _ (clean-read_all fs en i e)
      ∙ bind-done _ _ (clean-rand_bytes fs en 16)
      ∙ bind-done _ _ (clean-rand_bytes fs (later en 16) 12)
      ∙ bind-done _ _ (clean-derive_key fs (later (later en 16) 12) (tabulate 16 en))
      ∙ bind-done _ _ (clean-attempt fs (later (later en 16) 12) crypto)
      ∙ bind-done _ _ (clean-gcm_seal fs (later (later en 16) 12) ssl _ _ plain small)
      ∙ clean-write_file fs (later (later en 16) 12) o _

  pub clean-decrypt :
      (fs : Files) (en : ℕ → ℕ) (h : Header) {n : ℕ} {plain : Bytes}
      → fs i ≡ some (flat (header_chunks h))
      → Sizes h
      → int_of_size (length h.ciphertext) ≡ some n
      → ssl.gcm_decrypt
          (ssl.pbkdf2 password h.salt pbkdf2_iterations 32)
          h.iv
          (take n h.ciphertext)
          h.tag
        ≡ some plain
      → decrypt ssl i o password (clean fs en) ≡ (done tt, clean (update fs o (some plain)) en)
  unfolding decrypt
  clean-decrypt fs en h {plain} e s small opens =
      bind-done _ _ (clean-read_all fs en i e)
      ∙ bind-done _ _ (require-true _ _ (has-header_chunks h s))
      ∙ rw (split-header_chunks h s) (
          bind-done _ _ (clean-derive_key fs en h.salt)
          ∙ bind-done _ _ (clean-attempt fs en crypto)
          ∙ bind-done _ _ (clean-gcm_open fs en ssl bad_password _ _ _ _ small opens)
          ∙ clean-write_file fs en o (unless_empty plain)
          ∙ rw (flat-unless_empty plain))
