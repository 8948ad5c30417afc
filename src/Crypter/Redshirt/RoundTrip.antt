-- ===== src/Crypter/Redshirt/RoundTrip.antt =====
-- The three Redshirt variants: what is written is recognised and read back.
use Prim.Native.Nat.{bit_xor}
use syn_os.Common.{
  ℕ, zero, suc, ◌<◌, Bool, not, true, false, if◌then◌else◌, some, [], ◌∷◌, ◌++◌, ◌≡◌, refl, ◌∙◌, ap,
  arith, Bytes, All, length, take, take-append, drop-append, length-append, bytes_eq, bytes_eq_refl,
  ◌==◌,
}
use syn_os.Io.{Files, update, done, unless_empty, return, crypto, corrupt}
use syn_os.Io.Clean.{
  clean, bind-done, try-done, clean-attempt, clean-open_write, clean-write_chunks, clean-fclose,
  clean-write_file, require-true, flat-unless_empty,
}
use syn_os.Crypter.Ssl.{Ssl, Laws}
use syn_os.Crypter.Util.{marker_redshirt, marker_redshrt2, magic_synx, version, recognised}
use syn_os.Crypter.Faultless.{clean-looks_encrypted, clean-read_all}
use syn_os.Crypter.Redshirt.{
  Variant, v1_redshirt, v2_redshrt2, v3_synx, xor_transform, swap_words, swap_sha1_word_endianness,
  digest, write_variant, encrypt, variant_of, open_variant, decrypt,
}

-- The bytes under `n` that two flips of the top bit restore, from the largest down.
mends : ℕ → Bool
mends zero = true
mends (suc x) = if bit_xor (bit_xor x 0x80) 0x80 == x then mends x else false

mends-below : (n x : ℕ) → x < n → mends n ≡ true → bit_xor (bit_xor x 0x80) 0x80 ≡ x
unfolding mends
mends-below zero x under h = absurd (omega arith)
mends-below (suc n) x under h = ground (arith, mends-below n x)

mends_every_byte : mends 256 ≡ true
unfolding mends
mends_every_byte = refl

flip_twice : (x : ℕ) → x < 256 → bit_xor (bit_xor x 0x80) 0x80 ≡ x
flip_twice x under = mends-below 256 x under mends_every_byte

-- The transform undoes itself on bytes.
pub xor_transform_twice : (b : Bytes) → All (λ x. x < 256) b → xor_transform (xor_transform b) ≡ b
unfolding xor_transform
xor_transform_twice [] h = refl
xor_transform_twice (x ∷ b) h = ground (arith, flip_twice x h.0, xor_transform_twice b h.1)

length-swap_words : (n : ℕ) (b : Bytes) → length (swap_words n b) ≡ length b
unfolding swap_words
length-swap_words (suc n) (a ∷ b ∷ c ∷ d ∷ rest) = omega (arith, length-swap_words n rest)
length-swap_words _ _ = refl

length-swap : (b : Bytes) → length (swap_sha1_word_endianness b) ≡ length b
unfolding swap_sha1_word_endianness
length-swap b = length-swap_words 5 b

-- What `encrypt` writes.
unfoldable pub sealed : Ssl → Variant → Bytes → Bytes
sealed ssl v1_redshirt plain = marker_redshirt ++ xor_transform plain
sealed ssl v2_redshrt2 plain =
    marker_redshrt2
    ++ (swap_sha1_word_endianness (ssl.sha1 (xor_transform plain)) ++ xor_transform plain)
sealed ssl v3_synx plain = magic_synx ++ (version ∷ (ssl.sha256 plain ++ xor_transform plain))

variant_of-sealed :
    (ssl : Ssl) (v : Variant) (plain : Bytes) → variant_of (sealed ssl v plain) ≡ some v
unfolding variant_of sealed bytes_eq
variant_of-sealed ssl v1_redshirt plain = ground arith
variant_of-sealed ssl v2_redshrt2 plain = ground arith
variant_of-sealed ssl v3_synx plain = ground arith

clean-digest :
    (fs : Files) (en : ℕ → ℕ) (md : Bytes → Bytes) (text : Bytes) (n : ℕ)
    → length (md text) ≡ n
    → digest md text n (clean fs en) ≡ (done (md text), clean fs en)
unfolding digest return
clean-digest fs en md text n e =
    bind-done _ _ (clean-attempt fs en crypto)
    ∙ bind-done _ _ (require-true crypto (clean fs en) (ground arith))

module _ (ssl : Ssl) (laws : Laws ssl) (fs : Files) (en : ℕ → ℕ) where
  clean-write_variant :
      (v : Variant) (o plain : Bytes)
      → write_variant ssl v o plain (clean (update fs o (some [])) en)
        ≡ (done true, clean (update fs o (some (sealed ssl v plain))) en)
  unfolding write_variant sealed
  clean-write_variant v1_redshirt o plain =
      clean-write_chunks fs en o (marker_redshirt ∷ unless_empty (xor_transform plain)) []
      ∙ rw flat-unless_empty
  clean-write_variant v2_redshrt2 o plain =
      let x : Bytes = xor_transform plain in
      bind-done _ _
        (try-done _ (clean-digest (update fs o (some [])) en ssl.sha1 x 20 (laws.length-sha1 x)))
      ∙ clean-write_chunks fs en o
          (marker_redshrt2 ∷ swap_sha1_word_endianness (ssl.sha1 x) ∷ unless_empty x) []
      ∙ rw flat-unless_empty
  clean-write_variant v3_synx o plain =
      bind-done _ _ (
        try-done _
          (clean-digest (update fs o (some [])) en ssl.sha256 plain 32 (laws.length-sha256 plain)))
      ∙ clean-write_chunks fs en o
          (magic_synx ∷ (version ∷ []) ∷ ssl.sha256 plain ∷ unless_empty (xor_transform plain)) []
      ∙ rw flat-unless_empty

  clean-open_variant :
      (v : Variant) (plain : Bytes)
      → All (λ x. x < 256) plain
      → open_variant ssl (some v) (sealed ssl v plain) (clean fs en) ≡ (done plain, clean fs en)
  unfolding open_variant sealed return
  clean-open_variant v1_redshirt plain bytes = rw (xor_transform_twice plain bytes)
  clean-open_variant v2_redshrt2 plain bytes =
      let x : Bytes = xor_transform plain in
      let h : Bytes = swap_sha1_word_endianness (ssl.sha1 x) in
      let size : length h ≡ 20 = length-swap (ssl.sha1 x) ∙ laws.length-sha1 x in
      rw (drop-append 20 h x size, take-append 20 h x size)
        (bind-done _ _ (require-true corrupt (clean fs en) (ground (arith, length-append h x)))
          ∙ bind-done _ _ (clean-digest fs en ssl.sha1 x 20 (laws.length-sha1 x))
          ∙ bind-done _ _ (require-true corrupt (clean fs en) (bytes_eq_refl h))
          ∙ rw (xor_transform_twice plain bytes))
  clean-open_variant v3_synx plain bytes =
      let x : Bytes = xor_transform plain in
      let h : Bytes = ssl.sha256 plain in
      let size : length h ≡ 32 = laws.length-sha256 plain in
      rw (drop-append 32 h x size, take-append 32 h x size)
        (rw (xor_transform_twice plain bytes) (
          bind-done _ _ (require-true corrupt (clean fs en) (ground (arith, length-append h x)))
          ∙ bind-done _ _ (clean-digest fs en ssl.sha256 plain 32 size)
          ∙ bind-done _ _ (require-true corrupt (clean fs en) (bytes_eq_refl h))))

  pub clean-encrypt :
      (i o : Bytes) (v : Variant) {plain : Bytes}
      → fs i ≡ some plain
      → recognised (take 9 plain) ≡ false
      → encrypt ssl i o v (clean fs en)
        ≡ (done tt, clean (update fs o (some (sealed ssl v plain))) en)
  unfolding encrypt return
  clean-encrypt i o v {plain} e fresh =
      bind-done _ _ (clean-looks_encrypted fs en i e)
      ∙ bind-done _ _ (require-true _ _ (ap not fresh))
      ∙ bind-done _ _ (clean-read_all fs en i e)
      ∙ bind-done _ _ (clean-open_write fs en o)
      ∙ bind-done _ _ (clean-write_variant v o plain)
      ∙ bind-done _ _ (clean-fclose fs en o (sealed ssl v plain))

  pub clean-decrypt :
      (i o : Bytes) (v : Variant) (plain : Bytes)
      → fs i ≡ some (sealed ssl v plain)
      → All (λ x. x < 256) plain
      → decrypt ssl i o (clean fs en) ≡ (done tt, clean (update fs o (some plain)) en)
  unfolding decrypt
  clean-decrypt i o v plain e bytes =
      bind-done _ _ (clean-read_all fs en i e)
      ∙ rw (variant_of-sealed ssl v plain) (
          bind-done _ _ (clean-open_variant v plain bytes)
          ∙ clean-write_file fs en o (unless_empty plain)
          ∙ rw (flat-unless_empty plain))
