-- ===== src/Crypter/Gcm.antt =====
-- The AES-256-GCM calls of syn_crypt_aes.c and syn_crypt_rsa.c, and the C casts before them.
use syn_os.Common.{ℕ, ◌%◌, ◌^◌, Option, none, some, Bytes, length, take, ltb, if◌then◌else◌}
use syn_os.Io.{Status, crypto, Call, ◌>>=◌, ◌>>◌, return, throw, attempts}
use syn_os.Crypter.Ssl.{Ssl}

-- `(int)n` of a `size_t`, where it is not negative
unfoldable pub int_of_size : ℕ → Option ℕ
int_of_size n = let low = n % 2 ^ 32 in if ltb low (2 ^ 31) then some low else none

abbrev pub prefix_or : Status → Bytes → Option ℕ → Call Bytes
prefix_or s text none = throw s
prefix_or s text (some n) = return (take n text)

-- What `EVP_*Update(ctx, out, &len, text, (int)text_len)` reads. A negative length is taken as a call
-- that fails.
unfoldable pub evp_input : Status → Bytes → Call Bytes
unfolding int_of_size
evp_input s text = prefix_or s text (int_of_size (length text))

abbrev pub some_or : {A : Type 0} → Status → Option A → Call A
some_or s none = throw s
some_or s (some a) = return a

module _ (ssl : Ssl) where
  -- context, cipher, iv length, key and iv; update; final, tag
  unfoldable pub gcm_seal : Bytes → Bytes → Bytes → Call (Bytes × Bytes)
  gcm_seal key iv plaintext = do
    attempts 4 crypto
    input ← evp_input crypto plaintext
    attempts 3 crypto
    return (ssl.gcm_encrypt key iv input)

  -- context, cipher, iv length, key and iv; update, expected tag; final. All failures give `s`.
  unfoldable pub gcm_open : Status → Bytes → Bytes → Bytes → Bytes → Call Bytes
  gcm_open s key iv ciphertext tag = do
    attempts 4 s
    input ← evp_input s ciphertext
    attempts 3 s
    some_or s (ssl.gcm_decrypt key iv input tag)
