-- ===== src/Crypter/Faultless.antt =====
-- The shared calls of syn-crypter where nothing fails.
use syn_os.Common.{
  ℕ, ◌^◌, ◌<◌, Option, some, [], ◌∷◌, ◌≡◌, refl, ◌∙◌, arith, Bytes, length, take, length-take, ◌≤◌,
}
use syn_os.Io.{Files, Status, io, crypto, done, ◌>>=◌, return}
use syn_os.Io.Clean.{clean, bind-done, try-done, clean-attempt, clean-attempts, clean-open_read}
use syn_os.Crypter.Ssl.{Ssl}
use syn_os.Crypter.Util.{fread, recognised, looks_encrypted, read_bytes, read_all}
use syn_os.Crypter.Gcm.{int_of_size, evp_input, some_or, gcm_seal, gcm_open}

-- A length below 2 GiB survives the cast.
pub int_of_size_small : (n : ℕ) → n < 2 ^ 31 → int_of_size n ≡ some n
unfolding int_of_size
int_of_size_small n h = ground arith

-- What the cast gives is a length within the text, and below 2 GiB.
pub int_of_size_bounds : (m : ℕ) {n : ℕ} → int_of_size m ≡ some n → (n ≤ m) × (n < 2 ^ 31)
unfolding int_of_size
int_of_size_bounds m e = ground arith

-- A prefix of such a length survives the cast whole.
pub int_of_size_prefix :
    (b : Bytes) {n m : ℕ}
    → int_of_size (length b) ≡ some n
    → m ≡ length (take n b)
    → int_of_size m ≡ some n
int_of_size_prefix b {n} {m} e em =
    let bound = int_of_size_bounds (length b) e in
    let same : m ≡ n = omega (arith, length-take n b, bound.0) in
    rw same (int_of_size_small n bound.1)

pub length-le_prefix : (n : ℕ) (b : Bytes) {m : ℕ} → m ≡ length (take n b) → m ≤ n
length-le_prefix n b e = omega (arith, length-take n b)

module _ (fs : Files) (en : ℕ → ℕ) where
  clean-fread : (n : ℕ) (b : Bytes) → fread n b (clean fs en) ≡ (done (take n b), clean fs en)
  unfolding fread return ◌>>=◌
  clean-fread n b = refl

  pub clean-looks_encrypted :
      (path : Bytes) {b : Bytes}
      → fs path ≡ some b
      → looks_encrypted path (clean fs en) ≡ (done (recognised (take 9 b)), clean fs en)
  unfolding looks_encrypted return
  clean-looks_encrypted path e =
      bind-done _ _ (try-done _ (clean-open_read fs en path e)) ∙ bind-done _ _ (clean-fread 9 _)

  clean-read_bytes : (b : Bytes) → read_bytes b (clean fs en) ≡ (done tt, clean fs en)
  unfolding return
  clean-read_bytes [] = refl
  clean-read_bytes (x ∷ b) = clean-attempt fs en io

  pub clean-read_all :
      (path : Bytes) {b : Bytes}
      → fs path ≡ some b
      → read_all path (clean fs en) ≡ (done b, clean fs en)
  unfolding read_all return
  clean-read_all path {b} e =
      bind-done _ _ (clean-open_read fs en path e)
      ∙ bind-done _ _ (clean-attempt fs en io)
      ∙ bind-done _ _ (clean-attempt fs en io)
      ∙ bind-done _ _ (clean-read_bytes b)

  pub clean-evp_input :
      (s : Status) (text : Bytes) {n : ℕ}
      → int_of_size (length text) ≡ some n
      → evp_input s text (clean fs en) ≡ (done (take n text), clean fs en)
  unfolding evp_input return
  clean-evp_input s text e = rw e

  pub clean-some_or :
      {A : Type 0} (s : Status) {o : Option A} {a : A}
      → o ≡ some a
      → some_or s o (clean fs en) ≡ (done a, clean fs en)
  unfolding return
  clean-some_or s e = rw e

  pub clean-gcm_seal :
      (ssl : Ssl) (key iv text : Bytes) {n : ℕ}
      → int_of_size (length text) ≡ some n
      → gcm_seal ssl key iv text (clean fs en)
        ≡ (done (ssl.gcm_encrypt key iv (take n text)), clean fs en)
  unfolding gcm_seal return
  clean-gcm_seal ssl key iv text e =
      bind-done _ _ (clean-attempts fs en 4 crypto)
      ∙ bind-done _ _ (clean-evp_input crypto text e)
      ∙ bind-done _ _ (clean-attempts fs en 3 crypto)

  pub clean-gcm_open :
      (ssl : Ssl) (s : Status) (key iv text tag : Bytes) {n : ℕ} {plain : Bytes}
      → int_of_size (length text) ≡ some n
      → ssl.gcm_decrypt key iv (take n text) tag ≡ some plain
      → gcm_open ssl s key iv text tag (clean fs en) ≡ (done plain, clean fs en)
  unfolding gcm_open
  clean-gcm_open ssl s key iv text tag e d =
      bind-done _ _ (clean-attempts fs en 4 s)
      ∙ bind-done _ _ (clean-evp_input s text e)
      ∙ bind-done _ _ (clean-attempts fs en 3 s)
      ∙ clean-some_or s d
