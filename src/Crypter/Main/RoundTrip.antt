-- ===== src/Crypter/Main/RoundTrip.antt =====
-- Encrypting and then decrypting a file with `run_operation`.
use syn_os.Common.{
  ℕ, ◌+◌, ◌^◌, ◌<◌, true, false, Option, none, some, [], ◌≡◌, ◌≢◌, refl, ◌∙◌, arith, Bytes, All,
  codes, length, take, take_all, bytes_eq,
}
use syn_os.Io.{Files, World, Outcome, done, update}
use syn_os.Io.Clean.{clean, later, flat, length-tabulate}
use syn_os.Crypter.Ssl.{Ssl, Laws, KeyPair}
use syn_os.Crypter.Util.{recognised}
use syn_os.Crypter.Gcm.{int_of_size}
use syn_os.Crypter.Faultless.{int_of_size_small, int_of_size_prefix, length-le_prefix}
use syn_os.Crypter.Aes.RoundTrip as AesTrip
use syn_os.Crypter.Aes
use syn_os.Crypter.Blowfish.RoundTrip as BlowfishTrip
use syn_os.Crypter.Blowfish
use syn_os.Crypter.Rsa.RoundTrip as RsaTrip
use syn_os.Crypter.Rsa
use syn_os.Crypter.Redshirt.RoundTrip as RedshirtTrip
use syn_os.Crypter.Main.{tmp_path, perform, run_operation}
use syn_os.Crypter.Main.Faultless.{replaced, replaced_self, replaced_ne, run_operation_done}
use syn_os.Crypter.Redshirt.{Variant}

-- An encryption and a decryption, one after the other, of `file` with `algo`; each with its own key.
abbrev pub there_and_back :
    Ssl
    → Bytes
    → Bytes
    → Bytes
    → Bytes
    → Variant
    → World
    → Outcome (Option Bytes) × Outcome (Option Bytes) × World
there_and_back ssl algo file key key' v w =
    let (r, w') = run_operation ssl true algo file key v w in
    let (r', w'') = run_operation ssl false algo file key' v w' in (r, r', w'')

-- Both report success, and the file has the content `plain`.
pub record Restores (file plain : Bytes)
    (r : Outcome (Option Bytes) × Outcome (Option Bytes) × World) : Type 0 where
  pub encrypted : r.0 ≡ done none
  pub decrypted : r.1 ≡ done none
  pub content : r.2.files file ≡ some plain

module _ (ssl : Ssl) (laws : Laws ssl) (fs : Files) (en : ℕ → ℕ) (file plain : Bytes)
    (short : length (tmp_path file) < 4096) (v : Variant) where
  restores :
      (algo key key' out text : Bytes) (en' : ℕ → ℕ)
      → perform ssl true algo file key v (clean fs en)
        ≡ (done tt, clean (update fs (tmp_path file) (some out)) en')
      → perform ssl false algo file key' v (clean (replaced fs file out) en')
        ≡ (done tt, clean (update (replaced fs file out) (tmp_path file) (some text)) en')
      → Restores file text (there_and_back ssl algo file key key' v (clean fs en))
  restores algo key key' out text en' e d =
      rw
        (
          run_operation_done ssl true algo file key v fs en short out e,
          run_operation_done ssl false algo file key' v (replaced fs file out) en' short text d,
        )
        (record {
          encrypted = refl;
          decrypted = refl;
          content = replaced_self (replaced fs file out) file text;
        })

  aes_round_trip_cast :
      (password : Bytes) {n : ℕ}
      → fs file ≡ some plain
      → recognised (take 9 plain) ≡ false
      → int_of_size (length plain) ≡ some n
      → Restores file
          (take n plain)
          (there_and_back ssl (codes "aes") file password password v (clean fs en))
  unfolding perform bytes_eq AesTrip.sealed
  aes_round_trip_cast password {n} e fresh small =
      let h = AesTrip.sealed ssl password en (take n plain) in
      let size = int_of_size_prefix plain small (laws.length-gcm _ _ (take n plain)) in
      restores (codes "aes") password password (flat (Aes.header_chunks h)) (take n plain) _
        (AesTrip.clean-encrypt ssl file (tmp_path file) password fs en e fresh small)
        (AesTrip.clean-decrypt ssl file (tmp_path file) password (replaced fs file _) _ h
          (replaced_self fs file _)
          (record {
            salt = length-tabulate 16 en;
            iv = length-tabulate 12 (later en 16);
            iterations = refl;
            tag = laws.length-tag _ _ _;
          })
          size
          (rw (take_all n h.ciphertext (length-le_prefix n plain (laws.length-gcm _ _ _)))
            (laws.gcm_lem _ _ _)))

  -- With no call failing, AES: a file of less than 2 GiB that does not look encrypted, under a path
  -- of less than 4092 bytes, is restored by decrypting with the password that encrypted it.
  pub aes_round_trip :
      (password : Bytes)
      → fs file ≡ some plain
      → recognised (take 9 plain) ≡ false
      → length plain < 2 ^ 31
      → Restores file plain
          (there_and_back ssl (codes "aes") file password password v (clean fs en))
  aes_round_trip password e fresh small =
      rw (take_all (length plain) plain (omega arith)) at
        (aes_round_trip_cast password e fresh (int_of_size_small (length plain) small))

  -- With no call failing, AES on a file of 4 GiB and `k` bytes more, `k` below 2 GiB: both the
  -- encryption and the decryption report success, and the file is left with its first `k` bytes.
  pub aes_truncates :
      (password : Bytes) (k : ℕ)
      → fs file ≡ some plain
      → recognised (take 9 plain) ≡ false
      → k < 2 ^ 31
      → length plain ≡ 2 ^ 32 + k
      → Restores file
          (take k plain)
          (there_and_back ssl (codes "aes") file password password v (clean fs en))
  aes_truncates password k e fresh small size =
      aes_round_trip_cast password e fresh (rw size (unfold int_of_size in ground arith))

  -- With no call failing, Blowfish: the same, for a file that leaves room for 8 bytes of padding.
  pub blowfish_round_trip :
      (password : Bytes)
      → fs file ≡ some plain
      → recognised (take 9 plain) ≡ false
      → length plain + 8 < 2 ^ 31
      → Restores file plain
          (there_and_back ssl (codes "blowfish") file password password v (clean fs en))
  unfolding perform bytes_eq BlowfishTrip.sealed
  blowfish_round_trip password e fresh small =
      let n = length plain in
      let h = BlowfishTrip.sealed ssl password en plain in
      let size : length h.ciphertext < 2 ^ 31 = omega (arith, laws.length-bf _ _ plain) in
      restores (codes "blowfish") password password (flat (Blowfish.header_chunks h)) plain _
        (rw (take_all n plain (omega arith)) at (
          BlowfishTrip.clean-encrypt ssl laws file (tmp_path file) password fs en e fresh
            (int_of_size_small n (omega arith))))
        (BlowfishTrip.clean-decrypt ssl laws file (tmp_path file) password (replaced fs file _) _ h
          (replaced_self fs file _)
          (record {
            salt = length-tabulate 16 en;
            iv = length-tabulate 8 (later en 16);
            mac = laws.length-hmac _ _;
          })
          refl (int_of_size_small _ size)
          (rw (take_all (length h.ciphertext) h.ciphertext (omega arith)) (laws.bf_lem _ _ _)))

  -- With no call failing, each Redshirt variant: a file of bytes that does not look encrypted is
  -- restored, the variant being found from the file.
  pub redshirt_round_trip :
      fs file ≡ some plain
      → recognised (take 9 plain) ≡ false
      → All (λ x. x < 256) plain
      → Restores file plain (there_and_back ssl (codes "redshirt") file [] [] v (clean fs en))
  unfolding perform bytes_eq
  redshirt_round_trip e fresh bytes =
      restores (codes "redshirt") [] [] (RedshirtTrip.sealed ssl v plain) plain en
        (RedshirtTrip.clean-encrypt ssl laws fs en file (tmp_path file) v e fresh)
        (RedshirtTrip.clean-decrypt ssl laws (replaced fs file _) en file (tmp_path file) v plain
          (replaced_self fs file _) bytes)

  -- With no call failing, RSA: a file of less than 2 GiB that does not look encrypted is restored,
  -- where the two PEM files, which are neither the file nor its temporary file, hold a key pair.
  pub rsa_round_trip :
      (public_path private_path : Bytes) {public_pem private_pem public private : Bytes}
      → KeyPair ssl public private
      → fs public_path ≡ some public_pem
      → fs private_path ≡ some private_pem
      → ssl.pem_public public_pem ≡ some public
      → ssl.pem_private private_pem ≡ some private
      → tmp_path file ≢ private_path
      → file ≢ private_path
      → fs file ≡ some plain
      → recognised (take 9 plain) ≡ false
      → length plain < 2 ^ 31
      → Restores file plain
          (there_and_back ssl (codes "rsa") file public_path private_path v (clean fs en))
  unfolding perform bytes_eq RsaTrip.sealed
  rsa_round_trip public_path private_path {public} pair ek ek' pem pem' ne_tmp ne e fresh small =
      let n = length plain in
      let h = RsaTrip.sealed ssl public en plain in
      let size : length h.ciphertext ≡ n = laws.length-gcm _ _ plain in
      restores (codes "rsa") public_path private_path (flat (Rsa.header_chunks h)) plain _
        (rw (take_all n plain (omega arith)) at (
          RsaTrip.clean-encrypt ssl pair file (tmp_path file) public_path fs en e ek pem fresh
            (int_of_size_small n small)))
        (RsaTrip.clean-decrypt ssl pair file (tmp_path file) private_path (replaced fs file _) _ h
          (replaced_self fs file _) (replaced_ne fs file _ private_path ne_tmp ne ∙ ek') pem'
          (record {
            wrapped_key = pair.length-wrapped _ _ (length-tabulate 32 en);
            iv = length-tabulate 12 (later en 32);
            tag = laws.length-tag _ _ _;
          })
          (omega arith) (pair.oaep_lem _ _ (length-tabulate 32 en)) (length-tabulate 32 en)
          (int_of_size_small (length h.ciphertext) (omega arith))
          (rw (take_all (length h.ciphertext) h.ciphertext (omega arith)) (laws.gcm_lem _ _ _)))
