-- ===== src/Crypter/Tests.antt =====
-- A stand-in for OpenSSL that satisfies the laws, runs of the programs on it, and the theorems at
-- concrete inputs.
use syn_os.Common.{
  ℕ, zero, suc, ◌+◌, ◌-◌, ◌%◌, ◌^◌, true, false, Option, none, some, [], ◌∷◌, ◌++◌, ◌≡◌, refl,
  arith, ap, Bytes, codes, bytes_eq, bytes_eq_refl, length, length-append, take, ◌==◌,
  if◌then◌else◌,
}
use syn_os.Io.{World, Files, update, tabulate}
use syn_os.Io.Clean.{clean}
use syn_os.Crypter.Ssl.{Ssl, Laws, KeyPair}
use syn_os.Crypter.Util.{recognised}
use syn_os.Io.Clean.{length-tabulate}
use syn_os.Io.Refuse.{Refuses}
use syn_os.Crypter.Aes
use syn_os.Crypter.Blowfish
use syn_os.Crypter.Rsa
use syn_os.Crypter.Redshirt
use syn_os.Crypter.Authentic.{
  blowfish_tampered, aes_tampered, redshirt_tampered, rsa_header_refused, rsa_pieces,
}
use syn_os.Crypter.Cli.{run_cli}
use syn_os.Crypter.Cli.Usage.{Usage, ended, run_cli_runs}
use syn_os.Crypter.Redshirt.{v1_redshirt, v2_redshrt2, v3_synx}
use syn_os.Crypter.Main.{run_operation, perform}
use syn_os.Crypter.Main.Atomic.{Leaves, run_operation_atomic}
use syn_os.Crypter.Main.RoundTrip.{
  Restores, there_and_back, aes_round_trip, blowfish_round_trip, rsa_round_trip,
  redshirt_round_trip, aes_truncates,
}

abbrev zeros : ℕ → Bytes
zeros zero = []
zeros (suc n) = 0 ∷ zeros n

length-zeros : (n : ℕ) → length (zeros n) ≡ n
length-zeros zero = refl
length-zeros (suc n) = ap suc (length-zeros n)

-- padding with a 1 and zeros
pad : Bytes → Bytes
pad b = b ++ (1 ∷ zeros (7 - length b % 8))

abbrev strip_head : ℕ → Option Bytes → Option Bytes
strip_head x (some ys) = some (x ∷ ys)
strip_head x none = if x == 1 then some [] else none

strip : Bytes → Option Bytes
strip [] = none
strip (x ∷ xs) = strip_head x (strip xs)

strip-zeros : (n : ℕ) → strip (zeros n) ≡ none
unfolding strip
strip-zeros zero = refl
strip-zeros (suc n) = rw (strip-zeros n)

strip-append : (n : ℕ) (b : Bytes) → strip (b ++ (1 ∷ zeros n)) ≡ some b
unfolding strip
strip-append n [] = rw (strip-zeros n)
strip-append n (x ∷ b) = rw (strip-append n b)

abbrev open_sealed : Bytes → Bytes → Option Bytes
open_sealed c t = if bytes_eq t (zeros 16) then some c else none

abbrev toy : Ssl
toy = record {
  pbkdf2 = λ p s r n. p;
  sha1 = λ b. zeros 20;
  sha256 = λ b. zeros 32;
  hmac = λ k b. zeros 32;
  gcm_encrypt = λ k iv b. (b, zeros 16);
  gcm_decrypt = λ k iv c t. open_sealed c t;
  bf_encrypt = λ k iv b. pad b;
  bf_decrypt = λ k iv b. strip b;
  pem_public = some;
  pem_private = some;
  oaep_encrypt = λ k seed m. m;
  oaep_decrypt = λ k c. some c;
  oaep_size = λ k. 256;
}

toy-Laws : Laws toy
unfolding pad
toy-Laws = record {
  length-sha1 = λ b. refl;
  length-sha256 = λ b. refl;
  length-hmac = λ k b. refl;
  length-tag = λ k iv b. refl;
  length-gcm = λ k iv b. refl;
  length-bf = λ k iv b.
      omega
        (arith, length-append b (1 ∷ zeros (7 - length b % 8)), length-zeros (7 - length b % 8));
  gcm_lem = λ k iv b. rw (bytes_eq_refl (zeros 16));
  bf_lem = λ k iv b. strip-append (7 - length b % 8) b;
}

toy-KeyPair : (public private : Bytes) → KeyPair toy public private
toy-KeyPair public private = record {
  oaep_lem = λ seed m h. refl;
  size = omega arith;
  length-wrapped = λ seed m h. omega arith;
}

abbrev file : Bytes
file = codes "a"

abbrev files : Files
files = update (update (λ p. none) (codes "k") (some (codes "key"))) file (some (codes "hello"))

abbrev dice : ℕ → ℕ
dice i = i % 256

abbrev start : World
start = clean files dice

there : files file ≡ some (codes "hello")
unfolding bytes_eq
there = refl

fresh : recognised (take 9 (codes "hello")) ≡ false
unfolding recognised bytes_eq
fresh = refl

aes_round_trip_example :
    Restores file
      (codes "hello")
      (there_and_back toy (codes "aes") file (codes "pw") (codes "pw") v3_synx start)
aes_round_trip_example =
    aes_round_trip toy toy-Laws files dice file (codes "hello") (omega arith) v3_synx (codes "pw")
      there fresh (omega arith)

blowfish_round_trip_example :
    Restores file
      (codes "hello")
      (there_and_back toy (codes "blowfish") file (codes "pw") (codes "pw") v3_synx start)
blowfish_round_trip_example =
    blowfish_round_trip toy toy-Laws files dice file (codes "hello") (omega arith) v3_synx
      (codes "pw") there fresh (omega arith)

redshirt_round_trip_example :
    Restores file
      (codes "hello")
      (there_and_back toy (codes "redshirt") file [] [] v2_redshrt2 start)
redshirt_round_trip_example =
    redshirt_round_trip toy toy-Laws files dice file (codes "hello") (omega arith) v2_redshrt2 there
      fresh (omega arith)

key_there : files (codes "k") ≡ some (codes "key")
unfolding bytes_eq
key_there = refl

rsa_round_trip_example :
    Restores file
      (codes "hello")
      (there_and_back toy (codes "rsa") file (codes "k") (codes "k") v3_synx start)
rsa_round_trip_example =
    rsa_round_trip toy toy-Laws files dice file (codes "hello") (omega arith) v3_synx (codes "k")
      (codes "k") (toy-KeyPair (codes "key") (codes "key")) key_there key_there refl refl
      (λ e. absurd (omega (arith, ap length e))) (λ e. ground arith) there fresh (omega arith)

-- A world in which the third call fails, after two bytes.
abbrev faulty : World
faulty = record start { faults = none ∷ none ∷ some 2 ∷ [] }

run_operation_atomic_example :
    Leaves true file faulty
      (perform toy true (codes "aes") file (codes "pw") v3_synx (clean faulty.files faulty.entropy))
      (perform toy true (codes "aes") file (codes "pw") v3_synx faulty)
      (run_operation toy true (codes "aes") file (codes "pw") v3_synx faulty)
run_operation_atomic_example =
    run_operation_atomic toy true (codes "aes") file (codes "pw") v3_synx faulty

-- nine digits and then zeros, 4 GiB and five bytes in all
abbrev big : Bytes
big = codes "123456789" ++ tabulate (2 ^ 32 - 4) (λ i. 0)

abbrev big_files : Files
big_files = update (λ p. none) file (some big)

aes_truncates_example :
    Restores file (take 5 big) (
      there_and_back toy
        (codes "aes")
        file
        (codes "pw")
        (codes "pw")
        v3_synx
        (clean big_files dice))
unfolding recognised bytes_eq
aes_truncates_example =
    aes_truncates toy toy-Laws big_files dice file big (omega arith) v3_synx (codes "pw") 5 refl
      refl (omega arith) (omega (arith, length-tabulate (2 ^ 32 - 4) (λ i. 0)))

abbrev only : Bytes → Files
only content = update (λ p. none) file (some content)

only_there : (content : Bytes) → only content file ≡ some content
unfolding bytes_eq
only_there content = refl

abbrev forged_blowfish : Bytes
forged_blowfish = codes "SYNB" ++ (1 ∷ (zeros 24 ++ (7 ∷ (zeros 31 ++ codes "text"))))

blowfish_tampered_example :
    Refuses (only forged_blowfish) (Blowfish.decrypt toy file (codes "b") (codes "pw"))
unfolding Blowfish.split_header
blowfish_tampered_example =
    blowfish_tampered (only forged_blowfish) file (only_there forged_blowfish) toy (codes "b")
      (codes "pw") (λ e. cc)

abbrev forged_aes : Bytes
forged_aes = codes "SYNA" ++ (1 ∷ (zeros 32 ++ (9 ∷ (zeros 15 ++ codes "text"))))

aes_tampered_example : Refuses (only forged_aes) (Aes.decrypt toy file (codes "b") (codes "pw"))
unfolding Aes.split_header bytes_eq
aes_tampered_example =
    aes_tampered (only forged_aes) file (only_there forged_aes) toy (codes "b") (codes "pw")
      (omega arith) refl

abbrev forged_redshirt : Bytes
forged_redshirt = codes "REDSHRT2" ++ (0 ∷ (1 ∷ (zeros 19 ++ codes "text")))

redshirt_tampered_example : Refuses (only forged_redshirt) (Redshirt.decrypt toy file (codes "b"))
unfolding Redshirt.variant_of bytes_eq Redshirt.swap_sha1_word_endianness
redshirt_tampered_example =
    redshirt_tampered (only forged_redshirt) file (only_there forged_redshirt) toy (codes "b")
      (λ e. cc)

abbrev short_rsa : Bytes
short_rsa = codes "SYNR" ++ (1 ∷ 0 ∷ 0 ∷ 0 ∷ 200 ∷ codes "text")

rsa_header_refused_example : Refuses (only short_rsa) (Rsa.decrypt toy file (codes "b") (codes "k"))
unfolding Rsa.wrapped_len
rsa_header_refused_example =
    rsa_header_refused (only short_rsa) file (only_there short_rsa) toy (codes "b") (codes "k")
      (omega arith) (omega arith)

abbrev small_rsa : Bytes
small_rsa = codes "SYNR" ++ (1 ∷ 0 ∷ 0 ∷ 0 ∷ 1 ∷ zeros 30)

rsa_pieces_example :
    (length (Rsa.split_header small_rsa).wrapped_key ≡ Rsa.wrapped_len small_rsa)
    × (length (Rsa.split_header small_rsa).iv ≡ 12)
    × (length (Rsa.split_header small_rsa).tag ≡ 16)
    × (length (Rsa.split_header small_rsa).ciphertext + Rsa.full_header small_rsa
        ≡ length small_rsa)
unfolding Rsa.header_fits Rsa.full_header Rsa.wrapped_len
rsa_pieces_example = rsa_pieces small_rsa refl (omega arith)

run_cli_runs_example :
    run_cli toy
      (codes "syn-crypter" ∷ codes "--encrypt" ∷ codes "--aes" ∷ file ∷ [])
      (codes "pw" ++ (10 ∷ codes "more"))
      start
    ≡ (
      ended true (run_operation toy true (codes "aes") file (codes "pw") v3_synx start).0,
      (run_operation toy true (codes "aes") file (codes "pw") v3_synx start).1,
    )
run_cli_runs_example =
    run_cli_runs toy (codes "pw") (codes "more") start (Usage.aes (codes "syn-crypter") file true)
      (ground arith) (omega arith)
