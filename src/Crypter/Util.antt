-- ===== src/Crypter/Util.antt =====
-- syn_crypt.h and syn_crypt_util.c, the file reader that each algorithm has, and the AES-256-GCM
-- calls that the AES and the RSA format share.
use syn_os.Common.{
  ℕ, Bool, false, ◌&&◌, ◌||◌, Option, none, some, [], ◌∷◌, ◌++◌, Bytes, codes, memcmp_eq, length,
  take, leb,
}
use syn_os.Io.{io, Call, ◌>>=◌, ◌>>◌, return, try, fault, attempt, open_read}

abbrev pub magic_aes : Bytes
magic_aes = codes "SYNA"

abbrev pub magic_blowfish : Bytes
magic_blowfish = codes "SYNB"

abbrev pub magic_rsa : Bytes
magic_rsa = codes "SYNR"

abbrev pub magic_synx : Bytes
magic_synx = codes "SYNX"

-- nine bytes, the last of them the NUL of the literal
abbrev pub marker_redshirt : Bytes
marker_redshirt = codes "REDSHIRT" ++ 0 ∷ []

abbrev pub marker_redshrt2 : Bytes
marker_redshrt2 = codes "REDSHRT2" ++ 0 ∷ []

abbrev pub version : ℕ
version = 1

abbrev pub pbkdf2_iterations : ℕ
pbkdf2_iterations = 200000

-- The test of `syn_crypt_looks_encrypted` on the first bytes of a file.
unfoldable pub recognised : Bytes → Bool
recognised head =
    leb 4 (length head)
      && (memcmp_eq head magic_aes 4
          || memcmp_eq head magic_blowfish 4
          || memcmp_eq head magic_rsa 4
          || memcmp_eq head magic_synx 4)
    || leb 9 (length head) && (memcmp_eq head marker_redshirt 9 || memcmp_eq head marker_redshrt2 9)

-- `fread(head, 1, n, f)`, with as many bytes as it gave
abbrev pub shortened : Option ℕ → Bytes → Bytes
shortened none b = b
shortened (some k) b = take k b

unfoldable pub fread : ℕ → Bytes → Call Bytes
fread n content = do f ← fault; return (shortened f (take n content))

abbrev pub sniff : Option Bytes → Call Bool
sniff none = return false
sniff (some content) = do head ← fread 9 content; return (recognised head)

-- `syn_crypt_looks_encrypted`
unfoldable pub looks_encrypted : Bytes → Call Bool
looks_encrypted path = do content ← try (open_read path); sniff content

abbrev pub read_bytes : Bytes → Call (Unit {0})
read_bytes [] = return tt
read_bytes (b ∷ bs) = attempt io

-- `read_all`: fopen, ftell, malloc and, where the file is not empty, fread. Every caller turns its
-- -1 into SYN_CRYPT_ERR_IO.
unfoldable pub read_all : Bytes → Call Bytes
read_all path = do
  content ← open_read path
  attempt io
  attempt io
  read_bytes content
  return content
