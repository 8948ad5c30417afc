-- ===== src/Crypter/Main.antt =====
-- main.c of syn-crypter: one operation with its temporary file, and the command line.
pub mod Atomic
pub mod Faultless
pub mod RoundTrip
use syn_os.Common.{
  Bool, Option, none, some, ◌++◌, Bytes, codes, bytes_eq, length, leb, if◌then◌else◌,
}
use syn_os.Io.{
  Status, io, crypto, bad_password, corrupt, format, already_encrypted, not_encrypted, Outcome,
  done, fail, Call, ◌>>=◌, ◌>>◌, return, outcome, remove, rename,
}
use syn_os.Crypter.Ssl.{Ssl}
use syn_os.Crypter.Aes
use syn_os.Crypter.Blowfish
use syn_os.Crypter.Rsa
use syn_os.Crypter.Redshirt
use syn_os.Crypter.Redshirt.{Variant}

-- `status_message`, without its case SYN_CRYPT_OK
unfoldable pub status_message : Status → Bytes
status_message io = codes "I/O error (missing file, permissions, or disk full)"
status_message crypto = codes "internal crypto operation failed"
status_message bad_password = codes "wrong password/key, or file is corrupted"
status_message corrupt = codes "file is corrupted or truncated"
status_message format = codes "not a recognized syn-crypter file for this algorithm"
status_message already_encrypted = codes "file is already encrypted (refusing to double-encrypt)"
status_message not_encrypted = codes "file is not a recognized encrypted format"

abbrev pub tmp_path : Bytes → Bytes
tmp_path file = file ++ codes ".tmp"

-- what becomes of the temporary file: `none` is the result 0, `some err` the result 1
unfoldable pub conclude : Bytes → Outcome (Unit {0}) → Call (Option Bytes)
unfolding status_message
conclude file (fail s) = do remove (tmp_path file); return (some (status_message s))
conclude file (done _) = do
  renamed ← rename (tmp_path file) file
  return (if renamed then none else some (codes "succeeded but failed to replace original file"))

module _ (ssl : Ssl) where
  -- the dispatch on `algo` and `encrypt`
  unfoldable pub perform : Bool → Bytes → Bytes → Bytes → Variant → Call (Unit {0})
  perform encrypt algo file key_or_password variant =
      if bytes_eq algo (codes "aes")
      then (if encrypt
          then Aes.encrypt ssl file (tmp_path file) key_or_password
          else Aes.decrypt ssl file (tmp_path file) key_or_password)
      else if bytes_eq algo (codes "blowfish")
      then (if encrypt
          then Blowfish.encrypt ssl file (tmp_path file) key_or_password
          else Blowfish.decrypt ssl file (tmp_path file) key_or_password)
      else if bytes_eq algo (codes "rsa")
      then (if encrypt
          then Rsa.encrypt ssl file (tmp_path file) key_or_password
          else Rsa.decrypt ssl file (tmp_path file) key_or_password)
      else if encrypt
      then Redshirt.encrypt ssl file (tmp_path file) variant
      else Redshirt.decrypt ssl file (tmp_path file)

  -- `run_operation`
  unfoldable pub run_operation : Bool → Bytes → Bytes → Bytes → Variant → Call (Option Bytes)
  unfolding conclude
  run_operation encrypt algo file key_or_password variant =
      if leb 4096 (length (tmp_path file)) then return (some (codes "path too long")) else do
        status ← outcome (perform encrypt algo file key_or_password variant)
        conclude file status
