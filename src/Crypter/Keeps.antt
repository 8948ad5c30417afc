-- ===== src/Crypter/Keeps.antt =====
-- Which files the four encryptions and decryptions touch, whatever faults they meet.
use syn_os.Common.{ℕ, true, false, Bool, Option, none, some, [], ◌∷◌, Bytes}
use syn_os.Io.{Status}
use syn_os.Io.Frame.{
  Frame, ReadOnly, ReadOnly-return, ReadOnly-throw, ReadOnly-attempt, Frame-bind,
  Frame-write_chunks, frame_rules,
}
use syn_os.Crypter.Ssl.{Ssl}
use syn_os.Crypter.Util.{fread, sniff, looks_encrypted, read_bytes, read_all}
use syn_os.Crypter.Gcm.{prefix_or, evp_input, some_or, gcm_seal, gcm_open}
use syn_os.Crypter.Aes
use syn_os.Crypter.Blowfish
use syn_os.Crypter.Rsa
use syn_os.Crypter.Redshirt
use syn_os.Crypter.Redshirt.{Variant, v1_redshirt, v2_redshrt2, v3_synx, digest, give_up}

ReadOnly-sniff : (o : Option Bytes) → ReadOnly (sniff o)
unfolding fread
ReadOnly-sniff none = ReadOnly-return false
ReadOnly-sniff (some content) = search frame_rules

ReadOnly-looks_encrypted : (path : Bytes) → ReadOnly (looks_encrypted path)
unfolding looks_encrypted
ReadOnly-looks_encrypted path = search (frame_rules, ReadOnly-sniff)

pub ReadOnly-read_bytes : (b : Bytes) → ReadOnly (read_bytes b)
ReadOnly-read_bytes [] = ReadOnly-return tt
ReadOnly-read_bytes (x ∷ b) = ReadOnly-attempt _

pub ReadOnly-read_all : (path : Bytes) → ReadOnly (read_all path)
unfolding read_all
ReadOnly-read_all path = search (frame_rules, ReadOnly-read_bytes) depth 8

pub ReadOnly-prefix_or : (s : Status) (text : Bytes) (o : Option ℕ) → ReadOnly (prefix_or s text o)
ReadOnly-prefix_or s text none = ReadOnly-throw s
ReadOnly-prefix_or s text (some n) = ReadOnly-return _

pub ReadOnly-evp_input : (s : Status) (text : Bytes) → ReadOnly (evp_input s text)
unfolding evp_input
ReadOnly-evp_input s text = ReadOnly-prefix_or s text _

pub ReadOnly-some_or : {A : Type 0} (s : Status) (o : Option A) → ReadOnly (some_or s o)
ReadOnly-some_or s none = ReadOnly-throw s
ReadOnly-some_or s (some a) = ReadOnly-return a

ruleset base_rules =
    (frame_rules, ReadOnly-looks_encrypted, ReadOnly-read_all, ReadOnly-evp_input, ReadOnly-some_or)

module _ (ssl : Ssl) where
  ReadOnly-gcm_seal : (key iv plaintext : Bytes) → ReadOnly (gcm_seal ssl key iv plaintext)
  unfolding gcm_seal
  ReadOnly-gcm_seal key iv plaintext = search base_rules depth 8

  ReadOnly-gcm_open : (s : Status) (key iv c t : Bytes) → ReadOnly (gcm_open ssl s key iv c t)
  unfolding gcm_open
  ReadOnly-gcm_open s key iv c t = search base_rules depth 8

  pub ReadOnly-derive_key : (password salt : Bytes) → ReadOnly (Aes.derive_key ssl password salt)
  unfolding Aes.derive_key
  ReadOnly-derive_key password salt = search base_rules

  pub Frame-aes_encrypt : (i o password : Bytes) → Frame o (Aes.encrypt ssl i o password)
  unfolding Aes.encrypt
  Frame-aes_encrypt i o password =
      search (base_rules, ReadOnly-gcm_seal, ReadOnly-derive_key) depth 20 fits 20000

  pub Frame-aes_decrypt : (i o password : Bytes) → Frame o (Aes.decrypt ssl i o password)
  unfolding Aes.decrypt
  Frame-aes_decrypt i o password =
      search (base_rules, ReadOnly-gcm_open, ReadOnly-derive_key) depth 20 fits 20000

  pub ReadOnly-derive_keys :
      (password salt : Bytes) → ReadOnly (Blowfish.derive_keys ssl password salt)
  unfolding Blowfish.derive_keys
  ReadOnly-derive_keys password salt = search base_rules

  ReadOnly-cbc_encrypt : (key iv t : Bytes) → ReadOnly (Blowfish.cbc_encrypt ssl key iv t)
  unfolding Blowfish.cbc_encrypt
  ReadOnly-cbc_encrypt key iv t = search base_rules depth 8

  ReadOnly-cbc_decrypt : (key iv t : Bytes) → ReadOnly (Blowfish.cbc_decrypt ssl key iv t)
  unfolding Blowfish.cbc_decrypt
  ReadOnly-cbc_decrypt key iv t = search base_rules depth 8

  pub Frame-blowfish_encrypt : (i o password : Bytes) → Frame o (Blowfish.encrypt ssl i o password)
  unfolding Blowfish.encrypt
  Frame-blowfish_encrypt i o password =
      search (base_rules, ReadOnly-derive_keys, ReadOnly-cbc_encrypt) depth 24 fits 20000

  pub Frame-blowfish_decrypt : (i o password : Bytes) → Frame o (Blowfish.decrypt ssl i o password)
  unfolding Blowfish.decrypt
  Frame-blowfish_decrypt i o password =
      search (base_rules, ReadOnly-derive_keys, ReadOnly-cbc_decrypt) depth 24 fits 20000

  ReadOnly-wrap_key : (public key : Bytes) → ReadOnly (Rsa.wrap_key ssl public key)
  unfolding Rsa.wrap_key
  ReadOnly-wrap_key public key = search base_rules depth 8

  pub ReadOnly-unwrap_key :
      (private wrapped : Bytes) → ReadOnly (Rsa.unwrap_key ssl private wrapped)
  unfolding Rsa.unwrap_key
  ReadOnly-unwrap_key private wrapped = search base_rules depth 10

  pub Frame-rsa_encrypt : (i o key : Bytes) → Frame o (Rsa.encrypt ssl i o key)
  unfolding Rsa.encrypt
  Frame-rsa_encrypt i o key =
      search (base_rules, ReadOnly-gcm_seal, ReadOnly-wrap_key) depth 24 fits 20000

  pub Frame-rsa_decrypt : (i o key : Bytes) → Frame o (Rsa.decrypt ssl i o key)
  unfolding Rsa.decrypt
  Frame-rsa_decrypt i o key =
      search (base_rules, ReadOnly-gcm_open, ReadOnly-unwrap_key) depth 24 fits 20000

  pub ReadOnly-digest : (md : Bytes → Bytes) (t : Bytes) (n : ℕ) → ReadOnly (digest md t n)
  unfolding digest
  ReadOnly-digest md t n = search base_rules

  Frame-give_up : (o : Bytes) → Frame o (give_up o)
  unfolding give_up
  Frame-give_up o = search base_rules

  Frame-write_variant : (v : Variant) (o t : Bytes) → Frame o (Redshirt.write_variant ssl v o t)
  unfolding Redshirt.write_variant
  Frame-write_variant v1_redshirt o t = search base_rules
  Frame-write_variant v2_redshrt2 o t =
      Frame-bind o _ _ (search (base_rules, ReadOnly-digest))
        (elim [ none ↦ Frame-give_up o | some hash ↦ Frame-write_chunks o _ ])
  Frame-write_variant v3_synx o t =
      Frame-bind o _ _ (search (base_rules, ReadOnly-digest))
        (elim [ none ↦ Frame-give_up o | some hash ↦ Frame-write_chunks o _ ])

  Frame-finish : (o : Bytes) (b : Bool) → Frame o (Redshirt.finish o b)
  Frame-finish o true = search base_rules
  Frame-finish o false = search base_rules

  pub Frame-redshirt_encrypt : (i o : Bytes) (v : Variant) → Frame o (Redshirt.encrypt ssl i o v)
  unfolding Redshirt.encrypt
  Frame-redshirt_encrypt i o v =
      search (base_rules, Frame-write_variant, Frame-finish) depth 12 fits 20000

  ReadOnly-open_variant :
      (v : Option Variant) (f : Bytes) → ReadOnly (Redshirt.open_variant ssl v f)
  unfolding Redshirt.open_variant
  ReadOnly-open_variant none f = ReadOnly-throw _
  ReadOnly-open_variant (some v1_redshirt) f = ReadOnly-return _
  ReadOnly-open_variant (some v2_redshrt2) f = search (base_rules, ReadOnly-digest) depth 8
  ReadOnly-open_variant (some v3_synx) f = search (base_rules, ReadOnly-digest) depth 8

  pub Frame-redshirt_decrypt : (i o : Bytes) → Frame o (Redshirt.decrypt ssl i o)
  unfolding Redshirt.decrypt
  Frame-redshirt_decrypt i o = search (base_rules, ReadOnly-open_variant) depth 12 fits 20000
