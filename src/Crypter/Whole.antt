-- ===== src/Crypter/Whole.antt =====
-- What the four encryptions and decryptions leave in their output, where they succeed in a world with
-- faults.
use syn_os.Common.{
  ℕ, true, false, Bool, ◌≡◌, refl, sym, ap, ◌∙◌, ◌⊎◌, Option, none, some, [], ◌∷◌, Bytes,
  if◌then◌else◌,
}
use mathlib.Core.Path.{subst}
use syn_os.Io.{
  World, Files, Status, io, crypto, Outcome, done, fail, Call, continue, recover, ◌>>=◌, return,
  throw, try, head_fault, succeeds, store, next, fclose, remove,
}
use syn_os.Io.Clean.{bind-done, try-done}
use syn_os.Io.Frame.{ReadOnly}
use syn_os.Io.Steady.{steady_rules, Steady-return, Steady-throw, Steady-attempt}
use syn_os.Io.Filled.{FilledAt, Filled, Filled-write_chunks, Whole-Filled, Whole-write_file}
use syn_os.Io.Whole.{SteadyAt, Steady, WholeAt, Whole, Whole-bind, Later-trans}
use syn_os.Crypter.Ssl.{Ssl}
use syn_os.Crypter.Util.{read_bytes, read_all}
use syn_os.Crypter.Gcm.{prefix_or, evp_input, some_or, gcm_seal, gcm_open}
use syn_os.Crypter.Guard.{Recognised, Whole-guarded}
use syn_os.Crypter.Keeps.{ReadOnly-digest}
use syn_os.Crypter.Aes
use syn_os.Crypter.Blowfish
use syn_os.Crypter.Rsa
use syn_os.Crypter.Redshirt
use syn_os.Crypter.Redshirt.{Variant, v1_redshirt, v2_redshrt2, v3_synx, digest, give_up, finish}

Steady-read_bytes : (b : Bytes) → Steady (read_bytes b)
Steady-read_bytes [] = Steady-return tt
Steady-read_bytes (x ∷ b) = Steady-attempt _

Steady-read_all : (path : Bytes) → Steady (read_all path)
unfolding read_all
Steady-read_all path = search (steady_rules, Steady-read_bytes) depth 8

Steady-prefix_or : (s : Status) (text : Bytes) (o : Option ℕ) → Steady (prefix_or s text o)
Steady-prefix_or s text none = Steady-throw s
Steady-prefix_or s text (some n) = Steady-return _

Steady-evp_input : (s : Status) (text : Bytes) → Steady (evp_input s text)
unfolding evp_input
Steady-evp_input s text = Steady-prefix_or s text _

Steady-some_or : {A : Type 0} (s : Status) (o : Option A) → Steady (some_or s o)
Steady-some_or s none = Steady-throw s
Steady-some_or s (some a) = Steady-return a

ruleset base_rules =
    (steady_rules, Steady-read_all, Steady-evp_input, Steady-some_or, Whole-bind, Whole-write_file)

-- A digest that succeeds is followed by the writes of its variant, one that fails by a failure.
module _ {A : Type 0} (out : Bytes) (m : Call A) (f : Option A → Call Bool) where
  FilledAt-later :
      (w w₁ : World) (a : A) (b : Bytes) (r : Outcome Bool × World)
      → SteadyAt m w (done a, w₁)
      → FilledAt out (f (some a)) w₁ b r
      → FilledAt out (try m >>= f) w b r
  unfolding SteadyAt FilledAt
  FilledAt-later w w₁ a b (done true, w') s h =
      (h.0, h.1, h.2, bind-done (try m) f (try-done m s.0) ∙ h.3, h.4, h.5, Later-trans s.1 h.6)
  FilledAt-later w w₁ a b (done false, w') s h = tt
  FilledAt-later w w₁ a b (fail t, w') s h = tt

  Filled-try :
      ReadOnly m
      → Steady m
      → ((a : A) → Filled out (f (some a)))
      → ((w : World) → (s : Status) × (w' : World) × (f none w ≡ (fail s, w')))
      → Filled out (try m >>= f)
  unfolding try ◌>>=◌ FilledAt
  Filled-try r s h stops = record {
    at =
        λ w b e. at w b (m w).0 (m w).1 (s.at w) (ap (λ (fs : Files). fs out) (r.at w) ∙ e) h stops;
  }
    where
      at :
          (w : World) (b : Bytes) (o : Outcome A) (w₁ : World)
          → SteadyAt m w (o, w₁)
          → w₁.files out ≡ some b
          → ((a : A) → Filled out (f (some a)))
          → ((w : World) → (s : Status) × (w' : World) × (f none w ≡ (fail s, w')))
          → FilledAt out (try m >>= f) w b (f (recover o) w₁)
      at w b (done a) w₁ s e h stops = FilledAt-later w w₁ a b (f (some a) w₁) s ((h a).at w₁ b e)
      at w b (fail t) w₁ s e h stops =
          let stop = stops w₁ in subst (FilledAt out (try m >>= f) w b) (sym stop.2) tt

remove_ends : (out : Bytes) (w : World) → (remove out w).0 ≡ done tt
unfolding remove ◌>>=◌ return
remove_ends out w =
    elim (head_fault w.faults)
      as (λ f. ((if succeeds f then store out none else return tt) (next w)).0 ≡ done tt) [
        | none ↦ refl
        | some n ↦ refl
      ]

remove-throw :
    {B : Type 0} (out : Bytes) (s : Status) (w : World)
    → (remove out >>= λ _. throw {A = B} s) w ≡ (fail s, (remove out w).1)
unfolding ◌>>=◌ throw
remove-throw {B} out s w =
    ap (λ o. continue o (λ _. throw {A = B} s) (remove out w).1) (remove_ends out w)

give_up_fails :
    (out : Bytes) (w : World) → (s : Status) × (w' : World) × (give_up out w ≡ (fail s, w'))
unfolding give_up fclose ◌>>=◌ return
give_up_fails out w = (crypto, _, remove-throw out crypto _)

finish_fails :
    (out : Bytes) (w : World) → (s : Status) × (w' : World) × (finish out false w ≡ (fail s, w'))
finish_fails out w = (io, _, remove-throw out io w)

module _ (ssl : Ssl) where
  Steady-gcm_seal : (key iv plaintext : Bytes) → Steady (gcm_seal ssl key iv plaintext)
  unfolding gcm_seal
  Steady-gcm_seal key iv plaintext = search base_rules depth 8

  Steady-gcm_open : (s : Status) (key iv c t : Bytes) → Steady (gcm_open ssl s key iv c t)
  unfolding gcm_open
  Steady-gcm_open s key iv c t = search base_rules depth 8

  Steady-derive_key : (password salt : Bytes) → Steady (Aes.derive_key ssl password salt)
  unfolding Aes.derive_key
  Steady-derive_key password salt = search base_rules

  pub Whole-aes_encrypt :
      (i o password : Bytes) (w : World)
      → WholeAt o (Aes.encrypt ssl i o password) w (Aes.encrypt ssl i o password w)
        ⊎ Recognised i w.files
  unfolding Aes.encrypt
  Whole-aes_encrypt i o password w =
      Whole-guarded i _ o w
        (search (base_rules, Steady-gcm_seal, Steady-derive_key) depth 20 fits 20000)

  pub Whole-aes_decrypt : (i o password : Bytes) → Whole o (Aes.decrypt ssl i o password)
  unfolding Aes.decrypt
  Whole-aes_decrypt i o password =
      search (base_rules, Steady-gcm_open, Steady-derive_key) depth 20 fits 20000

  Steady-derive_keys : (password salt : Bytes) → Steady (Blowfish.derive_keys ssl password salt)
  unfolding Blowfish.derive_keys
  Steady-derive_keys password salt = search base_rules

  Steady-cbc_encrypt : (key iv t : Bytes) → Steady (Blowfish.cbc_encrypt ssl key iv t)
  unfolding Blowfish.cbc_encrypt
  Steady-cbc_encrypt key iv t = search base_rules depth 8

  Steady-cbc_decrypt : (key iv t : Bytes) → Steady (Blowfish.cbc_decrypt ssl key iv t)
  unfolding Blowfish.cbc_decrypt
  Steady-cbc_decrypt key iv t = search base_rules depth 8

  pub Whole-blowfish_encrypt :
      (i o password : Bytes) (w : World)
      → WholeAt o (Blowfish.encrypt ssl i o password) w (Blowfish.encrypt ssl i o password w)
        ⊎ Recognised i w.files
  unfolding Blowfish.encrypt
  Whole-blowfish_encrypt i o password w =
      Whole-guarded i _ o w
        (search (base_rules, Steady-derive_keys, Steady-cbc_encrypt) depth 24 fits 20000)

  pub Whole-blowfish_decrypt : (i o password : Bytes) → Whole o (Blowfish.decrypt ssl i o password)
  unfolding Blowfish.decrypt
  Whole-blowfish_decrypt i o password =
      search (base_rules, Steady-derive_keys, Steady-cbc_decrypt) depth 24 fits 20000

  Steady-wrap_key : (public key : Bytes) → Steady (Rsa.wrap_key ssl public key)
  unfolding Rsa.wrap_key
  Steady-wrap_key public key = search base_rules depth 8

  Steady-unwrap_key : (private wrapped : Bytes) → Steady (Rsa.unwrap_key ssl private wrapped)
  unfolding Rsa.unwrap_key
  Steady-unwrap_key private wrapped = search base_rules depth 10

  pub Whole-rsa_encrypt :
      (i o key : Bytes) (w : World)
      → WholeAt o (Rsa.encrypt ssl i o key) w (Rsa.encrypt ssl i o key w) ⊎ Recognised i w.files
  unfolding Rsa.encrypt
  Whole-rsa_encrypt i o key w =
      Whole-guarded i _ o w
        (search (base_rules, Steady-gcm_seal, Steady-wrap_key) depth 24 fits 20000)

  pub Whole-rsa_decrypt : (i o key : Bytes) → Whole o (Rsa.decrypt ssl i o key)
  unfolding Rsa.decrypt
  Whole-rsa_decrypt i o key =
      search (base_rules, Steady-gcm_open, Steady-unwrap_key) depth 24 fits 20000

  Steady-digest : (md : Bytes → Bytes) (t : Bytes) (n : ℕ) → Steady (digest md t n)
  unfolding digest
  Steady-digest md t n = search base_rules

  Steady-open_variant : (v : Option Variant) (f : Bytes) → Steady (Redshirt.open_variant ssl v f)
  unfolding Redshirt.open_variant
  Steady-open_variant none f = Steady-throw _
  Steady-open_variant (some v1_redshirt) f = Steady-return _
  Steady-open_variant (some v2_redshrt2) f = search (base_rules, Steady-digest) depth 8
  Steady-open_variant (some v3_synx) f = search (base_rules, Steady-digest) depth 8

  pub Whole-redshirt_decrypt : (i o : Bytes) → Whole o (Redshirt.decrypt ssl i o)
  unfolding Redshirt.decrypt
  Whole-redshirt_decrypt i o = search (base_rules, Steady-open_variant) depth 12 fits 20000

  Filled-write_variant : (v : Variant) (o t : Bytes) → Filled o (Redshirt.write_variant ssl v o t)
  unfolding Redshirt.write_variant
  Filled-write_variant v1_redshirt o t = Filled-write_chunks o _
  Filled-write_variant v2_redshrt2 o t =
      Filled-try o (digest ssl.sha1 _ 20) _ (ReadOnly-digest ssl _ _ _) (Steady-digest _ _ _)
        (λ h. Filled-write_chunks o _) (give_up_fails o)
  Filled-write_variant v3_synx o t =
      Filled-try o (digest ssl.sha256 _ 32) _ (ReadOnly-digest ssl _ _ _) (Steady-digest _ _ _)
        (λ h. Filled-write_chunks o _) (give_up_fails o)

  pub Whole-redshirt_encrypt :
      (i o : Bytes) (v : Variant) (w : World)
      → WholeAt o (Redshirt.encrypt ssl i o v) w (Redshirt.encrypt ssl i o v w)
        ⊎ Recognised i w.files
  unfolding Redshirt.encrypt
  Whole-redshirt_encrypt i o v w = Whole-guarded i _ o w (
      Whole-bind o (read_all i) _ (Steady-read_all i) λ plaintext.
        Whole-Filled o (Redshirt.write_variant ssl v o plaintext) (finish o) refl (finish_fails o)
          (Filled-write_variant v o plaintext))
