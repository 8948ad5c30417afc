-- ===== src/Relay/Wire/Escape.antt =====
-- A string that the server escaped cannot be taken for a field, and the client restores it.
use syn_os.Common.{
  ℕ, zero, suc, ◌≤◌, ◌≡◌, ◌≢◌, refl, arith, false, [], ◌∷◌, ◌++◌, Bytes, All, length,
}
use syn_os.Cstring.{after, starts_with}
use syn_os.Relay.Json.{copy_value}
use syn_os.Relay.Wire.{escaped}

-- A key has no quote and no backslash.
unfoldable pub Key : Bytes → Type 0
Key k = All (λ c. (c ≢ 34) × (c ≢ 92)) k

-- The rest of a needle `"key":..` does not stand in an escaped string, nor across its end.
pub starts-escaped :
    (k x h t : Bytes) (d : ℕ)
    → Key k
    → d ≢ 58
    → starts_with (k ++ (34 ∷ 58 ∷ x)) (escaped h ++ (34 ∷ d ∷ t)) ≡ false
unfolding starts_with escaped Key
starts-escaped [] x [] t d key ne = ground arith
starts-escaped [] x (c ∷ h) t d key ne = ground arith
starts-escaped (k ∷ ks) x [] t d key ne = ground arith
starts-escaped (k ∷ ks) x (c ∷ h) t d key ne = ground (arith, starts-escaped ks x h t d key.1 ne)

-- The search for a key passes over an escaped string and finds the key behind it.
pub after-escaped :
    (n : ℕ) (k x h t : Bytes)
    → Key k
    → after n (34 ∷ (k ++ (34 ∷ 58 ∷ x))) (escaped h ++ (34 ∷ 44 ∷ t))
      ≡ after n (34 ∷ (k ++ (34 ∷ 58 ∷ x))) (34 ∷ 44 ∷ t)
unfolding escaped after starts_with
after-escaped n k x [] t key = refl
after-escaped n k x (c ∷ h) t key =
    ground (arith, after-escaped n k x h t key, starts-escaped k x h t 44 key (omega arith))

-- The same from the opening quote of the string on.
pub after-quoted :
    (n : ℕ) (k x h t : Bytes)
    → Key k
    → after n (34 ∷ (k ++ (34 ∷ 58 ∷ x))) (34 ∷ (escaped h ++ (34 ∷ 44 ∷ t)))
      ≡ after n (34 ∷ (k ++ (34 ∷ 58 ∷ x))) (34 ∷ 44 ∷ t)
unfolding after starts_with
after-quoted n k x h t key =
    ground (arith, after-escaped n k x h t key, starts-escaped k x h t 44 key (omega arith))

-- `syn_json_string` undoes the escaping of a string without line ends that fits.
pub copy-escaped :
    (room : ℕ) (s t : Bytes)
    → All (λ c. c ≢ 10) s
    → length s ≤ room
    → copy_value room (escaped s ++ (34 ∷ t)) ≡ s
unfolding copy_value escaped
copy-escaped zero [] t lines fits = refl
copy-escaped zero (c ∷ s) t lines fits = absurd (omega arith)
copy-escaped (suc room) [] t lines fits = refl
copy-escaped (suc room) (c ∷ s) t lines fits = ground (arith, copy-escaped room s t lines.1)
