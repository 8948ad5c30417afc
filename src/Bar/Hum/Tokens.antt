-- ===== src/Bar/Hum/Tokens.antt =====
-- The tokens of a line of words with a space before each.
use syn_os.Common.{
  ℕ, suc, ◌+◌, ◌*◌, ◌≤◌, ◌<◌, ◌≡◌, refl, sym, ◌∙◌, ap, arith, true, false, some, List, [], ◌∷◌,
  ◌++◌, append_assoc, append-nil, Bytes, All, length, length-append, lt→ltb, if◌then◌else◌,
}
use syn_os.Io.Clean.{flat}
use syn_os.Hum.Conf.{nonempty}
use syn_os.Hum.Crew.{put_all, whole}
use syn_os.Bar.Hum.{is_delim, keep_token, split_tokens, tokens}

-- No white space.
abbrev pub Solid : Bytes → Type 0
Solid w = All (λ c. is_delim c ≡ false) w

abbrev pub Word : Bytes → Type 0
Word w = (nonempty w ≡ true) × Solid w

unfoldable pub spaced : List Bytes → Bytes
spaced [] = []
spaced (w ∷ ws) = 32 ∷ (w ++ spaced ws)

split-Solid :
    (w b : Bytes) → Solid w → split_tokens (w ++ b) ≡ (w ++ (split_tokens b).0, (split_tokens b).1)
unfolding split_tokens
split-Solid [] b h = refl
split-Solid (c ∷ w) b h = rw (h.0, split-Solid w b h.1) refl

keep-word : (w : Bytes) (ws : List Bytes) → nonempty w ≡ true → keep_token (w ++ []) ws ≡ w ∷ ws
keep-word [] ws h = absurd (ground (arith, h))
keep-word (c ∷ w) ws h = ap (λ t. (c ∷ t) ∷ ws) (append-nil w)

kept : Bytes × List Bytes → Bytes × List Bytes
kept r = ([], keep_token r.0 r.1)

split-spaced : (ws : List Bytes) → All Word ws → split_tokens (spaced ws) ≡ ([], ws)
unfolding split_tokens spaced kept
split-spaced [] h = refl
split-spaced (w ∷ ws) h =
    ap kept (split-Solid w (spaced ws) h.0.1 ∙ ap (λ r. (w ++ r.0, r.1)) (split-spaced ws h.1))
    ∙ ap (λ t. ([], t)) (keep-word w ws h.0.0)

pub tokens-spaced :
    (w : Bytes) (ws : List Bytes) → Word w → All Word ws → tokens (w ++ spaced ws) ≡ w ∷ ws
unfolding tokens
tokens-spaced w ws h hs =
    ap (λ r. keep_token r.0 r.1)
      (split-Solid w (spaced ws) h.1 ∙ ap (λ r. (w ++ r.0, r.1)) (split-spaced ws hs))
    ∙ keep-word w ws h.0

pub spaced-last :
    (ws : List Bytes) (w x : Bytes) → spaced (ws ++ (w ∷ [])) ++ x ≡ spaced (ws ++ ((w ++ x) ∷ []))
unfolding spaced
spaced-last [] w x = ap (λ t. 32 ∷ t) (ap (λ t. t ++ x) (append-nil w) ∙ sym (append-nil (w ++ x)))
spaced-last (v ∷ ws) w x =
    ap (λ t. 32 ∷ t)
      (append_assoc v (spaced (ws ++ (w ∷ []))) x ∙ ap (λ t. v ++ t) (spaced-last ws w x))

pub spaced-append : (ws vs : List Bytes) → spaced ws ++ spaced vs ≡ spaced (ws ++ vs)
unfolding spaced
spaced-append [] vs = refl
spaced-append (w ∷ ws) vs =
    ap (λ t. 32 ∷ t)
      (append_assoc w (spaced ws) (spaced vs) ∙ ap (λ t. w ++ t) (spaced-append ws vs))

pub spaced-short :
    (k : ℕ) (ws : List Bytes)
    → All (λ w. length w ≤ k) ws
    → length (spaced ws) ≤ (k + 1) * length ws
unfolding spaced
spaced-short k [] h = omega arith
spaced-short k (w ∷ ws) h =
    let rest : length (spaced ws) ≤ (k + 1) * length ws = spaced-short k ws h.1 in
    let sum : length (w ++ spaced ws) ≡ length w + length (spaced ws) =
      length-append w (spaced ws) in
    nonlinear k (length ws) (length w) (length (spaced ws)) (length (w ++ spaced ws)) h.0 rest sum
  where
    nonlinear : (k n a b s : ℕ) → a ≤ k → b ≤ (k + 1) * n → s ≡ a + b → suc s ≤ (k + 1) * suc n
    nonlinear k n a b s h g e = omega arith

-- What is put into a buffer that has room for it.
pub put_all-fits :
    (len : ℕ) (out : Bytes) (pieces : List Bytes)
    → length out + length (flat pieces) < len
    → put_all len out pieces ≡ out ++ flat pieces
unfolding put_all
put_all-fits len out [] h = sym (append-nil out)
put_all-fits len out (piece ∷ pieces) h =
    let sum : length (piece ++ flat pieces) ≡ length piece + length (flat pieces) =
      length-append piece (flat pieces) in
    let more : length (out ++ piece) ≡ length out + length piece = length-append out piece in
    ap (λ b. put_all len (if b then out ++ piece else out) pieces)
      (lt→ltb (length out) len (omega arith))
    ∙ put_all-fits len (out ++ piece) pieces (omega arith)
    ∙ append_assoc out piece (flat pieces)

pub whole-fits : (len : ℕ) (out : Bytes) → length out < len → whole len out ≡ some out
whole-fits len out h = ground arith
