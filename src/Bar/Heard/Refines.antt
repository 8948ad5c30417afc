-- ===== src/Bar/Heard/Refines.antt =====
-- The reply to HUM-HEARD is the text of the newest eight sounds.
use mathlib.Core.Path.{subst}
use syn_os.Common.{
  ◌⊎◌, ℕ, zero, suc, ◌+◌, ◌-◌, ◌*◌, ◌≤◌, ◌<◌, ◌≡◌, inl, inr, refl, sym, ◌∙◌, ap, arith, Bool, true,
  false, List, [], ◌∷◌, ◌++◌, Bytes, All, codes, length, length-append, length-take, take, bytes_eq,
  ltb, lt→ltb, if◌then◌else◌, Bool-cases,
}
use syn_os.Cstring.{snprintf_s, decimal}
use syn_os.Bar.Hum.Values.{length-decimal}
use syn_os.Bar.Heard.{
  Entry, Ring, heard_add, visited, times_text, entry_line, reply_lines, heard_reply, empty_ring,
  heard_adds,
}
use syn_os.Bar.Heard.Steps.{
  newer, RingValid, recent, length-visited, heard_add-newer, RingValid-add,
}

unfoldable pub newest : List Entry → List (Bytes × Bytes) → List Entry
newest es [] = es
newest es (s ∷ sounds) = newest (newer es s.0 s.1) sounds

unfoldable pub lines_text : List Entry → Bytes
lines_text [] = []
lines_text (e ∷ es) = entry_line e ++ lines_text es

-- An entry whose line is short.
record Short (e : Entry) : Type 0 where
  when : length e.when ≤ 15
  what : length e.what ≤ 79

line-Short : (e : Entry) → Short e → length (entry_line e) ≤ 110
line-Short e s =
    let times : length (times_text e.times) ≤ 14 = times-short (Bool-cases (ltb 1 e.times)) in
    omega (
      arith,
      length-append e.when (32 ∷ (e.what ++ (times_text e.times ++ (10 ∷ [])))),
      length-append e.what (times_text e.times ++ (10 ∷ [])),
      length-append (times_text e.times) (10 ∷ []),
      s.when,
      s.what,
      times,
    )
  where
    counted_text : Bytes
    counted_text = codes " (x" ++ (decimal 10 e.times ++ codes ")")

    times-short :
        (ltb 1 e.times ≡ true) ⊎ (ltb 1 e.times ≡ false)
        → length (if ltb 1 e.times then counted_text else []) ≤ 14
    times-short (inl more) = rw more (
        omega (
          arith,
          length-append (codes " (x") (decimal 10 e.times ++ codes ")"),
          length-append (decimal 10 e.times) (codes ")"),
          length-decimal 10 e.times,
        ))
    times-short (inr once) = rw once (omega arith)

Short-newer :
    (es : List Entry) (when what : Bytes)
    → length when ≤ 15
    → All Short es
    → All Short (newer es when what)
Short-newer [] when what h s = (record { when = h; what = omega (arith, length-take 79 what) }, tt)
Short-newer (e ∷ es) when what h s = at (bytes_eq e.what what)
  where
    first : (n : ℕ) (l : List Entry) → All Short l → All Short (take n l)
    first zero l h = tt
    first (suc n) [] h = tt
    first (suc n) (x ∷ l) h = (h.0, first n l h.1)

    at :
        (b : Bool)
        → All Short (
            if b
            then record e { when = when; times = e.times + 1 } ∷ es
            else record { when = when; what = snprintf_s 80 what; times = 1 } ∷ take 7 (e ∷ es))
    at true = (record { when = h; what = s.0.what }, s.1)
    at false = (record { when = h; what = omega (arith, length-take 79 what) }, first 7 (e ∷ es) s)

replied :
    (room : ℕ) (es : List Entry)
    → All Short es
    → 110 * length es < room
    → reply_lines room es ≡ lines_text es
unfolding reply_lines lines_text
replied room [] s h = refl
replied room (e ∷ es) s h =
    let short : length (entry_line e) ≤ 110 = line-Short e s.0 in
    ap (λ b. if b then entry_line e ++ reply_lines (room - length (entry_line e)) es else [])
      (lt→ltb (length (entry_line e)) room (omega (arith, short)))
    ∙ ap (λ t. entry_line e ++ t)
        (replied (room - length (entry_line e)) es s.1 (omega (arith, short)))

-- A run of the daemon from any state.
follows :
    (sounds : List (Bytes × Bytes)) (r : Ring)
    → RingValid r
    → All Short (recent r)
    → All (λ s. length s.0 ≤ 15) sounds
    → heard_reply (heard_adds r sounds) ≡ lines_text (newest (recent r) sounds)
unfolding heard_adds newest heard_reply
follows [] r v s h = replied 960 (recent r) s (omega (arith, length-visited r 0 r.count, v.count))
follows (x ∷ sounds) r v s h =
    let step : recent (heard_add r x.0 x.1) ≡ newer (recent r) x.0 x.1 =
      heard_add-newer r x.0 x.1 v in
    follows sounds (heard_add r x.0 x.1) (RingValid-add r x.0 x.1 v)
      (subst (All Short) (sym step) (Short-newer (recent r) x.0 x.1 h.0 s)) h.1
    ∙ ap (λ l. lines_text (newest l sounds)) step

-- After any sounds since the start, the reply to HUM-HEARD is the whole text of the promised list:
-- the newest sound first, the last eight, a sound that came again at once in one line with its
-- count, and each sound's text cut to 79 bytes, if each time is at most 15 bytes.
pub heard-refines :
    (sounds : List (Bytes × Bytes))
    → All (λ s. length s.0 ≤ 15) sounds
    → heard_reply (heard_adds empty_ring sounds) ≡ lines_text (newest [] sounds)
unfolding visited
heard-refines sounds h =
    follows sounds empty_ring (record { next = omega arith; count = omega arith }) tt h
