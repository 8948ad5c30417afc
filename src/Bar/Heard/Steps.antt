-- ===== src/Bar/Heard/Steps.antt =====
-- Adding a sound to the ring is adding it to a list of the newest eight.
use syn_os.Common.{
  ℕ, zero, suc, ◌+◌, ◌-◌, ◌%◌, ◌≤◌, ◌<◌, ◌≡◌, ◌≢◌, inl, inr, refl, sym, ◌∙◌, ap, arith, Bool, true,
  false, ◌&&◌, List, [], ◌∷◌, Bytes, length, take, take_all, bytes_eq, ltb, lt→ltb, if◌then◌else◌,
  Bool-cases,
}
use syn_os.Cstring.{snprintf_s}
use syn_os.Bar.Heard.{Entry, Ring, set_slot, again, another, heard_add, visited}

-- What the tooltip promises: the newest sound first, at most eight, and one that comes again at once
-- counted in its line.
abbrev pub newer : List Entry → Bytes → Bytes → List Entry
newer [] when what = record { when = when; what = snprintf_s 80 what; times = 1 } ∷ []
newer (e ∷ es) when what =
    if bytes_eq e.what what
    then record e { when = when; times = e.times + 1 } ∷ es
    else record { when = when; what = snprintf_s 80 what; times = 1 } ∷ take 7 (e ∷ es)

pub record RingValid (r : Ring) : Type 0 where
  pub next : r.next < 8
  pub count : r.count ≤ 8

abbrev pub recent : Ring → List Entry
recent r = visited r 0 r.count

other_slot : (slots : ℕ → Entry) (i j : ℕ) (e : Entry) → j ≢ i → set_slot slots i e j ≡ slots j
other_slot slots i j e ne = ground arith

own_slot : (slots : ℕ → Entry) (i j : ℕ) (e : Entry) → j ≡ i → set_slot slots i e j ≡ e
own_slot slots i j e same = ground arith

-- After another sound, the older entries stand one place later.
older :
    (r : Ring) (when what : Bytes) (i n : ℕ)
    → r.next < 8
    → i + n ≤ 7
    → visited (another r when what) (suc i) n ≡ visited r i n
unfolding visited
older r when what i zero h room = refl
older r when what i (suc n) h room =
    let place : ((r.next + 1) % 8 + 7 - suc i) % 8 ≡ (r.next + 7 - i) % 8 = omega arith in
    let fresh : Entry = record { when = when; what = snprintf_s 80 what; times = 1 } in
    ap (λ j. set_slot r.slots r.next fresh j ∷ visited (another r when what) (suc (suc i)) n) place
    ∙ ap (λ e. e ∷ visited (another r when what) (suc (suc i)) n)
        (other_slot r.slots r.next ((r.next + 7 - i) % 8) fresh (omega arith))
    ∙ ap (λ l. r.slots ((r.next + 7 - i) % 8) ∷ l) (older r when what (suc i) n h (omega arith))

pub length-visited : (r : Ring) (i n : ℕ) → length (visited r i n) ≡ n
unfolding visited
length-visited r i zero = refl
length-visited r i (suc n) = ap suc (length-visited r (suc i) n)

take-visited : (r : Ring) (i m n : ℕ) → take m (visited r i (m + n)) ≡ visited r i m
unfolding visited
take-visited r i zero n = refl
take-visited r i (suc m) n =
    ap (λ k. take (suc m) (visited r i k)) (more m n)
    ∙ ap (λ l. r.slots ((r.next + 7 - i) % 8) ∷ l) (take-visited r (suc i) m n)
  where
    more : (m n : ℕ) → suc m + n ≡ suc (m + n)
    more m n = omega arith

-- The same after the newest entry is counted again.
later_same :
    (r : Ring) (e : Entry) (i n : ℕ)
    → r.next < 8
    → 1 ≤ i
    → i + n ≤ 8
    → visited (record r { slots = set_slot r.slots ((r.next + 7) % 8) e }) i n ≡ visited r i n
unfolding visited
later_same r e i zero h low room = refl
later_same r e i (suc n) h low room =
    ap (λ x. x ∷ visited (record r { slots = set_slot r.slots ((r.next + 7) % 8) e }) (suc i) n)
      (other_slot r.slots ((r.next + 7) % 8) ((r.next + 7 - i) % 8) e (omega arith))
    ∙ ap (λ l. r.slots ((r.next + 7 - i) % 8) ∷ l)
        (later_same r e (suc i) n h (omega arith) (omega arith))

-- One more sound.
another-recent :
    (r : Ring) (when what : Bytes)
    → RingValid r
    → recent (another r when what)
      ≡ record { when = when; what = snprintf_s 80 what; times = 1 } ∷ take 7 (recent r)
unfolding visited
another-recent r when what v = elim (Bool-cases (ltb r.count 8)) [
  | inl room ↦
      ap (λ b. visited (another r when what) 0 (if b then r.count + 1 else r.count)) room
      ∙ ap (visited (another r when what) 0) (suc_last r.count)
      ∙ front r.count
      ∙ ap (λ l. fresh ∷ l)
          (older r when what 0 r.count v.next (ground (arith, room))
            ∙ sym (take_all 7 (recent r) (omega (arith, length-visited r 0 r.count, few room))))
  | inr full ↦
      ap (λ b. visited (another r when what) 0 (if b then r.count + 1 else r.count)) full
      ∙ ap (visited (another r when what) 0) (eight full)
      ∙ front 7
      ∙ ap (λ l. fresh ∷ l)
          (older r when what 0 7 v.next (omega arith)
            ∙ sym (take-visited r 0 7 1)
            ∙ ap (λ n. take 7 (visited r 0 n)) (sym (eight full)))
]
  where
    fresh : Entry
    fresh = record { when = when; what = snprintf_s 80 what; times = 1 }

    suc_last : (n : ℕ) → n + 1 ≡ suc n
    suc_last n = omega arith

    few : ltb r.count 8 ≡ true → r.count ≤ 7
    few room = ground arith

    eight : ltb r.count 8 ≡ false → r.count ≡ 8
    eight full = ground (arith, v.count)

    front :
        (n : ℕ)
        → visited (another r when what) 0 (suc n) ≡ fresh ∷ visited (another r when what) 1 n
    front n =
        ap (λ e. e ∷ visited (another r when what) 1 n)
          (own_slot r.slots r.next (((r.next + 1) % 8 + 7 - 0) % 8) fresh (omega (arith, v.next)))

again-recent :
    (r : Ring) (when : Bytes) (n : ℕ)
    → RingValid r
    → r.count ≡ suc n
    → let e : Entry = r.slots ((r.next + 7) % 8) in
      recent (again r ((r.next + 7) % 8) when)
      ≡ record e { when = when; times = e.times + 1 } ∷ visited r 1 n
unfolding visited
again-recent r when n v some_heard =
    ap (visited (again r last when) 0) some_heard
    ∙ ap (λ x. x ∷ visited (again r last when) 1 n)
        (own_slot r.slots last ((r.next + 7 - 0) % 8) fresh (omega arith))
    ∙ ap (λ l. fresh ∷ l)
        (later_same r fresh 1 n v.next (omega arith) (omega (arith, v.count, some_heard)))
  where
    last : ℕ
    last = (r.next + 7) % 8

    fresh : Entry
    fresh = record (r.slots last) { when = when; times = (r.slots last).times + 1 }

-- One step, on the ring and on the list, in a state with `n + 1` entries.
module _ (r : Ring) (when what : Bytes) where
  abbrev last_place : ℕ
  last_place = (r.next + 7) % 8

  abbrev added_entry : Entry
  added_entry = record { when = when; what = snprintf_s 80 what; times = 1 }

  abbrev counted : Entry
  counted = record (r.slots last_place) { when = when; times = (r.slots last_place).times + 1 }

  abbrev ring_choice : Bool → Ring
  ring_choice b = if b then again r last_place when else another r when what

  abbrev list_choice : ℕ → Bool → List Entry
  list_choice n b =
      if b
      then counted ∷ visited r 1 n
      else added_entry ∷ take 7 (r.slots last_place ∷ visited r 1 n)

  ring_step :
      (n : ℕ) (b : Bool)
      → r.count ≡ suc n
      → bytes_eq (r.slots last_place).what what ≡ b
      → heard_add r when what ≡ ring_choice b
  unfolding heard_add
  ring_step n b e same =
      ap (λ k. ring_choice (ltb 0 k && bytes_eq (r.slots last_place).what what)) e
      ∙ ap (λ t. ring_choice (t && bytes_eq (r.slots last_place).what what))
          (lt→ltb 0 (suc n) (omega arith))
      ∙ ap ring_choice same

  recent-suc : (n : ℕ) → r.count ≡ suc n → recent r ≡ r.slots last_place ∷ visited r 1 n
  unfolding visited
  recent-suc n e = ap (visited r 0) e ∙ ap (λ i. r.slots i ∷ visited r 1 n) place
    where
      place : (r.next + 7 - 0) % 8 ≡ last_place
      place = omega arith

  list_step :
      (n : ℕ) (b : Bool)
      → r.count ≡ suc n
      → bytes_eq (r.slots last_place).what what ≡ b
      → newer (recent r) when what ≡ list_choice n b
  list_step n b e same = ap (λ l. newer l when what) (recent-suc n e) ∙ ap (list_choice n) same

  step_eq :
      (n : ℕ) (b : Bool) → RingValid r → r.count ≡ suc n → recent (ring_choice b) ≡ list_choice n b
  step_eq n true v e = again-recent r when n v e
  step_eq n false v e =
      another-recent r when what v ∙ ap (λ l. added_entry ∷ take 7 l) (recent-suc n e)

pub heard_add-newer :
    (r : Ring) (when what : Bytes)
    → RingValid r
    → recent (heard_add r when what) ≡ newer (recent r) when what
unfolding heard_add visited
heard_add-newer r when what v = at r.count refl
  where
    at : (k : ℕ) → r.count ≡ k → recent (heard_add r when what) ≡ newer (recent r) when what
    at zero e =
        ap (λ k. recent (ring_choice r when what (ltb 0 k && same))) e
        ∙ another-recent r when what v
        ∙ ap (λ k. added_entry r when what ∷ take 7 (visited r 0 k)) e
        ∙ sym (ap (λ k. newer (visited r 0 k) when what) e)
      where
        same : Bool
        same = bytes_eq (r.slots ((r.next + 7) % 8)).what what
    at (suc n) e =
        let b : Bool = bytes_eq (r.slots ((r.next + 7) % 8)).what what in
        ap recent (ring_step r when what n b e refl)
        ∙ step_eq r when what n b v e
        ∙ sym (list_step r when what n b e refl)

pub RingValid-add : (r : Ring) (when what : Bytes) → RingValid r → RingValid (heard_add r when what)
unfolding heard_add
RingValid-add r when what v = at (ltb 0 r.count && bytes_eq (r.slots ((r.next + 7) % 8)).what what)
  where
    at : (b : Bool) → RingValid (ring_choice r when what b)
    at true = record { next = v.next; count = v.count }
    at false = record { next = omega arith; count = ground (arith, v.count) }
