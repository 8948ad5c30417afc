-- ===== src/Hum/Conf/Valid.antt =====
-- Whatever hum.conf holds, the settings that are read from it are well formed.
use syn_os.Common.{
  ℕ, zero, suc, ◌+◌, ◌≤◌, ◌<◌, ◌≡◌, refl, ◌∙◌, ap, arith, Bool, true, false, ◌&&◌, Option, none,
  some, List, [], ◌∷◌, ◌++◌, Bytes, All, codes, length, length-append, take_all, bytes_eq,
  bytes_eq_iff, leb, if◌then◌else◌,
}
use syn_os.Io.{World, done, recover, open_read, try, return, ◌>>=◌}
use syn_os.Relay.Runtime.{fopen_r}
use syn_os.Relay.Apps.{lines_of}
use syn_os.Cstring.{snprintf_s, skip_space, starts_with}
use syn_os.Hum.Conf.{
  Conf, styles, index_from, style_find, is_volume, in_list, muted, add_muted, set_mute, word,
  two_words, or_same, with_style, conf_key, conf_words, conf_line, conf_lines, defaults, loaded,
  load, nonempty,
}

-- No id stands in the list twice.
unfoldable pub Distinct : List Bytes → Type 0
Distinct [] = Unit
Distinct (m ∷ list) = (in_list list m ≡ false) × Distinct list

pub record Valid (c : Conf) : Type 0 where
  pub style : c.style < 7
  pub volume : is_volume c.volume ≡ true
  pub count : length c.mute ≤ 16
  pub fits : All (λ m. length m ≤ 15) c.mute
  pub distinct : Distinct c.mute

pub in_list-append :
    (list : List Bytes) (a id : Bytes)
    → in_list list id ≡ false
    → bytes_eq a id ≡ false
    → in_list (list ++ (a ∷ [])) id ≡ false
unfolding in_list
in_list-append [] a id h ne = ground arith
in_list-append (m ∷ list) a id h ne = ground (arith, in_list-append list a id)

pub bytes_eq_sym : (a b : Bytes) → bytes_eq a b ≡ bytes_eq b a
bytes_eq_sym a b = ground (arith, bytes_eq_iff a b, bytes_eq_iff b a)

Distinct-append :
    (list : List Bytes) (id : Bytes)
    → Distinct list
    → in_list list id ≡ false
    → Distinct (list ++ (id ∷ []))
unfolding Distinct in_list
Distinct-append [] id d h = (refl, tt)
Distinct-append (m ∷ list) id d h = (
  in_list-append list id m d.0 (ground (arith, bytes_eq_sym m id)),
  Distinct-append list id d.1 (ground arith),
)

All-append :
    (list : List Bytes) (id : Bytes)
    → All (λ m. length m ≤ 15) list
    → length id ≤ 15
    → All (λ m. length m ≤ 15) (list ++ (id ∷ []))
All-append [] id h fits = (fits, tt)
All-append (m ∷ list) id h fits = (h.0, All-append list id h.1 fits)

Valid-or_same :
    (c : Conf) (b : Bool) (x y : Option Conf)
    → (b ≡ true → Valid (or_same c x))
    → (b ≡ false → Valid (or_same c y))
    → Valid (or_same c (if b then x else y))
Valid-or_same c true x y h k = h refl
Valid-or_same c false x y h k = k refl

Valid-if : (b : Bool) (c d : Conf) → (b ≡ true → Valid c) → Valid d → Valid (if b then c else d)
Valid-if true c d h k = h refl
Valid-if false c d h k = k

Valid-with_style :
    (c : Conf) (o : Option ℕ) → Valid c → ((s : ℕ) → o ≡ some s → s < 7) → Valid (with_style c o)
Valid-with_style c none v h = v
Valid-with_style c (some s) v h = record {
  style = h s refl;
  volume = v.volume;
  count = v.count;
  fits = v.fits;
  distinct = v.distinct;
}

Valid-add :
    (c : Conf) (id : Bytes)
    → Valid c
    → length id ≤ 15
    → muted c id ≡ false
    → (leb 16 (length c.mute)) ≡ false
    → Valid (record c { mute = c.mute ++ (snprintf_s 16 id ∷ []) })
unfolding muted
Valid-add c id v fits new room =
    let whole : snprintf_s 16 id ≡ id = take_all 15 id fits in
    record {
      style = v.style;
      volume = v.volume;
      count = ground (arith, length-append c.mute (snprintf_s 16 id ∷ []));
      fits = All-append c.mute (snprintf_s 16 id) v.fits (rw whole fits);
      distinct = Distinct-append c.mute (snprintf_s 16 id) v.distinct (rw whole new);
    }

-- Muting a member whose id fits keeps the settings well formed.
pub Valid-set_mute :
    (c : Conf) (id : Bytes) → Valid c → length id ≤ 15 → Valid (or_same c (set_mute c id false))
unfolding set_mute
Valid-set_mute c id v fits =
    Valid-or_same c (muted c id) (some c) (add_muted c id) (λ _. v)
      λ new.
        Valid-or_same c (leb 16 (length c.mute)) none _ (λ _. v)
          (λ room. Valid-add c id v fits new room)

index-below :
    (i : ℕ) (names : List Bytes) (name : Bytes) (s : ℕ)
    → index_from i names name ≡ some s
    → s < i + length names
unfolding index_from
index-below i [] name s e = ground arith
index-below i (n ∷ names) name s e = ground (arith, index-below (suc i) names name s)

volume-copied :
    (v : Bytes) → length v ≤ 15 → is_volume v ≡ true → is_volume (snprintf_s 16 v) ≡ true
volume-copied v fits h = ap is_volume (take_all 15 v fits) ∙ h

Valid-key :
    (c : Conf) (key value : Bytes) → Valid c → length value ≤ 15 → Valid (conf_key c key value)
unfolding conf_key style_find
Valid-key c key value v fits =
    Valid-if (bytes_eq key (codes "style")) _ _
      (λ _. Valid-with_style c (style_find value) v (index-below 0 styles value))
      (Valid-if (bytes_eq key (codes "volume") && is_volume value) _ _
        (λ h. record {
          style = v.style;
          volume = volume-copied value fits (ground arith);
          count = v.count;
          fits = v.fits;
          distinct = v.distinct;
        })
        (Valid-if (bytes_eq key (codes "crew")) _ _
          (λ _. record {
            style = v.style;
            volume = v.volume;
            count = v.count;
            fits = v.fits;
            distinct = v.distinct;
          })
          (Valid-if (bytes_eq key (codes "mute")) _ _ (λ _. Valid-set_mute c value v fits) v)))

length-word : (room : ℕ) (b : Bytes) → length (word room b).0 ≤ room
unfolding word
length-word zero b = omega arith
length-word (suc room) [] = omega arith
length-word (suc room) (c ∷ b) = ground (arith, length-word room b)

Valid-words :
    (b : Bool) (c : Conf) (key value : Bytes)
    → Valid c
    → length value ≤ 15
    → Valid (conf_words c (if b then some (key, value) else none))
Valid-words true c key value v fits = Valid-key c key value v fits
Valid-words false c key value v fits = v

Valid-two_words : (c : Conf) (line : Bytes) → Valid c → Valid (conf_words c (two_words line))
unfolding two_words
Valid-two_words c line v =
    let key : Bytes × Bytes = word 31 (skip_space line) in
    Valid-words (nonempty key.0 && nonempty (word 15 (skip_space key.1)).0) c key.0 _ v
      (length-word 15 (skip_space key.1))

Valid-line : (c : Conf) (line : Bytes) → Valid c → Valid (conf_line c line)
unfolding conf_line
Valid-line c line v =
    Valid-if (starts_with (codes "#") line) c _ (λ _. v) (Valid-two_words c line v)

Valid-lines : (lines : List Bytes) (c : Conf) → Valid c → Valid (conf_lines c lines)
unfolding conf_lines
Valid-lines [] c v = v
Valid-lines (line ∷ lines) c v = Valid-lines lines (conf_line c line) (Valid-line c line v)

Valid-defaults : Valid defaults
unfolding is_volume bytes_eq Distinct
Valid-defaults = record {
  style = omega arith;
  volume = refl;
  count = omega arith;
  fits = tt;
  distinct = tt;
}

Valid-loaded : (file : Option Bytes) → Valid (loaded file)
Valid-loaded none = Valid-defaults
Valid-loaded (some file) = Valid-lines (lines_of 256 (length file) file) defaults Valid-defaults

-- Loading the settings gives well formed ones in every world: whatever the file holds and whatever
-- calls fail, the style is one of the seven, the volume is one of the three words, and at most 16
-- members are muted, none of them twice, each with an id of at most 15 bytes.
pub load-Valid : (path : Bytes) (w : World) → (c : Conf) × ((load path w).0 ≡ done c) × Valid c
unfolding load fopen_r try return ◌>>=◌
load-Valid path w =
    let file : Option Bytes = recover (open_read path w).0 in (loaded file, refl, Valid-loaded file)
