-- ===== src/Hum/Conf/Mute.antt =====
-- What muting a member and bringing one back do to the list.
use syn_os.Common.{
  ◌≤◌, ◌<◌, ◌≡◌, ◌≢◌, refl, ◌∙◌, ap, arith, Bool-cases, true, false, inl, inr, none, some, List, [],
  ◌∷◌, ◌++◌, Bytes, length, take_all, bytes_eq_iff, bytes_eq_refl, leb, if◌then◌else◌,
}
use syn_os.Cstring.{snprintf_s}
use syn_os.Hum.Conf.{Conf, in_list, muted, drop_first, add_muted, set_mute}
use syn_os.Hum.Conf.Valid.{Distinct, Valid}

pub drop_first-gone :
    (list : List Bytes) (id : Bytes) → Distinct list → in_list (drop_first list id) id ≡ false
unfolding drop_first in_list Distinct
drop_first-gone [] id d = refl
drop_first-gone (m ∷ list) id d =
    ground (arith, drop_first-gone list id d.1, d.0, bytes_eq_iff m id)

pub drop_first-other :
    (list : List Bytes) (id other : Bytes)
    → other ≢ id
    → in_list (drop_first list id) other ≡ in_list list other
unfolding drop_first in_list
drop_first-other [] id other ne = refl
drop_first-other (m ∷ list) id other ne =
    ground (arith, drop_first-other list id other ne, bytes_eq_iff m id, bytes_eq_iff m other)

pub in_list-added : (list : List Bytes) (id : Bytes) → in_list (list ++ (id ∷ [])) id ≡ true
unfolding in_list
in_list-added [] id = rw (bytes_eq_refl id) refl
in_list-added (m ∷ list) id = ground (arith, in_list-added list id)

pub in_list-added_other :
    (list : List Bytes) (id other : Bytes)
    → other ≢ id
    → in_list (list ++ (id ∷ [])) other ≡ in_list list other
unfolding in_list
in_list-added_other [] id other ne = ground (arith, bytes_eq_iff id other)
in_list-added_other (m ∷ list) id other ne = ground (arith, in_list-added_other list id other ne)

-- Bringing a member back always succeeds: the member is not muted any more, and every other one is
-- as before, if the settings are well formed.
pub bring_back :
    (c : Conf) (id other : Bytes)
    → Valid c
    → other ≢ id
    → (d : Conf) × (set_mute c id true ≡ some d)
      × (muted d id ≡ false)
      × (muted d other ≡ muted c other)
unfolding set_mute muted
bring_back c id other v ne = elim (Bool-cases (in_list c.mute id)) [
  | inl there ↦ (
    record c { mute = drop_first c.mute id },
    ap (λ b. if b then some (record c { mute = drop_first c.mute id }) else some c) there,
    drop_first-gone c.mute id v.distinct,
    drop_first-other c.mute id other ne,
  )
  | inr missing ↦ (
    c,
    ap (λ b. if b then some (record c { mute = drop_first c.mute id }) else some c) missing,
    missing,
    refl,
  )
]

-- Muting a member succeeds while fewer than 16 are muted: the member is muted then, and every other
-- one is as before, if the id has at most 15 bytes.
pub mute_added :
    (c : Conf) (id other : Bytes)
    → length id ≤ 15
    → length c.mute < 16
    → other ≢ id
    → (d : Conf) × (set_mute c id false ≡ some d)
      × (muted d id ≡ true)
      × (muted d other ≡ muted c other)
unfolding set_mute muted
mute_added c id other fits room ne =
    let whole : snprintf_s 16 id ≡ id = take_all 15 id fits in
    let space : leb 16 (length c.mute) ≡ false = ground arith in
    elim (Bool-cases (in_list c.mute id)) [
      | inl there ↦ (c, ap (λ b. if b then some c else add_muted c id) there, there, refl)
      | inr missing ↦ (
        record c { mute = c.mute ++ (id ∷ []) },
        ap (λ b. if b then some c else add_muted c id) missing
            ∙ ap
                (λ b.
                  if b then none else some (record c { mute = c.mute ++ (snprintf_s 16 id ∷ []) }))
                space
            ∙ ap (λ s. some (record c { mute = c.mute ++ (s ∷ []) })) whole,
        in_list-added c.mute id,
        in_list-added_other c.mute id other ne,
      )
    ]
