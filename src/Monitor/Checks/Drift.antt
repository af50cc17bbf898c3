-- ===== src/Monitor/Checks/Drift.antt =====
-- Authorities and immutable fields: when drift is reported.
use solnado_cash.Base.{
  ◌≡◌, refl, ◌↔◌, Option, none, some, List, [], ◌∷◌, ◌++◌, arith, codes_eq_iff, All,
}
use solnado_cash.Monitor.Checks.{
  Text, Finding, Authority, unread, nobody, held_by, Fields, Watched, check_upgrade_authority,
  field_changed, fields_changed, check_fields, check_authorities,
}

-- A field is the same, or is not known on both sides.
abbrev pub Unchanged : Option Text → Option Text → Type 0
Unchanged (some before) (some now) = before ≡ now
Unchanged _ _ = Unit

abbrev pub FieldsUnchanged : Option Fields → Option Fields → Type 0
FieldsUnchanged (some b) (some c) =
    Unchanged b.admin c.admin
    × Unchanged b.treasury c.treasury
    × Unchanged b.denomination c.denomination
FieldsUnchanged _ _ = Unit

append-nil_parts : (xs ys : List Finding) → xs ++ ys ≡ [] → (xs ≡ []) × (ys ≡ [])
append-nil_parts [] ys h = (refl, h)
append-nil_parts (x ∷ xs) ys h = absurd (cc)

field_changed_iff :
    (label : Text) (b c : Option Text) → (field_changed label b c ≡ []) ↔ Unchanged b c
field_changed_iff label (some b) (some c) = ground (arith, codes_eq_iff b c)
field_changed_iff label (some b) none = (λ h. tt, λ h. refl)
field_changed_iff label none c = (λ h. tt, λ h. refl)

fields_changed_iff :
    (label : Text) (b c : Option Fields) → (fields_changed label b c ≡ []) ↔ FieldsUnchanged b c
fields_changed_iff label (some b) (some c) = (
  λ h.
      let (admin, rest) = append-nil_parts _ _ h in
      let (treasury, denomination) = append-nil_parts _ _ rest in
      (
        (field_changed_iff label b.admin c.admin).0 admin,
        (field_changed_iff label b.treasury c.treasury).0 treasury,
        (field_changed_iff label b.denomination c.denomination).0 denomination,
      ),
  λ (admin, treasury, denomination). rw (
    (field_changed_iff label b.admin c.admin).1 admin,
    (field_changed_iff label b.treasury c.treasury).1 treasury,
    (field_changed_iff label b.denomination c.denomination).1 denomination,
  ),
)
fields_changed_iff label (some b) none = (λ h. tt, λ h. refl)
fields_changed_iff label none c = (λ h. tt, λ h. refl)

pub check_fields_iff :
    (ws : List Watched)
    → (check_fields ws ≡ []) ↔ All (λ w. FieldsUnchanged w.baseline w.current) ws
unfolding check_fields
check_fields_iff [] = (λ h. tt, λ h. refl)
check_fields_iff (w ∷ ws) = (
  λ h.
      let (here, rest) = append-nil_parts _ _ h in
      ((fields_changed_iff w.label w.baseline w.current).0 here, (check_fields_iff ws).0 rest),
  λ (here, rest).
      rw ((fields_changed_iff w.label w.baseline w.current).1 here, (check_fields_iff ws).1 rest),
)

upgrade_silent :
    (expected : Text) (actual : Authority)
    → (check_upgrade_authority (some expected) actual ≡ []) ↔ (actual ≡ held_by expected)
unfolding check_upgrade_authority
upgrade_silent expected unread = (λ h. absurd (cc), λ h. absurd (cc))
upgrade_silent expected nobody = (λ h. absurd (cc), λ h. absurd (cc))
upgrade_silent expected (held_by key) = ground (arith, codes_eq_iff key expected)

-- With an expected upgrade authority, the rule reports nothing exactly when that authority was read
-- from the chain and no watched pool's known fields differ from its baseline.
pub check_authorities-silent :
    (expected : Text) (actual : Authority) (ws : List Watched)
    → (check_authorities (some expected) actual ws ≡ [])
      ↔ ((actual ≡ held_by expected) × All (λ w. FieldsUnchanged w.baseline w.current) ws)
unfolding check_authorities
check_authorities-silent expected actual ws = (
  λ h.
      let (here, rest) = append-nil_parts _ _ h in
      ((upgrade_silent expected actual).0 here, (check_fields_iff ws).0 rest),
  λ (here, rest). rw ((upgrade_silent expected actual).1 here, (check_fields_iff ws).1 rest),
)
