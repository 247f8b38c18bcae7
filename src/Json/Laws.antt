-- ===== src/Json/Laws.antt =====
-- Reading a field of an object after a field is set.
use danso.Prelude.{◌≡◌, refl, true, false, some, String, str_eq, eq_iff, Bool-cases, inl, inr}
use danso.Json.{Value, Fields, end, field, get_field, set_field}

pub str_eq_same : (s : String) → str_eq s s ≡ true
str_eq_same s = (eq_iff s s).1 refl

pub get-set_same :
    (fs : Fields) (key : String) (v : Value) → get_field (set_field fs key v) key ≡ some v
unfolding get_field set_field
get-set_same end key v = rw (str_eq_same key) refl
get-set_same (field k old fs) key v = elim (Bool-cases (str_eq k key)) [
  | inl same ↦ rw (same, same) refl
  | inr other ↦ rw (other, other) (get-set_same fs key v)
]

pub get-set_other :
    (fs : Fields) (key other : String) (v : Value)
    → str_eq key other ≡ false
    → get_field (set_field fs key v) other ≡ get_field fs other
unfolding get_field set_field
get-set_other end key other v h = rw h refl
get-set_other (field k old fs) key other v h = elim (Bool-cases (str_eq k key)) [
  | inl same ↦
      let here : k ≡ key = (eq_iff k key).0 same in
      let apart : str_eq k other ≡ false = rw here h in rw (same, apart) refl
  | inr apart ↦ elim (Bool-cases (str_eq k other)) [
    | inl found ↦ rw (apart, found) refl
    | inr beyond ↦ rw (apart, beyond) (get-set_other fs key other v h)
  ]
]
