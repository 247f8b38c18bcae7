-- ===== src/Json.antt =====
-- The part of `serde_json::Value` that the code uses: the documents, reading a field, and the
-- conversions. An object is the list of its fields, whose names are distinct in every document.
pub mod Laws
use danso.Prelude.{
  ℕ, suc, String, Bool, true, false, ◌&&◌, ◌||◌, Option, none, some, List, [], ◌∷◌, str_eq,
  if◌then◌else◌, ◌==◌,
}

mutual
  pub data Value : Type 0 where
    null : Value
    bool : Bool → Value
    -- a non-negative integer
    num : ℕ → Value
    -- a negative or a fractional number, which nothing here reads
    other_number : ℕ → Value
    str : String → Value
    arr : Items → Value
    obj : Fields → Value

  pub data Items : Type 0 where
    no_items : Items
    item : Value → Items → Items

  pub data Fields : Type 0 where
    end : Fields
    field : String → Value → Fields → Fields

unfoldable pub get_field : Fields → String → Option Value
get_field end key = none
get_field (field k v fs) key = if str_eq k key then some v else get_field fs key

-- `value.get(key)`
unfoldable pub get : Value → String → Option Value
unfolding get_field
get (obj fs) key = get_field fs key
get _ key = none

abbrev or_null : Option Value → Value
or_null none = null
or_null (some v) = v

-- `value[key]`, which is `Null` where there is no such field
unfoldable pub index : Value → String → Value
unfolding get
index v key = or_null (get v key)

unfoldable pub as_str : Value → Option String
as_str (str s) = some s
as_str _ = none

unfoldable pub as_u64 : Value → Option ℕ
as_u64 (num n) = some n
as_u64 _ = none

-- `value == text` and `value == n`
unfoldable pub is_str : Value → String → Bool
is_str (str s) text = str_eq s text
is_str _ text = false

unfoldable pub is_num : Value → ℕ → Bool
is_num (num n) m = n == m
is_num _ m = false

unfoldable pub count : Fields → ℕ
count end = 0
count (field k v fs) = suc (count fs)

unfoldable pub contains : List String → String → Bool
contains [] key = false
contains (k ∷ ks) key = str_eq k key || contains ks key

-- every name of the object is among the keys
unfoldable pub names_within : Fields → List String → Bool
unfolding contains
names_within end keys = true
names_within (field k v fs) keys = contains keys k && names_within fs keys

-- `fields.insert(key, v)` and `value[key] = v`
unfoldable pub set_field : Fields → String → Value → Fields
set_field end key v = field key v end
set_field (field k old fs) key v =
    let rest = set_field fs key v in if str_eq k key then field k v fs else field k old rest

abbrev pub insert : Value → String → Value → Value
insert (obj fs) key v = obj (set_field fs key v)
insert value key v = value

abbrev pub to_list : Items → List Value
to_list no_items = []
to_list (item v vs) = v ∷ to_list vs

abbrev pub of_list : List Value → Items
of_list [] = no_items
of_list (v ∷ vs) = item v (of_list vs)

unfoldable pub as_array : Value → Option (List Value)
as_array (arr vs) = some (to_list vs)
as_array _ = none

unfoldable pub as_bool : Value → Option Bool
as_bool (bool b) = some b
as_bool _ = none

abbrev pub is_null : Value → Bool
is_null null = true
is_null _ = false

abbrev pub is_string : Value → Bool
is_string (str s) = true
is_string _ = false

abbrev pub is_object : Value → Bool
is_object (obj fs) = true
is_object _ = false

abbrev pub is_true : Value → Bool
is_true (bool b) = b
is_true _ = false

-- `a == b`: the order of an object's fields does not matter
unfoldable mutual
  pub value_eq : Value → Value → Bool
  value_eq null null = true
  value_eq (bool true) (bool b) = b
  value_eq (bool false) (bool true) = false
  value_eq (bool false) (bool false) = true
  value_eq (num n) (num m) = n == m
  value_eq (other_number n) (other_number m) = n == m
  value_eq (str s) (str t) = str_eq s t
  value_eq (arr vs) (arr ws) = items_eq vs ws
  value_eq (obj fs) (obj gs) = (count fs == count gs) && fields_in fs gs
  value_eq _ _ = false

  pub items_eq : Items → Items → Bool
  items_eq no_items no_items = true
  items_eq (item v vs) (item w ws) = value_eq v w && items_eq vs ws
  items_eq _ _ = false

  pub fields_in : Fields → Fields → Bool
  fields_in end gs = true
  fields_in (field k v fs) gs = elim (get_field gs k) [
    | none ↦ false
    | some w ↦ value_eq v w && fields_in fs gs
  ]
