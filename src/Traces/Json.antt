-- ===== src/Traces/Json.antt =====
-- What `json.loads` makes of a line, as model/compare_traces.py uses it: the values, their equality,
-- `int()` of them, and `p, s = value`. `int()` of a `str` is a parameter; `none` is a `ValueError`.
use hft_rtl.Prelude.{
  ℕ, suc, ◌*◌, ◌/◌, ◌^◌, Bool, true, false, ◌&&◌, Option, none, some, [], ◌∷◌, nat_eq,
  if◌then◌else◌, Text, text_eq,
}
use hft_rtl.Prelude.Result.{Result, raise, ok, ◌>>=◌, or_raise, value_error, overflow_error}
use hft_rtl.Prelude.Int.{ℤ, pos, negsuc, int_eq, sub_ℕ}

-- `float m k` is the finite float m / 2 ^ k. An object lists its entries in order, a key once.
mutual
  pub data Value : Type 0 where
    null : Value
    boolean : Bool → Value
    integer : ℤ → Value
    float : ℤ → ℕ → Value
    infinity : Bool → Value
    nan : Value
    text : Text → Value
    array : Items → Value
    object : Fields → Value

  pub data Items : Type 0 where
    nil : Items
    item : Value → Items → Items

  pub data Fields : Type 0 where
    end : Fields
    field : Text → Value → Fields → Fields

unfoldable pub count_items : Items → ℕ
count_items nil = 0
count_items (item v vs) = suc (count_items vs)

unfoldable pub count_fields : Fields → ℕ
count_fields end = 0
count_fields (field k v fs) = suc (count_fields fs)

unfoldable pub find_field : Text → Fields → Option Value
find_field key end = none
find_field key (field k v fs) = if text_eq key k then some v else find_field key fs

-- A number, an integer over a power of two: a `bool` is one too.
abbrev pub number_of : Value → Option (ℤ × ℕ)
number_of (boolean true) = some (pos 1, 0)
number_of (boolean false) = some (pos 0, 0)
number_of (integer n) = some (n, 0)
number_of (float m k) = some (m, k)
number_of _ = none

abbrev scaled : ℤ → ℕ → ℤ
scaled (pos n) k = pos (n * 2 ^ k)
scaled (negsuc n) k = sub_ℕ 0 (suc n * 2 ^ k)

abbrev pub same_number : ℤ × ℕ → Option (ℤ × ℕ) → Bool
same_number a none = false
same_number a (some b) = int_eq (scaled a.0 b.1) (scaled b.0 a.1)

abbrev pub is_null : Value → Bool
is_null null = true
is_null _ = false

abbrev pub is_infinity : Bool → Value → Bool
is_infinity true (infinity true) = true
is_infinity false (infinity false) = true
is_infinity _ _ = false

-- `json.loads` makes the same object of every `NaN`, which containers compare by identity first.
abbrev pub is_nan : Value → Bool
is_nan nan = true
is_nan _ = false

abbrev pub is_text : Text → Value → Bool
is_text t (text u) = text_eq t u
is_text t _ = false

-- `==` on values inside of a dict: dicts are equal in any order of their keys.
unfoldable mutual
  pub value_eq : Value → Value → Bool
  value_eq null b = is_null b
  value_eq (boolean true) b = same_number (pos 1, 0) (number_of b)
  value_eq (boolean false) b = same_number (pos 0, 0) (number_of b)
  value_eq (integer n) b = same_number (n, 0) (number_of b)
  value_eq (float m k) b = same_number (m, k) (number_of b)
  value_eq (infinity s) b = is_infinity s b
  value_eq nan b = is_nan b
  value_eq (text t) b = is_text t b
  value_eq (array vs) (array ws) = items_eq vs ws
  value_eq (array vs) _ = false
  value_eq (object fs) (object gs) = nat_eq (count_fields fs) (count_fields gs) && fields_in fs gs
  value_eq (object fs) _ = false

  pub items_eq : Items → Items → Bool
  items_eq nil nil = true
  items_eq nil (item w ws) = false
  items_eq (item v vs) nil = false
  items_eq (item v vs) (item w ws) = value_eq v w && items_eq vs ws

  pub fields_in : Fields → Fields → Bool
  fields_in end gs = true
  fields_in (field k v fs) gs =
      elim (find_field k gs) [ none ↦ false | some w ↦ value_eq v w ] && fields_in fs gs

unfoldable pub fields_eq : Fields → Fields → Bool
fields_eq fs gs = nat_eq (count_fields fs) (count_fields gs) && fields_in fs gs

-- Towards zero, as `int()` of a float.
abbrev pub truncated : ℤ → ℕ → ℤ
truncated (pos n) k = pos (n / 2 ^ k)
truncated (negsuc n) k = sub_ℕ 0 (suc n / 2 ^ k)

-- `p, s = value`: a list of two, the two characters of a text, the two keys of a dict. A
-- `TypeError` is a `value_error` too, since the code catches both alike.
abbrev pub unpack : Value → Result (Value × Value)
unpack (array (item p (item s nil))) = ok (p, s)
unpack (text (p ∷ s ∷ [])) = ok (text (p ∷ []), text (s ∷ []))
unpack (object (field p v (field s w end))) = ok (text p, text s)
unpack _ = raise value_error

abbrev pub pair : ℤ → ℤ → Value
pair p s = array (item (integer p) (item (integer s) nil))

module _ (int_of_text : Text → Option ℤ) where
  -- `int(value)`
  unfoldable pub int_of : Value → Result ℤ
  int_of (boolean true) = ok (pos 1)
  int_of (boolean false) = ok (pos 0)
  int_of (integer n) = ok n
  int_of (float m k) = ok (truncated m k)
  int_of (infinity s) = raise overflow_error
  int_of (text t) = or_raise value_error (int_of_text t)
  int_of _ = raise value_error

  -- `[int(p), int(s)]` of an element
  unfoldable pub level_of : Value → Result Value
  level_of value = do ps ← unpack value; p ← int_of ps.0; s ← int_of ps.1; ok (pair p s)

  -- `[[int(p), int(s)] for p, s in value]`
  unfoldable pub levels_of : Items → Result Items
  levels_of nil = ok nil
  levels_of (item v vs) = do level ← level_of v; rest ← levels_of vs; ok (item level rest)
