-- ===== src/Value.antt =====
-- The values of the JSON documents that the program passes about (events, matches, lets): Python's
-- None, bool, int, float, str, list and dict. A float is counted in millionths.
use siem_sentinel_xv.Base.{
  ℕ, suc, ◌/◌, ◌%◌, ◌≡◌, refl, Bool, true, false, not, ◌&&◌, ◌||◌, Option, none, some, List, String,
  [], ◌∷◌, ◌==◌, ◌=ₛ◌, if◌then◌else◌, ℤ, pos, negsuc, ◌*ℤ◌, eq_ℤ, arith, eq_iff,
}
use siem_sentinel_xv.Text.{decimal, ◌+ₛ◌, rstrip_zeros, pad6, contains, replace_quotes}

mutual
  pub data Value : Type 0 where
    null : Value
    bool : Bool → Value
    int : ℤ → Value
    float : ℤ → Value
    str : String → Value
    list : Items → Value
    dict : Fields → Value

  pub data Items : Type 0 where
    nil : Items
    cons : Value → Items → Items

  pub data Fields : Type 0 where
    end : Fields
    field : String → Value → Fields → Fields

-- d.get(k)
unfoldable pub get : Fields → String → Option Value
get end k = none
get (field j v fs) k = if j =ₛ k then some v else get fs k

-- d.get(k), None where the key is missing
unfoldable pub get_or_null : Fields → String → Value
unfolding get
get_or_null fs k = elim (get fs k) [ none ↦ null | some v ↦ v ]

-- `k in d`
unfoldable pub has_key : Fields → String → Bool
unfolding get
has_key fs k = elim (get fs k) [ none ↦ false | some v ↦ true ]

-- d[k] = v: an old key keeps its place
unfoldable pub put : String → Value → Fields → Fields
put k v end = field k v end
put k v (field j w fs) = if j =ₛ k then field k v fs else field j w (put k v fs)

unfoldable pub size : Fields → ℕ
size end = 0
size (field k v fs) = suc (size fs)

unfoldable pub items : Items → List Value
items nil = []
items (cons v vs) = v ∷ items vs

abbrev pub is_null : Value → Bool
is_null null = true
is_null _ = false

abbrev pub is_nil : Items → Bool
is_nil nil = true
is_nil _ = false

abbrev pub is_end : Fields → Bool
is_end end = true
is_end _ = false

-- bool(v)
abbrev pub truthy : Value → Bool
truthy null = false
truthy (bool b) = b
truthy (int n) = not (eq_ℤ n (pos 0))
truthy (float x) = not (eq_ℤ x (pos 0))
truthy (str s) = not (s =ₛ "")
truthy (list vs) = not (is_nil vs)
truthy (dict fs) = not (is_end fs)

infixr 30 ◌or◌
-- `a or b` on values
abbrev pub ◌or◌ : Value → Value → Value
a or b = if truthy a then a else b

-- A bool or a number, in millionths.
unfoldable pub millionths : Value → Option ℤ
millionths (bool true) = some (pos 1000000)
millionths (bool false) = some (pos 0)
millionths (int n) = some (n *ℤ pos 1000000)
millionths (float x) = some x
millionths _ = none

abbrev pub same_number : Option ℤ → Option ℤ → Bool
same_number (some a) (some b) = eq_ℤ a b
same_number _ _ = false

abbrev pub is_str : String → Value → Bool
is_str s (str t) = s =ₛ t
is_str s _ = false

abbrev pub list_of : Value → Option Items
list_of (list vs) = some vs
list_of _ = none

abbrev pub dict_of : Value → Option Fields
dict_of (dict fs) = some fs
dict_of _ = none

-- `v == w`: numbers and bools by value, dicts whatever the order of their keys
unfoldable mutual
  unfolding millionths get size

  pub value_eq : Value → Value → Bool
  value_eq null w = is_null w
  value_eq (bool b) w = same_number (millionths (bool b)) (millionths w)
  value_eq (int n) w = same_number (millionths (int n)) (millionths w)
  value_eq (float x) w = same_number (millionths (float x)) (millionths w)
  value_eq (str s) w = is_str s w
  value_eq (list vs) w = elim (list_of w) [ none ↦ false | some ws ↦ items_eq vs ws ]
  value_eq (dict fs) w = elim (dict_of w) [
    | none ↦ false
    | some gs ↦ size fs == size gs && fields_eq fs gs
  ]

  pub items_eq : Items → Items → Bool
  items_eq nil ws = is_nil ws
  items_eq (cons v vs) ws = elim ws [ nil ↦ false | cons w rest ↦ value_eq v w && items_eq vs rest ]

  pub fields_eq : Fields → Fields → Bool
  fields_eq end gs = true
  fields_eq (field k v fs) gs = elim (get gs k) [
    | none ↦ false
    | some w ↦ value_eq v w && fields_eq fs gs
  ]

-- `v in xs`
unfoldable pub value_in : Value → List Value → Bool
unfolding value_eq
value_in v [] = false
value_in v (x ∷ xs) = value_eq v x || value_in v xs

abbrev show_sign : ℤ → String
show_sign (pos n) = ""
show_sign (negsuc n) = "-"

abbrev magnitude : ℤ → ℕ
magnitude (pos n) = n
magnitude (negsuc n) = suc n

-- str(n)
unfoldable pub show_int : ℤ → String
unfolding ◌+ₛ◌ decimal
show_int n = show_sign n +ₛ decimal (magnitude n)

-- str(x), for a float that Python prints without an exponent
unfoldable pub show_float : ℤ → String
unfolding ◌+ₛ◌ decimal rstrip_zeros pad6
show_float x =
    show_sign x
    +ₛ decimal (magnitude x / 1000000)
    +ₛ "."
    +ₛ rstrip_zeros (pad6 (decimal (magnitude x % 1000000)))

unfoldable pub show_bool : Bool → String
show_bool true = "True"
show_bool false = "False"

-- repr(s), for a text with no control character
unfoldable pub quote : String → String
unfolding ◌+ₛ◌ contains replace_quotes
quote s =
    if contains "'" s && not (contains "\"" s)
    then "\"" +ₛ replace_quotes "" s +ₛ "\""
    else "'" +ₛ replace_quotes "'" s +ₛ "'"

-- repr(v)
unfoldable mutual
  unfolding show_int show_float show_bool quote ◌+ₛ◌

  pub repr : Value → String
  repr null = "None"
  repr (bool b) = show_bool b
  repr (int n) = show_int n
  repr (float x) = show_float x
  repr (str s) = quote s
  repr (list vs) = "[" +ₛ repr_items vs +ₛ "]"
  repr (dict fs) = "{" +ₛ repr_fields fs +ₛ "}"

  pub repr_items : Items → String
  repr_items nil = ""
  repr_items (cons v vs) = repr v +ₛ (if is_nil vs then "" else ", ") +ₛ repr_items vs

  pub repr_fields : Fields → String
  repr_fields end = ""
  repr_fields (field k v fs) =
      quote k +ₛ ": " +ₛ repr v +ₛ (if is_end fs then "" else ", ") +ₛ repr_fields fs

-- str(v)
unfoldable pub to_str : Value → String
unfolding repr
to_str (str s) = s
to_str v = repr v

-- `_as_str`
unfoldable pub as_str : Value → String
unfolding to_str
as_str null = ""
as_str v = to_str v

repr_runs :
    to_str (dict (field "a" (list (cons (int (negsuc 4)) (cons (float (pos 2500000)) nil))) end))
    ≡ "{'a': [-5, 2.5]}"
unfolding to_str
repr_runs = refl

pub get-put :
    (k j : String) (v : Value) (fs : Fields)
    → get (put k v fs) j ≡ (if k =ₛ j then some v else get fs j)
unfolding get put
get-put k j v end = refl
get-put k j v (field i w fs) = ground (arith, eq_iff k j, eq_iff i k, eq_iff i j, get-put k j v fs)
