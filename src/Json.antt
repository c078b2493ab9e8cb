-- ===== src/Json.antt =====
-- JSON values as Python reads them by `json.loads`, for the code that tests their types. An object
-- is the list of its members, with distinct keys, in the order of the text.
use github.Base.{ℕ, String, Bool, true, false, not, ◌&&◌, Option, none, some, List, [], ◌∷◌}
use github.Base.{◌==◌, string_eq, nat_eq, length, leb, if◌then◌else◌}
use github.Base.Text.{is_blank}

-- An integer: `neg n` is -(n + 1).
pub data Number : Type 0 where
  nat : ℕ → Number
  neg : ℕ → Number

mutual
  -- `real` is a Python float: the integer that it equals, if any, and its text by `repr`.
  pub data Value : Type 0 where
    null : Value
    bool : Bool → Value
    int : Number → Value
    real : Option Number → String → Value
    str : String → Value
    arr : Items → Value
    obj : Fields → Value

  pub data Items : Type 0 where
    no_items : Items
    item : Value → Items → Items

  pub data Fields : Type 0 where
    no_fields : Fields
    field : String → Value → Fields → Fields

-- `d.get(key)`, with `none` for a key that is not there
unfoldable pub find : Fields → String → Option Value
find no_fields key = none
find (field k v fs) key = let rest = find fs key in if k == key then some v else rest

-- `d.items()`
unfoldable pub entries : Fields → List (String × Value)
entries no_fields = []
entries (field k v fs) = (k, v) ∷ entries fs

-- `d.get(key)`, where a missing key and a null are both None
abbrev value_or_null : Option Value → Value
value_or_null none = null
value_or_null (some v) = v

unfoldable pub get : Fields → String → Value
unfolding find
get fs key = value_or_null (find fs key)

-- `isinstance(value, str)`, and the text
abbrev pub text_of : Value → Option String
text_of (str s) = some s
text_of _ = none

-- `isinstance(value, list)`, and its items
abbrev pub list_items : Items → List Value
list_items no_items = []
list_items (item v vs) = v ∷ list_items vs

abbrev pub list_of : Value → Option (List Value)
list_of (arr vs) = some (list_items vs)
list_of _ = none

-- `isinstance(value, dict)`, and its members
abbrev pub dict_of : Value → Option Fields
dict_of (obj fs) = some fs
dict_of _ = none

-- `type(value) is int and value >= 0`, and the number
abbrev pub count_of : Value → Option ℕ
count_of (int (nat n)) = some n
count_of _ = none

-- `type(value) is int and value > 0`, and the number
abbrev pub positive_of : Value → Option ℕ
positive_of (int (nat n)) = if leb 1 n then some n else none
positive_of _ = none

-- What `==` compares as a number.
abbrev pub number_of : Value → Option Number
number_of (bool true) = some (nat 1)
number_of (bool false) = some (nat 0)
number_of (int n) = some n
number_of (real n s) = n
number_of _ = none

abbrev number_beq : Number → Number → Bool
number_beq (nat m) (nat n) = m == n
number_beq (neg m) (neg n) = m == n
number_beq _ _ = false

abbrev numbers_beq : Option Number → Option Number → Bool
numbers_beq (some m) (some n) = number_beq m n
numbers_beq _ _ = false

unfoldable mutual
  -- `a == b`
  pub same : Value → Value → Bool
  same null null = true
  same (str s) (str t) = s == t
  same (real none s) (real none t) = s == t
  same (arr vs) (arr ws) = same_items vs ws
  same (obj fs) (obj gs) = length (entries fs) == length (entries gs) && same_fields fs gs
  same v w = numbers_beq (number_of v) (number_of w)

  same_items : Items → Items → Bool
  same_items no_items no_items = true
  same_items (item v vs) (item w ws) = same v w && same_items vs ws
  same_items _ _ = false

  same_fields : Fields → Fields → Bool
  same_fields no_fields gs = true
  same_fields (field k v fs) gs =
      let rest = same_fields fs gs in elim (find gs k) [ none ↦ false | some w ↦ same v w && rest ]

-- `value == "text"`
abbrev pub is_text : String → Value → Bool
is_text s (str t) = t == s
is_text s _ = false

-- `bool(value)`
abbrev pub is_truthy : Value → Bool
is_truthy null = false
is_truthy (bool b) = b
is_truthy (int (nat n)) = leb 1 n
is_truthy (int (neg n)) = true
is_truthy (real (some (nat n)) s) = leb 1 n
is_truthy (real _ s) = true
is_truthy (str s) = not (is_blank s)
is_truthy (arr no_items) = false
is_truthy (arr (item v vs)) = true
is_truthy (obj no_fields) = false
is_truthy (obj (field k v fs)) = true

-- `dict(d, key=value)`
unfoldable pub set_field : String → Value → Fields → Fields
set_field key value no_fields = field key value no_fields
set_field key value (field k v fs) =
    let rest = set_field key value fs in if k == key then field k value fs else field k v rest

-- A list of objects.
abbrev pub items_of : List Fields → Items
items_of [] = no_items
items_of (fs ∷ rows) = item (obj fs) (items_of rows)
