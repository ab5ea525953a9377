-- ===== src/Json.antt =====
-- The values that `json.loads` returns, and the reads and writes of a JSON object (a Python dict)
-- that the SDK makes. An object's members keep their order.
use axiam_python_sdk.Base.{
  String, Bool, true, false, Option, none, some, ◌==◌, if◌then◌else◌, is_some,
}
use axiam_python_sdk.Base.Int.{ℤ}

mutual
  -- the members of an object, in order
  pub data Fields : Type 0 where
    end : Fields
    field : String → Value → Fields → Fields

  pub data Value : Type 0 where
    obj : Fields → Value
    arr : Items → Value
    str : String → Value
    int : ℤ → Value
    bool : Bool → Value
    null : Value
    -- a float, by its text: the SDK only tells that it is one
    float : String → Value

  -- the elements of an array
  pub data Items : Type 0 where
    nil : Items
    cons : Value → Items → Items

-- d.get(k)
unfoldable pub get : String → Fields → Option Value
get k end = none
get k (field j v d) = if j == k then some v else get k d

-- k in d
abbrev pub has : String → Fields → Bool
has k d = is_some (get k d)

-- d.pop(k, None)
unfoldable pub pop : String → Fields → Fields
pop k end = end
pop k (field j v d) = let rest = pop k d in if j == k then d else field j v rest

-- d[k] = v: the place of a key that is there is kept, a new one comes last
unfoldable pub assign : String → Value → Fields → Fields
assign k v end = field k v end
assign k v (field j w d) = let rest = assign k v d in if j == k then field j v d else field j w rest

-- value == text, for a value of any type
abbrev pub equals_text : Value → String → Bool
equals_text (str t) s = t == s
equals_text _ s = false

-- any(v == text for v in items)
unfoldable pub any_text : Items → String → Bool
any_text nil s = false
any_text (cons v vs) s = let rest = any_text vs s in if equals_text v s then true else rest
