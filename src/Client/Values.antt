-- ===== src/Client/Values.antt =====
-- The values of JavaScript, as `JSON.parse` and `structuredClone` hand them to the checks of
-- src/session-index-client.mjs. Texts are well-formed.
use Prim.Native.String.{String}
use text.Mathlib.Text.{◌==◌ as ◌=ˢ◌}
use qq_index.Prelude.{
  ℕ, Bool, true, false, ◌||◌, Option, none, some, List, [], ◌∷◌, ◌==◌, if◌then◌else◌,
}

-- A number: `n`, `-(n + 1)`, a finite number that is not whole, and an infinity or NaN.
pub data Number : Type 0 where
  whole negative : ℕ → Number
  fraction infinite : Number

-- `other` is what is neither of these: a function, a symbol or a bigint. An object says whether its
-- prototype is null or that of literals.
mutual
  pub data Value : Type 0 where
    undefined null other : Value
    boolean : Bool → Value
    number : Number → Value
    string : String → Value
    array : Items → Value
    object : (plain : Bool) → Fields → Value

  pub data Items : Type 0 where
    no_items : Items
    item : Value → Items → Items

  pub data Fields : Type 0 where
    no_fields : Fields
    field : String → Value → Fields → Fields

-- The equality of texts.
abbrev pub same_text : String → String → Bool
same_text s t = s =ˢ t

abbrev pub to_list : Items → List Value
to_list no_items = []
to_list (item v vs) = v ∷ to_list vs

abbrev pub entries : Fields → List (String × Value)
entries no_fields = []
entries (field k v fs) = (k, v) ∷ entries fs

-- `Object.keys`
abbrev pub keys : Fields → List String
keys no_fields = []
keys (field k v fs) = k ∷ keys fs

abbrev pub find_field : String → Fields → Value
find_field k no_fields = undefined
find_field k (field j v fs) = if same_text j k then v else find_field k fs

-- `value[k]`, where `k` is no name of the prototype.
unfoldable pub get : String → Value → Value
get k (object plain fs) = find_field k fs
get k v = undefined

-- `new Set(ks).has(k)`
unfoldable pub has_text : String → List String → Bool
has_text k [] = false
has_text k (j ∷ js) = same_text j k || has_text k js

-- The items of an array.
unfoldable pub elements : Value → List Value
elements (array vs) = to_list vs
elements v = []

abbrev same_number : Number → Number → Bool
same_number (whole m) (whole n) = m == n
same_number (negative m) (negative n) = m == n
same_number m n = false

abbrev same_boolean : Bool → Bool → Bool
same_boolean true b = b
same_boolean false true = false
same_boolean false false = true

-- `===` with a whole number, a text, a Boolean, null or undefined on one side.
unfoldable pub strict_equal : Value → Value → Bool
strict_equal undefined undefined = true
strict_equal null null = true
strict_equal (boolean a) (boolean b) = same_boolean a b
strict_equal (number m) (number n) = same_number m n
strict_equal (string s) (string t) = same_text s t
strict_equal v w = false

-- The text of a value that is one.
unfoldable pub text_of : Value → Option String
text_of (string s) = some s
text_of v = none
