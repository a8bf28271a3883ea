-- ===== src/Base/Js.antt =====
-- Values of JavaScript as the program receives them from the network or from storage: the
-- program reads them with the type `unknown` and tests them field by field.
use Prim.Native.Char.{code}
use Prim.Native.Nat.{ℕ}
use Prim.Native.String.{String}
use mathlib.Core.Bool.{Bool, false, ◌&&◌, ◌||◌}
use mathlib.Core.List.{List, [], ◌∷◌}
use mathlib.Core.Option.{Option, none, some}
use jupyter_pair_ext.Base.Tests.{leb, ltb, if◌then◌else◌, ◌==◌, nat_eq, string_eq}
use jupyter_pair_ext.Base.Lists.{length, all}
use jupyter_pair_ext.Base.Int.{ℤ, pos, negsuc}

-- A number: an integer, or anything else (a fraction, an infinity, NaN).
pub data Number : Type 0 where
  whole : ℤ → Number
  not_whole : Number

-- `Number.MAX_SAFE_INTEGER`
abbrev pub max_safe_integer : ℕ
max_safe_integer = 9007199254740991

-- `Number.isSafeInteger(n)`
abbrev pub is_safe_integer : Number → Bool
is_safe_integer (whole (pos n)) = leb n max_safe_integer
is_safe_integer (whole (negsuc n)) = ltb n max_safe_integer
is_safe_integer not_whole = false

-- The value of a safe integer that is at least 0.
abbrev pub safe_natural? : Number → Option ℕ
safe_natural? (whole (pos n)) = if leb n max_safe_integer then some n else none
safe_natural? (whole (negsuc n)) = none
safe_natural? not_whole = none

mutual
  pub data Value : Type 0 where
    undefined : Value
    null : Value
    bool : Bool → Value
    num : Number → Value
    str : String → Value
    arr : Items → Value
    obj : Fields → Value

  pub data Fields : Type 0 where
    end : Fields
    field : String → Value → Fields → Fields

  pub data Items : Type 0 where
    nil : Items
    cons : Value → Items → Items

-- `raw.name`, `undefined` where there is no such field.
unfoldable pub get_field : String → Fields → Value
get_field name end = undefined
get_field name (field key value rest) = if key == name then value else get_field name rest

-- `safe_natural?` of a field that is a number: `Number.isSafeInteger(v) && v >= 0`.
abbrev pub natural_value? : Value → Option ℕ
natural_value? (num n) = safe_natural? n
natural_value? _ = none

-- The code units of a text: `String` has its own `[]` and `∷`.
abbrev pub codes : String → List ℕ
codes String.[] = []
codes (String.◌∷◌ c s) = code c ∷ codes s

abbrev pub is_digit : ℕ → Bool
is_digit c = leb b'0' c && leb c b'9'

abbrev pub is_letter : ℕ → Bool
is_letter c = (leb b'a' c && leb c b'z') || (leb b'A' c && leb c b'Z')

-- `[A-Za-z0-9_-]`
abbrev pub is_id_character : ℕ → Bool
is_id_character c = is_letter c || is_digit c || c == b'_' || c == b'-'

-- `/^[A-Za-z0-9_-]{1,limit}$/`
abbrev pub matches_id : ℕ → String → Bool
matches_id limit s =
    let cs = codes s in leb 1 (length cs) && leb (length cs) limit && all is_id_character cs
