-- ===== src/Json.antt =====
-- `serde_json::Value` as crates/gateway/src reads it: the tree, with a number known by what
-- `as_u64`, `as_i64` and `as_f64` say of it, and the accessors. The fields of an object stand in the order
-- of its map, each name once.
use nvidia_build_lb.Prelude.{
  ℕ, ◌*◌, ◌^◌, String, str_eq, Bool, true, false, ◌&&◌, ◌||◌, List, [], ◌∷◌, Option, none, some,
  leb, codes, if◌then◌else◌,
}

-- A finite `f64`: the mantissa divided by a power of two.
pub data Float : Type 0 where
  positive : (mantissa scale : ℕ) → Float
  negative : (mantissa scale : ℕ) → Float

-- `-(n + 1)` as an `i64`.
pub data Integer : Type 0 where
  at_least_zero : ℕ → Integer
  below_zero : ℕ → Integer

pub record Number : Type 0 where
  pub unsigned : Option ℕ
  pub signed : Option Integer
  pub float : Option Float

mutual
  pub data Value : Type 0 where
    object : Map → Value
    array : Elements → Value
    text : String → Value
    number : Number → Value
    boolean : Bool → Value
    null : Value

  pub data Map : Type 0 where
    entry : String → Value → Map → Map
    empty_map : Map

  pub data Elements : Type 0 where
    element : Value → Elements → Elements
    end_of_array : Elements

abbrev pub elements_of : Elements → List Value
elements_of end_of_array = []
elements_of (element v more) = v ∷ elements_of more

abbrev pub keys : Map → List String
keys empty_map = []
keys (entry name v more) = name ∷ keys more

-- `Map::get`
abbrev pub get : Map → String → Option Value
get empty_map wanted = none
get (entry name v more) wanted = if str_eq name wanted then some v else get more wanted

abbrev pub as_str : Value → Option String
as_str (text s) = some s
as_str _ = none

abbrev pub as_array : Value → Option (List Value)
as_array (array vs) = some (elements_of vs)
as_array _ = none

abbrev pub as_object : Value → Option Map
as_object (object fs) = some fs
as_object _ = none

abbrev pub as_u64 : Value → Option ℕ
as_u64 (number n) = n.unsigned
as_u64 _ = none

abbrev pub as_i64 : Value → Option Integer
as_i64 (number n) = n.signed
as_i64 _ = none

abbrev pub as_f64 : Value → Option Float
as_f64 (number n) = n.float
as_f64 _ = none

abbrev pub is_null : Value → Bool
is_null null = true
is_null _ = false

abbrev pub is_string : Value → Bool
is_string (text _) = true
is_string _ = false

abbrev pub is_array : Value → Bool
is_array (array _) = true
is_array _ = false

abbrev pub is_object : Value → Bool
is_object (object _) = true
is_object _ = false

-- `Option::and_then`, `is_some_and`, `is_none_or`
abbrev pub and_then {ℓ κ} : {A : Type ℓ} {B : Type κ} → Option A → (A → Option B) → Option B
and_then none f = none
and_then (some a) f = f a

abbrev pub is_some_and {ℓ} : {A : Type ℓ} → Option A → (A → Bool) → Bool
is_some_and none p = false
is_some_and (some a) p = p a

abbrev pub is_none_or {ℓ} : {A : Type ℓ} → Option A → (A → Bool) → Bool
is_none_or none p = true
is_none_or (some a) p = p a

-- `value.get(..).and_then(Value::as_str)`
abbrev pub get_str : Map → String → Option String
get_str fs name = and_then (get fs name) as_str

-- `==` of an optional text with a literal
abbrev pub is_text : String → Option String → Bool
is_text s o = is_some_and o (λ t. str_eq t s)

-- Membership of a name in a list, as `matches!` and `contains` have it.
abbrev pub one_of : List String → String → Bool
one_of [] s = false
one_of (x ∷ xs) s = str_eq s x || one_of xs s

-- `str::is_empty`
abbrev pub is_blank : List ℕ → Bool
is_blank [] = true
is_blank (_ ∷ _) = false

abbrev pub is_empty_text : String → Bool
is_empty_text s = is_blank (codes s)

-- Comparison of a finite float with natural numbers: `(low..=high).contains(&value)`, `value == low`.
abbrev pub float_within : ℕ → ℕ → Float → Bool
float_within low high (positive m k) = leb (low * 2 ^ k) m && leb m (high * 2 ^ k)
float_within low high (negative m k) = leb m 0 && leb low 0

abbrev pub float_is : ℕ → Float → Bool
float_is n f = float_within n n f

-- `(0..=high).contains(&value)` and `value == n` of an `i64`
abbrev pub integer_within : ℕ → ℕ → Integer → Bool
integer_within low high (at_least_zero n) = leb low n && leb n high
integer_within low high (below_zero n) = false

-- `Map::iter`
abbrev pub entries : Map → List (String × Value)
entries empty_map = []
entries (entry name v more) = (name, v) ∷ entries more

-- `obj.get(name).is_none_or(test)`
abbrev pub absent_or : Map → String → (Value → Bool) → Bool
absent_or fs name test = is_none_or (get fs name) test
