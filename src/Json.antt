-- ===== src/Json.antt =====
-- JSON values and their checked copies: payments/paymentTypes.ts (JsonValue) and
-- storage/jsonValues.ts. A copy of an immutable value is the value; what is left of a clone is the
-- test that it makes on the way, and the error that it throws. The assignment `result[key] = ...` sets
-- no own property where the key is "__proto__".
pub mod Laws
use zephipay_backend.Common.{
  ℕ, ◌-◌, ◌^◌, Bool, true, false, String, ◌==◌, Result, ok, err, ◌>>=◌, leb, if◌then◌else◌, ℤ, pos,
  negsuc,
}

-- A JavaScript number: a whole one, a finite one that is not whole (`fraction m e` is m / 2^e), or
-- NaN and the infinities.
pub data Double : Type 0 where
  integer : ℤ → Double
  fraction : ℤ → ℕ → Double
  not_finite : Double

mutual
  pub data JsonValue : Type 0 where
    null : JsonValue
    boolean : Bool → JsonValue
    number : Double → JsonValue
    text : String → JsonValue
    array : JsonItems → JsonValue
    object : JsonObject → JsonValue

  pub data JsonItems : Type 0 where
    nil : JsonItems
    cons : JsonValue → JsonItems → JsonItems

  pub data JsonObject : Type 0 where
    end : JsonObject
    field : String → JsonValue → JsonObject → JsonObject

pub data JsonError : Type 0 where
  unsafe_number : JsonError

-- `Number.isSafeInteger` of a whole number.
abbrev pub is_safe_integer : ℤ → Bool
is_safe_integer (pos n) = leb n (2 ^ 53 - 1)
is_safe_integer (negsuc n) = leb n (2 ^ 53 - 2)

unfoldable pub is_storable : Double → Bool
is_storable (integer n) = is_safe_integer n
is_storable (fraction m e) = true
is_storable not_finite = false

unfoldable mutual
  unfolding is_storable

  pub clone_json_value : JsonValue → Result JsonError JsonValue
  clone_json_value null = ok null
  clone_json_value (boolean b) = ok (boolean b)
  clone_json_value (number d) = if is_storable d then ok (number d) else err unsafe_number
  clone_json_value (text s) = ok (text s)
  clone_json_value (array xs) = clone_json_items xs >>= λ ys. ok (array ys)
  clone_json_value (object fs) = clone_json_object fs >>= λ gs. ok (object gs)

  pub clone_json_items : JsonItems → Result JsonError JsonItems
  clone_json_items nil = ok nil
  clone_json_items (cons x xs) =
      clone_json_value x >>= λ y. clone_json_items xs >>= λ ys. ok (cons y ys)

  pub clone_json_object : JsonObject → Result JsonError JsonObject
  clone_json_object end = ok end
  clone_json_object (field k v fs) = clone_json_value v >>= λ w.
      clone_json_object fs >>= λ gs. ok (if k == "__proto__" then gs else field k w gs)

-- `{ ...fs, k: v }`
unfoldable pub put : String → JsonValue → JsonObject → JsonObject
put k v end = field k v end
put k v (field j w fs) = if j == k then field k v fs else field j w (put k v fs)

-- `JSON.parse(JSON.stringify(value))`: NaN and the infinities are written as `null`.
unfoldable mutual
  pub reparse_value : JsonValue → JsonValue
  reparse_value (number not_finite) = null
  reparse_value (array xs) = array (reparse_items xs)
  reparse_value (object fs) = object (reparse_object fs)
  reparse_value v = v

  pub reparse_items : JsonItems → JsonItems
  reparse_items nil = nil
  reparse_items (cons x xs) = cons (reparse_value x) (reparse_items xs)

  pub reparse_object : JsonObject → JsonObject
  reparse_object end = end
  reparse_object (field k v fs) = field k (reparse_value v) (reparse_object fs)
