-- ===== src/Json/Laws.antt =====
-- What a checked copy of a JSON value is, and when there is none.

-- The doubles that are finite, and below 2^53 in magnitude if they are whole: the specification.
use zephipay_backend.Common.{
  Bool, ap, arith, err, false, if◌then◌else◌, ltb, negsuc, ok, pos, refl, true, ◌&&◌, ◌+◌, ◌==◌,
  ◌↔◌, ◌≡◌,
}
use zephipay_backend.Json.{
  Double, JsonItems, JsonObject, JsonValue, array, boolean, clone_json_items, clone_json_object,
  clone_json_value, cons, end, field, fraction, integer, is_storable, nil, not_finite, null, number,
  object, text, unsafe_number,
}

abbrev pub is_plain : Double → Bool
is_plain (integer (pos n)) = ltb n 9007199254740992
is_plain (integer (negsuc n)) = ltb (n + 1) 9007199254740992
is_plain (fraction m e) = true
is_plain not_finite = false

is_storable-is_plain : (d : Double) → is_storable d ≡ is_plain d
unfolding is_storable
is_storable-is_plain (integer (pos n)) = ground arith
is_storable-is_plain (integer (negsuc n)) = ground arith
is_storable-is_plain (fraction m e) = refl
is_storable-is_plain not_finite = refl

-- Every number of the value is plain.
mutual
  pub all_plain : JsonValue → Bool
  all_plain null = true
  all_plain (boolean b) = true
  all_plain (number d) = is_plain d
  all_plain (text s) = true
  all_plain (array xs) = all_plain_items xs
  all_plain (object fs) = all_plain_object fs

  pub all_plain_items : JsonItems → Bool
  all_plain_items nil = true
  all_plain_items (cons x xs) = all_plain x && all_plain_items xs

  pub all_plain_object : JsonObject → Bool
  all_plain_object end = true
  all_plain_object (field k v fs) = all_plain v && all_plain_object fs

-- The value without the keys "__proto__", at every depth.
mutual
  pub without_proto : JsonValue → JsonValue
  without_proto null = null
  without_proto (boolean b) = boolean b
  without_proto (number d) = number d
  without_proto (text s) = text s
  without_proto (array xs) = array (without_proto_items xs)
  without_proto (object fs) = object (without_proto_object fs)

  pub without_proto_items : JsonItems → JsonItems
  without_proto_items nil = nil
  without_proto_items (cons x xs) = cons (without_proto x) (without_proto_items xs)

  pub without_proto_object : JsonObject → JsonObject
  without_proto_object end = end
  without_proto_object (field k v fs) =
      if k == "__proto__"
      then without_proto_object fs
      else field k (without_proto v) (without_proto_object fs)

-- A copy is the value without those keys if every number is plain, and else the error.
mutual
  unfolding clone_json_value clone_json_items clone_json_object all_plain all_plain_items
      all_plain_object without_proto without_proto_items without_proto_object

  clone_value_eq :
      (v : JsonValue)
      → clone_json_value v ≡ (if all_plain v then ok (without_proto v) else err unsafe_number)
  clone_value_eq null = refl
  clone_value_eq (boolean b) = refl
  clone_value_eq (number d) = ground (arith, is_storable-is_plain d)
  clone_value_eq (text s) = refl
  clone_value_eq (array xs) = ground (arith, clone_items_eq xs)
  clone_value_eq (object fs) = ground (arith, clone_object_eq fs)

  clone_items_eq :
      (xs : JsonItems)
      → clone_json_items xs
        ≡ (if all_plain_items xs then ok (without_proto_items xs) else err unsafe_number)
  clone_items_eq nil = refl
  clone_items_eq (cons x xs) = ground (arith, clone_value_eq x, clone_items_eq xs)

  clone_object_eq :
      (fs : JsonObject)
      → clone_json_object fs
        ≡ (if all_plain_object fs then ok (without_proto_object fs) else err unsafe_number)
  clone_object_eq end = refl
  clone_object_eq (field k v fs) = ground (arith, clone_value_eq v, clone_object_eq fs)

-- A checked copy is made exactly of a value whose numbers are finite, and below 2^53 in magnitude
-- where they are whole; it is that value without the keys "__proto__", at every depth.
pub clone_json_value_iff :
    (v w : JsonValue) → (clone_json_value v ≡ ok w) ↔ ((all_plain v ≡ true) × (w ≡ without_proto v))
clone_json_value_iff v w = (
  (λ h. (ground (arith, clone_value_eq v), ground (arith, clone_value_eq v))),
  (λ h. ground (arith, clone_value_eq v, h.0, h.1)),
)

-- What is copied is all plain, and has none of those keys left.
mutual
  unfolding all_plain all_plain_items all_plain_object without_proto without_proto_items
      without_proto_object

  value_again :
      (v : JsonValue)
      → all_plain v ≡ true
      → (all_plain (without_proto v) ≡ true) × (without_proto (without_proto v) ≡ without_proto v)
  value_again null h = (refl, refl)
  value_again (boolean b) h = (refl, refl)
  value_again (number d) h = (h, refl)
  value_again (text s) h = (refl, refl)
  value_again (array xs) h = let again = items_again xs h in (again.0, ap array again.1)
  value_again (object fs) h = let again = object_again fs h in (again.0, ap object again.1)

  items_again :
      (xs : JsonItems)
      → all_plain_items xs ≡ true
      → (all_plain_items (without_proto_items xs) ≡ true)
        × (without_proto_items (without_proto_items xs) ≡ without_proto_items xs)
  items_again nil h = (refl, refl)
  items_again (cons x xs) h = ground (arith, value_again x, items_again xs)

  object_again :
      (fs : JsonObject)
      → all_plain_object fs ≡ true
      → (all_plain_object (without_proto_object fs) ≡ true)
        × (without_proto_object (without_proto_object fs) ≡ without_proto_object fs)
  object_again end h = (refl, refl)
  object_again (field k v fs) h = ground (arith, value_again v, object_again fs)

-- A copied object can be copied again, and is itself.
pub clone_json_object_again :
    (fs gs : JsonObject) → clone_json_object fs ≡ ok gs → clone_json_object gs ≡ ok gs
clone_json_object_again fs gs h =
    let plain : all_plain_object fs ≡ true = ground (arith, clone_object_eq fs) in
    let copy : gs ≡ without_proto_object fs = ground (arith, clone_object_eq fs) in
    let again = object_again fs plain in ground (arith, clone_object_eq gs, again.0, again.1)
