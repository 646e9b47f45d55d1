-- ===== src/Commerce/Json.antt =====
-- Equality of JSON values in canonical form, and the analysis request inside a purchase intent.
use sitescore.Common.{
  Bool, true, false, ◌&&◌, String, str_eq, Option, none, some, ◌≡◌, refl, arith, eq_iff,
  if◌then◌else◌,
}
use sitescore.Common.Action.{Result, ok, err, fulfillment_invariant}
use sitescore.Commerce.Rows.{
  Json, null, scalar, array, object, Items, nil, cons, Fields, end, field,
}

unfoldable mutual
  pub json_eq : Json → Json → Bool
  json_eq null null = true
  json_eq (scalar s) (scalar t) = str_eq s t
  json_eq (array xs) (array ys) = items_eq xs ys
  json_eq (object xs) (object ys) = fields_eq xs ys
  json_eq _ _ = false

  pub items_eq : Items → Items → Bool
  items_eq nil nil = true
  items_eq (cons x xs) (cons y ys) = json_eq x y && items_eq xs ys
  items_eq _ _ = false

  pub fields_eq : Fields → Fields → Bool
  fields_eq end end = true
  fields_eq (field k x xs) (field j y ys) = str_eq k j && json_eq x y && fields_eq xs ys
  fields_eq _ _ = false

mutual
  unfolding json_eq items_eq fields_eq

  json_refl : (j : Json) → json_eq j j ≡ true
  json_refl null = refl
  json_refl (scalar s) = (eq_iff s s).1 refl
  json_refl (array xs) = items_refl xs
  json_refl (object xs) = fields_refl xs

  items_refl : (xs : Items) → items_eq xs xs ≡ true
  items_refl nil = refl
  items_refl (cons x xs) = ground (arith, json_refl x, items_refl xs)

  fields_refl : (xs : Fields) → fields_eq xs xs ≡ true
  fields_refl end = refl
  fields_refl (field k x xs) = ground (arith, eq_iff k k, json_refl x, fields_refl xs)

-- A value is equal to itself.
pub json_eq_refl : (j : Json) → json_eq j j ≡ true
json_eq_refl j = json_refl j

get_field : String → Fields → Option Json
get_field key end = none
get_field key (field k v rest) = if str_eq k key then some v else get_field key rest

is_object : Json → Bool
is_object (object _) = true
is_object _ = false

-- `_analysis_request_from_order`: the snapshot, or the text of what it raises.
unfoldable pub analysis_request : Json → Result Json
unfolding get_field is_object
analysis_request (object fields) = elim (get_field "analysis_request" fields) [
  | none ↦ err (fulfillment_invariant "durable analysis request snapshot is unavailable")
  | some payload ↦
      if is_object payload
      then ok payload
      else err (fulfillment_invariant "durable analysis request snapshot is unavailable")
]
analysis_request _ = err (fulfillment_invariant "durable purchase intent is invalid")
