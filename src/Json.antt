-- ===== src/Json.antt =====
-- The part of simdjson's on-demand parser that the dispatcher calls. It is third-party code, so it
-- is a parameter. A document carries the parser's cursor: every access returns the document as it
-- is afterwards, beside its result, and `none` stands for an error code.
use hft_deribit.Prelude.{ℕ, Text, Option, none, some, Bool}
use hft_deribit.Prelude.Int.{ℤ}

pub record Simdjson : Type 1 where
  pub Doc : Type 0
  pub Value : Type 0
  pub Object : Type 0
  -- `parser.iterate(json)`
  pub iterate : Text → Option Doc
  -- `doc[key]` and `object[key]`
  pub find_field : Doc → Text → Doc × Option Value
  -- `value[key]`, on a value that should be an object
  pub find_field_in : Doc → Value → Text → Doc × Option Value
  pub find_field_of : Doc → Object → Text → Doc × Option Value
  -- the conversions of a value
  pub get_uint64 : Doc → Value → Doc × Option ℕ
  pub get_int64 : Doc → Value → Doc × Option ℤ
  pub get_string : Doc → Value → Doc × Option Text
  pub get_object : Doc → Value → Doc × Option Object
  pub raw_json : Doc → Value → Doc × Option Text
  -- the conversion of its result to `bool` throws on an error
  pub is_null : Doc → Value → Doc × Option Bool

-- An access that goes on only if the one before it succeeded, as chained results do.
abbrev pub after {ℓ κ κ'} :
    {D : Type ℓ} {A : Type κ} {B : Type κ'} → D × Option A → (D → A → D × Option B) → D × Option B
after r f = elim r.1 [ none ↦ (r.0, none) | some a ↦ f r.0 a ]

module _ (j : Simdjson) where
  open j use {
    Doc, Value, Object, find_field, find_field_in, find_field_of, get_uint64, get_int64, get_string,
    get_object, raw_json,
  }

  -- `doc[key].get_uint64()`, and so on.
  unfoldable pub field_uint64 : Doc → Text → Doc × Option ℕ
  field_uint64 doc key = after (find_field doc key) get_uint64

  unfoldable pub field_string : Doc → Text → Doc × Option Text
  field_string doc key = after (find_field doc key) get_string

  unfoldable pub field_raw_json : Doc → Text → Doc × Option Text
  field_raw_json doc key = after (find_field doc key) raw_json

  unfoldable pub field_object : Doc → Text → Doc × Option Object
  field_object doc key = after (find_field doc key) get_object

  -- The same on an object.
  unfoldable pub member_string : Doc → Object → Text → Doc × Option Text
  member_string doc o key = after (find_field_of doc o key) get_string

  unfoldable pub member_raw_json : Doc → Object → Text → Doc × Option Text
  member_raw_json doc o key = after (find_field_of doc o key) raw_json

  -- And on a value.
  unfoldable pub inner_int64 : Doc → Value → Text → Doc × Option ℤ
  inner_int64 doc v key = after (find_field_in doc v key) get_int64

  unfoldable pub inner_string : Doc → Value → Text → Doc × Option Text
  inner_string doc v key = after (find_field_in doc v key) get_string
