-- ===== src/Tests/Json.antt =====
-- A JSON reader over trees, which gives the parser's interface a value: a document is a tree, its
-- cursor does nothing, and every text that is not empty parses to the same tree.
use hft_deribit.Prelude.{
  ℕ, Bool, true, false, Option, none, some, Text, codes, bytes_eq, is_empty, if◌then◌else◌,
}
use hft_deribit.Prelude.Int.{ℤ, pos}
use hft_deribit.Json.{Simdjson}

mutual
  pub data Tree : Type 0 where
    nothing : Tree
    num : ℕ → Tree
    signed : ℤ → Tree
    str : Text → Tree
    obj : Fields → Tree

  pub data Fields : Type 0 where
    end : Fields
    field : Text → Tree → Fields → Fields

abbrev pub member : Fields → Text → Option Tree
member end key = none
member (field k v rest) key = if bytes_eq k key then some v else member rest key

abbrev pub member_of : Tree → Text → Option Tree
member_of (obj fs) key = member fs key
member_of _ key = none

abbrev as_uint64 : Tree → Option ℕ
as_uint64 (num n) = some n
as_uint64 _ = none

abbrev as_int64 : Tree → Option ℤ
as_int64 (num n) = some (pos n)
as_int64 (signed z) = some z
as_int64 _ = none

abbrev as_string : Tree → Option Text
as_string (str s) = some s
as_string _ = none

abbrev as_object : Tree → Option Fields
as_object (obj fs) = some fs
as_object _ = none

abbrev as_null : Tree → Option Bool
as_null nothing = some true
as_null _ = some false

-- The reader whose texts stand for the given tree.
abbrev pub reader : Tree → Simdjson
reader tree = record {
  Doc = Tree;
  Value = Tree;
  Object = Fields;
  iterate = λ text. if is_empty text then none else some tree;
  find_field = λ doc key. (doc, member_of doc key);
  find_field_in = λ doc v key. (doc, member_of v key);
  find_field_of = λ doc o key. (doc, member o key);
  get_uint64 = λ doc v. (doc, as_uint64 v);
  get_int64 = λ doc v. (doc, as_int64 v);
  get_string = λ doc v. (doc, as_string v);
  get_object = λ doc v. (doc, as_object v);
  raw_json = λ doc v. (doc, some (codes "raw"));
  is_null = λ doc v. (doc, as_null v);
}
