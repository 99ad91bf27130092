-- ===== src/Sui/Lz/Values.antt =====
-- The readers of Move objects and addresses of relayer/src/chain/sui/sui-lz.service.ts. JavaScript's
-- `toLowerCase` is a parameter.
use bosphor.Base.{
  ℕ, String, ◌-◌, Option, none, some, List, [], ◌∷◌, if◌then◌else◌, str_eq, zero, suc,
}
use Prim.Native.String.{◌++◌ as str_append, slice, len}

-- The JSON of a Move object as the ledger service encodes it; other kinds are not read.
mutual
  pub data ProtoValue : Type 0 where
    string_value : String → ProtoValue
    struct_value : ProtoFields → ProtoValue
    other_value : ProtoValue

  pub data ProtoFields : Type 0 where
    no_fields : ProtoFields
    field : String → ProtoValue → ProtoFields → ProtoFields

unfoldable pub field_of : ProtoFields → String → Option ProtoValue
field_of no_fields key = none
field_of (field k v fields) key = if str_eq k key then some v else field_of fields key

unfoldable pub step_into : Option ProtoValue → String → Option ProtoValue
unfolding field_of
step_into none key = none
step_into (some (string_value s)) key = none
step_into (some (struct_value fields)) key = field_of fields key
step_into (some other_value) key = none

-- `protoField`: a step into what is no struct ends with `undefined`, from where each step does.
unfoldable pub proto_field : Option ProtoValue → List String → Option ProtoValue
unfolding step_into
proto_field value [] = value
proto_field value (key ∷ path) = proto_field (step_into value key) path

abbrev string_leaf : Option ProtoValue → Option String
string_leaf none = none
string_leaf (some (string_value s)) = some s
string_leaf (some (struct_value _)) = none
string_leaf (some other_value) = none

unfoldable pub proto_string : Option ProtoValue → List String → Option String
unfolding proto_field
proto_string value path = string_leaf (proto_field value path)

-- What a truth test of the source keeps of a text.
unfoldable pub truthy : Option String → Option String
truthy none = none
truthy (some text) = if str_eq text "" then none else some text

unfoldable pub pad_zeros : ℕ → String → String
pad_zeros zero text = text
pad_zeros (suc n) text = str_append "0" (pad_zeros n text)

abbrev without_0x : String → String
without_0x text = if str_eq (slice text 0 2) "0x" then slice text 2 (len text) else text

unfoldable pub normalize_address : (lower_case : String → String) → String → String
unfolding pad_zeros
normalize_address lower_case addr =
    let digits = without_0x (lower_case addr) in
    str_append "0x" (pad_zeros (64 - len digits) digits)
