-- ===== src/Dcgm/Values.antt =====
-- The field values of pkg/dcgm/fields.go: the copies of what the library answers, and the readings of
-- the value's union, which Go sees as its bytes.
use gpu_metric_collector.Base.{
  ℕ, zero, suc, ◌+◌, ◌-◌, ◌*◌, ◌^◌, List, [], ◌∷◌, map, take, Bool, ◌||◌, ltb, ◌==◌, if◌then◌else◌,
  Option, none, some, Outcome, ok, deref, ◌>>=◌,
}
use gpu_metric_collector.Base.Int.{ℤ, pos, negsuc}
use gpu_metric_collector.Base.Text.{Text}
pub mod Bytes
pub mod Strings
mod Tests

pub record GroupEntityPair : Type 0 where
  pub entity_group_id : ℕ
  pub entity_id : ℕ

-- dcgmFieldValue_v1 and FieldValue_v1, whose fields are the same.
pub record FieldValueV1 : Type 0 where
  pub version : ℕ
  pub field_id : ℕ
  pub field_type : ℕ
  pub status : ℤ
  pub ts : ℤ
  pub value : List ℕ

-- dcgmFieldValue_v2.
pub record CfieldValueV2 : Type 0 where
  pub version : ℕ
  pub entity : GroupEntityPair
  pub field_id : ℕ
  pub field_type : ℕ
  pub status : ℤ
  pub ts : ℤ
  pub value : List ℕ

pub record FieldValueV2 : Type 0 where
  pub version : ℕ
  pub entity : GroupEntityPair
  pub field_id : ℕ
  pub field_type : ℕ
  pub status : ℤ
  pub ts : ℤ
  pub value : List ℕ
  pub string_value : Option Text

abbrev pub dcgm_ft_string : ℕ
dcgm_ft_string = b's'

unfoldable pub to_field_value : List FieldValueV1 → List FieldValueV1
to_field_value [] = []
to_field_value (f ∷ cfields) =
    record {
      version = f.version;
      field_id = f.field_id;
      field_type = f.field_type;
      status = f.status;
      ts = f.ts;
      value = f.value;
    }
    ∷ to_field_value cfields

-- `C.GoString` of the bytes from a pointer on: those before the first zero byte. A C string without
-- one would be read on past the array; the list ends there.
unfoldable pub go_string : List ℕ → Text
go_string [] = []
go_string (c ∷ s) = let rest = go_string s in if c == 0 then [] else c ∷ rest

-- Little-endian, as x86-64 stores a word.
unfoldable pub little_endian : List ℕ → ℕ
little_endian [] = 0
little_endian (b ∷ bytes) = b + 256 * little_endian bytes

-- The int64 that a 64-bit word stands for.
unfoldable pub signed64 : ℕ → ℤ
signed64 w = if ltb w (2 ^ 63) then pos w else negsuc (2 ^ 64 - w - 1)

-- `Int64` and `Fv2_Int64`.
unfoldable pub int64 : List ℕ → ℤ
int64 value = signed64 (little_endian (take 8 value))

unfoldable pub to_field_value_v2 : CfieldValueV2 → FieldValueV2
to_field_value_v2 f = record {
  version = f.version;
  entity = f.entity;
  field_id = f.field_id;
  field_type = f.field_type;
  status = f.status;
  ts = f.ts;
  value = f.value;
  string_value = if f.field_type == dcgm_ft_string then some (go_string f.value) else none;
}

unfoldable pub fv2_string : FieldValueV2 → Outcome Text
fv2_string fv = if fv.field_type == dcgm_ft_string then deref fv.string_value else ok fv.value

-- The loop runs to the end of the array, which is 4096 bytes long.
unfoldable pub find_first_non_ascii_index : List ℕ → ℕ
find_first_non_ascii_index [] = 0
find_first_non_ascii_index (c ∷ value) =
    let later = find_first_non_ascii_index value in if ltb 127 c || ltb c 33 then 0 else suc later
