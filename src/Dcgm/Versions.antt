-- ===== src/Dcgm/Versions.antt =====
-- The version word of a struct: the macro MAKE_DCGM_VERSION of internal/include/dcgm_structs.h, and
-- `makeVersion1`, `makeVersion2` and `makeVersion4` of pkg/dcgm/utils.go. A size is a 64-bit number
-- and the word an unsigned int.
use gpu_metric_collector.Base.{ℕ, ◌*◌, ◌%◌, ◌^◌, bit_or}
use gpu_metric_collector.Dcgm.Layout.{Ctype, size_of}
pub mod Words
pub mod Devices
pub mod Services
pub mod Header
pub mod Calls
mod Tests

-- What a version macro names: a struct, and the number of its version.
pub record Version : Type 0 where
  pub structure : Ctype
  pub number : ℕ

unfoldable pub make_dcgm_version : Ctype → ℕ → ℕ
make_dcgm_version t ver = bit_or (size_of t) (ver * 2 ^ 24 % 2 ^ 64) % 2 ^ 32

unfoldable pub make_version_1 : ℕ → ℕ
make_version_1 struct_type = bit_or struct_type (1 * 2 ^ 24) % 2 ^ 32

unfoldable pub make_version_2 : ℕ → ℕ
make_version_2 struct_type = bit_or struct_type (2 * 2 ^ 24) % 2 ^ 32

unfoldable pub make_version_4 : ℕ → ℕ
make_version_4 struct_type = bit_or struct_type (4 * 2 ^ 24) % 2 ^ 32

-- The word that the macro stands for.
abbrev pub word : Version → ℕ
word v = make_dcgm_version v.structure v.number
