-- ===== src/Dcgm/Versions/Header.antt =====
-- The version words of the header as a whole.
use mathlib.Core.List.{Memᴰ}
use mathlib.Core.List.Memᴰ
use gpu_metric_collector.Base.{
  ◌/◌, ◌%◌, ◌^◌, ◌≡◌, refl, List, [], ◌∷◌, ◌++◌, Bool, true, false, ◌&&◌, ltb, ltb→lt, arith,
}
use gpu_metric_collector.Dcgm.Layout.{
  Ctype, scalar, array, union, struct, members_of, slots, size_of, round_up, align_of,
}
use gpu_metric_collector.Dcgm.Layout.Bounds.{Laid, struct-Laid}
use gpu_metric_collector.Dcgm.Versions.{Version, word}
use gpu_metric_collector.Dcgm.Versions.Words.{make_dcgm_version-split}
use gpu_metric_collector.Dcgm.Versions.Devices.{device_versions}
use gpu_metric_collector.Dcgm.Versions.Services.{service_versions}

abbrev pub header_versions : List Version
header_versions = device_versions ++ service_versions

abbrev fits : Version → Bool
fits v = ltb (size_of v.structure) (2 ^ 24) && ltb v.number (2 ^ 8)

all_fit : List Version → Bool
all_fit [] = true
all_fit (v ∷ vs) = fits v && all_fit vs

all_fit→fits : (v : Version) (vs : List Version) → all_fit vs ≡ true → Memᴰ v vs → fits v ≡ true
unfolding all_fit
all_fit→fits v [] h m = absurd (Memᴰ.not-nil m)
all_fit→fits v (w ∷ vs) h (Memᴰ.head e) = rw e (ground arith)
all_fit→fits v (w ∷ vs) h (Memᴰ.tail m) = all_fit→fits v vs (ground arith) m

header_fits : all_fit header_versions ≡ true
unfolding all_fit size_of round_up align_of
header_fits = refl

-- Each version word of the header gives back the size of its struct and the number of its version.
pub header_versions-split :
    (v : Version)
    → Memᴰ v header_versions
    → (word v % 2 ^ 24 ≡ size_of v.structure) × (word v / 2 ^ 24 ≡ v.number)
header_versions-split v m =
    let h : fits v ≡ true = all_fit→fits v header_versions header_fits m in
    make_dcgm_version-split v.structure v.number (ltb→lt _ _ (ground arith))
      (ltb→lt _ _ (ground arith))

abbrev is_struct : Ctype → Bool
is_struct (struct ms) = true
is_struct _ = false

all_structs : List Version → Bool
all_structs [] = true
all_structs (v ∷ vs) = is_struct v.structure && all_structs vs

all_structs→is_struct :
    (v : Version) (vs : List Version)
    → all_structs vs ≡ true
    → Memᴰ v vs
    → is_struct v.structure ≡ true
unfolding all_structs
all_structs→is_struct v [] h m = absurd (Memᴰ.not-nil m)
all_structs→is_struct v (w ∷ vs) h (Memᴰ.head e) = rw e (ground arith)
all_structs→is_struct v (w ∷ vs) h (Memᴰ.tail m) = all_structs→is_struct v vs (ground arith) m

header_structs : all_structs header_versions ≡ true
unfolding all_structs
header_structs = refl

struct-Laid_by_kind :
    (t : Ctype) → is_struct t ≡ true → Laid (align_of t) 0 (size_of t) (slots 0 (members_of t))
struct-Laid_by_kind (struct ms) h = struct-Laid ms
struct-Laid_by_kind (scalar s) h = cc
struct-Laid_by_kind (array t n) h = cc
struct-Laid_by_kind (union ms) h = cc

-- In each struct that has a version, the members stand in the order of the declaration, apart from
-- one another and inside the struct, each at a multiple of its alignment, which divides the
-- alignment of the struct.
pub header_versions-Laid :
    (v : Version)
    → Memᴰ v header_versions
    → Laid (align_of v.structure) 0 (size_of v.structure) (slots 0 (members_of v.structure))
header_versions-Laid v m =
    struct-Laid_by_kind v.structure (all_structs→is_struct v header_versions header_structs m)
