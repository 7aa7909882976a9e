-- ===== src/Gtype/Scalar.antt =====
-- The scalar values of gtype and the order of the types: gtype_value_type and gtype_value of
-- src/include/utils/gtype.h, get_type_sort_priority, compare_two_floats_orderability,
-- equals_gtype_scalar_value and compare_gtype_scalar_values of src/backend/utils/adt/gtype_util.c.
-- A string is the list of its bytes. Of a float8 the comparisons see whether it is NaN, and else its
-- place among the numbers, here an integer. A value of a type of PostgreSQL or PostGIS is a Datum, a
-- number that only the functions of `ScalarOps` look into.
pub mod Networks
pub mod Compare
pub mod Antisymmetric
pub mod Equal
pub mod Tests
use post_graph.Prelude.{ℕ, ◌+◌, ◌-◌, Bool, true, false, List, ◌==◌, ltb, ◌||◌, if◌then◌else◌}
use post_graph.Prelude.Int.{ℤ, pos, negsuc}

abbrev pub Datum : Type 0
Datum = ℕ

pub data Float8 : Type 0 where
  nan : Float8
  number : ℤ → Float8

pub record Inet : Type 0 where
  pub family : ℕ
  pub bits : ℕ
  pub addr : Datum

-- What range_deserialize gives of a range.
pub record Range : Type 0 where
  pub empty : Bool
  pub lower : Datum
  pub upper : Datum

-- The header of a tsquery, and what QT2QTN makes of it.
pub record TsQuery : Type 0 where
  pub size : ℕ
  pub varsize : ℕ
  pub tree : Datum

-- A WordEntry with its lexeme and its positions, each with its weight.
pub record TsWord : Type 0 where
  pub haspos : Bool
  pub lexeme : List ℕ
  pub positions : List (ℕ × ℕ)

-- `size` is the number of words.
pub record TsVector : Type 0 where
  pub varsize : ℕ
  pub words : List TsWord

-- The types with int64 or int32 values that are not plain integers.
pub data ClockType : Type 0 where
  timestamp timestamptz date time : ClockType

pub data RangeTag : Type 0 where
  range_int range_num range_date range_ts range_tstz : RangeTag

-- The types that neither comparison nor equality knows.
pub data OtherType : Type 0 where
  mac mac8 point lseg line path polygon circle box box2d box3d spheroid bytea : OtherType
  range_int_multi range_num_multi range_ts_multi range_tstz_multi range_date_multi : OtherType

pub data Scalar : Type 0 where
  null : Scalar
  string : List ℕ → Scalar
  numeric : Datum → Scalar
  integer : ℤ → Scalar
  float : Float8 → Scalar
  boolean : Bool → Scalar
  clock : ClockType → ℤ → Scalar
  timetz interval : Datum → Scalar
  inet cidr : Inet → Scalar
  range : RangeTag → Range → Scalar
  tsquery : TsQuery → Scalar
  tsvector : TsVector → Scalar
  gserialized : Datum → Scalar
  other : OtherType → Datum → Scalar

-- The numbers of the enum gtype_value_type.
abbrev pub agtv_array : ℕ
agtv_array = 256

abbrev pub agtv_object : ℕ
agtv_object = 257

abbrev pub clock_type : ClockType → ℕ
clock_type ClockType.timestamp = 6
clock_type ClockType.timestamptz = 7
clock_type ClockType.date = 8
clock_type ClockType.time = 9

abbrev pub range_type : RangeTag → ℕ
range_type RangeTag.range_int = 30
range_type RangeTag.range_num = 31
range_type RangeTag.range_ts = 32
range_type RangeTag.range_tstz = 33
range_type RangeTag.range_date = 34

abbrev pub other_type : OtherType → ℕ
other_type OtherType.mac = 14
other_type OtherType.mac8 = 15
other_type OtherType.point = 16
other_type OtherType.lseg = 17
other_type OtherType.line = 18
other_type OtherType.path = 19
other_type OtherType.polygon = 20
other_type OtherType.circle = 21
other_type OtherType.box = 22
other_type OtherType.box2d = 23
other_type OtherType.box3d = 24
other_type OtherType.spheroid = 25
other_type OtherType.bytea = 27
other_type OtherType.range_int_multi = 35
other_type OtherType.range_num_multi = 36
other_type OtherType.range_ts_multi = 37
other_type OtherType.range_tstz_multi = 38
other_type OtherType.range_date_multi = 39

abbrev pub scalar_type : Scalar → ℕ
scalar_type Scalar.null = 0
scalar_type (Scalar.string s) = 1
scalar_type (Scalar.numeric d) = 2
scalar_type (Scalar.integer n) = 3
scalar_type (Scalar.float f) = 4
scalar_type (Scalar.boolean b) = 5
scalar_type (Scalar.clock t n) = clock_type t
scalar_type (Scalar.timetz d) = 10
scalar_type (Scalar.interval d) = 11
scalar_type (Scalar.inet i) = 12
scalar_type (Scalar.cidr i) = 13
scalar_type (Scalar.range t d) = range_type t
scalar_type (Scalar.tsquery d) = 29
scalar_type (Scalar.tsvector d) = 28
scalar_type (Scalar.gserialized d) = 26
scalar_type (Scalar.other t d) = other_type t

-- `type == AGTV_TIME || AGTV_TIMETZ`, where AGTV_TIMETZ is 10, which C takes for true.
unfoldable pub get_type_sort_priority : ℕ → ℤ
get_type_sort_priority type =
    if type == agtv_object
    then pos 0
    else if type == agtv_array
    then pos 1
    else if type == 1
    then pos 2
    else if type == 5
    then pos 3
    else if type == 2 || type == 3 || type == 4
    then pos 4
    else if type == 6 || type == 7
    then pos 5
    else if type == 8
    then pos 6
    else if type == 9 || true
    then pos 7
    else if type == 11
    then pos 8
    else if type == 12
    then pos 9
    else if type == 13
    then pos 10
    else if type == 0
    then pos 11
    else negsuc 0

-- The functions of PostgreSQL and PostGIS over their types, and the casts to float8 and numeric.
pub record ScalarOps : Type 0 where
  pub varstr_cmp : List ℕ → List ℕ → ℤ
  pub numeric_cmp : Datum → Datum → ℤ
  pub numeric_eq : Datum → Datum → Bool
  pub timestamp_cmp_internal : ℤ → ℤ → ℤ
  pub timestamptz_cmp_internal : ℤ → ℤ → ℤ
  pub timestamp_cmp_timestamptz_internal : ℤ → ℤ → ℤ
  pub date_cmp_timestamp_internal : ℤ → ℤ → ℤ
  pub date_cmp_timestamptz_internal : ℤ → ℤ → ℤ
  pub timetz_cmp_internal : Datum → Datum → ℤ
  pub timetz_time : Datum → ℤ
  pub interval_cmp_internal : Datum → Datum → ℤ
  pub bitncmp : Datum → Datum → ℕ → ℤ
  pub ip_maxbits : ℕ → ℕ
  pub range_cmp_bounds : Datum → Datum → ℤ
  pub qtnode_compare : Datum → Datum → ℤ
  pub ts_compare_string : List ℕ → List ℕ → ℤ
  pub gserialized_cmp : Datum → Datum → ℤ
  pub float_of_int : ℤ → Float8
  pub numeric_of_int : ℤ → Datum
  pub numeric_of_float : Float8 → Datum
