-- ===== src/Sinks.antt =====
-- sinks/: the rows of the tabular sinks and the parts that the sinks share. A row is a dictionary from column names to
-- cells.
pub mod Csv
pub mod Jsonl
pub mod Memory
pub mod Pipe
pub mod Rows
pub mod Schema
use sartoriuslib.Prelude.{
  ℕ, ◌≡◌, String, Option, none, some, List, [], ◌∷◌, map, Bool, true, false, ◌&&◌, str_eq,
  if◌then◌else◌,
}
use sartoriuslib.Prelude.Int.{ℤ}
use sartoriuslib.Prelude.Dict.{Dict}

-- A value of a row. A float is its bit pattern, which is only moved; `object` is a value of any other class, by the name
-- of the class and a number for the value.
pub data Cell : Type 0 where
  null : Cell
  float : ℕ → Cell
  int : ℤ → Cell
  str : String → Cell
  bool : Bool → Cell
  object : String → ℕ → Cell

pub data ScalarType : Type 0 where
  float_type int_type str_type bool_type : ScalarType
  other_type : String → ScalarType

abbrev pub Row : Type 0
Row = Dict Cell

-- type(value), for a value that is not None.
unfoldable pub type_of : Cell → Option ScalarType
type_of null = none
type_of (float n) = some float_type
type_of (int z) = some int_type
type_of (str s) = some str_type
type_of (bool b) = some bool_type
type_of (object name n) = some (other_type name)

-- a is b, of classes.
unfoldable pub same_type : ScalarType → ScalarType → Bool
same_type float_type float_type = true
same_type int_type int_type = true
same_type str_type str_type = true
same_type bool_type bool_type = true
same_type (other_type a) (other_type b) = str_eq a b
same_type a b = false
