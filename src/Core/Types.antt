-- ===== src/Core/Types.antt =====
-- minispark/core/types.py: the closed set of scalar types.
use minispark.Common.{Bool, true, false}
use minispark.Core.Value.{Value, null, bool, int, float, str, total_and_count}

pub data DataType : Type 0 where
  int_type float_type string_type bool_type null_type : DataType

-- `bool` stands before `int` in the table, since a bool is an int; what is not in the table is STRING.
unfoldable pub infer_type : Value → DataType
infer_type (bool b) = bool_type
infer_type (int z) = int_type
infer_type (float x) = float_type
infer_type (str s) = string_type
infer_type null = null_type
infer_type (total_and_count t n) = string_type

-- `==` on data types compares their names.
unfoldable pub same_type : DataType → DataType → Bool
same_type int_type int_type = true
same_type float_type float_type = true
same_type string_type string_type = true
same_type bool_type bool_type = true
same_type null_type null_type = true
same_type _ _ = false
