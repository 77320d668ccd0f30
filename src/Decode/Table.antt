-- ===== src/Decode/Table.antt =====
-- `ARM_decode_table` (ARM_decode_table.c): all rows of ARM_decode_table_data.h, in their order.
mod First
mod Second
mod Third
mod Fourth
use rpi_stub.Common.{List, ◌++◌}
use rpi_stub.Decode.Row.{DecTblEntry}
use First.{rows_from_0}
use Second.{rows_from_125}
use Third.{rows_from_250}
use Fourth.{rows_from_375}

unfoldable pub decode_table : List DecTblEntry
unfolding rows_from_0 rows_from_125 rows_from_250 rows_from_375
decode_table = rows_from_0 ++ rows_from_125 ++ rows_from_250 ++ rows_from_375
