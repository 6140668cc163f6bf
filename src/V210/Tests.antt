-- ===== src/V210/Tests.antt =====
-- A value in a black frame of 720 pixels a line.
use obe_rt.Base.{◌≡◌, arith}
use obe_rt.V210.{Words, read_32bit_value, write_32bit_value}
use obe_rt.V210.Boxes.{read_32bit_value-write_32bit_value}

abbrev black : Words
black a = 0

read_32bit_value-write_32bit_value_example :
    read_32bit_value 480 32 (write_32bit_value 480 0xdeadbeef 32 black) ≡ 0xdeadbeef
read_32bit_value-write_32bit_value_example =
    read_32bit_value-write_32bit_value 480 32 0xdeadbeef black (omega arith) (omega arith)
