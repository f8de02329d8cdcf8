-- ===== src/Examples/Cstdio.antt =====
-- -26 printed in base 10 from an int.
use os_projet.Common.{false, arith}
use os_projet.Cstring.Memory.{Bytes}
use os_projet.Cstdio.{minus, print_number}
use os_projet.Cstdio.Digits.{Printed, print_number-Printed}

abbrev buffer : Bytes
buffer x = 0

print_number-Printed_example :
    Printed (minus 26) 10 100 1 buffer (print_number 32 (minus 26) 100 10 1 false buffer)
print_number-Printed_example =
    print_number-Printed 32 (minus 26) 100 10 1 false buffer (omega arith, omega arith, omega arith)
      (omega arith) (omega arith) (omega arith)
