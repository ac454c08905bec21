-- ===== src/Kernel/Syscall.antt =====
-- kernel.h, the namespace Syscall: the numbers in register a7.
use mocker.Prelude.{ℕ}

abbrev pub print_int : ℕ
print_int = 1

abbrev pub print_str : ℕ
print_str = 2

abbrev pub exit : ℕ
exit = 3

abbrev pub yield : ℕ
yield = 4

abbrev pub send : ℕ
send = 5

abbrev pub recv : ℕ
recv = 6

abbrev pub get_hartid : ℕ
get_hartid = 7
