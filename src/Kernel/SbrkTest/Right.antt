-- ===== src/Kernel/SbrkTest/Right.antt =====
-- No assertion of `test_sbrk` fails but for want of memory.
use cho_os.Memory.Machine.{Machine}
