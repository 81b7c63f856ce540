-- ===== src/Memory/Tests.antt =====
-- Runs of kernel/memory_utils.c.
use ace_os.Base.{◌%◌}
use ace_os.Libc.{Memory}

-- Byte `x` holds `x` modulo 251.
abbrev ramp : Memory
ramp x = x % 251
