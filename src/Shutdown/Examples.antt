-- ===== src/Shutdown/Examples.antt =====
-- A run of the end of the program.
use easygametools.Memory.Examples.{with_handle}
use easygametools.Threads.Examples.{one_running}
use easygametools.Log.Examples.{one_logger}
use easygametools.Shutdown.{Program}

abbrev program : Program
program = record { threads = one_running; memory = with_handle; logging = one_logger }
