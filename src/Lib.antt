-- ===== src/Lib.antt =====
-- Beremiz4uC: the runtime of a PLC on a microcontroller under Zephyr. A host uploads a program, starts
-- and stops it and traces its variables by remote calls; the program is loaded as a module and run in
-- cycles by a main task; settings are kept in flash, the clock is set from a real-time clock, and a
-- small web server sends files and keeps a WebSocket.
--
-- The parts, their files and the code that they model:
--
--   Common    the shared names: Boolean tests, lists and their lengths over the native numbers, the
--             bytes of a 32-bit number, the bytes of a text.
--   Settings  app/src/plc_settings.c. The globals are a function from their names to their bytes
--             (`Memory`); `settings_set`, `settings_export` and the calls that load and save pass it
--             on. `Settings.Access` has the getters and setters.
--   Clock     app/src/plc_time_rtc.c. Summer time, the local time of day, the two clocks and the
--             drivers between them, and the sum of two times.
--   Control   app/src/plc_task.c, and of app/src/plc_loader.c, app/src/plc_io.c and
--             app/src/plc_util.c the start, the stop, the unloading, the outputs and the status. The
--             state `System` holds the globals, the two semaphores, the place of the main task and
--             that of a caller inside `plc_set_stop`. A function that waits is cut at its waits, and
--             `Control.Steps` is the step relation of the pieces, with the stop that times out and
--             the clearing by `NewPLC`; `OrderlyReach` leaves those two out.
--   Debug     app/src/plc_debug.c. `publish_debug` and the debug thread fill a ring buffer,
--             `SetTraceVariablesList` orders a trace, and `GetTraceVariables` (`Debug.Reader`) reads
--             the samples. The answers that the environment gives stand in `Pass` and `Call`.
--   Uploads   app/src/plc_rpc.c. The table of uploads, the calls that purge, seed and append
--             (`Uploads.Calls`), `NewPLC` (`Uploads.Install`), and the thread that serves the calls
--             (`Uploads.Serve`).
--   Http      app/src/plc_http.c. WebSocket frames (`Http.Frames`), what is read in the header of a
--             request (`Http.Requests`), the routing of requests (`Http.Routing`, `Http.Paths`), what is sent for
--             each outcome (`Http.Files`), the status in JSON (`Http.Status`, with texts of
--             app/src/plc_util.c), the loop of a WebSocket (`Http.Thread`), and the loop over the
--             clients (`Http.Server`).
--   Log       app/src/plc_rte_log.c. The text of a line and its scan (`Log`), and the calls that log,
--             read back, count, save and load (`Log.Calls`).
--   Loader    app/src/plc_loader.c, `load_plc_module`: reading a program from a file or from flash,
--             its check sum, and the symbols that it must have. The linker is a parameter. The
--             command that writes a module into the partition is in `Loader.Flashing`, and the table
--             of the symbols that a module may import in `Loader.Symbols`.
--   Filesys   app/src/plc_filesys.c. The directories along a path and the creation of a file, over the
--             calls of the C library, and mounting (`Filesys.Volumes`).
--   Shell     app/src/plc_cli.c. The working directory and paths (`Shell`), the commands on files and
--             settings (`Shell.Commands`), scripts (`Shell.Script`), and the table of the commands
--             with the number of their arguments (`Shell.Registered`).
--   Network   app/src/plc_network.c. The semaphores, flags and handlers (`Network`), the loops of
--             `initialize_network` over the events of each wait (`Network.Start`), and the clock from
--             a time server (`Network.Time`). `Network.Address` is what app/src/plc_util.c and
--             app/src/plc_cli.c tell of the address.
--   Device    app/src/plc_loader.c and app/src/plc_rpc.c. The loader thread, the erasure of a program
--             and the calls that pass on to them, over the state of the run control, the loader, the
--             uploads, the partition and the log together (`Machine`); the commands that do so
--             (`Device.Commands`), and app/src/main.c (`Device.Boot`).
--
-- They meet in the global `plc_run`: `plc_set_start` and `plc_set_stop` set it and hand a semaphore
-- over, the main task reads it once a round, `NewPLC` clears it, and the debug thread ends with it.
-- The semaphore `plc_cycle_start` keeps the debug thread out of the program while it runs.
--
-- Numbers are natural numbers with the wrap-around written out where the code can reach it: the tick,
-- the token and the tick of a sample have 32 bits. A char array or another global is the list of its
-- bytes, least significant first, and a text ends at its first zero.
--
-- Parameters, each with the laws that the proofs use: the settings subsystem, semaphores, ring
-- buffers, the file system and the JSON encoder of the kernel, `gmtime`, `mktime` and the clock
-- drivers, the digests of mbedtls, and the functions of the loaded program. The outcome of an
-- allocation is an argument.
--
-- Loops run over lists and counts, but for some on fuel: the loop over hours, with one more than the
-- hours, of which each round takes 24; the loop over samples, for which one more than the samples in
-- the buffer is enough; the digits of a number, with one more than the number; and the lines of a
-- script and the parts of a file that is shown, sent or flashed, with as many as the file has bytes.
-- The threads of the trace, of a WebSocket and of the remote calls run over the passes that are given
-- to them, the server over its clients, and the waits for the network over the events of each wait.
--
-- Not modelled: what the shell prints of memory and stacks; the commands for tests; the generated
-- stubs of the remote calls; the copy of the linker under app/udynlink; the calls of the kernel on
-- sockets, of which only the answers are given; the initialisation of devices. A write behind the end
-- of an array changes nothing where the model says so, and the theorems on sizes tell where the code
-- stays within.
pub mod Common
pub mod Settings
pub mod Clock
pub mod Control
pub mod Debug
pub mod Uploads
pub mod Http
pub mod Loader
pub mod Log
pub mod Filesys
pub mod Shell
pub mod Network
pub mod Device
