-- ===== src/Lib.antt =====
-- A verification library for the EtherCAT master in include/duatic_ethercat_interface and src: what
-- the SOEM backend, its devices and its timing do, as functions, with theorems about them.
--
-- The program. `EthercatBus` forwards every call to `BackendImpl` in
-- src/internal/soem/soem_backend.cpp, which owns the SOEM context, the process data image, the shared
-- pointers to the `EthercatDevice` objects, the mailbox counters and the diagnostics. A bus is
-- initialized, started up and activated; then the real-time thread of `SingleBusExecutor` calls
-- `update_rt` and its service thread `update_service`, which brings the devices to OPERATIONAL, until
-- `stop` joins both and shuts the bus down. Devices hold their process data buffers
-- and the callbacks of the user. `PrecisionUpdateRate` paces the real-time thread, and
-- `DCSyncController` corrects its rate.
--
-- The model.
--   Prelude           shared names, lists and integers over the native numbers
--   Types             types.hpp, exceptions.hpp, backend.hpp and the states of internal/soem/bus_state.hpp
--     Names           the texts of the enumerations; Names/Distinct: the tables of names
--   Soem              internal/soem/soem_context.hpp, and the calls of SOEM as a record of functions
--   Soem/States       the translations of device states in internal/soem/bus_state.hpp
--   Mailbox           internal/soem/mailbox.hpp; Mailbox/Attribution: which events belong to an access
--   Diagnostics       bus_diagnostics.hpp
--   DcSync            distributed_clock_sync.hpp
--   Device            the state of ethercat_device.hpp
--   ObjectDictionary  object_dictionary.hpp
--   PrecisionUpdateRate  precision_update_rate.hpp
--   Bus               the state of `BackendImpl` and the actions on it; its child modules are
--     MailboxAccess   drains, counters, `finish_mailbox_access`, `finish_foe_access`
--     Slaves, DeviceStates  `scan`, `acquire_device`, the EtherCAT states of the devices
--     Diagnosing      `update_diagnostics_fast`, `update_diagnostics_slow`, `diagnostics`
--     Pdo             process data, and `update_write`, `update_read` of ethercat_device.cpp
--                     Pdo/Typed: the typed accessors of ethercat_device.hpp
--     Lifecycle, Startup  `initialize`, `startup`, `activate`, `shutdown`; Startup/Sizes: the buffers of
--                     the devices after a startup
--     Update          `update_rt`, `update_service`
--     Sdo, Foe, Registers, ReadOd  the accesses to one device
--     Owner           the destructors, and the calls that a device forwards to its bus
--     Interfaces      `list_interfaces`, `used_backend`
--     StateMachine    the abstract machine of the bus states, and what each call does to the state
--     Keeps, Returns, Throws  rules for what an action does to the state, that it does not throw, and
--                     that it throws nothing but a `std::runtime_error`
--   SdoPrint          internal/tools/sdo_print_helper.hpp, and `what()` of exceptions.hpp; Integers and
--                     Printing: what is printed for an integer; Returning: exceptions
--   Scanner           src/tools/bus_scanner.cpp: Console and Printing, what it prints; Sessions, Closing
--                     and Ending: what it does to its bus, and how it ends
--   Wrapper           value_diagnostics_wrapper.hpp
--   Realtime, Signals  realtime_utils.hpp; Mutex: priority_inheriting_mutex.hpp; Nic: src/internal/nic.cpp
--   Executor          executor.hpp; Executor/Jthread: what the threads do to their own state
--     Threads         the turns of the two threads and of the thread that owns the executor; Order and
--                     Loops, Calls, Orderly: the invariant and its preservation; Following: the states
--                     of the bus; Stopping, Nearing, Joined, Awaited, Ending: `stop`; Failing: an error
--   Snapshot          src/bus_diagnostics.cpp; Snapshot/Ports: which ports are printed
--   Tests             a small SOEM library and the theorems applied on it
--
-- An action takes the state of the bus to a result, a value or what was thrown, and the state that the
-- call leaves, also when it throws. The functions keep the source's names; a loop over devices is
-- `for_each`, a callback is a number that the parameter `Env` runs on the bus. SOEM, the clock, the
-- network interface, `double` and `try_lock` are parameters, since their code is not in the repository
-- or is a system call; what is assumed of them stands in records such as `PopsErrors`.
--
-- Bounds and fuel. The 64-bit counters wrap as they do in the source. Nanoseconds and other signed
-- numbers are integers of any size. A drain runs on as much fuel as there are entries in SOEM's error
-- list and one more, which is enough by the theorems about it. The busy wait runs on fuel with a theorem
-- that it ends; in a turn of the real-time thread it runs on the fuel of the turn, and `Paces` says of a
-- clock that this is enough. The loops of the threads have no bound of their own: they end by `stop`,
-- within the number of rounds that its theorem gives. All other loops are structural.
--
-- Not modelled: the locks inside a call and other calls in the midst of one (each call runs as if
-- alone, and the owner of an executor sets the state of the bus only while no thread spins it), log
-- output, the digits of numbers, a failure to start a thread, and the example. The parser of the command
-- line is a library: what it returns or throws is an argument of `main`. The bus takes the network
-- check and `try_lock` as parameters, although Nic and Mutex have them.
pub mod Prelude
pub mod Types
pub mod Soem
pub mod Mailbox
pub mod Diagnostics
pub mod DcSync
pub mod Device
pub mod ObjectDictionary
pub mod Realtime
pub mod Signals
pub mod Nic
pub mod Mutex
pub mod SdoPrint
pub mod Scanner
pub mod Wrapper
pub mod Executor
pub mod Snapshot
pub mod PrecisionUpdateRate
pub mod Bus
pub mod Tests
