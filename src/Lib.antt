-- ===== src/Lib.antt =====
-- The C++ models that a simulation of the Gemmini/Rocket chip is linked with, and the scripts that
-- make the inputs of the thermal simulation of what it leaves. The C++ sources are in
-- rtl_exports/generated-verilog/GemminiRocketConfig/gen-collateral/ and are named below by their
-- files there; the scripts are in scripts/.
--
-- The parts and how they meet. The simulated chip calls each model once in a clock cycle. Its
-- memory port drives the AXI channels of a memory: a byte buffer (mm_t) with either the immediate
-- timing of mm_magic_t or that of mm_dramsim2_t, which asks DRAMSim2 when a transaction is done;
-- memory_init makes it and memory_tick drives it. Its debug port calls jtag_tick, which takes pin
-- settings from a client on a socket. Its serial port calls tsi_tick, which keeps one host
-- (testchip_tsi_t) for each chip; a host is made from the simulator's arguments, loads the program
-- and starts it. Its UARTs are terminals (uart_t), kept in a table by their numbers. The simulation
-- leaves a VCD file: extract_vcd_activity.py reads it, sorts the signals into regions and writes a
-- table of signals and one of regions; export_smoke_hotspot_inputs.py makes a floorplan and a power
-- trace of the latter. The categories of the regions may be extended by a map of the Verilog modules
-- that inspect_gemmini_hierarchy.py writes.
--
-- The files.
--   Base.antt         tests, lists, 64-bit words, bits, outcomes and texts that the parts share; the
--                     calls on std::string and strtoull in base 16 are in Base/Text.antt
--   Memory.antt       mm.h, mm.cc: mm_t, its constructor, `write` and `read`
--   Axi.antt          mm.h, mm.cc, mm_dramsim2.cc: the arguments of `tick`, the response queue's entries,
--                     and the tracker of the write burst, whose lines are the same in both memories
--   Magic.antt        mm.h, mm.cc: mm_magic_t, its `tick` and its outputs
--   Dramsim.antt      mm_dramsim2.h, mm_dramsim2.cc: mm_dramsim2_t and its `tick`; its two callbacks are in
--                     Dramsim/Callbacks.antt
--   Simdram.antt      SimDRAM.cc: `memory_init`, the buffers behind the memories
--   Simdram/Tick.antt SimDRAM.cc: `memory_tick`, in the integer types of the simulator
--   Bitbang.antt      remote_bitbang.h, remote_bitbang.cc, SimJTAG.cc: the socket server and `jtag_tick`
--   Tsi.antt          testchip_tsi.*, testchip_htif.*, SimTSI.cc: the flush of cache lines, the chunk
--                     transfers, the accesses at reset, and `remove_vcs_simv_opt`
--   Tsi/Args.antt     testchip_tsi.cc, testchip_htif.cc: the constructor, `parse_htif_args`
--   Tsi/Load.antt     testchip_tsi.h: `load_program` and `idle`
--   Tsi/Serial.antt   SimTSI.cc: `tsi_tick`
--   Uart.antt         uart.*, SimUART.cc: the terminals of the serial ports and their entry points
--   Vcd.antt          scripts/extract_vcd_activity.py: `iter_vcd`; what it uses of str and int is in
--                     Vcd/Text.antt, the signals and `value_toggle_delta` in Vcd/Signals.antt
--   Activity.antt     scripts/extract_vcd_activity.py: `load_category_terms`, `classify`, the filter of
--                     clocks; Activity/Tables.antt: `write_outputs`; Activity/Summary.antt: `main`
--   Hotspot.antt      scripts/export_smoke_hotspot_inputs.py: `read_regions` and `main`
--   Inventory.antt    scripts/inspect_gemmini_hierarchy.py: `category_for`, the loop of `main`, the
--                     categories that `write_yaml` writes
--   Smoke.antt        workloads/thermal_smoke/thermal_smoke.c: the program of the smoke simulation
-- A part's child modules hold its theorems, by what they are about; a part's Tests module holds runs
-- at concrete inputs.
--
-- State. A class is a record of its members, a method is a function that takes the record and
-- returns the next one; the buffer of a memory is a list of bytes that is passed beside it, since
-- two memories may share one. A std::queue is a list with its front first, a std::map of queues is
-- a function. Integers are natural numbers; 64-bit arithmetic is written with its wrap-around
-- (Base/Words.antt), and a signed integer is a data type over the natural numbers
-- (Base/Ints.antt). A failed assertion, an access out of bounds, a shift by too much and a pop of
-- an empty queue are errors (`Fault` in Base/Outcome.antt): assertions are taken to be enabled.
--
-- A Python dict is a list of its entries in the order of insertion, a text is a list of ASCII codes,
-- and a file the list of its lines. `list.sort` is the stable sort of Base/Sort.antt. An exception
-- that ends a script is an error too.
--
-- Code that is not in the repository is a parameter. DRAMSim2 is a `System`
-- (Dramsim/Interface.antt): its state, whether it takes a transaction, and the transactions that an
-- update completes; `IsAccountable` says that it completes each transaction at most once, and a
-- plain FIFO system shows that this can hold. fesvr's tsi_t is a `Host` for its transfers and for
-- `switch_to_target`, a `Loader` for the course that its own `load_program` takes, with any finite
-- number of call-backs, and a `Fesvr` for its ticks; its ELF loader is one of the `Libraries`. The
-- simulator (`Simulator`) is built with VERILATOR defined or not; what an element of its arrays keeps of
-- a value is a parameter, and `IsByteArray` says that an element keeps the low byte. In the build with
-- Verilator up to three bytes behind the read data are read; those that can be read there are a
-- parameter too, and `put_elems` is out of bounds where they are fewer. The socket is a list of events,
-- the results of the calls in order; `blocked` stands for a call that does not return while the
-- list is empty. The files of the UARTs are a `World`: the results of the reads to come, what has
-- been written, and which files can be written. The scripts' floating-point numbers are any type
-- with the operations that they use (`Floats`, `Numbers`), of which no law is assumed; what the yaml
-- module reads is an argument.
--
-- Loops. Those over a known number of rounds are structural. `flush_loop` runs on fuel: one more
-- than the number of lines that a range touches is enough, as each round flushes one of them.
-- `remove_loop` has one round more than the arguments, as each round takes one argument out or goes
-- past one.
--
-- Not modelled. Opening sockets, files and terminals beyond their results; messages to the
-- terminal; the power callback; the CSV text and the printing of floating-point numbers, the limit of
-- Python on the digits of an integer, the command lines; the search for modules in the Verilog, the
-- JSON hierarchy and the Markdown report of the inventory; the other scripts, which start tools and
-- check the environment; the generated Verilog.
pub mod Base
pub mod Memory
pub mod Axi
pub mod Magic
pub mod Bitbang
pub mod Dramsim
pub mod Tsi
pub mod Uart
pub mod Simdram
pub mod Vcd
pub mod Activity
pub mod Hotspot
pub mod Inventory
pub mod Smoke
