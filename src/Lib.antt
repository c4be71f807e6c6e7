-- ===== src/Lib.antt =====
-- The functional simulator of the Revive core, a 32-bit RISC-V machine, the firmware that runs on it,
-- and two tools beside it.
--
-- The simulator (sim/) is a hart, `TraceSimDriver`, that fetches and executes an instruction each
-- cycle, an address space that finds the device of an address, the devices (main memory, timer,
-- UART, control), and the loop that runs the machine. A store may reach a device that raises or
-- clears an interrupt line of the hart; the hart takes an interrupt at the end of a cycle.
--
-- The files and the code:
--   Common            words of 8 to 64 bits, bit-fields, signed 32-bit integers, panics
--   Hart.Status       the bit-fields of the status, isa and address translation registers
--                     (sim/include/decode.hh)
--   Hart.State        TraceMachineState, readGPR, writeGPR, fire, clear, set_mtime, reset
--                     (sim/include/trace.hh, sim/trace.cc)
--   Hart.Csr          readCSR and writeCSR
--   Hart.Trap         exceptEnter, trapReturn, findFirstIntCode, interrupt
--   Hart.Encode, Hart.Immediate, Hart.Alu
--                     InstrEncode, the extendImm functions and the OP macros
--   Hart.Exec         the methods as actions on a hart and what stands behind its address space
--   Hart.Translate    checkPaddr and translateVaddr
--   Hart.Access       executeG_LD, executeG_ST, fetch
--   Hart.Execute      the EXECUTE macros; Base is executeG, Compressed is executeQ0 to executeQ2
--   Hart.Cycle        cycle, and a run of several
--   Space.Range       AddressRange: inRange and overlapRange (sim/include/as.hh)
--   Space.Dispatch    PhysicalAddressSpace: find and addRange (sim/as.cc)
--   Space.Call        its read_atomic and write_atomic, and the Host that they make for a hart
--   Space.Memory      MainMemory (sim/mem.cc)
--   Space.Block       the loops of AddressRange over many bytes, and read, write and memset of the
--                     address space (sim/as.cc); Stored has what is asked of an object that stores
--                     bytes
--   Device.Clint      CoreLocalInterruptor (sim/clint.cc, sim/include/clint.hh)
--   Device.Uart       UniAsyncRxTx (sim/uart.cc, sim/include/uart.hh); Queues has what it promises,
--                     Threads the interleaving of a guest's writes with the sending thread
--   Device.Control    SimulationControl (sim/ctrl.cc, sim/include/ctrl.hh)
--   Machine.Load      loadElf (sim/load.cc)
--   Machine.Bus       the devices in the address space (sim/sim.cc, common/include/sim_ctrl.h),
--                     terminate, and dumpData of sim/ctrl.cc, which reads through the address space
--   Machine.Run       run (sim/sim.cc)
--   Machine.Start     the constructor of SimulatedMachine (sim/sim.cc)
--   Command           ArgParser (sim/cmd.cc, sim/include/cmd.hh)
--   Firmware          the firmware of the machine's level (sbi/). Divide, Digits, Print and Format are
--                     printf.c; Platform is csr.h, io.h, uart.c and panic; Trap is trap.c, Timer is
--                     timer.c, Ecall is ecall.c, and Boot is sbi.c and boot.c. Returns has the rules
--                     for actions that return
--   Bin2c             the program that writes a file as an array of C (common/utils/bin2c.c). Array
--                     reads the array back, Copy is its loop, and Writes is about the file that is written
--   Lockstep          the checker of two simulators' traces (common/utils/lockstep.c)
--   Hart.Valid        the well-formedness of a hart; the Keeps modules show what keeps it
-- All of Hart but the two headers is sim/trace.cc. The Examples modules apply the theorems at
-- concrete values.
--
-- How the code is represented. A C++ word is a natural number with its wrap-around written out as a
-- remainder; an array is a function of its index. A method that may call `panic` gives an Outcome,
-- done or panicked. A method that reaches memory is an action M on a World, the hart beside the state
-- of the memory; it calls read_atomic and write_atomic of a Host, and a write gives back the calls of
-- fire, clear and set_mtime that devices made, in their order. Output parameters are results: a read
-- of a control register that returns false is none, an access is granted or faulted.
--
-- The Host is a parameter of the hart, and Space.Call makes one of a map of ranges; what is asked of
-- it, IsHost, is that the signals of a write carry words of their width. Its shift_count stands for
-- what a compiled shift does with a count of 32 or more, which C++ leaves undefined. The objects of a
-- map are a parameter Methods of the space, and Machine.Bus fills it with the four devices: the state
-- that their methods reach is SimulatedMachine, and the calls of the interruptor go to the one driver.
--
-- A device is a record, and a method gives the new one beside its result. The files and pipes that a
-- device writes to are lists of what was written, or none if they are not open. A call of a device to
-- a driver is a Call, which names the driver; a write to the control device gives the Request that it
-- makes of the machine. An access beyond the arrays of the control device overruns, and the bus ends
-- the run there as it does for a panic.
--
-- The loops. In the hart no definition uses fuel: fetch handles at most one fault, the walk has two
-- levels, and a run has the number of its cycles. The run of the machine has fuel, one for an
-- iteration, and goes_on is a run that has used it up; the most cycles are fuel enough. The dump has
-- the number of its words for fuel. The threads of the UART are a step relation, in which the two
-- loads of a comparison are one step.
--
-- The firmware is compiled C that the hart runs; its functions are actions M of the hart's World, which
-- read and write the control registers as the hart does and store through its Host. What the compiler
-- decides is a parameter Compiler: the order of the halves of a 64-bit store, and what a shift of 32
-- bits by 32 or more gives. What the firmware asks of the devices is IsResponsive, which
-- Firmware.Boot.Bus shows of the bus. A panic stores to the register that terminates, and nothing
-- follows it. The tables of handlers are passed on, and what the linker places is the record Image.
-- The loop of __vprintf has one more than the characters of its format for fuel.
--
-- The conversions atoi and strtoull of the C library are a parameter of the command line, and what
-- strstr and sscanf find in a line is one of the lockstep checker. The files of bin2c, and how it reads
-- and prints numbers, are its Library.
--
-- The loop of bin2c takes fuel, for which one more than the bytes of its input is enough.
--
-- Not modelled: the logs and the commit log with its counter of instructions, the start-up and the
-- clean-up of the objects, which open and close files, the reports that the machine prints, the driver
-- of the compiled RTL, and the assembly of the firmware, which saves and restores the registers. The
-- fields of TraceMachineState that no method reads or writes are left out.
pub mod Common
pub mod Bin2c
pub mod Command
pub mod Device
pub mod Firmware
pub mod Hart
pub mod Lockstep
pub mod Machine
pub mod Space
