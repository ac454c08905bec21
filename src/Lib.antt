-- ===== src/Lib.antt =====
-- Verification of Mocker, an emulator of several RV32I harts with privilege modes, memory protection, a
-- kernel written in C++ and a round-robin scheduler.
--
-- The program. `HartManager` (scheduler.h) owns the memory, the harts and the kernel. `spawnHart` loads a
-- program into the slot of a new hart. `run` gives each running hart a quantum of `executeOne` calls; when
-- a call returns false and the hart is neither halted nor faulted, it calls `Kernel::handleTrap`
-- (kernel.h), which reads mcause and the argument registers, does the system call and returns to U-mode.
-- `executeOne` (cpu.h) takes a pending timer interrupt or fetches through the protection of memory.h,
-- decodes with encode.h and keeps the trap state in the registers of csr.h.
-- `main` (main.cpp) reads the options, assembles each file (assembler.h, with the encoders of encode.h) for the
-- slot of the next hart, spawns it, and calls `run`, which ends with a print of every hart.
--
-- The files, each named for the source file it models.
--   Prelude: Boolean tests, lists by native index, 32-bit words and lemmas on bits.
--   Encode (encode.h): encodeR to encodeJ, the decoders, signExt; Encode/Opcode its constants;
--     Encode/Fields, Encode/RoundTrip and Encode/Cut the decoding of what is encoded, Encode/Bounds the width of
--     a word.
--   Csr (csr.h): CSRFile as CsrFile, read, write, trapEnter, trapReturn, interruptsEnabled; Csr/Cause,
--     Csr/CsrAddr and Csr/MStatus the constants; Csr/Laws and Csr/Traps the theorems.
--   Memory (memory.h): ProtectedMemory, the raw accessors, check, loadProgram and the protected accessors;
--     Memory/Layout the memory map; Memory/Raw, Memory/Protection and Memory/Loader the theorems.
--   Cpu (cpu.h): executeOne as execute_one and its switch as execute; Cpu/State the hart, init, deliverTrap
--     and the common ends; Cpu/Names the names for the output; Cpu/Alu, Cpu/Access, Cpu/Control and Cpu/System the cases of the switch;
--     Cpu/Arms and Cpu/User what a step of a U-mode hart does; Cpu/Instructions the branches, JALR and the
--     CSR instructions.
--   Kernel (kernel.h): handleTrap, doMRet and the system calls; Kernel/Sound and Kernel/Handler the
--     invariant; Kernel/Frame that the handler writes no memory; Kernel/Ipc, Kernel/Queues,
--     Kernel/Mail and Kernel/Fifo the messages; Kernel/Interrupts the
--     interrupt enable bit of a hart that blocks; Kernel/Isolation what the handler does to the other harts.
--   Scheduler (scheduler.h): spawnHart and the loops of run; Scheduler/Sound, Scheduler/Quantum,
--     Scheduler/Loops, Scheduler/Deadlock and Scheduler/Rounds the run; Scheduler/Trace the run as a sequence of
--     steps; Scheduler/Isolation what a hart's turn
--     does to another hart; Scheduler/Fairness the turn of a running hart; Scheduler/Spawn the new hart.
--   Assembler (assembler.h): the words of li, and the patching of one placeholder in resolveLabels;
--     Assembler/Text clean and tokenize, Assembler/Immediate parseImm, Assembler/Registers abiMap and parseReg,
--     Assembler/State the fields of the assembler with emit, emitBranchPatch and parseMemOperand,
--     Assembler/Mnemonic the mnemonics of assembleLine and Assembler/Line their arms, the labels and the
--     loop of loadFile, Assembler/Resolve resolveLabels and finalise.
--     Theorems: Assembler/LoadConstant and Assembler/Labels what running patched words does; Assembler/Items
--     a source program as a list of items, Assembler/Represents, Assembler/Operands, Assembler/Widths,
--     Assembler/Readers and Assembler/Refines that
--     the assembler's state stands for one, Assembler/Settled, Assembler/Resolved and Assembler/Linked
--     what resolveLabels makes of it, Assembler/Positions, Assembler/Transfers and Assembler/Misses where its
--     jumps go; Assembler/Source and Assembler/Tokens the text of an instruction, Assembler/Numerals and
--     Assembler/RegisterNames its operands, Assembler/Operations and Assembler/Immediates what it does when it is
--     executed.
--   Command (main.cpp): the arguments, the loop over the files and the run; Command/Boot the system that the
--     files lead to, Command/Start how the program ends, Command/Settings how the arguments are read.
--   Output (cpu.h, scheduler.h): printHart and printSummary.
--   Examples: the theorems at concrete inputs.
--
-- How the code is modelled. A register, a pc and an address is the natural number of its 32-bit pattern,
-- signed or not, and each operation writes its wrap-around out. The sum of two int32_t wraps as well, as RV32I
-- asks: C++ leaves its overflow undefined, in executeOne and in the words of li and la, and the model does
-- not show that. isalnum on a negative char, undefined too, is false here, as the "C" locale of the usual
-- libraries has it. Undefined behaviour in the model is an index past an array or a vector and nothing else. The
-- 64-bit counters wrap at 2 ^ 64. The memory that all harts point to is part of the state that is passed
-- on. `Hart&` and the vector of harts alias each other in the kernel, so the kernel takes the index of the
-- hart and writes to the list. The map of queues is a function from hart ids to lists, empty where the
-- map has no key. An index past the memory array is undefined behaviour in C++: the model gives `none`.
-- The hart id -1 of M-mode is `none` too. A source text is the list of its bytes, in the "C" locale, and the
-- chain of tests on the mnemonic is a table of forms. An exception of stoi, which nothing catches, is
-- `none`, or a result of its own for a file and in the command line; stol reads a 64-bit long, and its exceptions are caught.
-- What a path names is a parameter of the command line: the lines of the file, or none.
--
-- Bounds and fuel. A system is sound if it has at most eight harts, each at its own id and in U-mode while
-- it can run, over an array of bytes. PRINT_STR reads at most 256 bytes, as in the source. `run` recurses
-- on fuel, one unit for each round; every round with a running hart counts a step, so maxCycles + 1
-- units are enough unless `run` loops forever, and then no amount is. The step counter and the timer tick
-- are ints in the source and natural numbers here: they stay below maxCycles and a quantum for each hart,
-- and the theorems on whole runs ask that an int holds that, as it does for the default configuration.
--
-- Not modelled. Output that depends on a trace flag, the messages of spawnHart, run, the assembler and the
-- command line, dump and usage. The index of a patch is an int in the source: it is
-- exact for a program of fewer than 2 ^ 31 words.
pub mod Prelude
pub mod Encode
pub mod Csr
pub mod Memory
pub mod Cpu
pub mod Kernel
pub mod Scheduler
pub mod Assembler
pub mod Command
pub mod Output
pub mod Examples
