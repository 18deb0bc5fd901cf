-- ===== src/Lib.antt =====
-- The program is the injected part of a profiling and checking tool for kernels of an accelerator:
-- a library that is loaded into the user's process, intercepts its calls of the runtime, keeps what it
-- needs of their state, and talks to the tool over a socket. The development follows it component by
-- component; paths are from the repository's root.
--
-- Wire.antt, csrc/utils/Serialize.h and Numeric.h. Unsigned integers as bytes, and rounding to a
-- multiple. Every packet is made of these.
-- Comm.antt, csrc/core/Communication.cpp, the channel in memory, and the dispatch of servers and clients
-- by the kind of the connection. Comm.Local: an operation of either side is a step of a log.
-- Comm.Socket: csrc/core/DomainSocket.cpp and the socket classes; Transfer has the writes, Accept
-- the accepting thread. Comm.Process: csrc/core/LocalProcess.cpp, which sends packets (Sending) and
-- waits for answers (Waiting). Comm.OrderId: the counter of packets under interleaving, one step
-- for each load or exchange of a thread.
-- Text.antt, csrc/utils/Ustring.h and Ustring.cpp, with children for splitting, numbers and safe text.
-- FilePath.antt, csrc/utils/Path.cpp, with children for resolving and for printing.
-- MemGuard.antt, csrc/runtime/inject_helpers/MemGuard.cpp, guard areas round device buffers; Blocks has
-- the bookkeeping, Checks the comparison with the pattern.
-- Mstx.antt, csrc/runtime/inject_helpers/MsTx.cpp, what the tool keeps of the program's marks: Ranges,
-- Heaps (with the domains) and Regions.
-- MetaData.antt, csrc/runtime/inject_helpers/KernelMetaDataParser.cpp, the metadata of a kernel; Turns,
-- Args, Ending and Reads are about its loops and what they read.
-- Layers.antt, csrc/core/HijackedLayerManager.cpp, which interface covers which.
-- DevMem.antt, csrc/runtime/inject_helpers/DevMemManager.cpp, the one buffer on the device that the tool
-- keeps.
-- Snapshots.antt, csrc/runtime/inject_helpers/MemoryContext.cpp, the copies of device memory round a
-- replay: Copies is about one copy, Saving about one snapshot, Backups about the loop, Restoring
-- about the way back.
-- Args.antt, the arguments of a kernel in csrc/runtime/inject_helpers. Args.Handle:
-- ArgsHandleContext.cpp, arguments recorded for a replay (Replay, Generated) and their addresses
-- (Words). Args.Raw: ArgsRawContext.cpp, a block of arguments, the insertion of a parameter (Slices,
-- Insertion) and copies of the object (Cloning). Args.Manager: ArgsManager.cpp, with Scan for the
-- search in the tiling data. Args.Array: ArgsArrayContext.cpp, arguments packed from an array of
-- pointers (Packing, Expansion) and the kernel with a slot for the tool (Stub). Args.Launch:
-- LaunchArgs.cpp, the older form (Expanded, Calls). MetaData has the type of the addresses that both kinds fill in.
-- Managers.antt, csrc/runtime/inject_helpers/RegisterManager.cpp, FuncManager.cpp and LaunchManager.cpp:
-- registrations, functions and launches, as a sequence of calls (Registrations, Launches); the
-- arguments of a launch are those of Args.
-- Replacement.antt, csrc/runtime/inject_helpers/KernelReplacement.cpp and lookups of KernelContext.cpp: the
-- kernel registered in place of another, as a sequence of calls (Pairs, Sharing); the launches that
-- it follows are those of Selector.
-- Selector.antt, csrc/core/FuncSelector.cpp and csrc/runtime/inject_helpers/KernelMatcher.cpp.
-- Prelude.antt, lists, maps and tests that the others share.
--
-- A function of the source is a definition with its name in lower case; a method takes the object's
-- state and returns the new one with its result. Strings and buffers are lists of bytes, machine
-- integers are numbers with their wrap-around written out, a pointer is its address with 0 for null,
-- and maps are association lists. System calls, the runtime and the device's memory are parameters,
-- with what is relied on in the records Writes, ClientWrites, CopiesAll, Allocates, Device and
-- Builds. A lock
-- is not modelled where an operation holds it throughout: the operation is one step.
--
-- Loops over what a system call gives take fuel: the writes one more than the bytes of the message,
-- Wait more than the reads, when these are finitely many, and its time-out, the metadata parser the section's length, since each
-- turn that goes on moves the index by at least two.
--
-- Not modelled: logging, time stamps, threads beyond Comm.OrderId, the creation of sockets and memory
-- files, the capture of range replays, the dump of arguments to files, the wrappers of the
-- runtime's interfaces, what a registration finds in a binary, the dumper of a kernel's data, and the collection of profiles.
pub mod Prelude
pub mod Wire
pub mod Comm
pub mod Text
pub mod FilePath
pub mod MemGuard
pub mod Mstx
pub mod MetaData
pub mod Layers
pub mod Selector
pub mod DevMem
pub mod Snapshots
pub mod Args
pub mod Managers
pub mod Replacement
