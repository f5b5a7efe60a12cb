-- ===== src/Lib.antt =====
-- The assignments of an operating systems course, on copies of the Nachos teaching system. These
-- parts are modelled: the file system of dev2-filesys/nachos/code, with hierarchical directories
-- and a table of open files; the lock, the semaphore and the lists of its threads; the scheduler
-- and the copies of the system calls of dev3-process-management/nachos.tp3/code; the address space
-- of dev4-memory-management/nachos.tp4/code, with demand paging and a swap file, and the memory of
-- the machine below it; and the serial driver of dev1-rs232-driver, a module of the Linux kernel.
--
-- A FileSystem keeps files on a disk of 1024 sectors of 128 bytes. Sector 0 holds the header of the
-- file with the map of free sectors, sector 1 that of the root directory. A header (FileHeader)
-- lists the sectors of a file; a directory is a file with a table of entries (Directory); an
-- OpenFile reads and writes ranges of bytes of a file through its header; the table of open files
-- (OpenFileTable) counts the users of a FileHandle. Create, Remove and Open of the file system load
-- the current directory and the free map, change them in memory and write them back at the end. An
-- AddrSpace has a page table, the queue of its loaded pages and a swap file; a page fault loads the
-- page into a frame that the map of free frames (a BitMap) has, or into that of a page that goes to
-- the swap file. The machine translates every address through the page table that the address space
-- keeps. The driver keeps the bytes that arrive and the bytes to send in two circular buffers
-- (CBuffer): read and write work at one end of them, the interrupt handler at the other.
--
-- The parts and their files, with paths below dev2-filesys/nachos/code:
--   BitMap, BitMap/View, Find, Create: userprog/bitmap.cc.
--   FileHeader, FileHeader/Allocation, Free: filesys/filehdr.cc.
--   Directory, Directory/Names, Lookup, Unique, Empty: filesys/directory.cc.
--   OpenFile, OpenFile/Bytes, Read, Write, WriteAt, Splice: filesys/openfile.cc, and what it uses of
--     filesys/synchdisk.cc and machine/disk.cc.
--   OpenFileTable, OpenFileTable/Slots, Lifetime: the classes FileHandle and OpenFileTable of
--     filesys/filesys.cc.
--   Storage, Storage/Layout, RoundTrip: FetchFrom and WriteBack of the three structures on the disk.
--   FileSystem, FileSystem/Failure, Opening: the class FileSystem of filesys/filesys.cc.
--   Synch, Synch/Steps, Exclusion: the class Lock of threads/synch.cc, and the steps of its threads.
--   Semaphore, Semaphore/Counting: the class Semaphore of threads/synch.cc, and the steps of its users.
--   LinkedList, LinkedList/Sorted: the class List of threads/list.cc; the lock and the
--     semaphore keep their queues as the items alone.
-- Below dev4-memory-management/nachos.tp4/code:
--   AddrSpace, AddrSpace/Victim, Consistent, SwapOut, Load, Create: userprog/addrspace.cc.
--   Machine, Machine/Translation, Memory: machine/translate.cc and the registers of machine/machine.cc.
--   Machine/Decode, Fields: Instruction::Decode of machine/mipssim.cc with the tables of mipssim.h.
--   Machine/Operations, Execute, Cases, Zero, Overflow: OneInstruction of machine/mipssim.cc;
--     Operations has what its cases do, Execute the switch.
--   Machine/Multiply, Rounds, Product: the function Mult of machine/mipssim.cc.
-- Below dev3-process-management/nachos.tp3/code:
--   Scheduler, Scheduler/Steps, Invariant, Order: threads/scheduler.cc and threads/thread.cc, and the
--     steps of threads and interrupts.
--   Syscalls, Syscalls/Mapping, Strings, Unterminated, Storing: the copies between the kernel and a
--     program of userprog/exception.cc, on the Machine.
-- Below dev1-rs232-driver/rs232_tut-0.2/driver:
--   CBuffer, CBuffer/Window, Fifo, Contents, Refinement: cbuffer.c; Fifo is the queue that the buffer
--     stands for.
--   Rs232, Rs232/Bytes, Interrupts, Writing, Reading: rs232_tp.c.
-- Shared: Prelude, Prelude/Tests, Lists, Bits, Modular, Masks: names, and lemmas on tests, lists, binary
-- digits and remainders by powers of two. A definition has the name of the function or method that
-- it models; a name with _loop is the loop of the function before it. A file called Tests applies
-- the theorems of its module to concrete data.
--
-- A method takes the object and returns the new one with its result. A result -1 is none, where the
-- method can return it; a sector or frame that is stored is never -1 itself. An outer Option is the
-- program's own abort: none is a failed ASSERT, or an access to memory outside an array or through
-- a bad pointer, which the language leaves undefined. A number of the program is a natural number;
-- an int is its 32-bit pattern where the code can make it negative. Loops are recursions on the
-- number of rounds that are left, so every function is total and no fuel is needed. A new array or
-- object holds arbitrary values until they are set: they are a parameter, `memory` or a Memory.
--
-- A kernel that the code calls is a parameter where its answer matters: the exception handler of
-- the machine, the copies between the driver and a program, and what interrupts do to the driver
-- between the steps of a call, for which no lock is held. What the UART answers to the interrupt
-- handler is a list of readings.
--
-- Not modelled: what only prints (List, Print, CdInfo, PrintPageTable, cbuffer_info, DEBUG); the
-- interrupts, the latency and the semaphore of the disk; the loop, the debugger and the devices of
-- the simulated machine; the dispatch of system calls, and those on files and processes; the
-- context switch, which is assembly; the user programs; and the registration of the driver with the
-- Linux kernel. The executable of an address space is a file of the host, so what reading it
-- returns is a parameter, `read_at`.
pub mod Prelude
pub mod BitMap
pub mod FileHeader
pub mod Directory
pub mod OpenFile
pub mod OpenFileTable
pub mod Storage
pub mod FileSystem
pub mod AddrSpace
pub mod Synch
pub mod Semaphore
pub mod LinkedList
pub mod Scheduler
pub mod Machine
pub mod Syscalls
pub mod CBuffer
pub mod Rs232
