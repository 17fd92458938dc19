-- ===== src/Lib.antt =====
-- shaunos, a small kernel in C for 32-bit x86 machines: models of parts of its core and what is proved
-- of them.
--
-- The parts. The kernel keeps trees of regions and nodes in an AVL tree (Kernel/avltree.c), hands out
-- identifiers of threads and timers from bit maps (Kernel/pid.c, over the bit instructions of
-- Kernel/bitops.c), and hands out page frames with a buddy system (Kernel/mm.c). The network stack
-- carries packets in chains of mbufs (Kernel/mbuf.c), checks them with the Internet checksum
-- (Kernel/netinet/check_sum.c), and a socket queues such chains in its two buffers; a socket that accepts
-- connections keeps the new ones in two queues (both in Kernel/net/uipc_socket2.c). The clock is read
-- once from its chip (Kernel/time.c) and kept up by the timer interrupt, which also wakes the thread that
-- runs the timers; their identifiers come from a bit map (Kernel/timer.c). All of them use the memory and
-- string routines of lib/string.c, and the kernel's messages are formatted by lib/vsprintf.c. The console
-- (Kernel/console.c) is a terminal with a line that is typed and edited, and a display that is a part of
-- memory, whose rows memcpy moves up. The file system ext2 (Kernel/ext2.c) finds the blocks of a file
-- through blocks of numbers and hands out the blocks of the disk from bit maps.
--
-- Which file models which part:
-- - Base: the shared names, lists over the native numbers (Base/Lists), what a C function can do beside
--   returning (Base/Fault), 32-bit arithmetic (Base/Int).
-- - Avl: avl_insert, avl_delete, avl_find and the rotations. A tree is a data type of nodes with their
--   stored heights; NULL is `null`, with height -1, and heights are read one higher. Avl/Spec holds the
--   sorted association list that a tree stands for, Avl/Rotate what the rotations keep, Avl/Refine the
--   refinement, Avl/Balance and its children the balance.
-- - Bitops and Kid: a word is the list of its bits, a map the list of its words (Kid), with the
--   invariant (Kid/Inv), the search (Kid/Alloc), and the other operations (Kid/Release).
-- - Buddy: pages by index, the eleven free lists as one list of blocks. Buddy/Cover says which pages the
--   lists cover, Buddy/Expand, Buddy/Alloc and Buddy/Free follow the operations, Buddy/Order adds the
--   orders of sizes, addresses and the counts of pages.
-- - Mbuf: a packet is the list of its mbufs, an mbuf holds its bytes and their place in its buffer.
--   Mbuf/Chain: search and copying out; Mbuf/Copy: copies; Mbuf/Adjust: trimming and joining;
--   Mbuf/Extend: m_prepend and m_pullup.
-- - Sockbuf: a buffer is the list of its records, each a chain of Mbuf, with its counters.
--   Sockbuf/Append and Sockbuf/Account follow what is put in, Sockbuf/Drop what is taken out;
--   Sockbuf/Flush holds sbflush and sbrelease.
-- - Checksum: in_cksum over the chains of Mbuf. Checksum/Value: sums in ones' complement;
--   Checksum/Words: the loops over words; Checksum/Bound: the sums stay within 32 bits; Checksum/Sum: the
--   whole; Checksum/Verify: a packet that carries its checksum.
-- - Socket: sockets in a store, as a function from addresses. Socket/Links: lists linked by a field;
--   Socket/Queue: a well-formed queue and what an operation keeps of the other sockets; Socket/Insert,
--   Socket/Remove, Socket/Connect and Socket/Newconn: soqinsque, soqremque, soisconnected and sonewconn1;
--   Socket/Accept: what kaccept (Kernel/net/uipc_syscall.c) takes from the queue.
-- - Pcb: in_pcblookup (Kernel/netinet/in_pcb.c) over the list of the control blocks of a protocol; Pcb/Best
--   says which block it finds.
-- - Clock: read_rtc, mktime and the calls that read and set the time. Clock/Epoch counts days by years and
--   months, Clock/Chip holds the registers of the clock chip, Clock/Setting the round trip of a time.
-- - Timers: the list of the timers and their identifiers (Kid). Timers/Owned: registration and removal;
--   Timers/Pass: one walk of timer_isr; Timers/Tick: timer_handler over a run of interrupts.
-- - Print: `number` and, in Print/Format, vsnprintf. Print/Numerals: the digits; Print/Number reads a
--   number back from what is printed, and Print/Format/Output says what a format writes.
-- - Terminal: the queues of characters, tty_input and tty_read. Terminal/Queue: a queue as a list;
--   Terminal/Loops: the loops over a queue end; Terminal/Reading: what a read takes; Terminal/Line: one
--   character that is typed; Terminal/Session: a line that is typed and read.
-- - Display: text in video memory, over the memory of Bytes; Display/Escape holds the escape sequences.
--   Display/Spec is the screen without addresses, a grid of cells with a cursor. Display/Cells: the
--   writes, cell by cell; Display/Bounds, Display/Steps and Display/Writing: text stays on the screen;
--   Display/Grid, Display/Refine and Display/Shown: the refinement of the grid; Display/Sequence and
--   Display/Effects: whole escape sequences.
-- - Ext2: a disk as a function from the sectors of blocks, the map of the blocks of a file and the
--   allocation of blocks. Ext2/Place: where an inode lies; Ext2/Ranges: the numbers of the blocks of a
--   file; Ext2/Blocks and Ext2/Restore: allocation and release; Ext2/Entries: entries that are set and
--   read.
-- - Bytes and Text: memory is a function from addresses to bytes; the string instructions move or store
--   1, 2 or 4 bytes. Bytes/Copy, Bytes/Down and Bytes/Fill: memcpy, memmove, memset and memcmp;
--   Bytes/Store: one store.
--   Text/Scan, Text/Compare and Text/Copy: the routines on strings.
-- The Tests module of each part runs its theorems at concrete data.
--
-- Bounds and fuel. Counters and sizes wrap at 2^32. A loop that is not bounded by its data is run on
-- fuel: the search for an identifier (fuel above the distance to a word with a free bit is enough), the
-- loops that look for the end of a string (fuel above its length), the orders of sizes (32 rounds
-- for a 32-bit size), the walks of a queue of connections (fuel above its length), the loops that empty a
-- queue of the terminal (one round above what it holds), the search of a bit map on the disk (one round
-- for each bit of its block), and the last loop of `number` (one unit, where it ends at all). The digits of a 64-bit number take 64 rounds at most.
--
-- Memory that an operation asks for is granted or refused by an argument; so is what the instruction bsf
-- leaves at a word of 0, which is undefined, and what accesses to the disk fail. Not modelled: the free
-- lists after buddy_alloc has linked a block into them a second time; reference counts
-- of clusters and statistics of mbufs; the wait queues, flags and time limits of sockets; the access to
-- the ports of the clock and the interval timer; logging; the
-- disabling of interrupts around an operation; what a processor does with unaligned or unmapped
-- addresses. Of the console, requests and mounting are left out; of ext2, inodes, directories, the
-- reading and writing of files, and what a failed access to the disk leaves behind. The other drivers,
-- the scheduler, the protocols but for their checksum and the lookup of control blocks, and the graphics
-- have no model here.
pub mod Avl
pub mod Base
pub mod Bitops
pub mod Buddy
pub mod Bytes
pub mod Checksum
pub mod Clock
pub mod Display
pub mod Ext2
pub mod Kid
pub mod Mbuf
pub mod Pcb
pub mod Print
pub mod Sockbuf
pub mod Socket
pub mod Terminal
pub mod Text
pub mod Timers
