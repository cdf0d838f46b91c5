-- ===== src/Lib.antt =====
-- A model of libinject, a preloaded library that injects network faults: the socket calls of a
-- program are run through a table of rules, each of which can delay, cut, drop or refuse them.
--
-- The parts, by file (paths from the repository's root):
-- - src/binding.c wraps the socket calls (Binding) and hands each to `ActionQueue_process` of
--   src/actions.c (Process), with what is known of the socket (Socket, src/socketinfo.c) and the call
--   itself as a callback. The infos of sockets are a heap, and a pointer is a place in it. `inj_init`
--   reads the rules and starts the thread of the commands (Binding.Load).
-- - `ActionQueue_process` looks in the table of rules (Queue, src/actions.c) for the first that
--   matches (Rule, `Action_match`, src/conditions), performs its task (Task, src/actions), and goes
--   on where the rule says. It marks the lines that have run in hash tables (LigHt, src/ligHT.c).
-- - Several threads search the table and use its rules while another changes it, under the locks of
--   src/actions.c (Threads): every step between two operations on locks is one of a relation.
-- - A rule is read from its text (Read, `Action_init` of src/actions.c and the `argument` functions
--   of src/conditions and src/actions) by a tree of parser pieces (Parser, src/parser.c), and
--   printed by `Action_show` and the `write` functions (Show).
-- - The rules come from a file (Config, `Config_init` of src/conffile.c), and commands on a pipe or a
--   socket change them while the program runs (Runtime, src/runtime.c). `Runtime_start` puts a rule
--   on line 0 that keeps the others off that socket.
-- Base has what these share, Format the numbers as `printf` and `fwrite` write them, Outcome the
-- faults that a run of the C code can end with, Tests the concrete inputs.
--
-- The operations keep the names of the code, without the prefix of its module: `Queue.put` is
-- `ActionQueue_put`, `LigHt.put` is `LigHT_put`, `Socket.check` is `SocketInfo_check`,
-- `perform_split` is `ActionSplit_perform`. State is passed explicitly: an operation takes the
-- table, the socket or the state of the call (`Machine`) and returns it. A rule in use is named by
-- its line in the table, and a buffer by an offset.
--
-- Numbers are the natural numbers with the wrap of 32 or 64 bits written out; an `int` is an ℤ.
-- The search of the hash table has its capacity as fuel, which is enough; the loop over the lines of
-- the file of rules has one round more than the file has characters, which is enough too; the loop
-- over the rules takes any fuel, since rules can go round in a ring, and ends with a fault where it
-- is used up. Where rules only jump forward, the number of lines of the table is enough.
--
-- Parameters stand for what the operating system and the C library answer: the clock, `rand`, sleep, the
-- files (`Os`), the system calls (`Syscall`, `System`), the facts of a descriptor (`SocketFacts`),
-- host and service names (`Resolver`), and the memory behind two tables that have no end (`Beyond`).
-- The clock stands still while a file of rules or a session of commands is read, and texts hold no
-- NUL.
--
-- Not modelled: the run of the rules that the close of a `reset` starts; what is written to stderr; the
-- length of the buffer that a rule is printed to; failures of `malloc`. The calls of Process run
-- alone, and a wait that only they could end is a fault; the locks of several threads are those of
-- Threads. There the condition variable of a rule has one sleeping thread, which the signal wakes or
-- which wakes by itself; the resumed delay is left out, since it takes its rule without a lock, and
-- so is a call that removes a rule while it uses one.
pub mod Base
pub mod LigHt
pub mod Parser
pub mod Outcome
pub mod Format
pub mod Socket
pub mod Rule
pub mod Read
pub mod Queue
pub mod Threads
pub mod Task
pub mod Process
pub mod Show
pub mod Config
pub mod Runtime
pub mod Binding
pub mod Tests
