-- ===== src/Lib.antt =====
-- Clubcos, a small operating system kernel for 32-bit x86, under src/.
--
-- The parts that are modelled, each in the module of its name:
--
-- Queue: the circular queues of src/circular_queue.c. `init`, `put`, `get` and `remove` are the
--   `ckCircularQueue32*` functions over any width, Queue/Words has both widths. Queue/Fifo is the
--   specification, a list with a bound; Queue/Inv the validity of a queue, Queue/Refine the refinement.
-- LinkedList: the circular doubly linked lists of src/linkedlist.h, over a store of words
--   (Prelude/Objects), and the lock-free functions of src/linkedlist.c as machines that make one access
--   of shared data to a step (LinkedList/Lockfree), also with the steps of many tasks in any order
--   (LinkedList/Interleaved). LinkedList/IsList says which list a store holds.
-- Memory: the buddy allocator of src/memory.c. Memory/Bitmap has the bit macros, Memory/Search the
--   search in one bitmap, Memory/Alloc and Memory/Release the loops over the levels, Memory/Dyn
--   `ckDynMemAllocate` and `ckDynMemFree`, Memory/Init `ckDynMemInitialize`. The level `i` of the
--   bitmaps covers blocks of 4096 * 2^i bytes. Memory/Heap is the invariant of the whole structure.
--
-- Task: the scheduler of src/task.c. `TaskStruct` is the structure of the same name, its tasks
-- and processes maps from addresses; `schedule_internal`, `suspend_byptr`, `resume_byptr` and
-- `change_priority` are the functions with these names. Task/Lists says when a set of lists holds the
-- tasks that a map sends to each, Task/Sched takes the map from the tasks' flags and priorities; "the
-- lists hold the right tasks" means `IsSched`. Task/Boot is `ckTaskStructInitialize`,
-- Task/Create the creation of tasks and processes and the waiting for their end,
-- Task/Fpu the exchange of the registers of the floating-point unit,
-- Task/Cleanup and Task/Terminate the end of tasks and processes with the clean-up of their page tables.
--
-- Mutex: the recursive mutex of src/recursive_mutex.c, one access of the shared words to a step, with
-- any number of tasks. Mutex/Holder is the invariant, Mutex/Exclusion what follows for every schedule.
--
-- Semaphore: the binary semaphore of src/binary_semaphore.c; Semaphore/Section has the tasks that enter
-- and leave.
--
-- Array: the byte arrays of src/array.c and src/array.h over a memory of bytes; Array/Edit reads the
-- bytes between the start and the end as a list.
--
-- Keys: the keyboard driver of src/keys.c, from a byte of the keyboard to the character that the
-- terminal gets. Keys/Stream has the key strokes and the bytes that the keyboard sends for them.
--
-- Strings: src/string.c over a memory of bytes, with loops on fuel; Strings/Scan says when a string is
-- terminated; a loop over it takes one round more than it is long.
--
-- Terminal: the screen and the line input of src/terminal.c. Terminal has the cells, the cursor and the
-- end of the text; Input the keys and the buffers; Input/Read the calls that take the semaphores, and
-- Print the output of strings. Placed has the bounds of the cursor, Echo the line and its picture on the
-- screen, Lines a line from the keyboard to its reader, Wrap the backspace at the start of a row. Its
-- loops over strings take more fuel than the string is long.
--
-- Format: the formatted output of src/snprintf.c. Format/Directive reads the format, Format/Number
-- prints numbers, Format/Print is `vsnprintf`; Format/Bounds has the bytes that a number takes,
-- Format/Decimal and Format/RoundTrip its digits. A round of fuel is a character of the format; 32
-- rounds are enough for the digits of a word.
--
-- Sokoban: the game of src/skout-sokoban.c. Sokoban has the stages and the moves, Sokoban/Round the keys
-- and the main loop, Sokoban/Walls, Sokoban/Moves and Sokoban/Safety
-- where the player gets to. A round of fuel is a key
-- or two.
--
-- Timer: the time-outs of src/timer.c on the store of Prelude; Timer/Sorted has their order. A round of
-- fuel is a time-out.
--
-- Rtc: the clock of src/rtc.c; Rtc/Weekday has the calendar that its day of the week is compared with.
--
-- Keys/Cascii and Keys/Table are the characters and the table of keys of src/keytable.h and
--   src/keytable.c.
-- Interrupts: the interrupt queue of src/interrupt.c, the handler and the commands of src/keyboard.c and
--   the inner loop of `ckMain`, which hand the bytes of the keyboard to the driver of Keys.
--
-- Exceptions: the message about a page fault of src/int_except.c.
--
-- Shell: the search for a command and the cutting of a line in src/coshell.excp, a C file that is sorted
--   by a preprocessor, and the commands killtask, killproc and meminfo of src/coshell_cmd.c.
--
-- Machine words are native numbers with the wrap-around written out. Pointers are numbers; a null
-- pointer is 0 or `none`. The searches for a level take 32 rounds of fuel, as many as a shift of 32 bits
-- can make before it is undefined; 20 of them reach blocks of 2 GiB (Memory/Sizes). `none` from
-- an allocation stands for a run that does not return, from a release also for a failed assertion.
-- The region between `INTERRUPT_LOCK` and `INTERRUPT_UNLOCK` runs without interruption, so it is one
-- step of the model.
--
-- Loops that follow a list take fuel, and the theorems say that one round more than the list has nodes is
-- enough.
--
-- The inner loop of `ckMain` is the run during which no interrupt comes; the bytes that the commands for
-- the lights put into its queue are part of it. `memcpy` is the copy by words and bytes in ascending order
-- of src/string.asm.
--
-- Not modelled: the loop of `csIdleTask` over the ended tasks, which runs with the interrupts on and without
-- a lock, the code that only drives the hardware, the dump of the registers by the exception
-- handlers, the formatted output to the terminal, the other commands of the shell, the drawing of
-- the game, and the tools.
pub mod Prelude
pub mod Count
pub mod Queue
pub mod LinkedList
pub mod Memory
pub mod Task
pub mod Mutex
pub mod Semaphore
pub mod Array
pub mod Keys
pub mod Strings
pub mod Terminal
pub mod Format
pub mod Timer
pub mod Rtc
pub mod Sokoban
pub mod Interrupts
pub mod Exceptions
pub mod Shell
