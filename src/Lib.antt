-- ===== src/Lib.antt =====
-- Verification of the COFUOS kernel: a cubical development beside the C++ sources.
--
-- The kernel is a preemptive multi-processor kernel for x64. Modelled are the parts that carry its
-- own logic and whose state is data, each with the file that holds its definitions; the modules below
-- that file hold its proofs, and its module Tests the witnesses.
--   Dev.Timer          kernel/dev/timer.cpp: `wait`, `cancel`, `step`, `on_timer`, `on_second`. The delta
--                      queue is a list of entries, the set of live tickets a list; the callbacks that
--                      `step` makes are returned in their order.
--   Dev.Rtc            kernel/dev/rtc.cpp: `convert` and `update`, the registers being a function.
--   Dev.Disk           kernel/dev/disk_interface.cpp: a slot of the disk cache. The commands of the IDE
--                      device are a parameter, with what a command that succeeds has done.
--   Sync.Pipe          kernel/sync/pipe.cpp: `read`, `write`, `check` on the ring buffer.
--   Sync.SpinLock      kernel/sync/spin_lock.cpp: `try_lock` and `unlock`, where each read and each
--                      exchange of the lock word is a step of its own.
--   Sync.RwLock        kernel/sync/rwlock.cpp, with its wait queue.
--   Sync.Semaphore     kernel/sync/semaphore.cpp, with its wait queue.
--   Sync.Event         kernel/sync/event.cpp, where `wait` is two steps.
--   Memory.Pm          kernel/memory/pm.cpp: `allocate`, `reserve`, `release`, and the pass of the
--                      constructor that builds the solid bits. The byte map is a function.
--   Process.Handles    kernel/process/process.cpp: `handle_table`. The page of a slot comes from a
--                      parameter that stands for the virtual memory manager.
--   Process.Thread     kernel/process/thread.cpp and kernel/process/waitable.cpp: the states of one thread,
--                      and its entries in the queue of an object and in the timer's queue; Process.Thread.Events
--                      `notify` and `on_timer` in the steps that other processors can come between.
--   Process.Queue      kernel/process/waitable.cpp: the linked queue of threads, and `waitable::cancel`.
--   Process.Scheduler  kernel/process/core_state.cpp: `scheduler::get` and `scheduler::put`.
--   Process.Objects    kernel/interface/object.cpp: `put` and `get` of the object manager on Container.HashSet;
--                      `fasthash64` is a parameter.
--   Memory.Vm          kernel/memory/vm.cpp: the free blocks of one page table: `BLOCK::get` and `put`, `erase`,
--                      `resolve_prior`, `new_pt`; Memory.Vm.Insert `insert`, Memory.Vm.Pages
--                      `imp_reserve_any` and `imp_reserve_fixed`, Memory.Vm.Release `imp_release`. A table is a
--                      function from the index to the entry.
--   Container          util/include/linked_list.hpp, nodes in a store that the lists share, and
--                      util/include/hash_set.hpp, whose buckets are sequences; hash and equality are an
--                      interface, which Process.Objects and Exfat.Names.Table fill.
--   Memory.Heap        util/include/buddy_heap.hpp: the free blocks of each class are a list of addresses;
--                      no expander.
--   Exfat.Header       kernel/filesystem/exfat.cpp: `parse_header`, `lba_of_fat`, `lba_of_cluster`, and the
--                      checksum of a boot sector.
--   Exfat.Names        kernel/filesystem/include/exfat.hpp: `name_hash` and `name_equal`.
--   Exfat.Bitmap       kernel/filesystem/exfat.cpp: the allocator of clusters; the bitmap is a function,
--                      and a parameter tells which of its sectors can be read.
--   Exfat.Chain        kernel/filesystem/exfat.cpp: `cluster_chain::get` with its cache of places. The FAT
--                      is a parameter.
--   Exfat.Reader       kernel/filesystem/instance.cpp: the reader of directory records. The records that
--                      the disk has are a list.
--   File.Instance      kernel/filesystem/instance.cpp: the instances of files in use with their references.
--                      What the directories on the disk have is a parameter.
--   File.Path          kernel/filesystem/file.cpp: `imp_open`, `open` and `open_wd`.
--   File.Request       kernel/filesystem/file.cpp, kernel/filesystem/worker.cpp: `read`, `write`, `seek`,
--                      `exfat::task`, the list of the thread pool and a worker's round. What a worker
--                      transfers is a parameter.
--   User.Strings       app/libuos/uoscrt.cpp: classes of characters, strings and the command line.
--   User.Numbers       app/libuos/uoscrt.cpp: `strtoull` and the numbers that `imp_printf` prints.
--   Prelude            Boolean tests on numbers, lists by native numbers, sets of tickets as lists.
-- The parts meet in the thread: a lock, a semaphore, an event or a pipe puts it to sleep and wakes it
-- through `waitable`, whose queue is that of Process.Queue, and the timer ends its wait.
--
-- Integers are natural numbers, with the wrap of the machine's widths written out where it can happen.
-- Loops are structural recursion, or recursion on a fuel: `find_page` has the number of groups, one
-- round of the search; `bisect` has the size of a group, which halves; `put_loop` has the number of
-- slots; the bitmap search has one round over the sectors; `get` and `put` of the heap have the classes
-- above the one asked for; `expand_loop` has the bytes of the range; `relax` has the number of the instance,
-- which is above its parent's; `imp_open` has the length of the path; `cancel` takes any number above the
-- length of the queue; `print_digits` has the 32 places of the buffer, which hold every 64-bit number
-- in octal; the loops of Memory.Vm over the list have its number of blocks; `clear` of a list has its
-- length. `find_page_total`, `bisect_lem`,
-- `put_loop_total`, `find_prev_lem`, `less_room`, `bitmap-get_lem`, `put_lem`, `get-none`,
-- `expand_loop-IsExpanded`, `relax-IsStore` and `imp_open-IsWalk` show that these are enough. A bugcheck, and
-- a failed assertion where a file does not say that it leaves them out, is a value, such as `bugcheck`, `halt`,
-- `corrupted` or `none`.
--
-- Sums of addresses and of 64-bit sector numbers are taken not to wrap.
--
-- Not modelled: device registers, assembly, the mapping of pages, the context switch; and, so far, what the
-- workers transfer, the directories of page tables, the iterator of the hash set, the streams of the user library
-- and the shell.
pub mod Prelude
pub mod Container
pub mod Dev
pub mod Sync
pub mod Memory
pub mod Process
pub mod Exfat
pub mod File
pub mod User
