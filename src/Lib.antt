-- ===== src/Lib.antt =====
-- Kernel and thread code of the homeworks of an Android course: failure injection (hw2), a thread
-- library, a counting semaphore over its threads and a network lock (hw3), a scheduling policy
-- (hw4), and a per-user memory limit with its out-of-memory killer (hw5). Two parts call others: the
-- killer looks up users in the cache, and the slow path of the page allocator takes the zone locks
-- of the killer and calls the allocator of the zones.
--
-- SysFail: sys_fail.c, the hook in entry-common.S and the caller hw2.c. One task's countdown is the
-- state; a system call is one step.
-- Sem: hw3/sync.c. The semaphore and the heap of its queue nodes are the state; each operation is a
-- function of it. Sem/System.antt has the interleavings of n threads as a step relation.
-- Netlock: hw3/netlock.c. The counters of the lock are the state; each system call is a function of
-- it, and Netlock/Calls.antt has runs of them.
-- Sthread: hw3/sthread.c. The thread structures and the thread list are the state, and what the
-- library asks of the system is a list of calls. Sthread/Manager.antt has the manager and its
-- messages, Sthread/Calls.antt the start-up and the calls of the users.
-- Sched: hw4/kernel/sched/mycfs.c and what hw4/kernel/sched/core.c does with policies. A task is
-- the state; Sched/Change.antt has __sched_setscheduler, whose rounds are given as a list of what
-- the two looks at the task show.
-- Fair: the queue of hw4/kernel/sched/fair.c. A tree of the entities, its cached node and the least
-- virtual run time are the state; Fair/Clock.antt is about the times, Fair/Order.antt and
-- Fair/Dequeue.antt about the tree. Fair/Load.antt has the weights and slices, and Fair/Entity.antt
-- the operations on the entities of a queue, which are the whole state there with their load and
-- number: Fair/Entity/Members.antt says when a queue is right, the files below Fair/Entity have the
-- proofs.
-- UserCache: hw5/kernel/user.c. All user_structs and the hash table of each namespace are the
-- state.
-- Oom: hw5/mm/oom_kill.c, hw5/arch/arm/kernel/set_mlimit.c, and the check that the latter switches
-- on in hw5/mm/page_alloc.c. Oom/Badness, Oom/Select/Choice, Oom/Kill/Victim, Oom/Run/Laws and the
-- files below Oom/Limit have the proofs about the scores, the choice, the kill, the whole, and the
-- limit.
-- Buddy: hw5/mm/page_alloc.c, the free lists of a zone. The lists, their counters and the marks of
-- the pages are the state; an allocation answers a page and the zone it leaves. Buddy/Free.antt has
-- __free_one_page, Buddy/Alloc.antt expand and __rmqueue_smallest, Buddy/Fallback.antt
-- __rmqueue_fallback and __rmqueue, Buddy/Bulk.antt rmqueue_bulk, Buddy/Pcp.antt
-- free_pcppages_bulk, Buddy/HotCold.antt free_hot_cold_page, Buddy/Buffered.antt buffered_rmqueue,
-- whose rounds are as many as there are pages, Buddy/Watermark.antt __zone_watermark_ok, and
-- Buddy/Zonelist.antt get_page_from_freelist, for which each zone has such a state. Buddy/Blocks
-- and the files below it have what one block does when it enters or leaves the lists; the pages
-- that are free are counted by the blocks they are in.
-- Slowpath: __alloc_pages_slowpath of hw5/mm/page_alloc.c, which tries again for as long as the
-- request wants: a round goes from a label to where the function returns or jumps back, and the
-- number of rounds is its fuel. The zones, the locks of the killer and the flags of current are the
-- state.
--
-- What is outside the repository is an argument: malloc and the pages it gives, the hash lists of
-- include/linux/list.h and the operations of lib/rbtree.c (interfaces with laws), what other
-- processors do while a lock is free, and what the kernel answers about signals, capabilities and
-- NUMA nodes. Functions are named as in the source; a piece of a function that is a definition of
-- its own is named for what it does. Spin locks make a routine one step. Loops go over lists, over
-- the orders that are left, or over the pages of a range.
--
-- Where the source compares a charge with a limit, and where the failure countdown may overflow,
-- the numbers have 32 bits, and a charge wraps; reference counts, scores and sums of pages do not. Printing, and
-- the memory barriers of a lock, are left out. A `long` of the scheduler has 64 bits, at which
-- virtual run times wrap; page numbers do not wrap. The rest of the fair class (groups, balancing,
-- bandwidth, statistics) and of the scheduler's core, and of the page allocator the set-up at boot
-- and the entry __alloc_pages_nodemask but for its memory limit are not modelled.
pub mod Prelude
pub mod SysFail
pub mod Sem
pub mod UserCache
pub mod Oom
pub mod Buddy
pub mod Netlock
pub mod Sthread
pub mod Sched
pub mod Fair
pub mod Slowpath
