-- ===== src/Lib.antt =====
-- MicroRT-Kernel: a preemptive real-time kernel for a microcontroller.
--
-- The parts of the program. Every object of the kernel is linked by intrusive circular lists. The
-- scheduler keeps a ready list for each of 32 levels and a bitmap of the levels that have a task; the
-- tick advances the timers and the time slices. Semaphores, mutexes, events and mail boxes put tasks
-- that cannot go on into waiting lists, and wake them through one shared set of functions, which moves
-- tasks between the waiting lists and the ready lists. A task that waits with a time limit starts the
-- timer in its control block. Interrupts put a switch off to their end. The calls mask the interrupts
-- from their first read to their last write, so each critical section is one step; a call that waits
-- ends in the scheduler, and has a continuation of its own where its loop tests again.
--
-- The state. Kernel.antt has the globals and the control blocks as one record. An object is its
-- address. The list nodes of one kind and the list heads that hold them share a store of next and prev
-- pointers (DList.Links), in which the address of an object stands for its node of that kind.
--
--   Kernel/Include/mrtk_list.h      DList      _mrtk_list_insert_before is DList.insert_before, ...
--   Kernel/Src/mrtk_schedule.c      Sched      _mrtk_schedule_insert_task is insert_task, ...
--   Kernel/Src/mrtk_obj.c           Obj        the lists of objects by type
--   Kernel/Src/mrtk_irq.c           Irq        with the PendSV handler of Kernel/Port
--   Kernel/Src/mrtk_timer.c         Timer      the callbacks are a parameter
--   Kernel/Src/mrtk_ipc_obj.c       Ipc        suspend_one, resume_one, resume_all
--   Kernel/Src/mrtk_sem.c           Sem        what all the waiting calls share is in Blocking
--   Kernel/Src/mrtk_mutex.c         Mutex      the bytes read behind a local variable are a parameter
--   Kernel/Src/mrtk_task.c          Task       the cleanup handlers are a parameter
--   Kernel/Src/mrtk_event.c         Event      with the memory in which the caller gets the events
--   Kernel/Src/mrtk_mail_box.c      MailBox    one round of the loops of send and receive at a time
--   Kernel/Src/mrtk_ringbuffer.c    RingBuffer with Cyclic, what a circular buffer holds
--   Kernel/Src/mrtk_mem_pool.c      MemPool    the headers of the blocks are a store
--   Kernel/Src/mrtk_mem_heap.c      MemHeap    the headers by offset; Chunks is the heap as a list
--   Kernel/Src/mrtk_msg_queue.c     MsgQueue   send and receive up to the copy and after it
--   mrtk_sem_create, ...            Dynamic    objects on the heap: creation and deletion of each kind
--   Kernel/Include/mrtk_utils.h     Align      MRTK_ALIGN_UP and MRTK_ALIGN_DOWN
--   mrtk_strncpy, mrtk_strcmp, ...  Text       on memory as bytes; with the names of the objects
--   MRTK_SET_BIT, MRTK_SWAP32, ...  Macros     the macros on bits, bounds and the order of bytes
--   Kernel/Port                     Port       the first frame of a task, PendSV_Handler, mrtk_start
--   Kernel/Src/mrtk_system.c        System     the order of the initialisations
--
-- Machine puts the parts together for tasks, semaphores and the tick: a state has, beside the kernel's
-- memory, the lists that the pointers are meant to hold, and a step is one call. No steps are: the calls
-- on mutexes, events and mail boxes, because priority inheritance and mrtk_event_send break the
-- agreement of lists and states; the resumption of a task that waits, because it corrupts the list in
-- which the task waits; the end of the slice of a task that is not the first of its queue, as one is
-- that has just gone to sleep; the calls on message queues and pools that move tasks; the deletions.
--
-- Of the switch the kernel's parts see the current task only (Irq.pend_sv). Port has the handler with the
-- registers and the stacks; what the processor puts on the stack itself is not in the code.
--
-- Prelude has what the modules share: tests on numbers, lists, and the bits of a number. Examples has
-- a concrete state, on which each theorem is applied.
--
-- Critical sections. A message queue copies with interrupts enabled: MsgQueue.Interleave has the
-- steps before the copy, the copy and the steps after it as a relation on states that also say who
-- holds each block, so that calls of any number of tasks and interrupts may come in between. A reset
-- of the queue, its deletion and the waiting lists are not among those steps.
--
-- Integers. The tick, the lengths, the sizes and the counters wrap where the source's types do
-- (% 2 ^ 32, % 2 ^ 16, % 256). Addresses of objects, of messages and in stacks do not wrap; offsets in the heap
-- are compared on 32 bits, as in the source.
--
-- Loops. A loop that follows pointers takes the number of its rounds, and gives none beyond them. The
-- theorems say how many rounds are enough: more than the nodes of the list, or than the blocks of the
-- heap. Only the scan of the timers has no bound.
--
-- Not modelled: what tasks and callbacks do; the contents of allocated memory, but for messages and
-- mails; the debug output; the registers that the processor itself saves.

pub mod Prelude
pub mod DList
pub mod Kernel
pub mod Sched
pub mod Obj
pub mod Port
pub mod Irq
pub mod Timer
pub mod Ipc
pub mod Blocking
pub mod Sem
pub mod Mutex
pub mod Task
pub mod Text
pub mod Macros
pub mod Event
pub mod MailBox
pub mod Cyclic
pub mod RingBuffer
pub mod Align
pub mod MemPool
pub mod MemHeap
pub mod MsgQueue
pub mod Dynamic
pub mod System
pub mod Machine
pub mod Examples
