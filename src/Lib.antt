-- ===== src/Lib.antt =====
-- uthread: coroutines over a few threads, scheduled as goroutines are.
--
-- A uthread runs on its own stack. A p holds the uthreads of one thread of work: a queue of those
-- that are ready, a tree of those that sleep, ordered by the time to wake, and a tree of those that
-- wait for a descriptor. A scheduler is a thread that has a p: it resumes the p's ready uthreads one
-- after another, wakes those whose time is up, and polls for events when nothing is ready. A wheel
-- of timers asks a uthread that runs for too long to yield. Before a call that blocks the thread, the
-- p goes to another scheduler. Socket calls do not block the thread: they try, and put the uthread
-- to sleep until its descriptor is ready.
--
-- The files, and the code that each of them models:
--   Base, with Base/            numbers, lists and tests that the others share
--   Status, Types               uthread_inner.h and timer.h: structures, states and macros
--   Machine, with Machine/      the running program: Rt is the state (the globals of uthread.c, the
--                               heap of uthreads with its live and freed blocks, errno, and the calls
--                               made so far); M is a computation on it that may fail or exit
--   Switch, with Switch/        uthread.c: _switch, as instructions
--   Lifecycle                   uthread.c: _uthread_init, _uthread_exec, _uthread_yield, uthread_exit,
--                               _uthread_free, uthread_detach, uthread_self, handler, comparisons
--   Resume, with Resume/        uthread.c: _uthread_resume, before and after its switch
--   Create, with Create/        uthread.c: uthread_create; uthread_sched.c: _runtime_init
--   Join, with Join/            uthread.c: uthread_join
--   DiskIo, with DiskIo/        uthread.c: pthread_disk_read and pthread_disk_write;
--                               uthread_sched.c: _sched_create_another
--   Sleep, with Sleep/          uthread_sched.c: _uthread_sched_sleep, _uthread_desched_sleep,
--                               _register_event and the keys of the waiting tree
--   Event, with Event/          uthread_sched.c: _uthread_desched_event, _uthread_cancel_event,
--                               _uthread_resume_expired, handle_event
--   Poll, with Poll/            uthread_sched.c: _uthread_min_timeout, _uthread_poll
--   Loop, with Loop/            uthread_sched.c: _sched_run
--   Turns, with Turns/          uthread.c and uthread_sched.c with one p: the code between two switches
--                               as the turns of a machine, where each uthread is, and the moves of
--                               the turns (Move, Step, Refines, Reaches), from _runtime_init on (Begins);
--                               _sched_run as turns (Guest, Loops, Expiring, Round, Rounds),
--                               a program from its start on (Program)
--   Timer, with Timer/          timer.c: create_timewheel, tick, add_timer
--   Socket, with Socket/        uthread_socket.c: Once has the calls that transfer once, Exact those
--                               that go on until all is transferred, Vector uthread_writev
--   Hook, with Hook/            myhook.c
--   Tests, with Tests/          the theorems at concrete states
--
-- A function of the code is a definition of the same name without the leading underscore; parts of a
-- long function have names of their own. A switch to another context is one step, `switch` of `Env`:
-- it stands for everything that runs until some context switches back, and changes the state as it
-- likes. `Env` also has the answers of the kernel and of the C library, which may depend on all calls
-- made before, the function that a uthread runs, and the operations that tree.h generates. tree.h is
-- a copy of another project's file and is not modelled.
--
-- A pointer is a number inside Option; a read through NULL, an address that holds nothing, a failed
-- assertion and an allocation freed twice end the run with a fault. A freed block stays readable, and
-- each access to it is recorded. Integers that can wrap have their wrap-around written out.
--
-- A turn of Turns is what runs on the thread of a scheduler from one switch to the next one: what
-- a uthread does up to its yield and what the scheduler does then, or what the scheduler does up
-- to its switch. The turns are the definitions of the other files, put together; Place says where
-- a uthread is, Represents that a state has each uthread at its place, Step is one turn and Reach
-- a sequence of turns. There is a turn for the first of the ready queue, an event, a time that is
-- up while its uthread waits for a descriptor, a yield, a sleep, a wait, a join and an end; an Act is
-- what a uthread does without a switch: a creation, a detachment, the rest of a sleep or a wait, and
-- code that touches nothing of what Represents reads, such as a poll or a tick. A sleep and a join
-- are turns where the block of the uthread names no descriptor, and a wait where nobody else of the
-- p waits for the same event of the same descriptor. A time may be up whatever the clock says, an
-- event may come for any descriptor, and a calloc gives a block that is not in use. Code that fails
-- or ends the process makes no turn. The user's own code between two calls is not a turn. The laws
-- of tree.h that the theorems take are RbLaws. One p is what the program has at work: no code takes
-- a p from p_idle but the first.
--
-- The loop of the scheduler in Loop has its switches inside. Guests says of Env's switch that it does
-- what uthreads do: each switch of the scheduler to its current uthread is a Ran, a sequence of Acts
-- that ends with a yield, a sleep, a wait, a join or an end, up to the switch back. With it Guest,
-- Loops, Expiring, Round and Rounds take a run of the loop apart into turns; Rested says of a state
-- that the turns lead to it, that each uthread has one place in it and that none runs. The kernel's
-- part is RefusesNegative: epoll_ctl does not remove a descriptor below zero.
-- Tally reads n_uthread as the length of a list of the live uthreads and a number, in 32 bits; the
-- number is that of the turns of the path in which a creation failed after it was counted (failures).
--
-- Loop/Round is about the loop itself, with uthreads of one kind: YieldsBack says of Env's switch that
-- the uthread comes back by _uthread_yield, with its registers saved and its mark reset.
--
-- The loops of the scheduler and of the socket calls run on fuel. One unit is one round; a transfer
-- of n bytes needs n + 1, and a pass over a ready queue of n uthreads needs n. A computation that runs
-- out of fuel is a fault of its own, out_of_fuel, and the theorems that need enough say how much.
--
-- Not modelled: the interleaving of threads inside one step, more than one p in Turns, hand-overs
-- of a p as turns, signals that arrive inside a function, the contents of buffers and messages,
-- what is printed, and the endless sleep of the timer's thread. What a thread is bound to by
-- pthread_setspecific is the field tls of the state; its assertions, that the binding does not fail, are
-- left out. sys_read and sys_write are declared to return an int; what they return is not cut to 32
-- bits here, since a read or write moves less than 2 ^ 31 bytes.

pub mod Base
pub mod Switch
pub mod Status
pub mod Types
pub mod Machine
pub mod Timer
pub mod Lifecycle
pub mod Sleep
pub mod Resume
pub mod Event
pub mod Poll
pub mod Loop
pub mod Create
pub mod Join
pub mod DiskIo
pub mod Socket
pub mod Hook
pub mod Turns
pub mod Tests
