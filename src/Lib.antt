-- ===== src/Lib.antt =====
-- A model of futures-rs, the asynchronous programming library for Rust.
--
-- Task             what the parts share of `core::task`: the answers of `poll`, and results
-- AtomicWaker      futures-core/src/task/__internal/atomic_waker.rs, the cell that a task leaves its
--                  waker in
-- Mpsc             futures-channel/src/mpsc, the channels with many senders and one receiver
--   Word           mod.rs: the atomic word with the open bit and the number of messages
--   Queue          queue.rs: the linked queue of messages
--   Bounded        mod.rs: the bounded channel; Calls has the histories of calls, Invariant what the
--                  methods keep, Valid and History what histories keep, Drain the drop of the
--                  receiver, Growth a history that fills the channel
-- Oneshot          futures-channel/src/oneshot.rs and lock.rs, the channel for one message
-- Run              computations that loop or panic, for the bodies of `poll`
-- Stream           futures-util/src/stream/stream, the adapters of streams, a file each; from
--                  futures-util/src/stream, Select, SelectWithStrategy, Iter, Once, Unfold
--                  and FuturesOrdered (futures_ordered.rs)
-- FutureExt        futures-util/src/future, the combinators of futures, a file each
-- Executor         futures-executor/src
--   UnparkMutex    unpark_mutex.rs, and the calls of it in thread_pool.rs
-- Lock             futures-util/src/lock
--   BiLock         bilock.rs, the lock of two handles
--   Mutex          mutex.rs; Invariant has what its threads keep
-- Io               futures-util/src/io: BufReader, Take, Chain, ReadExact, BufWriter,
--                  WriteAll and CopyBuf, a file each; Ends has futures that leave a state
-- Abortable        futures-util/src/abortable.rs
-- Usize            `usize`, and what `size_hint` promises
-- Prelude          names of the library, Boolean tests, lists and their parts, integers
--
-- How they interact. The bounded channel holds its messages in a queue, counts them in the word, and
-- wakes its receiver through an `AtomicWaker`; senders that must wait are in a second queue. An
-- Abortable registers with an `AtomicWaker`, which its handles wake. FutureExt stands on the futures
-- and streams of Stream, and those on the loops of Run. The readers and writers of Io stand on one
-- another, and CopyBuf on one of each.
--
-- AtomicWaker. A waker is a number, and equal numbers stand for wakers that `will_wake` each other.
-- The word `state` is one of the bits of the source; `register`, `take` and `wake` are functions on
-- a cell that nothing interrupts. Threads gives each access of the word or of the cell a step of its
-- own: a program counter (`Pc`) for each point of `register` and `wake` before such an access, and
-- any number of threads that move in any order. `wake` and drop of a waker do not call back.
--
-- Mpsc.Queue. Nodes are in a heap that maps an address to a node or to nothing, and reading what was
-- freed is a fault. `push` is its two steps, the swap of `head` and the store of `next`. `pop` is its
-- loads of `next` and, where that is null, of `head`; what follows a load up to the next one is one
-- step with it, since the consumer alone reads or writes it. Steps lets the steps of producers
-- and of the consumer follow one another in any order. `pop` as one function is given what the
-- producers do between its loads, and the rounds of `pop_spin` also what they do during `yield_now`.
--
-- Mpsc.Word. `usize` has 64 bits, with wrap-around written out. The loop of `inc_num_messages` takes
-- the list of words that other threads have stored when its `compare_exchange` reads it: it ends
-- when this list does.
--
-- Mpsc.Bounded. Each method runs to its end. A sender's `Arc<Mutex<SenderTask>>` is a number, the
-- address of its record in `tasks`, which `parked_queue` shares. `none` is a panic; a
-- `debug_assert` that repeats a test of the caller is left out. The loop of
-- `Drop for Receiver` has fuel, one round more than there are messages.
--
-- Oneshot. Each half has a program counter (`Tx`, `Rx`) that stands before each load, store and
-- `try_lock` of its methods; the halves call and step in any order. What is done under a lock is one
-- step with the release, since the other half only tries the lock. `send` ends with the drop of the
-- sender. A system also records what happened: what was given to `send`, given back and received,
-- and for a half whose last poll answered `Pending` the wakers woken for it since.
--
-- Stream. A stream is a state with `poll_next`, `size_hint` and `is_terminated`, a future one with
-- `poll`; an adapter makes a stream or a future from those that it is given. A closure is a function
-- without a state of its own. The `Context` is passed on and left out. `poll_next` is a computation
-- with fuel: a `loop` runs as many rounds as there is fuel, and `Gives` says what it answers from
-- some fuel on. A stream `Yields` a list when it gives these items and then `None`, with any finite
-- number of `Pending` in between; a future `Resolves` to a value in the same way. A stream that
-- yields a list never panics up to its end, and its loops end.
--
-- FutureExt. The combinators stand on the futures and streams of Stream. JoinAll has the small kind of
-- `join_all`, the boxed slice of at most `SMALL` futures.
--
-- Stream.FuturesOrdered. In the place of the FuturesUnordered stands any stream that has `push`, `len`,
-- `is_empty` and `clear`. The heap of outputs is a list, of which `pop` takes an output with the least
-- index. The indices are i64 with wrap-around (Prelude.Int), as without overflow checks.
--
-- Executor. Like the threads of `AtomicWaker`, those of UnparkMutex have a program counter (`Pc`) that
-- stands before each access of the status or of the task. A thread to which `notify` answers `Ok` goes
-- on as the worker that the pool sends the task to. `due` records that a `notify` had its effect since
-- a poll began: when the status changed, or was read as REPOLL or COMPLETE.
--
-- Lock. The two handles of a BiLock have program counters as well. A handle calls `poll_lock` only when
-- it has no guard. For one whose last call answered `Pending` it is recorded whether its waker was
-- woken since. Any number of threads use a Mutex, each with at most one call, future or guard at a time.
-- What is done while `waiters` is locked is one step, together with the change of the bit for the
-- waiters, which no other access of `state` reads or changes in between but `unlock`, which locks
-- `waiters` after it. The slab is a parameter: `Laws` has what is used of the crate `slab`.
--
-- Abortable. The task has a program counter, and the handles that stand between the store and the
-- `wake` of `abort` are counted. `register` and `wake` are the calls of AtomicWaker, one step each.
--
-- Io. A reader is a state with `poll_read`, to which the caller's buffer is passed and from which it
-- comes back, with its length. `Reader` says what a reader keeps to: it has bytes to come, and answers
-- `Pending` or an error finitely often. The adapters are proved to be such readers if those below are,
-- so they may be put on one another. `Writer` is the same for `poll_write`. A byte is a number.
--
-- Not modelled: the other parts of the crates, of `mpsc` the unbounded channel and the interleaving of
-- the methods of the bounded one at their atomic steps, and `join_all` of more than `SMALL` futures.
pub mod Prelude
pub mod Io
pub mod Task
pub mod AtomicWaker
pub mod Mpsc
pub mod Oneshot
pub mod Usize
pub mod Run
pub mod Stream
pub mod FutureExt
pub mod Executor
pub mod Lock
pub mod Abortable
