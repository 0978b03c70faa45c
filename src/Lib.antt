-- ===== src/Lib.antt =====
-- Verification of the date crate, of the buffer traits and the containers of the bytes crate and of
-- parts of the coroutine crate.
--
-- The program is three crates. date keeps the text of the current date for HTTP headers: it converts
-- instants to dates and back, parses the three date formats of HTTP and writes one. bytes has the
-- traits Buf and BufMut, through which parsers and writers read and write bytes, the adapters over
-- them, and the containers Bytes and BytesMut, which implement them. coroutine has a scheduler of
-- stackful coroutines with its synchronisation primitives. date appends its text to a BytesMut.
--
-- The files, and what they model:
--   Prelude.antt and below: the shared names. Prelude/Fallible.antt has `Outcome`, a call that may
--     panic, and Prelude/Looping.antt has `Run`, a call with a loop, which may panic or, in the
--     model, use up its fuel.
--   Date.antt: `DateTime` of date/src/date_time.rs and `Result`. Date/Civil.antt: the conversions
--     from and to `SystemTime`, `is_leap_year`, `is_valid` and `cmp`; below it the calendar that
--     they are compared with. Date/Slice.antt and Date/Digits.antt: indexing, slicing and
--     `to_int_1` to `to_int_4`. Date/Parse.antt: `parse_imf_fixdate`, `parse_rfc850_date`,
--     `parse_asctime` and `from_str`. Date/Format.antt: `Display`. Date/Api.antt:
--     `parse_httph_date` and `fmt_httph_date` of date/src/date_time_error.rs, and `Date`, its update
--     and `append_date` of date/src/lib.rs.
--   Buf.antt: the trait Buf of bytes/src/buf/buf_impl.rs as a record of its required methods, and
--     `Lawful`, what its comments ask of an implementation. Buf/Words.antt: the bytes of an integer.
--     Buf/Read.antt: the provided methods, for any implementation. Buf/Slice.antt, Buf/Cursor.antt,
--     Buf/Deque.antt, Buf/Chain.antt, Buf/Take.antt: the implementations, with their laws.
--     Buf/Iter.antt: bytes/src/buf/iter.rs and reader.rs. Buf/Vectored.antt: `chunks_vectored`.
--     Buf/Adapters.antt: what is read through the adapters.
--   BufMut.antt: the trait BufMut of bytes/src/buf/buf_mut.rs in the same way, with `LawfulMut`.
--     BufMut/Put.antt: the provided methods, and `write` of bytes/src/buf/writer.rs.
--     BufMut/Slice.antt, BufMut/Limit.antt, BufMut/Chain.antt, BufMut/Vec.antt: the implementations.
--     BufMut/Uninit.antt: bytes/src/buf/uninit_slice.rs. BufMut/RoundTrip.antt: writing an integer
--     and reading it back.
--   Memory.antt: the blocks of bytes and the boxes that the raw pointers of the containers point to,
--     and `Eff`, a call on them, which may panic or do what is undefined. Memory/Vec.antt: the calls
--     of `Vec<u8>`; how much more than it must it allocates is a parameter, `spare`.
--     Memory/Access.antt, Memory/Windows.antt, Memory/Reserve.antt, Memory/Returns.antt: lemmas.
--   BytesMut.antt: `BytesMut` of bytes/src/bytes_mut.rs with its tagged word. BytesMut/Grow.antt:
--     what needs room; `reserve_inner` is cut at its branches into `reserve_vec`,
--     `reserve_unique` and `reserve_copy`. BytesMut/Endless.antt: `Extend`. BytesMut/Valid.antt: the
--     states of a handle, and `Step`, what an operation leaves to the other handles.
--     BytesMut/Clone.antt, Split.antt, Release.antt, Unsplit.antt, Room.antt and below, Reserve.antt,
--     Fill.antt, Extend.antt and IntoVec.antt: the theorems.
--   Bytes.antt: `Bytes` of bytes/src/bytes.rs. Bytes/Tables.antt: the functions of its tables, one
--     function for each entry with a case for each table. Bytes/Split.antt: the parts of a handle.
--     Bytes/Convert.antt: the conversions, with the address of a block as a parameter, `base`, and
--     the drop of an owner as another, `drop_owner`. Bytes/Compare.antt: equality and order, of
--     handles with what shows bytes; Bytes/Compare/Slices.antt and Order.antt: their theorems.
--     Bytes/Copy.antt: `put` of a BytesMut and the provided `copy_to_bytes`, from any reader.
--     Bytes/Views.antt, Parts.antt, Lifetime.antt, Freeze.antt, Copy/Moved.antt and Copy/Shown.antt:
--     the theorems.
--   Sync/Backoff.antt and Sync/SeqLock.antt: coroutine/src/sync/backoff.rs and seq_lock.rs.
--   Fmt.antt: bytes/src/fmt/debug.rs and hex.rs, with a reader of what they write.
--   Join.antt: `trigger` and `wait` of coroutine/src/join.rs, one access in a step. JoinHandle.antt:
--     coroutine/src/join_handle.rs over it, with the closure of coroutine/src/builder.rs;
--     JoinHandle/Result.antt: the theorems.
--   Cancel.antt: coroutine/src/cancel.rs. Stack.antt: `allocate` of coroutine/src/stack/sys_stack.rs.
--     Stack/Footprint.antt: `Stack` of coroutine/src/stack/mod.rs as the words between its ends, and
--     coroutine/src/done.rs.
--   Atomic.antt: `can_transmute` and `lock` of coroutine/src/sync/mod.rs and the choice that the macro
--     `atomic!` makes. Atomic/Int.antt: the integer types as bit patterns, and what the operations
--     make of them. Atomic/Fetch.antt: the methods that coroutine/src/sync/atomic_macro.rs expands to,
--     with the instruction and with the lock, and those of `AtomicCell<bool>`; one access of shared
--     memory in a step. Atomic/Words.antt: the locked `atomic_load` and `atomic_store`, a word in a
--     step. Atomic/Cell.antt: coroutine/src/sync/atomic_cell.rs, with the load of Atomic/Words.antt and
--     exchanges that are parameters; Atomic/Cell/Access.antt, Load.antt and Update.antt: the
--     theorems.
--     Atomic/Bounds.antt, Alone.antt, Undo.antt, Truth.antt, Overlap.antt, Native.antt, Steps.antt and
--     Torn.antt: the theorems.
--   Runtime.antt: the contexts of coroutine/src/runtime.rs and the search through their parents.
--     Runtime/Search.antt and Runtime/Slots.antt: the theorems.
--   Parking.antt: coroutine/src/sync/thread_park.rs, coroutine/src/park.rs and blocker.rs.
--     The waits of `ThreadPark` move the guard that its loop reads, so that the code does not compile;
--     the model keeps the guard.
--     Parking/Tokens.antt and Parking/Once.antt: the theorems.
--
-- State is passed: a method with `&mut self` takes the state and returns the new one. A byte and a
-- word are numbers, and each conversion and wrap-around is written out. A `usize` has 64 bits.
-- The threads that share a SeqLock, a Join, an AtomicCell or a ThreadPark are a sequence of events,
-- each of them one atomic access, or what is done under one mutex.
--
-- Fuel: `copy_to_slice`, `put_slice`, `put_bytes` and `put` move a byte at least in each round, so
-- they have as much fuel as bytes to move; a loop that comes to the end of its fuel is `stuck`.
-- `collect` and `SeqLock.write` take their fuel as an argument, and so do `fetch_update` and the search
-- of the contexts, of which it is shown how much is enough. `put` of a BytesMut has as many rounds as
-- bytes.
--
-- A debug assertion is an assertion, and an abort a panic. An atomic access of a reference count is
-- a step of the one thread: the race of two threads that promote one `Bytes` is not modelled.
-- `BytesMut.Endless.extend` takes as fuel how deep the calls are nested.
--
-- The native atomics of the standard library are one step, with the wrap-around that it documents, and
-- `target_has_atomic = "64"` holds. `atomic_swap` and `atomic_compare_exchange_weak` are parameters:
-- no file declares them.
--
-- Not modelled: the uninitialised slices of BytesMut; `Hash`, `Borrow` and the iterators of
-- the containers, which pass on to those of slices; floats; the scheduler, the mapping of stacks and
-- the context switch, which are assembly and system calls; memory orders weaker than a sequence of
-- steps; the race of the thread that updates the cached date with its readers.
pub mod Prelude
pub mod Date
pub mod Buf
pub mod BufMut
pub mod Sync
pub mod Cancel
pub mod Join
pub mod Fmt
pub mod Stack
pub mod Memory
pub mod BytesMut
pub mod Bytes
pub mod Atomic
pub mod Runtime
pub mod Parking
pub mod JoinHandle
