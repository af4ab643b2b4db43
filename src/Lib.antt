-- ===== src/Lib.antt =====
-- zpr-utils: the classic BPF interpreter and validator, the concurrent slab, and the network
-- definitions.
--
-- The repository is a set of small crates. cbpf-rs validates BPF programs once and then interprets
-- them with unchecked memory accesses; cslab keeps items in a fixed table with a bitmap of visible
-- items and a freelist that is threaded through the table; zpr-utils defines the flat IP addresses
-- that the other programs exchange, with their conversions and checksums; rcu is a box whose value
-- readers keep while a writer replaces it, and it is meant to hold the readers of an RCU slab: a
-- guard of a slab's entry keeps the reader that keeps the entry. The other crates do not call one
-- another.
--
-- The files:
--   * Base and its children: tests on numbers, lists by native length, results, bits, integers, and
--     `Exec`, the outcome of a piece of unsafe Rust: a value, a panic or undefined behaviour.
--   * Bpf (cbpf-rs/src/lib.rs): Code (the module `bpf_code`), Insn (`BpfInsn`, and the patterns of
--     the interpreter's match, decoded to an `Arm`), Words (u32 arithmetic and the loads), Vm
--     (`filter_slice`, `filter`), Validate (`do_validate`, `validate`). Accepted describes the valid
--     programs independently of the validator's order of tests. Loads, Safety and
--     Interface hold the theorems, Examples the runs.
--   * Cslab (cslab/src/lib.rs): Storage (`CslabStorage` and the lookups), Slab (`Cslab` and
--     `VacantEntry`), Bitmap (flags of a bitmap), Model (what a slab is: a state for each slot and
--     the order of reuse), Represents (the refinement relation), Refines (each operation against
--     the model's), Iter (`Iter` and `ExclIter`, with a theorem for each end, one for a whole
--     pass, and one for the drop of the storage), Reader (`CslabReader`), Examples.
--   * Cslab/Rcu (the same file): `RcuCslab` with its generations. Removes and Protects hold the
--     theorems on one removal. Owners, Counts, Releases, Advances and Guards have the lemmas on
--     reference counts and pending removals, Invariant and Handles that every operation keeps them,
--     Steps the runs of a slab, its readers, and the passes of `iter_mut` with their entries. Runs and
--     Schedules have what an operation keeps, Sessions and Distinct what holds while a pass or its
--     entries have borrowed the slab, Outcomes and Kept what one step keeps; Readers, Passes
--     and Ends are about every run, Ends about the drop of the slab.
--     Entries has `RcuCslabReader`'s lookups, `VacantRcuEntry`, `RcuIterMut`, `RcuEntry` and `clear`.
--   * RcuBox (rcu/src/rcu.rs): the interface of a box, and the methods written against it (Guards);
--     Rwlock, MutexArc, Crossbeam, Aarc and ArcSwap are its five implementations. Writers has the
--     steps of concurrent writers, Serial what holds of them, Alone one call by itself; Updates and Pins are about sequences
--     of calls and about guards, Crossbeam/Guarded about pointers that wait to be destroyed, for
--     which Crossbeam/Collector is a heap. Examples has the runs.
--   * NetDefs (zpr-utils/src/net_defs.rs): Address, Scoped, Froms and Packet (the definitions),
--     Conversions, Socket and Checksums (the theorems), Display (how addresses are written), Examples.
--   * ZprExt: UsizeCell (zpr-ext/src/std/cell.rs), Fd (`CowFd` in zpr-ext/src/std/os/fd.rs) and
--     Ancillary (`SocketAncillary` in zpr-ext/src/std/os/unix.rs, with Sending), Retry (the loops in
--     zpr-ext/src/tokio.rs, of which a fuel of one round more than would block is enough), Bytes
--     (zpr-ext/src/bytes.rs, with the interfaces of buffers), Zerocopy (zpr-ext/src/zerocopy.rs),
--     Net (`UdpSocketExt` in zpr-ext/src/std/net.rs and zpr-ext/src/tokio.rs), Casts (num.rs and
--     vec.rs in zpr-ext/src/std, zpr-ext/src/socket2.rs), Examples.
--   * RsaSign (zpr-utils/src/rsa_sign.rs), with Examples.
--
-- Conventions. Numbers are natural, and a theorem that needs the width of a field says so as a
-- hypothesis. `usize` has 64 bits. Overflow and debug_assert! are those of a debug build: they
-- panic. In the interpreter an unchecked access out of range, an unchecked addition that overflows
-- and a code without an arm are the outcome `fault`. Its loop runs on fuel: a machine that is left
-- over is the outcome `continue`, and as much fuel as there are instructions is enough for a
-- program validated without backward jumps. A method that takes `&mut self` returns the new state;
-- the state is given up on a panic. A union of an item and an offset knows which was written last,
-- and to read the other is undefined behaviour. What the allocator does for a table is a
-- parameter, and so are the checksum of the ip4sum crate and the protocol numbers of the zpr crate.
--
-- The generations of an RCU slab are a list in the order of their creation, each with the count
-- of its `Arc`; the drop of a reader is an operation on the count of its generation. A run counts
-- the readers of each generation, among them the entries of a pass, which hold a reference as
-- readers do; its steps are calls that return, and only those that the borrows allow: while a
-- pass or an entry exists, the slab is neither written nor read for a new reader, and readers
-- still come and go. The scans of the iterators run on as much fuel as there are slots between
-- head and tail, and every round passes one at least; a pass runs on one unit more than there are
-- slots. Calls on a box are atomic in the interface of a box; for the two boxes with a mutex for
-- writers, Writers takes the calls apart into steps, which interleave. The crates arc_swap, aarc
-- and crossbeam_epoch are parameters, the first two with the documented behaviour of their loads
-- and stores; their guards own what they refer to, so such a guard is modelled by the value. A
-- guard of crossbeam_epoch is a pointer and a pin: the crate's heap is a parameter, in which a
-- pointer may be destroyed after `defer_destroy`, and the law that a guard which was pinned before
-- keeps it is a hypothesis, with the ordering of `defer_destroy` and `pin` that the code's comment
-- assumes. `fetch_update` is one step, whose exchange does not fail.
--
-- System calls, and the sizes and bytes of their control messages, are parameters. A write or a
-- read past the end of a buffer, or through a misaligned pointer, is undefined behaviour. So is a
-- slab whose memory `alloc_zeroed` did not get, from its creation on.
--
-- Not modelled: the memory orderings, so a slab is seen by one thread at a time; what destructors
-- of items do; poisoned locks; the Debug forms; the conversion from pcap's instructions, a cast
-- as well; the fuzz targets.
pub mod Base
pub mod Bpf
pub mod Cslab
pub mod NetDefs
pub mod RcuBox
pub mod RsaSign
pub mod ZprExt
