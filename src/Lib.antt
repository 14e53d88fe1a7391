-- ===== src/Lib.antt =====
-- The authority core of the QuantumOS kernel.
--
-- The kernel decides what a process may do in two layers. The capability table holds, per slot, an
-- unforgeable right of one process on one resource, with the right that it was derived from; the
-- intent manifest of a process lists the resources that it declares. A gated system call asks both,
-- and a process may hand a narrowed right to a peer, which adds to both. Every grant, refusal,
-- withdrawal and cleanup is recorded in the ledger. When a process dies, its rights and what was
-- derived from them are withdrawn, and so are the rights of others to send to it.
--
-- The scheduler switches processes on the interrupt frame: a process that a message or a device woke
-- goes first, up to twice in a row, else the next in rotation. The timer tick charges the manifest of
-- the process interrupted and terminates it when it is past what it declared. Creating and destroying
-- a process goes through all of these components, and the reaper frees what has terminated.
--
-- Processes talk by messages: every process has a queue, and there are named ports and channels of
-- two ends. The broker of quantum jobs takes circuits from one process and hands them to another,
-- behind the same two layers of authority, and keeps the answer until its owner asks for it. The
-- network is off until a grant with a time, a budget of bytes and a list of destinations is given, at
-- boot or by a host that knows the key.
--
-- Files and sources:
--   Audit         kernel/src/audit.c. `Audit.Ring` has the ring and `audit_record` with its wrappers,
--                 `Audit.Blob` the durable form; `Audit.History` the unbounded history that the ring
--                 shows; `Audit.Flood` repeats; `Audit.Fields` and `Audit.Durable` are about the
--                 durable form.
--   Capability    kernel/src/capability.c. `State` has the table, handles and slots; `Create` has
--                 `cap_init`, `cap_create` and `cap_derive`; `Revoke` the cascade and the two
--                 cleanups; `Withdraw` has `cap_revoke`; `Check` and `Find` the tests and lookups.
--                 `Invariant` says what a valid table is, `Cascade` what a loop of frees leaves,
--                 `Mint` what a new capability changes, `Authority`, `Reap` and `Withdrawal` what
--                 the interface means, `History` which states are reachable.
--   Manifest      kernel/src/manifest.c. `Table` and `Quota` have the operations, `Intent`,
--                 `Declares`, `Bounds` and `Spending` what they mean.
--   Process       kernel/src/process.c. The entry, the table and the lookups; `Queue` has the ready
--                 queues, the change of state and the switch of the current process, `Essence` what
--                 these leave of an entry.
--   Service       kernel/src/service.c, the lookup of monitored processes.
--   Syscall       kernel/src/syscall.c. `Gate` has `authorize`, `Delegate` has `sys_cap_derive` with
--                 its guards in order; `Authority`, `Minting`, `Delegation` and `Usable` are about
--                 them. `Exit` has the exit ledger and `sys_waitpid`, and `Waiting` is about these.
--   Scheduler     kernel/src/scheduler.c. The statics, the boost of a delivered message and the
--                 registrations; `Pick` has the two scans, `Dispatch` the switch and the kill,
--                 `Interrupts` the tick and the receive interrupts. `Bounds` and the modules under
--                 these three are about them.
--   Net           kernel/src/net_udp.c and kernel/src/net_tcp.c, the cleanup of a dead process.
--   Lifecycle     kernel/src/process.c with the components around it. `Family` has the children,
--                 `Create` `process_create`, `Destroy` `process_destroy`, the reaper and
--                 `process_exit`. `Births`, `Entry` and `Born` are about the first, `Stripped`,
--                 `Tags`, `Bystanders`, `Gone` and `Reaped` about the second.
--   Ipc           kernel/src/ipc/ipc.c. `Queue` and `State` have the queues and the statics,
--                 `Passing` sending and receiving, `Ports` and `Channels` these and the cleanup of
--                 a process. `Order` says what a queue operation does to the messages, `Fifo` what
--                 a run of them does; `Valid`, `Kept`, `PortsKept`, `ChannelsKept` and
--                 `Reach` are the invariant, `Delivery`, `Names` and `Cleanup` what single calls do.
--   Qpu           kernel/src/qpu.c. `Jobs` has the job table, `Broker` the entry points, `Calls`
--                 `sys_qpu` of kernel/src/syscall.c in front of them. `Slots`, `Kept` and `Runs` are
--                 the invariant, `Fetching` and `Results` what executor and owner get, `Death` what the
--                 death sweep leaves and `Leak` what it cannot free.
--   Egress        kernel/src/egress.c. `State` and `Parse` have the grant and the parser, `Grant` the
--                 grant's life and the verdicts, `Offer` the key and the console, `Frames` the two
--                 calls of kernel/src/netdev.c that count frames. `Shorter` and `Ends` are
--                 about the parser, `Allowed`, `Spent`, `Budget` and `Console` about the rest.
--   Prelude       shared names, Boolean tests, tables as functions, bits and lists.
--
-- How code becomes definitions. A C array is a function of the index, and a store changes it at one
-- index. A function that writes globals takes their record and returns it. An out pointer is a flag
-- that says whether it was given, and the result has an option for what is written there. A pointer
-- to a slot is the slot's index. Counters and generations wrap at the width they have. Every
-- `for` loop that looks for an entry is `find_first`. `timer_get_ticks` is the argument `now`, one
-- value for a call: the system calls run with interrupts off. The cleanups run with interrupts on
-- and each of their frees is atomic; that other calls run between two frees is not modelled.
--
-- A queue's linked list is the list of its messages, and the list of free entries is its length;
-- a flag says whether `kmalloc` would give an entry. Byte arrays are functions of the index, and a
-- name is the list of its bytes before the terminating zero. The running process is the argument
-- `current`, 0 where there is none, and the time stamp of a message is 0, as the code has it. A call
-- of ipc.c runs to its end before the next begins. The structures that the broker copies in and out
-- come as values, with `none` or a flag where the caller's pointer is bad. The network drivers are
-- arguments: whether a driver took a frame, and how many bytes it gave.
--
-- Fuel. The C functions recurse over the derivation forest and walk up to the root. The models take
-- fuel and give `none` without any; `cascade_fuel` is one more than the 1024 slots. It is enough: in
-- a valid table each slot has a rank below the number of slots in use, a parent's below its child's,
-- and each level of the recursion goes to a higher rank. The results about withdrawals state that a
-- state is returned.
--
-- The parser of egress.c has fuel for one field more than its text has bytes, and each field that is
-- read takes some. The loops over the process table count its slots.
--
-- A pointer to `process_table[pid]` is `pid`. `kmalloc` is a function from a size to an address, with 0
-- for none left; the addresses handed to `kfree` and to `vmspace_destroy` are listed, since these two
-- are not modelled. What the drivers answer to `com2_rx_pending`, `console_rx_pending` and
-- `virtio_vsock_poll`, the kernel's CR3, and whether the quantum pool is initialized are arguments. The
-- scheduler is that of the default build: SCHED_IO_BOOST, without the lottery and the resonant picks. A
-- panic is `none`. A wait of 768 is (SCHED_BOOST_MAX_CONSEC + 1) * 256: with 256 slots in rotation, at
-- most two boosted picks come before each step of it.
--
-- Not modelled: the text formats, the texts of results, self-tests and the log; the memory that a
-- request is copied from (a request that is not mapped is `none`); the other system calls, the set-up
-- of the process table at boot, the service manager but for one lookup, and the lottery and resonant
-- schedulers; memory, the network protocols, the field store, files, drivers, the user library and
-- user programs.
pub mod Prelude
pub mod Audit
pub mod Capability
pub mod Lifecycle
pub mod Manifest
pub mod Net
pub mod Process
pub mod Scheduler
pub mod Ipc
pub mod Egress
pub mod Service
pub mod Syscall
pub mod Qpu
