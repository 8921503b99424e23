-- ===== src/Lib.antt =====
-- provework: verifiable execution of jobs by workers that nobody has to trust.
--
-- A job is a RISC-V program. Workers run it in a deterministic emulator (crates/rvcore) and report a
-- chain of state hashes; the coordinator (crates/coordinator) accepts a result by a quorum of equal
-- reports, pays or burns bonds, and settles a challenge by the dispute game, which re-executes one
-- chunk or the whole job. The library follows these parts:
--
--   Prelude       numbers, tests, lists, byte strings, hex, decimals, results and bit operations
--                 that all share
--   Jobfmt        crates/jobfmt: the manifest, the worker's result, and in Encodings the journal, the
--                 signed messages and from_hex; Confined has confined_name (Plain: what it
--                 lets pass), Directory load_dir and
--                 save_dir
--   Wire          crates/wire: send and receive_polled over a stream (Frames), receive (Blocking),
--                 and the admission proof of work, tested (Pow) and mined (Mining)
--   Contentstore  crates/contentstore: content ids (Ids), put and get (Blobs), materialize (Jobs)
--   Rvcore        crates/rvcore: Cpu (cpu.rs), Mem (mem.rs), Words and Alu (the arithmetic of
--                 interp.rs), Interp, Compressed and Step (step_mode, step_c, do_syscall), Hash
--                 (hash.rs and merkle_root), Snapshot (snapshot.rs), Elf (elf.rs), Run (run and
--                 execute_chunk_from)
--   Coordinator   crates/coordinator: Quorum (lib.rs), Ledger (ledger.rs and finish_ledger of net.rs),
--                 Dispute (dispute.rs; Reexecution has its judges over Rvcore), Optimistic
--                 (optimistic.rs), Net (net.rs): Auth (Hello and NonceSig), Votes (Result),
--                 Receipts (ReceiptClaim), Uploads (BlobUpload and BlobRequest), Submissions
--                 (JobSubmission), Dispatch (round 1 and escalation), Finish (the decision and
--                 finish_decided_job), Loop (serve, one turn at a time), Queue (scan_jobs_dir),
--                 Provers (Proving: prove_one; Disputes: zk_judge_network and
--                 judge_by_replay_network); Zk: Process (the waits for a child), Receipt
--                 (receipt.rs), Verdict and Cache (zk_judge.rs)
--
-- The server's event loop uses the wire's proof of work to admit a connection, the content store for
-- uploads, the quorum for the decision of a job, and the ledger for what the decision pays. Its state
-- is a record that each handler takes and hands back; messages to connections go to an outbox. What
-- the threads, the clock, the directory scan and the external provers answer is the input of a turn.
-- The provers materialize a job from the content store, ask an external process about it, and check
-- its verdict against the job's ids; without one, a dispute is replayed with crates/rvcore.
--
-- Conventions. A Rust integer is a native number and its wrap-around is written out; an i64 is its
-- 64-bit pattern. A `&mut` argument is passed in and handed back. An error is a constructor, without
-- its text; a Rust panic is a value of its own (`panicked`, `none`, `slice_panic`),
-- and so is a judge's call that panics or never ends (`lost`, `no_answer`, `no_return`). A string is the
-- list of its UTF-8 bytes. BTreeMap is an association list: sorted by key for the page directory,
-- in order of insertion for the balances, where the order is not looked at.
--
-- Bounds. `run_loop` takes fuel; `run` gives it one more than `max_instructions`, which is enough
-- because each iteration counts an instruction. `chunk_loop` and `mine_pow` have fuel as an argument,
-- since the source has no bound of its own there; for `mine_pow`, as much as there are counters up to
-- a solution is enough. The event loop runs over the list of its inputs. The wait for a verifier has
-- one round more than its limit has pauses, that for a judge two, which fill the limit by a clock that
-- a sleep moves on; their output is read to its end, which it has only if it closes. Decimal numbers
-- have at most twenty digits, as a u64 has.
--
-- Outside. BLAKE3, SHA-256, Ed25519, the file system, the external processes (the verifier of receipts
-- and the judge that proves) and the JSON parser are parameters; a law that the code relies on is a
-- named hypothesis (`IsFileSystem`, `IsDisk`, `IsWriter`, `IsSaved`, `Sleeps`). Sockets, session
-- threads, TLS, the SP1 programs, command lines and tracing are not modelled. The judges that the dispute game and the event
-- loop call are interfaces (`Judges`, `Courts`, `Verifier`), which Reexecution and Provers fill. In the
-- event loop an acceptance of a connection falls between two turns.
pub mod Contentstore
pub mod Coordinator
pub mod Jobfmt
pub mod Prelude
pub mod Rvcore
pub mod Wire
