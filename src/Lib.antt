-- ===== src/Lib.antt =====
-- KernelGYM is a server that evaluates GPU kernels. A request becomes a workflow with a parent record
-- and child tasks; tasks wait in Redis lists until a worker process claims them; several
-- processes share one Redis database and change it by Lua scripts, each of which runs whole. This
-- library models that shared state, the scripts, and the methods of the server that call them.
--
-- Redis holds the database and its keys: task and result hashes with the fields that the code reads
-- or writes, lists, cancellation markers, leases and sets, and the times at which keys expire. A
-- missing key reads as a hash without fields. Scripts holds one function for each script of
-- kernelgym/server/task_manager.py (claim, submit, refresh, wait, requeue, mark, return, acknowledge,
-- freeze, finalise) and of kernelgym/server/workflow_lifecycle.py (accept, cancel, renew, finish,
-- discard); a script returns the database and its code. Scripts.Schedule lists these calls, the passing of time
-- and the removal of expired keys, so a list of calls is an interleaving of any number of processes.
-- Safety is about such schedules, Admission about single scripts.
--
-- Manager holds the methods of `TaskManager` (kernelgym/server/task_manager.py) over that database
-- and the local index of claims: Claims, Requeue, Finish, Submit, Read, Recover, Dispatch
-- (get_next_task), Wait (the monitor of the queues) and Nodes (the choice of a worker). An error that a method
-- raises is a value. Promises is about these methods. Examples runs both on concrete data.
--
-- Pool holds `SubprocessWorkerPool` (kernelgym/worker/subprocess_pool.py), the worker processes of one GPU: State,
-- Faults, Recovery, Replacement and Checkout have one function for each section that runs under the pool's
-- lock, and Execute has `execute_task`. Pool.Moves is a step relation over these sections and Run its closure, with
-- the phase of each hard recovery: a run is an interleaving of any number of tasks, constructors and
-- recoveries. Generations, Settled, Kept, InOrder, Distinct, Runs and Retained carry its invariant; Handing,
-- Containment, Late, Capacity, Severity, Replay and Published are what it gives. The lock that makes a second recovery
-- wait for the first is left out, so runs have more interleavings than the program; so is a shutdown's
-- second look at its late workers. A worker is its identity, a number;
-- whether a process is alive, has exited or could be built is an argument, and so is what an error text
-- contains. The loop that tops the pool up has the pool's size as fuel.
--
-- Workflow holds the methods of `WorkflowLifecycle` (kernelgym/server/workflow_lifecycle.py) over the same database:
-- Controller (accept, renew, finish and the end of run), Reconcile (reconcile and watch) and Waiting (wait); Reasons,
-- Closing, Own and Delivery are about them. How the race of a controller, its heartbeat and its deadline ends is an
-- argument; a wait sees a database of its own at each poll and has the number of polls as fuel.
--
-- Quarantine holds the latches of kernelgym/utils/gpu_quarantine.py: Latch (one record and its normal form), Merge (the
-- four sources of a read), Store (write, read, clear) and Paging (the claims of pages); Exclusion and Once are about them. The digest of an old
-- record's identity is an argument; files can be written, different ids have different files (the source maps odd
-- characters to `_`), and what Redis holds is arbitrary.
--
-- Times are counted in microseconds. Tokens, times and generations are arguments where the code
-- takes them from `uuid4` and the clock. The loop of the claim script has the scan limit as fuel,
-- which is the source's own bound, and so have the loops of get_next_task and of the recovery. Texts that
-- the code compares after `strip`, `lower` or `upper` are held in that form. A deadline is exact, where the
-- script keeps 14 digits of it, and a payload that a script decodes and encodes again stays as it is.
--
-- Not modelled: the few writes that the server makes outside its scripts between two of them, other than the
-- publication of a result, as calls of a schedule; the HTTP interface, the toolkits that compile and run kernels, what a worker
-- process does and how it is stopped, the command line, and logging and timing figures. The registry of toolkits is an
-- argument, and where the server asks for a quarantine so is the answer.
pub mod Prelude
pub mod Redis
pub mod Scripts
pub mod Safety
pub mod Admission
pub mod Manager
pub mod Promises
pub mod Pool
pub mod Workflow
pub mod Quarantine
pub mod Examples
