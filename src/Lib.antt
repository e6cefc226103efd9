-- ===== src/Lib.antt =====
-- Gemini shares a GPU among clients. The scheduler (src/scheduler.cpp) gives the token to one client
-- at a time; the pod manager (src/pod-manager.cpp) forwards the requests of the applications of a
-- client; the hook library (src/hook.cpp) intercepts their CUDA calls and predicts their kernel
-- bursts (src/predictor.cpp).
--
-- - Predictor: src/predictor.h and src/predictor.cpp. `RecordKeeper` and `Predictor` are records and
--   each method is a function; a method that reads the steady clock takes the reading. Time points are
--   64-bit nanoseconds with the sentinels of the source, and differences wrap. Theorems speak of
--   readings from 0 to 2 ^ 63 - 2.
-- - Scheduler: src/scheduler.h, src/scheduler.cpp and src/schd-priority.cpp. `Scheduler` holds the
--   globals; a round of `select_candidate` is `select_round`, its loop runs over the wake-ups of the
--   condition variable, each with the messages handled meanwhile; a pass of `schedule_daemon_func` is
--   `schedule_pass`. No fuel is needed: loops recur on lists. `Usage` is the sweep over the timestamps,
--   `Daemon` (in Loop) the whole loop as a relation: any number of passes, each with the wake-ups it
--   uses, and the messages between them. `Config` is about reading the resource file,
--   `Exclusion` about the holder of the token, `Wire` is `handle_message` on the bytes of a request.
--   `Monitor` is `monitor_file` on the events of inotify, with fuel one above the number of bytes read: each
--   event takes 16 bytes at least. `Options` is the command line, with `strtoul` and `atof` as parameters, and
--   `FilePath` the path of the resource file. `ResourceFile` is what `read_resource_config` takes from the text of
--   the file, with the standard library's reading of a `double` as a parameter, and `ResourceText` such a text as it
--   is written. `Session` is `pod_client_func` on the bytes of a connection, and
--   `Start` is `main` from the resource file to the connections that it accepts.
-- - Comm: src/comm.h and src/comm.cpp. A buffer is a list of bytes, `memcpy` past its end gives `none`,
--   integers are little-endian. `Receive` adds the reads that the receivers make,
--   `Attempts` is `multiple_attempt`, `FiveAttempts` what five calls return.
-- - PodManager: the memory accounting of src/pod-manager.cpp, `size_t` arithmetic modulo 2 ^ 64. `Quota`
--   is `hook_kernel_launch` with the two threads to the scheduler: a step relation, a critical section a
--   step, over any number of hook threads; a request id stays below 2 ^ 31, as `int` demands. `Server` is
--   `hook_thread_func` on the bytes of a request, `Wire` and `Service` the exchange with the hook library,
--   `Session` its loop over a connection from `accept` to `close`, `Recovery` what is left of a connection, `Startup`
--   `retrieve_mem_info` with the scheduler at the other end, `Launch` is `main` up to where it serves, and `Accepting` its loop that accepts.
-- - Hook: the interception of `cuMemAlloc` and `cuMemFree` in src/hook.cpp, for one process and device,
--   with the Pod manager at the other end; what the driver answers is an argument. `Shared` and
--   `Interleaved` are several processes at one Pod manager, hook by hook. The launch hook with
--   the predictors it asks, and the tracking thread as far as a launch waits for it. `Symbols` is `dlsym`
--   and the tables of hooks, `Arrays` the other allocation functions and the queries of the memory,
--   `Connection` reads the addresses from the environment; `strtok` and `atoi` of C are written out.
--   `Communicate` is `communicate` with what the network does to each attempt as an argument, and `Wire` the
--   requests of the hook library from end to end, on bytes; `Token` is `get_token_from_scheduler`; `Tracker` is
--   `wait_cuda_kernels` against the thread that launches, a critical section a step; spurious wake-ups are steps
--   of their own, which a theorem allows or rules out.
-- - Limits: the three programs together, from the text of the resource file to the hooks of the processes.
-- - Double: `double` is a parameter, with the facts about comparison and sign that hold of doubles
--   other than NaN, and in one theorem that the conversion of integers keeps the order; `Fixed` is a stand-in that computes. Rounding is not modelled.
-- - Deadline: `get_timespec_after` of src/scheduler.cpp and the like in src/hook.cpp; the conversions of C are a parameter.
-- - Sort: `std::sort` is a parameter with what the standard says of it where the comparison is a strict weak order on
--   what is sorted; else it is undefined, and a round of `select_candidate` that comes there is a fault.
-- - Prelude: shared helpers.
--
-- Not modelled: the contexts of the driver, and the end of a process among others that share a Pod manager.
--
-- Not modelled either: sockets, threads' creation, signal handlers, logging (src/debug.cpp) and the
-- Python launchers, which only do input and output; CUDA itself.
pub mod Prelude
pub mod Double
pub mod Counts
pub mod Sort
pub mod Comm
pub mod Predictor
pub mod Scheduler
pub mod PodManager
pub mod Hook
pub mod Tests
pub mod Deadline
pub mod Limits
