-- ===== src/Lib.antt =====
-- The operating-system simulator "so-tp": the memory module, the CPU module, the file system, parts
-- of the kernel, and the payloads in which the modules exchange values.
--
-- The repository has four programs that talk over sockets, kernel, cpu, memoria and filesystem,
-- and the library utils that they share. The CPU asks the memory module for the context of a
-- thread, for its instructions and for bytes of the user space; the kernel asks it to create and
-- destroy processes and threads, and the memory module has the file system store the dumps of the
-- memory of a process. Every message is a payload that one side fills with serializers
-- and the other side empties with deserializers.
--
-- Files and what they model:
--
-- - Payload: src/utils/src/utils/payload.c. Payload/Defs has payload_init, payload_destroy,
--   payload_add, payload_remove, payload_write, payload_read and payload_seek, each a function
--   from the payload to a result or an errno and the payload as it leaves it. Payload/Cursor,
--   Payload/Overwrite, Payload/Seek and Payload/Frame have what is proved of them.
-- - Serialize: src/utils/src/utils/serialize/. Serialize/Scalars (size.c, result.c, cpu_opcode.c,
--   eviction_reason.c, kernel_interrupt.c), Serialize/Blocks (data.c, text.c, subpayload.c,
--   list.c), Serialize/Context (exec_context.c). Serialize/Transfer, Serialize/RoundTrip and
--   Serialize/BlockTrip have the round trips.
-- - Memory: src/memoria/src/. Memory/Types has the globals of memoria.c as a record;
--   Memory/Partitions allocate_partition, split_partition and verify_and_join_splited_partitions
--   of client_kernel.c; Memory/Processes the handlers attend_process_create (process_create),
--   attend_process_destroy, attend_thread_create and attend_thread_destroy on the fields of their
--   payloads; Memory/Requests the sequence of requests of listen_kernel; Memory/UserSpace the
--   handlers of client_cpu.c; Memory/Boot the table that read_module_config of memoria.c makes;
--   Memory/Dumping attend_dump_memory.
--   Memory/Search, Memory/Shapes and Memory/Joining say what an allocation and a joining do to the
--   table; Memory/Layout, Memory/Separation, Memory/Tenants, Memory/Leaving, Memory/Registry,
--   Memory/Invariant and Memory/Changes build the invariant; Memory/Service, Memory/Handling,
--   Memory/Start and Memory/Reachable carry it through the requests; Memory/Threads is about
--   threads created in order; Memory/Places has lemmas on
--   places in lists; Memory/Disjoint, Memory/Isolation and Memory/Confined are about the user
--   space.
-- - Cpu: src/cpu/src/. Cpu/Registers (registers.c), Cpu/Mmu (mmu of cpu.c), Cpu/State (the globals
--   of cpu.c), Cpu/Instructions and Cpu/Syscalls (opcodes.c), Cpu/Cycle (one turn of
--   instruction_cycle of cpu.c, with arguments_use of src/utils/src/utils/arguments.c).
--   Cpu/Confinement and Cpu/Interrupts have the proofs.
-- - Filesystem: src/filesystem/src/filesystem.c. Filesystem/Bitmap has check_bitmap_free_blocks
--   and set_bits_bitmap, over a bit array that is a parameter; Filesystem/Dump bitmap_init and
--   filesystem_client_handler_for_memory (dump_memory) with create_metadata_file. Allocation and
--   Counting are about the bitmap, Storage and Reading about the block file, Placing and Service
--   about one request, Keeping about files that stay, and Archive about a sequence of requests
--   (serve_dumps). A metadata file that is written replaces the one of its name.
-- - Kernel: src/kernel/src/. Kernel/Types has the structures of kernel.h and resources.h and the
--   globals of scheduler.c as a record; Kernel/Transitions the ready queues and the get_state_ and
--   insert_state_ functions of transitions.c; Kernel/Syscalls the calls on mutexes, joins and the
--   device of syscalls.c; Kernel/Exit resources_unassign of resources.c, join_threads and the end of
--   a thread; Kernel/Scheduler the turn of short_term_scheduler of scheduler.c; Kernel/Identifiers
--   the managers of ids of kernel.c. Kernel/Ownership, Kernel/Mutexes and Kernel/Unlocking are about
--   who holds a mutex, Kernel/Steps about the steps of the scheduler in any order, Kernel/Queues
--   about the order of threads, Kernel/Priorities about the queues of new priorities and the creation
--   of threads (kernel.c), Kernel/Unassigning about the mutexes of a thread that ends.
-- - Messages: src/utils/src/utils/. Messages/Packages has package_send and package_receive of
--   package.c, Messages/Sending the send and receive functions of send.c, Messages/Delivery what
--   becomes of a package on a socket, Messages/Trips a dump from the memory module to the file
--   system, Messages/Dumping the request of the kernel that asks for it.
-- - Prelude: names, Boolean tests, lists over the native numbers, byte buffers, integers.
-- - Payload/Tests, Serialize/Tests, Memory/Tests, Memory/Scenes, Cpu/Tests,
--   Filesystem/Tests, Kernel/Tests and Messages/Tests run the definitions on concrete states.
--
-- Numbers are native natural numbers; fixed-width arithmetic of the source is written with its
-- remainder (uint32_t, size_t), and errors as values. Loops are recursion on the list they run
-- over, or on the bits that are left, so that no fuel is needed. The counts of the two arrays of
-- processes and threads have 16 bits: the lists are cut to the wrapped count.
--
-- Parameters, for code that is not in the repository: realloc (it may fail; where a result relies
-- on it, the new block has the size asked for and keeps the old bytes), malloc for the
-- destination of a deserializer (it says whether it grants a block), string_from_format and
-- temporal_get_string_time (NULL or a text), strtoul (the value and the rest of the text),
-- isspace, send (how many bytes it takes, or -1), recv (how many of the bytes under way it hands
-- over), pthread_rwlock_destroy (its result, at the end of a process in the memory module), and
-- whether the calls of create_metadata_file to fopen, config_create, config_save and
-- string_from_format come through. The lists of the commons library are lists and its
-- dictionaries functions from their keys; its bit array is a parameter (setting a bit sets that
-- one and no other), and so is the order in which a dictionary is walked.
--
-- Not modelled: sockets, logging, the locks and failures of their calls (each request to the
-- memory module is one step), failing allocations inside the memory module, the response delay,
-- the reading of the pseudocode file (the lines of a thread are given to thread_create), the
-- loops that receive the requests. What a send that fails or falls short left on the socket is
-- not kept. In the file system: the configuration, the directories, the mapping of the two files
-- and its synchronisation, the delay of an access, and requests of two clients at once, whose
-- block accesses the code does not guard by a lock. In the kernel: the location of a thread and
-- with it kill_thread, the creation and the end of processes, failing allocations, the long term
-- scheduler, the device and the dump of the memory, the quantum, and the semaphores.
pub mod Prelude
pub mod Payload
pub mod Serialize
pub mod Memory
pub mod Cpu
pub mod Filesystem
pub mod Kernel
pub mod Messages
