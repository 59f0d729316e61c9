-- ===== src/Messages/Sending.antt =====
-- The messages of src/utils/src/utils/send.c: what each send function puts into the package and what
-- the receive function takes out. t_PID and t_TID have two bytes, t_PC four.
use so_tp_2024_2c_the_last_o.Prelude.{ℕ, Bool, Option, List}
use so_tp_2024_2c_the_last_o.Prelude.Int.{ℤ}
use so_tp_2024_2c_the_last_o.Payload.Defs.{Payload, M, Realloc, ◌>>=◌, ◌>>◌, pure}
use so_tp_2024_2c_the_last_o.Serialize.Scalars.{
  EvictionReason, KernelInterrupt, add_word, remove_word, size_serialize, result_serialize,
  result_deserialize, eviction_reason_serialize, eviction_reason_deserialize,
  kernel_interrupt_serialize, kernel_interrupt_deserialize,
}
use so_tp_2024_2c_the_last_o.Serialize.Context.{
  ExecContext, exec_context_serialize, exec_context_deserialize,
}
use so_tp_2024_2c_the_last_o.Serialize.Blocks.{
  data_serialize, data_deserialize, text_serialize, text_deserialize, subpayload_serialize,
  subpayload_deserialize,
}
use so_tp_2024_2c_the_last_o.Messages.Packages.{
  Header, thread_eviction_header, kernel_interrupt_header, process_create_header,
  process_destroy_header, thread_create_header, thread_destroy_header, exec_context_request_header,
  exec_context_update_header, instruction_request_header, read_request_header, write_request_header,
  dump_memory_header, Send, send_with, Recv, receive_with,
}

module _ (realloc : Realloc) (malloc : ℕ → Bool) where
  abbrev pub pid_and_tid : ℕ → ℕ → M (Unit {0})
  pid_and_tid pid tid = add_word realloc 2 pid >> add_word realloc 2 tid

  module _ (send : Send) where
    abbrev pub send_header : Header → Option (List ℕ)
    send_header header = send_with realloc send header (pure tt)

    abbrev pub send_data_with_header : Header → Option (List ℕ) → ℕ → Option (List ℕ)
    send_data_with_header header block bytes =
        send_with realloc send header (data_serialize realloc malloc block bytes)

    abbrev pub send_text_with_header : Header → Option (List ℕ) → Option (List ℕ)
    send_text_with_header header text =
        send_with realloc send header (text_serialize realloc malloc text)

    abbrev pub send_result_with_header : Header → ℤ → Option (List ℕ)
    send_result_with_header header result =
        send_with realloc send header (result_serialize realloc result)

    abbrev pub send_pid_and_tid_with_header : Header → ℕ → ℕ → Option (List ℕ)
    send_pid_and_tid_with_header header pid tid =
        send_with realloc send header (pid_and_tid pid tid)

    abbrev pub send_process_create : ℕ → ℕ → Option (List ℕ)
    send_process_create pid size =
        send_with realloc send process_create_header
          (add_word realloc 2 pid >> size_serialize realloc size)

    abbrev pub send_process_destroy : ℕ → Option (List ℕ)
    send_process_destroy pid =
        send_with realloc send process_destroy_header (add_word realloc 2 pid)

    abbrev pub send_thread_create : ℕ → ℕ → Option (List ℕ) → Option (List ℕ)
    send_thread_create pid tid path =
        send_with realloc send thread_create_header
          (pid_and_tid pid tid >> text_serialize realloc malloc path)

    abbrev pub send_thread_destroy : ℕ → ℕ → Option (List ℕ)
    send_thread_destroy pid tid = send_with realloc send thread_destroy_header (pid_and_tid pid tid)

    abbrev pub send_thread_eviction : EvictionReason → Payload → Option (List ℕ)
    send_thread_eviction reason instruction = send_with realloc send thread_eviction_header (
        eviction_reason_serialize realloc reason >> subpayload_serialize realloc malloc instruction)

    abbrev pub send_kernel_interrupt : KernelInterrupt → ℕ → ℕ → Option (List ℕ)
    send_kernel_interrupt interrupt pid tid =
        send_with realloc send kernel_interrupt_header
          (kernel_interrupt_serialize realloc interrupt >> pid_and_tid pid tid)

    abbrev pub send_exec_context : ExecContext → Option (List ℕ)
    send_exec_context context =
        send_with realloc send exec_context_request_header (exec_context_serialize realloc context)

    abbrev pub send_instruction_request : ℕ → ℕ → ℕ → Option (List ℕ)
    send_instruction_request pid tid pc =
        send_with realloc send instruction_request_header
          (pid_and_tid pid tid >> add_word realloc 4 pc)

    abbrev pub send_write_request : ℕ → ℕ → ℕ → Option (List ℕ) → ℕ → Option (List ℕ)
    send_write_request pid tid address block bytes = send_with realloc send write_request_header (
        pid_and_tid pid tid
        >> size_serialize realloc address
        >> data_serialize realloc malloc block bytes)

    abbrev pub send_read_request : ℕ → ℕ → ℕ → ℕ → Option (List ℕ)
    send_read_request pid tid address bytes =
        send_with realloc send read_request_header
          (pid_and_tid pid tid >> size_serialize realloc address >> size_serialize realloc bytes)

    abbrev pub send_exec_context_update : ℕ → ℕ → ExecContext → Option (List ℕ)
    send_exec_context_update pid tid context =
        send_with realloc send exec_context_update_header
          (pid_and_tid pid tid >> exec_context_serialize realloc context)

    abbrev pub send_dump_memory : Option (List ℕ) → Option (List ℕ) → ℕ → Option (List ℕ)
    send_dump_memory filename dump bytes =
        send_with realloc send dump_memory_header
          (text_serialize realloc malloc filename >> data_serialize realloc malloc dump bytes)

  module _ (recv : Recv) where
    abbrev pub receive_expected_header : Header → List ℕ → Option (Unit {0} × List ℕ)
    receive_expected_header header = receive_with recv malloc header (pure tt)

    abbrev pub receive_data_with_expected_header :
        Header → List ℕ → Option (Option (List ℕ) × List ℕ)
    receive_data_with_expected_header header =
        receive_with recv malloc header (data_deserialize realloc malloc)

    abbrev pub receive_text_with_expected_header :
        Header → List ℕ → Option (Option (List ℕ) × List ℕ)
    receive_text_with_expected_header header =
        receive_with recv malloc header (text_deserialize realloc malloc)

    abbrev pub receive_result_with_expected_header : Header → List ℕ → Option (ℤ × List ℕ)
    receive_result_with_expected_header header =
        receive_with recv malloc header (result_deserialize realloc)

    abbrev pub read_pid_and_tid : M (ℕ × ℕ)
    read_pid_and_tid = do pid ← remove_word realloc 2; tid ← remove_word realloc 2; pure (pid, tid)

    abbrev pub receive_pid_and_tid_with_expected_header :
        Header → List ℕ → Option ((ℕ × ℕ) × List ℕ)
    receive_pid_and_tid_with_expected_header header =
        receive_with recv malloc header read_pid_and_tid

    abbrev pub read_eviction : Payload → M (ℤ × Payload)
    read_eviction destination = do
      reason ← eviction_reason_deserialize realloc
      instruction ← subpayload_deserialize realloc malloc destination
      pure (reason, instruction)

    abbrev pub receive_thread_eviction : Payload → List ℕ → Option ((ℤ × Payload) × List ℕ)
    receive_thread_eviction destination =
        receive_with recv malloc thread_eviction_header (read_eviction destination)

    abbrev pub read_interrupt : M (ℤ × (ℕ × ℕ))
    read_interrupt = do
      interrupt ← kernel_interrupt_deserialize realloc
      ids ← read_pid_and_tid
      pure (interrupt, ids)

    abbrev pub receive_kernel_interrupt : List ℕ → Option ((ℤ × (ℕ × ℕ)) × List ℕ)
    receive_kernel_interrupt = receive_with recv malloc kernel_interrupt_header read_interrupt

    abbrev pub receive_exec_context : List ℕ → Option (ExecContext × List ℕ)
    receive_exec_context =
        receive_with recv malloc exec_context_request_header (exec_context_deserialize realloc)

    abbrev pub read_dump : M (Option (List ℕ) × Option (List ℕ))
    read_dump = do
      filename ← text_deserialize realloc malloc
      dump ← data_deserialize realloc malloc
      pure (filename, dump)

    abbrev pub receive_dump_memory : List ℕ → Option ((Option (List ℕ) × Option (List ℕ)) × List ℕ)
    receive_dump_memory = receive_with recv malloc dump_memory_header read_dump
