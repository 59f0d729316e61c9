-- ===== src/Memory/Threads.antt =====
-- Threads that the kernel creates one after another.
use so_tp_2024_2c_the_last_o.Prelude.{
  ℕ, suc, ◌%◌, ◌^◌, ◌<◌, take, length-append, ◌≡◌, refl, ap, ◌∙◌, true, none, some, List, [], ◌∷◌,
  ◌++◌, arith, leb, length, set, if◌then◌else◌,
}
use so_tp_2024_2c_the_last_o.Prelude.Buffer.{take-all}
use so_tp_2024_2c_the_last_o.Memory.Types.{Slot, uninit, live, MemoryThread, MemoryProcess, Memory}
use so_tp_2024_2c_the_last_o.Memory.Processes.{
  replies, undefined, success, lookup_process, lookup_slot, memory_thread_create, set_process,
  create_in_slot, thread_create,
}
use so_tp_2024_2c_the_last_o.Memory.Handling.{create_found}

lookup_slot-length : (slots : List Slot) → lookup_slot (length slots) slots ≡ none
unfolding lookup_slot
lookup_slot-length [] = refl
lookup_slot-length (s ∷ slots) = lookup_slot-length slots

set-last :
    (slots : List Slot) (s t : Slot) → set (slots ++ (s ∷ [])) (length slots) t ≡ slots ++ (t ∷ [])
set-last [] s t = refl
set-last (x ∷ slots) s t = ap (◌∷◌ x) (set-last slots s t)

leb_refl : (n : ℕ) → leb n n ≡ true
leb_refl n = ground arith

-- For a live process with fewer than 65535 entries in its array of threads, THREAD_CREATE of a
-- program with at least one instruction and with the tid that is the number of those entries
-- succeeds and adds the thread, with its registers at zero, as the last entry; all the rest stays.
pub thread_create-append :
    (pid : ℕ) (i : List ℕ) (is : List (List ℕ)) (m : Memory) (q : MemoryProcess)
    → lookup_process pid m.processes ≡ some q
    → length q.threads < 65535
    → thread_create pid (length q.threads) (i ∷ is) m
      ≡ replies success (
          set_process pid
            (record q {
              threads = q.threads ++ (live (memory_thread_create (length q.threads) (i ∷ is)) ∷ []);
            })
            m)
thread_create-append pid i is m q e few =
    let n : ℕ = length q.threads in
    let thread : MemoryThread = memory_thread_create n (i ∷ is) in
    create_found pid n i is m (some q) e
    ∙ ap (create_in_slot pid thread m q) (lookup_slot-length q.threads)
    ∙ ap
        (λ b.
          if b
          then replies success (
              set_process pid
                (record q {
                  threads =
                      take (suc n % 2 ^ 16) (set (q.threads ++ (uninit ∷ [])) n (live thread));
                })
                m)
          else undefined)
        (leb_refl n)
    ∙ ap (λ k. replies success (set_process pid (record q { threads = k }) m))
        (ap (take (suc n % 2 ^ 16)) (set-last q.threads uninit (live thread))
          ∙ take-all (q.threads ++ (live thread ∷ [])) (suc n % 2 ^ 16)
              (omega (arith, few, length-append q.threads (live thread ∷ []))))
