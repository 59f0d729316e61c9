-- ===== src/Messages/Tests.antt =====
-- The theorems on the messages at concrete inputs.
use so_tp_2024_2c_the_last_o.Prelude.{
  ℕ, suc, ◌≤◌, ◌≡◌, ◌≢◌, refl, Bool, true, Option, some, List, [], ◌∷◌, arith, length,
}
use so_tp_2024_2c_the_last_o.Payload.Tests.{ample, ample-Reallocs, ample-Grants}
use so_tp_2024_2c_the_last_o.Serialize.Bytes.{to_bytes}
use so_tp_2024_2c_the_last_o.Serialize.Blocks.{text_serialize, text_deserialize}
use so_tp_2024_2c_the_last_o.Serialize.BlockTrip.{block_bytes, terminated, text-Writes, text-Reads}
use so_tp_2024_2c_the_last_o.Messages.Packages.{thread_create_header, send_with, receive_with}
use so_tp_2024_2c_the_last_o.Messages.Trips.{Delivered, Archived, NoNul, package-Delivered}
use so_tp_2024_2c_the_last_o.Prelude.Int.{pos}
use so_tp_2024_2c_the_last_o.Messages.Dumping.{file_system, attend_dump_memory-Archived}
use so_tp_2024_2c_the_last_o.Memory.Partitions.{find}
use so_tp_2024_2c_the_last_o.Memory.Processes.{replies}
use so_tp_2024_2c_the_last_o.Memory.Boot.{zeros}
use so_tp_2024_2c_the_last_o.Memory.Dumping.{dump_name, process_bytes, attend_dump_memory}
use so_tp_2024_2c_the_last_o.Memory.Tests.{
  live_memory, live_memory-Valid, live_process, live_thread,
}
use so_tp_2024_2c_the_last_o.Memory.Scenes.{live_access, memory_length}
use so_tp_2024_2c_the_last_o.Filesystem.Placing.{Room}
use so_tp_2024_2c_the_last_o.Filesystem.Tests.{
  bit_functions, started, core_txt, all_through, all_through-Complete, started-Valid, started-Room,
}

abbrev plenty : ℕ → Bool
plenty n = true

has_memory : (n : ℕ) → plenty n ≡ true
has_memory n = refl

-- A socket that hands over what is asked for.
abbrev whole : ℕ → List ℕ → ℕ
whole n wire = n

whole-Delivers : (n : ℕ) (wire : List ℕ) → n ≤ length wire → whole n wire ≡ n
whole-Delivers n wire h = refl

-- A socket that takes all the bytes.
abbrev takes_all : List ℕ → Option ℕ
takes_all wire = some (length wire)

takes_all-SendsAll : (wire : List ℕ) → takes_all wire ≡ some (length wire)
takes_all-SendsAll wire = refl

package_example :
    Delivered
      (send_with ample takes_all thread_create_header (text_serialize ample plenty (some core_txt)))
      (receive_with whole plenty thread_create_header (text_deserialize ample plenty))
      (some (terminated core_txt))
unfolding to_bytes
package_example =
    package-Delivered ample ample-Reallocs ample-Grants takes_all takes_all-SendsAll whole plenty
      whole-Delivers has_memory thread_create_header (text_serialize ample plenty (some core_txt))
      (text_deserialize ample plenty) (block_bytes (terminated core_txt))
      (some (terminated core_txt))
      (text-Writes ample plenty ample-Reallocs ample-Grants has_memory core_txt (omega arith))
      (text-Reads ample plenty ample-Reallocs ample-Grants has_memory core_txt (omega arith))
      (omega arith)

-- "0-0-" and "12"
abbrev ids : List ℕ
ids = 48 ∷ (45 ∷ (48 ∷ (45 ∷ [])))

abbrev time : List ℕ
time = 49 ∷ (50 ∷ [])

not_nul : (c : ℕ) → suc c ≢ 0
not_nul c e = absurd (omega (arith, e))

name-NoNul : NoNul (dump_name ids time)
name-NoNul = (
  not_nul 47,
  (
    not_nul 44,
    (
      not_nul 47,
      (
        not_nul 44,
        (not_nul 48, (not_nul 49, (not_nul 45, (not_nul 99, (not_nul 108, (not_nul 111, tt)))))),
      ),
    ),
  ),
)

live-Room : Room 32 6 (bit_functions 8) (process_bytes live_memory live_process) started
unfolding find zeros
live-Room = (omega arith, omega (arith, started-Room.1))

attend_dump_memory_example :
    (attend_dump_memory
        (some ids)
        (some time)
        (file_system 32 6
          (bit_functions 8)
          ample
          ample-Reallocs
          ample-Grants
          takes_all
          takes_all-SendsAll
          whole
          plenty
          whole-Delivers
          has_memory
          all_through
          started)
        0
        0
        live_memory
      ≡ replies (pos 0) live_memory)
    × Archived 32 6
        (bit_functions 8)
        ample
        ample-Reallocs
        ample-Grants
        takes_all
        takes_all-SendsAll
        whole
        plenty
        whole-Delivers
        has_memory
        all_through
        (dump_name ids time)
        (process_bytes live_memory live_process)
        started
attend_dump_memory_example =
    attend_dump_memory-Archived 32 6 (bit_functions 8) ample ample-Reallocs ample-Grants takes_all
      takes_all-SendsAll whole plenty whole-Delivers has_memory 32 0 0 ids time live_memory
      live_process live_thread all_through started all_through-Complete live_memory-Valid
      memory_length live_access name-NoNul (omega arith) (omega arith) (omega arith) (omega arith)
      started-Valid live-Room (λ h. absurd (omega (arith, h)))
