-- ===== src/Payload/Tests.antt =====
-- The theorems on payloads at concrete inputs, with an allocator that always has memory.
use so_tp_2024_2c_the_last_o.Prelude.{
  ℕ, zero, suc, ◌≤◌, ◌≡◌, refl, sym, ap, ◌∙◌, true, some, List, [], ◌∷◌, arith, length, take,
}
use so_tp_2024_2c_the_last_o.Prelude.Int.{pos}
use so_tp_2024_2c_the_last_o.Payload.Defs.{
  Realloc, ok, payload_init, payload_add, payload_remove, payload_write, payload_read, seek_cur,
}
use so_tp_2024_2c_the_last_o.Payload.Cursor.{
  Reallocs, Grants, cursor, payload_add-cursor, payload_remove-cursor,
}
use so_tp_2024_2c_the_last_o.Payload.Overwrite.{
  payload_write_inside, payload_write_past, payload_read-cursor,
}
use so_tp_2024_2c_the_last_o.Payload.Seek.{Seeks, payload_seek_lem}
use so_tp_2024_2c_the_last_o.Payload.Frame.{IsValid, add, remove, seek, run, run-IsValid}

-- The first `n` bytes, with zeros behind them where there are too few.
abbrev resized : List ℕ → ℕ → List ℕ
resized xs zero = []
resized [] (suc n) = 0 ∷ resized [] n
resized (x ∷ xs) (suc n) = x ∷ resized xs n

abbrev pub ample : Realloc
ample xs n = some (resized xs n)

length-resized : (xs : List ℕ) (n : ℕ) → length (resized xs n) ≡ n
length-resized xs zero = refl
length-resized [] (suc n) = ap suc (length-resized [] n)
length-resized (x ∷ xs) (suc n) = ap suc (length-resized xs n)

take-resized : (xs : List ℕ) (n k : ℕ) → k ≤ n → k ≤ length xs → take k (resized xs n) ≡ take k xs
take-resized xs n zero h l = refl
take-resized xs zero (suc k) h l = absurd (omega arith)
take-resized [] (suc n) (suc k) h l = absurd (omega arith)
take-resized (x ∷ xs) (suc n) (suc k) h l =
    ap (◌∷◌ x) (take-resized xs n k (omega arith) (omega arith))

pub ample-Reallocs : Reallocs ample
ample-Reallocs = record {
  sized = λ xs ys n e. ap length (sym (same e)) ∙ length-resized xs n;
  kept = λ xs ys n k e h l. ap (take k) (sym (same e)) ∙ take-resized xs n k h l;
}
  where
    same : {xs ys : List ℕ} → some xs ≡ some ys → xs ≡ ys
    same e = ground (arith, e)

pub ample-Grants : Grants ample
ample-Grants = λ xs n. (resized xs n, refl)

payload_add_example :
    payload_add ample (some (7 ∷ (8 ∷ []))) 2 (cursor (1 ∷ []) (2 ∷ []))
    ≡ (ok tt, cursor (1 ∷ (7 ∷ (8 ∷ []))) (2 ∷ []))
payload_add_example =
    payload_add-cursor ample ample-Reallocs (1 ∷ []) (2 ∷ []) (7 ∷ (8 ∷ []))
      (1 ∷ (2 ∷ (0 ∷ (0 ∷ [])))) (omega arith) refl

payload_remove_example :
    payload_remove ample 2 (cursor (1 ∷ []) (7 ∷ (8 ∷ (2 ∷ []))))
    ≡ (ok (7 ∷ (8 ∷ [])), cursor (1 ∷ []) (2 ∷ []))
payload_remove_example =
    payload_remove-cursor ample ample-Reallocs (1 ∷ []) (7 ∷ (8 ∷ [])) (2 ∷ [])
      (λ xs. ample-Grants xs 2) (omega arith)

payload_write_inside_example :
    payload_write ample (some (7 ∷ [])) 1 (cursor (1 ∷ []) (5 ∷ (2 ∷ [])))
    ≡ (ok tt, cursor (1 ∷ (7 ∷ [])) (2 ∷ []))
payload_write_inside_example =
    payload_write_inside ample (1 ∷ []) (5 ∷ []) (2 ∷ []) (7 ∷ []) refl (omega arith)

payload_write_past_example :
    payload_write ample (some (7 ∷ (8 ∷ []))) 2 (cursor (1 ∷ []) (5 ∷ []))
    ≡ (ok tt, cursor (1 ∷ (7 ∷ (8 ∷ []))) [])
payload_write_past_example =
    payload_write_past ample ample-Reallocs (1 ∷ []) (5 ∷ []) (7 ∷ (8 ∷ [])) (1 ∷ (5 ∷ (0 ∷ [])))
      (omega arith) (omega arith) refl

payload_read_example :
    payload_read true 1 (cursor (1 ∷ []) (7 ∷ (2 ∷ [])))
    ≡ (ok (7 ∷ []), cursor (1 ∷ (7 ∷ [])) (2 ∷ []))
payload_read_example = payload_read-cursor (1 ∷ []) (7 ∷ []) (2 ∷ []) (omega arith)

payload_seek_example : Seeks (pos 1) seek_cur (cursor (1 ∷ []) (7 ∷ []))
payload_seek_example =
    payload_seek_lem (pos 1) seek_cur (cursor (1 ∷ []) (7 ∷ [])) (λ e. absurd (ground (arith, e)))
      (omega arith) (omega arith)

run_example : IsValid (
    run ample
      (add (some (7 ∷ (8 ∷ []))) 2 ∷ (seek (pos 0) seek_cur ∷ (remove 1 ∷ [])))
      payload_init)
run_example =
    run-IsValid ample ample-Reallocs
      (add (some (7 ∷ (8 ∷ []))) 2 ∷ (seek (pos 0) seek_cur ∷ (remove 1 ∷ [])))
