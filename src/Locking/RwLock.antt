-- ===== src/Locking/RwLock.antt =====
-- kernel/src/locking/rwlock.rs: the reader-writer lock, whose word has the readers in its low 32 bits
-- and the writers above. A thread's place in `lock_read`, `lock_write` and their guards is a `Pc`; each
-- step is one access to the word. `fetch_update` is one such access.
use svsm.Base.{ℕ, ◌+◌, ◌*◌, ◌-◌, ◌/◌, ◌%◌, ◌^◌, ◌<◌, ◌≡◌, bit_and, bit_or, ◌==◌, if◌then◌else◌}
use svsm.Locking.Threads.{place}

abbrev pub rw_bits : ℕ
rw_bits = 32

abbrev pub rw_mask : ℕ
rw_mask = 2 ^ rw_bits - 1

unfoldable pub split_val : ℕ → ℕ × ℕ
split_val val = (bit_and val rw_mask, val / 2 ^ rw_bits)

unfoldable pub compose_val : ℕ → ℕ → ℕ
compose_val readers writers = bit_or (bit_and readers 0xffffffff) (writers * 2 ^ 32 % 2 ^ 64)

-- `read_swap` and `write_swap`: about to exchange the word that was loaded; `draining`: the word says
-- that there is a writer, and `lock_write` waits for the readers; `panicked`: its assertion failed.
pub data Pc : Type 0 where
  idle : Pc
  read_wait : Pc
  read_swap : (val : ℕ) → Pc
  reading : Pc
  write_wait : Pc
  write_swap : (val : ℕ) → Pc
  draining : Pc
  writing : Pc
  panicked : Pc

pub data Call : Type 0 where
  call_lock_read : Call
  call_try_lock_read : Call
  call_lock_write : Call
  call_try_lock_write : Call

unfoldable pub wait_for_writers : ℕ → (ℕ → Pc) → Pc → ℕ × Pc
wait_for_writers word found again =
    if (split_val word).1 == 0 then (word, found word) else (word, again)

unfoldable pub compare_exchange : ℕ → ℕ → ℕ → Pc → Pc → ℕ × Pc
compare_exchange word old new swapped again = if word == old then (new, swapped) else (word, again)

-- `lock_read` after `wait_for_writers`
unfoldable pub swap_reader : ℕ → ℕ → ℕ × Pc
swap_reader word val =
    compare_exchange word val (compose_val ((split_val val).0 + 1) 0) reading read_wait

-- `lock_write` after `wait_for_writers`
unfoldable pub swap_writer : ℕ → ℕ → ℕ × Pc
swap_writer word val =
    compare_exchange word val (compose_val (split_val val).0 1) draining write_wait

-- `wait_for_readers` and the assertion
unfoldable pub wait_for_readers : ℕ → ℕ × Pc
wait_for_readers word =
    if (split_val word).0 == 0
    then (if word == compose_val 0 1 then (word, writing) else (word, panicked))
    else (word, draining)

unfoldable pub try_lock_read : ℕ → ℕ × Pc
try_lock_read word =
    if (split_val word).1 == 0
    then (compose_val ((split_val word).0 + 1) 0, reading)
    else (word, idle)

unfoldable pub try_lock_write : ℕ → ℕ × Pc
try_lock_write word = compare_exchange word (compose_val 0 0) (compose_val 0 1) writing idle

-- `fetch_add` and `fetch_sub` wrap.
unfoldable pub drop_read : ℕ → ℕ × Pc
drop_read word = ((word + 2 ^ 64 - compose_val 1 0) % 2 ^ 64, idle)

unfoldable pub drop_write : ℕ → ℕ × Pc
drop_write word = ((word + 2 ^ 64 - compose_val 0 1) % 2 ^ 64, idle)

unfoldable pub enter : Call → ℕ → ℕ × Pc
enter call_lock_read word = (word, read_wait)
enter call_try_lock_read word = try_lock_read word
enter call_lock_write word = (word, write_wait)
enter call_try_lock_write word = try_lock_write word

unfoldable pub step : Pc → Call → ℕ → ℕ × Pc
step idle call word = enter call word
step read_wait call word = wait_for_writers word read_swap read_wait
step (read_swap val) call word = swap_reader word val
step reading call word = drop_read word
step write_wait call word = wait_for_writers word write_swap write_wait
step (write_swap val) call word = swap_writer word val
step draining call word = wait_for_readers word
step writing call word = drop_write word
step panicked call word = (word, panicked)

pub record System : Type 0 where
  pub word : ℕ
  pub pc : ℕ → Pc

unfoldable pub advance : ℕ → Call → System → System
advance i call s =
    let out = step (s.pc i) call s.word in record { word = out.0; pc = place s.pc i out.1 }

-- `map_split`: the second guard is that of thread `j`.
unfoldable pub split_read : ℕ → System → System
split_read j s = record { word = (s.word + compose_val 1 0) % 2 ^ 64; pc = place s.pc j reading }

unfoldable pub split_write : ℕ → System → System
split_write j s = record { word = (s.word + compose_val 0 1) % 2 ^ 64; pc = place s.pc j writing }

-- The systems that steps of the first `n` threads lead to.
pub data Reach (n : ℕ) : System → Type 0 where
  start : Reach n (record { word = 0; pc = λ i. idle })
  next : (s : System) (i : ℕ) (call : Call) → i < n → Reach n s → Reach n (advance i call s)
  split_reader :
      (s : System) (i j : ℕ)
      → i < n
      → j < n
      → s.pc i ≡ reading
      → s.pc j ≡ idle
      → Reach n s
      → Reach n (split_read j s)
  split_writer :
      (s : System) (i j : ℕ)
      → i < n
      → j < n
      → s.pc i ≡ writing
      → s.pc j ≡ idle
      → Reach n s
      → Reach n (split_write j s)
