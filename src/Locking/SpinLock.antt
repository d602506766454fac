-- ===== src/Locking/SpinLock.antt =====
-- kernel/src/locking/spinlock.rs: the ticket lock. A thread's place in `lock`, `try_lock` or the
-- guard's `drop` is a `Pc`; each step is one access to one of the two counters, with what the thread
-- does with the value. The counters are 64 bits wide and wrap.
use svsm.Base.{ℕ, suc, ◌+◌, ◌%◌, ◌^◌, ◌==◌, if◌then◌else◌}
use svsm.Locking.Threads.{place}

pub record RawSpinLock : Type 0 where
  pub current : ℕ
  pub holder : ℕ

abbrev pub new : RawSpinLock
new = record { current = 0; holder = 0 }

-- `idle`: outside; `spin`: in the loop of `lock`; `loaded`: `try_lock` has read `current`; `trying`:
-- it is about to exchange it; `critical`: the guard exists.
pub data Pc : Type 0 where
  idle : Pc
  spin : (ticket : ℕ) → Pc
  loaded : (current : ℕ) → Pc
  trying : (current : ℕ) → Pc
  critical : (ticket : ℕ) → Pc

pub data Call : Type 0 where
  call_lock : Call
  call_try_lock : Call

-- `fetch_add` on `current`
unfoldable pub lock : RawSpinLock → RawSpinLock × Pc
lock l = (record l { current = (l.current + 1) % 2 ^ 64 }, spin l.current)

-- A round of the loop.
unfoldable pub poll : RawSpinLock → ℕ → RawSpinLock × Pc
poll l ticket = if l.holder == ticket then (l, critical ticket) else (l, spin ticket)

-- `try_lock`, access by access.
unfoldable pub load_holder : RawSpinLock → ℕ → RawSpinLock × Pc
load_holder l current = if current == l.holder then (l, trying current) else (l, idle)

unfoldable pub compare_exchange : RawSpinLock → ℕ → RawSpinLock × Pc
compare_exchange l current =
    if l.current == current
    then (record l { current = (current + 1) % 2 ^ 64 }, critical current)
    else (l, idle)

-- `RawLockGuard::drop`
unfoldable pub drop : RawSpinLock → RawSpinLock × Pc
drop l = (record l { holder = (l.holder + 1) % 2 ^ 64 }, idle)

-- The next step of a thread; one that is idle makes a call.
unfoldable pub step : Call → RawSpinLock → Pc → RawSpinLock × Pc
step call_lock l idle = lock l
step call_try_lock l idle = (l, loaded l.current)
step call l (spin ticket) = poll l ticket
step call l (loaded current) = load_holder l current
step call l (trying current) = compare_exchange l current
step call l (critical ticket) = drop l

pub record System : Type 0 where
  pub shared : RawSpinLock
  pub pc : ℕ → Pc

unfoldable pub advance : ℕ → Call → System → System
advance i call s =
    let out = step call s.shared (s.pc i) in record { shared = out.0; pc = place s.pc i out.1 }

-- The systems that `n` steps of any threads lead to.
pub data Reach : ℕ → System → Type 0 where
  start : Reach 0 (record { shared = new; pc = λ i. idle })
  next : (n : ℕ) (s : System) (i : ℕ) (call : Call) → Reach n s → Reach (suc n) (advance i call s)
