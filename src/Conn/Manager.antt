-- ===== src/Conn/Manager.antt =====
-- `Manager` of ugorji/conn/conn.h and conn_epoll.cc: `run` starts the servers' threads, `serverDone`
-- ends one, `wait` waits for all, `close` asks them to end.
--
-- `numWorkers_` is the number of its increments less that of its decrements. The servers' threads are
-- alike, so they are kept as counts.
use cc_common.Base.{ℕ, suc, ◌+◌, ◌-◌, ◌&&◌, ◌<◌, ◌≡◌, ◌≢◌, Bool, true, false, ◌==◌, if◌then◌else◌}

-- `Manager::Status`.
pub data Status : Type 0 where
  init starting stopping stopped : Status

-- `Manager::closing`.
unfoldable pub closing : Status → Bool
closing stopping = true
closing stopped = true
closing st = false

-- `Manager::close`: the new status, and how many of the `n` threads are sent the signal.
unfoldable pub close : ℕ → Status → Status × ℕ
close n st = if closing st then (st, 0) else (stopping, n)

-- `workers` in `Manager::run`; a negative `maxWorkers_` was replaced by the constructor.
unfoldable pub worker_count : ℕ → ℕ
worker_count max = if max == 0 then 1 else max

-- Where the thread of the manager stands.
pub data Main : Type 0 where
  starting : (i : ℕ) → Main  -- the loop of `run`, before worker `i`
  serving : (i : ℕ) → Main  -- worker `i` is run here
  counting : (i : ℕ) → Main  -- before `numWorkers_++`
  testing : Main  -- `wait` at `numWorkers_ != 0`
  missed : Main  -- before `cond_.wait(lk)`
  blocked : Main  -- in it
  returned : Main  -- behind the loop

pub record Life : Type 0 where
  pub main : Main
  pub running : ℕ  -- threads whose server runs
  pub notifying : ℕ  -- threads before `cond_.notify_all()`
  pub ups : ℕ
  pub downs : ℕ

-- Whether the last server is run by the manager's thread, and whether `cond_.wait` may return
-- without a notification.
pub record Setting : Type 0 where
  pub workers : ℕ
  pub use_this_thread : Bool
  pub spurious : Bool

-- `ALLOW_CURR_THREAD_FOR_MGR_RUN && useThisThread && i == workers-1`.
abbrev pub is_inline : Setting → ℕ → Bool
is_inline c i = c.use_this_thread && i == c.workers - 1

-- `serverDone` takes no mutex, so its two steps may come between any others.
pub data Step (c : Setting) (s : Life) : Life → Type 0 where
  create :
      {i : ℕ}
      → s.main ≡ starting i
      → i < c.workers
      → is_inline c i ≡ false
      → Step c s (record s { main = counting i; running = s.running + 1 })
  serve :
      {i : ℕ}
      → s.main ≡ starting i
      → i < c.workers
      → is_inline c i ≡ true
      → Step c s (record s { main = serving i })
  serve_done :
      {i : ℕ} → s.main ≡ serving i → Step c s (record s { main = counting i; downs = s.downs + 1 })
  add_one :
      {i : ℕ}
      → s.main ≡ counting i
      → Step c s (record s { main = starting (i + 1); ups = s.ups + 1 })
  wait : s.main ≡ starting c.workers → Step c s (record s { main = testing })
  all_done : s.main ≡ testing → s.ups ≡ s.downs → Step c s (record s { main = returned })
  some_left : s.main ≡ testing → s.ups ≢ s.downs → Step c s (record s { main = missed })
  block : s.main ≡ missed → Step c s (record s { main = blocked })
  drop_one :
      {r : ℕ}
      → s.running ≡ suc r
      → Step c s (record s { running = r; downs = s.downs + 1; notifying = s.notifying + 1 })
  wake :
      {r : ℕ}
      → s.notifying ≡ suc r
      → s.main ≡ blocked
      → Step c s (record s { notifying = r; main = testing })
  wake_none :
      {r : ℕ} → s.notifying ≡ suc r → s.main ≢ blocked → Step c s (record s { notifying = r })
  wake_itself : s.main ≡ blocked → c.spurious ≡ true → Step c s (record s { main = testing })

abbrev pub at_start : Life
at_start = record { main = starting 0; running = 0; notifying = 0; ups = 0; downs = 0 }

pub data Reach (c : Setting) : Life → Type 0 where
  started : Reach c at_start
  later : {s t : Life} → Reach c s → Step c s t → Reach c t
