-- ===== src/Pool.antt =====
-- `VeriPool` of include/hotstuff/task.h, the threads that verify signatures. A task is known by its
-- address. The queues of salticidae are bags: which task a thread gets is chosen from outside, and so
-- is the order in which the threads take their steps; a choice of none is an empty queue.
pub mod Queues
pub mod Order
pub mod Workers
pub mod Answers
use kauri_public.Base.{
  ℕ, zero, suc, ◌+◌, ◌-◌, ◌%◌, ◌^◌, Bool, Option, none, some, List, [], ◌∷◌, ◌++◌, get_elem?,
  is_some, ◌==◌, if◌then◌else◌,
}
use kauri_public.Base.Maps

-- A thread of the pool: outside its handler, at the head of the loop, or with a task in hand; `cnt`
-- is the counter of the loop.
pub data Worker : Type 0 where
  idle : Worker
  looping : ℕ → Worker
  holding : ℕ → ℕ → Worker

-- What the code leaves undefined: `assert(ret.second)` fails, `pms.end()` is followed, or the result
-- of a task is read that was not verified.
pub data Fault : Type 0 where
  assertion_failed end_iterator no_result : Fault

-- A task stands in `pms` with its promise. `results` is the field `result` of the tasks; `issued` are
-- the promises that `verify` returned with the tasks they are for, and `resolved` those that were
-- resolved, with their values. `collecting` is the counter of the handler of `out_queue`.
pub record VeriPool (A : Type 0) : Type 0 where
  pub burst_size : ℕ
  pub in_queue : List ℕ
  pub out_queue : List ℕ
  pub workers : List Worker
  pub collecting : Option ℕ
  pub pms : List (ℕ × (A × ℕ))
  pub results : List (ℕ × Bool)
  pub issued : List (ℕ × A)
  pub next_promise : ℕ
  pub resolved : List (ℕ × Bool)

pub data State (A : Type 0) : Type 0 where
  running : VeriPool A → State A
  stopped : Fault → State A

-- What the main thread and the threads of the pool do next.
pub data Turn (A : Type 0) : Type 0 where
  submit : ℕ → A → Turn A
  wake : ℕ → Turn A
  pick : ℕ → ℕ → Turn A
  finish : ℕ → Turn A
  wake_main : Turn A
  collect : ℕ → Turn A

abbrev pub kept_first : ℕ → Option (ℕ × List ℕ) → Option (ℕ × List ℕ)
kept_first x none = none
kept_first x (some (y, ys)) = some (y, x ∷ ys)

-- `q.try_dequeue(task)`, where element `i` is the one that is found
unfoldable pub try_dequeue : ℕ → List ℕ → Option (ℕ × List ℕ)
try_dequeue i [] = none
try_dequeue zero (x ∷ xs) = some (x, xs)
try_dequeue (suc i) (x ∷ xs) = kept_first x (try_dequeue i xs)

unfoldable pub set_worker : List Worker → ℕ → Worker → List Worker
set_worker [] w v = []
set_worker (x ∷ xs) zero v = v ∷ xs
set_worker (x ∷ xs) (suc w) v = x ∷ set_worker xs w v

idle_workers : ℕ → List Worker
idle_workers zero = []
idle_workers (suc n) = idle ∷ idle_workers n

-- `--cnt`, a `size_t`
abbrev pub less_one : ℕ → ℕ
less_one cnt = (cnt + (2 ^ 64 - 1)) % 2 ^ 64

-- if (!--cnt) return true;
abbrev pub next_round : ℕ → Worker
next_round cnt = if less_one cnt == 0 then idle else looping (less_one cnt)

module _ {A : Type 0} where
  -- VeriPool(ec, nworker, burst_size)
  unfoldable pub new_pool : ℕ → ℕ → VeriPool A
  unfolding idle_workers
  new_pool nworker burst_size = record {
    burst_size = burst_size;
    in_queue = [];
    out_queue = [];
    workers = idle_workers nworker;
    collecting = none;
    pms = [];
    results = [];
    issued = [];
    next_promise = 0;
    resolved = [];
  }

  -- verify(task), for a task at the address `ptr`
  unfoldable pub verify : ℕ → A → VeriPool A → State A
  verify ptr a s =
      if is_some (Maps.find ptr s.pms)
      then stopped assertion_failed
      else running (record s {
        pms = Maps.insert ptr (a, s.next_promise) s.pms;
        in_queue = s.in_queue ++ ptr ∷ [];
        issued = Maps.insert s.next_promise a s.issued;
        next_promise = s.next_promise + 1;
      })

  abbrev pub put_worker : ℕ → Worker → VeriPool A → VeriPool A
  put_worker w v s = record s { workers = set_worker s.workers w v }

  abbrev pub wake_worker : ℕ → Option Worker → VeriPool A → State A
  wake_worker w (some idle) s = running (put_worker w (looping s.burst_size) s)
  wake_worker w _ s = running s

  abbrev pub picked : ℕ → ℕ → Option (ℕ × List ℕ) → VeriPool A → State A
  picked w cnt none s = running (put_worker w idle s)
  picked w cnt (some (task, rest)) s =
      running (put_worker w (holding cnt task) (record s { in_queue = rest }))

  abbrev pub pick_task : ℕ → ℕ → Option Worker → VeriPool A → State A
  pick_task w i (some (looping cnt)) s = picked w cnt (try_dequeue i s.in_queue) s
  pick_task w i _ s = running s

  -- The handler of `out_queue`, once a task is taken: `it` and the result of the task.
  abbrev pub resolve_task : ℕ → ℕ → Option (A × ℕ) → Option Bool → VeriPool A → State A
  resolve_task cnt task none v s = stopped end_iterator
  resolve_task cnt task (some (a, p)) none s = stopped no_result
  resolve_task cnt task (some (a, p)) (some v) s = running (record s {
    pms = Maps.erase task s.pms;
    resolved = s.resolved ++ (p, v) ∷ [];
    collecting = if less_one cnt == 0 then none else some (less_one cnt);
  })

  abbrev pub collected : ℕ → Option (ℕ × List ℕ) → VeriPool A → State A
  collected cnt none s = running (record s { collecting = none })
  collected cnt (some (task, rest)) s =
      resolve_task cnt task (Maps.find task s.pms) (Maps.find task s.results)
        (record s { out_queue = rest })

  abbrev pub collect_task : ℕ → Option ℕ → VeriPool A → State A
  collect_task i none s = running s
  collect_task i (some cnt) s = collected cnt (try_dequeue i s.out_queue) s

  abbrev pub wake_collector : Option ℕ → VeriPool A → State A
  wake_collector none s = running (record s { collecting = some s.burst_size })
  wake_collector (some cnt) s = running s

  abbrev pub go_on : (VeriPool A → State A) → State A → State A
  go_on f (running s) = f s
  go_on f (stopped e) = stopped e

  -- `verdict` is the virtual method `verify` of a task.
  module _ (verdict : A → Bool) where
    -- task->result = task->verify(); out_queue.enqueue(task);
    abbrev pub verified : ℕ → ℕ → ℕ → Option (A × ℕ) → VeriPool A → State A
    verified w cnt task none s = stopped end_iterator
    verified w cnt task (some (a, p)) s = running (
        put_worker w (next_round cnt) (record s {
          results = Maps.put task (verdict a) s.results;
          out_queue = s.out_queue ++ task ∷ [];
        }))

    abbrev pub finish_task : ℕ → Option Worker → VeriPool A → State A
    finish_task w (some (holding cnt task)) s = verified w cnt task (Maps.find task s.pms) s
    finish_task w _ s = running s

    unfoldable pub turn : Turn A → VeriPool A → State A
    unfolding verify try_dequeue set_worker
    turn (submit ptr a) s = verify ptr a s
    turn (wake w) s = wake_worker w (get_elem? s.workers w) s
    turn (pick w i) s = pick_task w i (get_elem? s.workers w) s
    turn (finish w) s = finish_task w (get_elem? s.workers w) s
    turn wake_main s = wake_collector s.collecting s
    turn (collect i) s = collect_task i s.collecting s

    unfoldable pub turns : List (Turn A) → State A → State A
    unfolding turn
    turns [] r = r
    turns (x ∷ xs) r = turns xs (go_on (turn x) r)
