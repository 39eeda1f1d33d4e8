-- ===== src/Pool/Answers.antt =====
-- Every promise that the pool returns is resolved at most once, with the verdict on its task.
use kauri_public.Base.{
  ℕ, zero, suc, ◌<◌, ◌≡◌, refl, sym, ◌∙◌, ap, subst, Bool, Option, none, some, List, [], ◌∷◌, arith,
  All-append, get_elem?, ==_iff, some_injective,
}
use kauri_public.Base.Maps
use kauri_public.Pool.{
  VeriPool, State, running, stopped, Turn, submit, wake, pick, finish, wake_main, collect,
  try_dequeue, new_pool, turn, turns, go_on, idle_workers, resolve_task, collected, collect_task,
  wake_collector,
}
use kauri_public.Pool.Queues.{
  occurrences, held, waits, owned, occurrences-snoc, occurrences-try_dequeue, waits-erase,
  erase-HasKeysOnce,
}
use kauri_public.Pool.Order.{IsInOrder, Fine, IsVerdict, answered, answered-append, verify-Fine}
use kauri_public.Pool.Workers.{wake_worker-Fine, pick_task-Fine, finish_task-Fine}

module _ {A : Type 0} (verdict : A → Bool) where
  resolve_task-Fine :
      (i cnt task : ℕ) (rest : List ℕ) (r : Option (A × ℕ)) (v : Option Bool) (s : VeriPool A)
      → try_dequeue i s.out_queue ≡ some (task, rest)
      → Maps.find task s.pms ≡ r
      → Maps.find task s.results ≡ v
      → IsInOrder verdict s
      → Fine verdict (resolve_task cnt task r v (record s { out_queue = rest }))
  resolve_task-Fine i cnt task rest none v s d f g o = absurd (
      ground (
        arith,
        o.placed task,
        occurrences-try_dequeue task i task s.out_queue rest d,
        ==_iff task task,
      ))
  resolve_task-Fine i cnt task rest (some (a, p)) none s d f g o = absurd (
      ground (
        arith,
        o.judged task p a f,
        occurrences-try_dequeue task i task s.out_queue rest d,
        ==_iff task task,
      ))
  resolve_task-Fine i cnt task rest (some (a, p)) (some v) s d f g o = record {
    placed = λ k. ground (
      arith,
      o.placed k,
      occurrences-try_dequeue k i task s.out_queue rest d,
      Maps.find-erase task k s.pms,
      ==_iff task k,
    );
    judged = λ k q b h pos. ground (
      arith,
      o.judged k q b,
      occurrences-try_dequeue k i task s.out_queue rest d,
      Maps.find-erase task k s.pms,
    );
    named = λ k q b h. o.named k q b (ground (arith, Maps.find-erase task k s.pms));
    new = o.new;
    right = All-append (IsVerdict verdict s.issued) s.resolved ((p, v) ∷ []) o.right (
      (
        a,
        (o.named task p a f).0,
        some_injective v (verdict a) (
            sym g
            ∙ o.judged task p a f (
                ground (
                  arith,
                  occurrences-try_dequeue task i task s.out_queue rest d,
                  ==_iff task task,
                ))),
      ),
      tt,
    );
    once = λ q. omega (
      arith,
      o.once q,
      waits-erase q task p a s.pms o.keys f,
      occurrences-snoc q p (answered s.resolved),
      ap (occurrences q) (answered-append s.resolved ((p, v) ∷ [])),
    );
    keys = erase-HasKeysOnce task s.pms o.keys;
  }

  new_collecting :
      (c : Option ℕ) (s : VeriPool A)
      → IsInOrder verdict s
      → IsInOrder verdict (record s { collecting = c })
  new_collecting c s o = record {
    placed = o.placed;
    judged = o.judged;
    named = o.named;
    new = o.new;
    right = o.right;
    once = o.once;
    keys = o.keys;
  }

  wake_collector-Fine :
      (c : Option ℕ) (s : VeriPool A) → IsInOrder verdict s → Fine verdict (wake_collector c s)
  wake_collector-Fine none s o = new_collecting (some s.burst_size) s o
  wake_collector-Fine (some cnt) s o = o

  collected-Fine :
      (i cnt : ℕ) (r : Option (ℕ × List ℕ)) (s : VeriPool A)
      → try_dequeue i s.out_queue ≡ r
      → IsInOrder verdict s
      → Fine verdict (collected cnt r s)
  collected-Fine i cnt none s d o = new_collecting none s o
  collected-Fine i cnt (some (task, rest)) s d o =
      resolve_task-Fine i cnt task rest (Maps.find task s.pms) (Maps.find task s.results) s d refl
        refl o

  collect_task-Fine :
      (i : ℕ) (c : Option ℕ) (s : VeriPool A)
      → IsInOrder verdict s
      → Fine verdict (collect_task i c s)
  collect_task-Fine i none s o = o
  collect_task-Fine i (some cnt) s o = collected-Fine i cnt (try_dequeue i s.out_queue) s refl o

  turn-Fine : (x : Turn A) (s : VeriPool A) → IsInOrder verdict s → Fine verdict (turn verdict x s)
  unfolding turn
  turn-Fine (submit ptr a) s o = verify-Fine verdict ptr a s o
  turn-Fine (wake w) s o = wake_worker-Fine verdict w (get_elem? s.workers w) s refl o
  turn-Fine (pick w i) s o = pick_task-Fine verdict w i (get_elem? s.workers w) s refl o
  turn-Fine (finish w) s o = finish_task-Fine verdict w (get_elem? s.workers w) s refl o
  turn-Fine wake_main s o = wake_collector-Fine s.collecting s o
  turn-Fine (collect i) s o = collect_task-Fine i s.collecting s o

  go_on-Fine : (x : Turn A) (r : State A) → Fine verdict r → Fine verdict (go_on (turn verdict x) r)
  go_on-Fine x (running s) o = turn-Fine x s o
  go_on-Fine x (stopped e) o = o

  turns_from-Fine :
      (xs : List (Turn A)) (r : State A) → Fine verdict r → Fine verdict (turns verdict xs r)
  unfolding turns
  turns_from-Fine [] r o = o
  turns_from-Fine (x ∷ xs) r o = turns_from-Fine xs (go_on (turn verdict x) r) (go_on-Fine x r o)

  held-idle_workers : (k n : ℕ) → held k (idle_workers n) ≡ 0
  unfolding held idle_workers
  held-idle_workers k zero = refl
  held-idle_workers k (suc n) = omega (arith, held-idle_workers k n)

  new_pool-IsInOrder : (nworker burst_size : ℕ) → IsInOrder verdict (new_pool nworker burst_size)
  unfolding new_pool occurrences waits Maps.find
  new_pool-IsInOrder nworker burst_size = record {
    placed = λ k. omega (arith, held-idle_workers k nworker);
    judged = λ k p a e pos. ground arith;
    named = λ k p a e. absurd (ground arith);
    new = λ p le. refl;
    right = tt;
    once = λ p. ground arith;
    keys = tt;
  }

  -- Whatever the threads of the pool and the main thread do, in whichever order: the pool stops only
  -- at a task whose address is in use; else every task with a promise is in one place, once, a task
  -- on its way back has its verdict, each promise that was returned waits or is resolved, once, and
  -- the values are the verdicts on the tasks that the promises were returned for.
  pub turns-Fine :
      (xs : List (Turn A)) (nworker burst_size : ℕ)
      → Fine verdict (turns verdict xs (running (new_pool nworker burst_size)))
  turns-Fine xs nworker burst_size =
      turns_from-Fine xs (running (new_pool nworker burst_size))
        (new_pool-IsInOrder nworker burst_size)

  waits-none : (p : ℕ) (m : List (ℕ × (A × ℕ))) → ((k : ℕ) → owned k m ≡ 0) → waits p m ≡ 0
  unfolding waits Maps.find
  waits-none p [] h = refl
  waits-none p ((k, (a, q)) ∷ m) h = absurd (ground (arith, h k, ==_iff k k))

  -- When the queues are empty and no thread has a task in hand, each promise that the pool has
  -- returned is resolved, once.
  pub turns-all_answered :
      (xs : List (Turn A)) (nworker burst_size p : ℕ) (s : VeriPool A)
      → turns verdict xs (running (new_pool nworker burst_size)) ≡ running s
      → s.in_queue ≡ []
      → s.out_queue ≡ []
      → ((k : ℕ) → held k s.workers ≡ 0)
      → p < s.next_promise
      → occurrences p (answered s.resolved) ≡ 1
  unfolding occurrences
  turns-all_answered xs nworker burst_size p s e empty_in empty_out free low =
      let o : IsInOrder verdict s = subst (Fine verdict) e (turns-Fine xs nworker burst_size) in
      let none_left : (k : ℕ) → owned k s.pms ≡ 0 = λ k.
        omega
          (arith, o.placed k, ap (occurrences k) empty_in, ap (occurrences k) empty_out, free k) in
      ground (arith, o.once p, waits-none p s.pms none_left)
