-- ===== src/Pool/Workers.antt =====
-- The threads of the pool: the handler of `in_queue`.
use kauri_public.Base.{
  ℕ, zero, suc, ◌≤◌, ◌≡◌, refl, ap, inl, inr, Bool, Option, none, some, List, [], ◌∷◌, arith,
  get_elem?, ◌==◌, ==_iff, Bool-cases, some_injective,
}
use kauri_public.Base.Maps
use kauri_public.Pool.{
  Worker, idle, looping, holding, VeriPool, try_dequeue, next_round, wake_worker, picked, pick_task,
  verified, finish_task, put_worker, less_one,
}
use kauri_public.Pool.Queues.{
  load, held, occurrences-snoc, occurrences-try_dequeue, held-set_worker,
}
use kauri_public.Pool.Order.{IsInOrder, Fine}

module _ {A : Type 0} (verdict : A → Bool) where
  -- A thread moves on with the same task in its hands, or none.
  put_worker-IsInOrder :
      (w : ℕ) (v x : Worker) (s : VeriPool A)
      → get_elem? s.workers w ≡ some x
      → ((k : ℕ) → load k v ≡ load k x)
      → IsInOrder verdict s
      → IsInOrder verdict (put_worker w v s)
  put_worker-IsInOrder w v x s e same o = record {
    placed = λ k. omega (arith, o.placed k, held-set_worker k w v x s.workers e, same k);
    judged = o.judged;
    named = o.named;
    new = o.new;
    right = o.right;
    once = o.once;
    keys = o.keys;
  }

  pub wake_worker-Fine :
      (w : ℕ) (x : Option Worker) (s : VeriPool A)
      → get_elem? s.workers w ≡ x
      → IsInOrder verdict s
      → Fine verdict (wake_worker w x s)
  wake_worker-Fine w none s e o = o
  wake_worker-Fine w (some idle) s e o =
      put_worker-IsInOrder w (looping s.burst_size) idle s e (λ k. refl) o
  wake_worker-Fine w (some (looping cnt)) s e o = o
  wake_worker-Fine w (some (holding cnt task)) s e o = o

  picked-Fine :
      (w i cnt : ℕ) (r : Option (ℕ × List ℕ)) (s : VeriPool A)
      → get_elem? s.workers w ≡ some (looping cnt)
      → try_dequeue i s.in_queue ≡ r
      → IsInOrder verdict s
      → Fine verdict (picked w cnt r s)
  picked-Fine w i cnt none s e d o = put_worker-IsInOrder w idle (looping cnt) s e (λ k. refl) o
  picked-Fine w i cnt (some (task, rest)) s e d o = record {
    placed = λ k. omega (
      arith,
      o.placed k,
      occurrences-try_dequeue k i task s.in_queue rest d,
      held-set_worker k w (holding cnt task) (looping cnt) s.workers e,
    );
    judged = o.judged;
    named = o.named;
    new = o.new;
    right = o.right;
    once = o.once;
    keys = o.keys;
  }

  pub pick_task-Fine :
      (w i : ℕ) (x : Option Worker) (s : VeriPool A)
      → get_elem? s.workers w ≡ x
      → IsInOrder verdict s
      → Fine verdict (pick_task w i x s)
  pick_task-Fine w i none s e o = o
  pick_task-Fine w i (some idle) s e o = o
  pick_task-Fine w i (some (looping cnt)) s e o =
      picked-Fine w i cnt (try_dequeue i s.in_queue) s e refl o
  pick_task-Fine w i (some (holding cnt task)) s e o = o

  load-next_round : (k cnt : ℕ) → load k (next_round cnt) ≡ 0
  load-next_round k cnt = elim (Bool-cases (less_one cnt == 0)) [
    | inl last ↦ rw last
    | inr more ↦ rw more
  ]

  load-le-held :
      (k w : ℕ) (x : Worker) (ws : List Worker) → get_elem? ws w ≡ some x → load k x ≤ held k ws
  unfolding held
  load-le-held k w x [] e = absurd (ground arith)
  load-le-held k zero x (y ∷ ws) e = omega (arith, ap (load k) (some_injective y x e))
  load-le-held k (suc w) x (y ∷ ws) e = omega (arith, load-le-held k w x ws e)

  verified-Fine :
      (w cnt task : ℕ) (r : Option (A × ℕ)) (s : VeriPool A)
      → get_elem? s.workers w ≡ some (holding cnt task)
      → Maps.find task s.pms ≡ r
      → IsInOrder verdict s
      → Fine verdict (verified verdict w cnt task r s)
  verified-Fine w cnt task none s e f o = absurd (
      ground (
        arith,
        o.placed task,
        load-le-held task w (holding cnt task) s.workers e,
        ==_iff task task,
      ))
  verified-Fine w cnt task (some (a, p)) s e f o = record {
    placed = λ k.
        let h = held-set_worker k w (next_round cnt) (holding cnt task) s.workers e in
        omega (arith, o.placed k, h, occurrences-snoc k task s.out_queue, load-next_round k cnt);
    judged = λ k q b g pos. elim (Bool-cases (task == k)) [
      | inl hit ↦ ground (arith, Maps.find-put task k (verdict a) s.results, ==_iff task k)
      | inr other ↦ ground (
        arith,
        Maps.find-put task k (verdict a) s.results,
        o.judged k q b,
        occurrences-snoc k task s.out_queue,
      )
    ];
    named = o.named;
    new = o.new;
    right = o.right;
    once = o.once;
    keys = o.keys;
  }

  pub finish_task-Fine :
      (w : ℕ) (x : Option Worker) (s : VeriPool A)
      → get_elem? s.workers w ≡ x
      → IsInOrder verdict s
      → Fine verdict (finish_task verdict w x s)
  finish_task-Fine w none s e o = o
  finish_task-Fine w (some idle) s e o = o
  finish_task-Fine w (some (looping cnt)) s e o = o
  finish_task-Fine w (some (holding cnt task)) s e o =
      verified-Fine w cnt task (Maps.find task s.pms) s e refl o
