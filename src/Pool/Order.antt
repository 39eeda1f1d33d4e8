-- ===== src/Pool/Order.antt =====
-- What holds of the pool after each step, and that `verify` keeps it.
use kauri_public.Base.{
  ℕ, ◌+◌, ◌≤◌, ◌<◌, ◌≡◌, refl, ap, inl, inr, Bool, none, some, List, [], ◌∷◌, ◌++◌, arith, ltb, All,
  ◌==◌, ==_iff, Bool-cases, Option-cases, if◌then◌else◌,
}
use kauri_public.Base.Maps
use kauri_public.Pool.{VeriPool, State, running, stopped, assertion_failed, verify}
use kauri_public.Pool.Queues.{
  occurrences, held, waits, owned, HasKeysOnce, occurrences-snoc, waits-insert, insert-HasKeysOnce,
}

-- The promises that were resolved.
abbrev pub answered : List (ℕ × Bool) → List ℕ
answered [] = []
answered ((p, v) ∷ xs) = p ∷ answered xs

pub answered-append : (xs ys : List (ℕ × Bool)) → answered (xs ++ ys) ≡ answered xs ++ answered ys
answered-append [] ys = refl
answered-append ((p, v) ∷ xs) ys = ap (◌∷◌ p) (answered-append xs ys)

module _ {A : Type 0} (verdict : A → Bool) where
  -- A value is the verdict on the task that its promise was returned for.
  abbrev pub IsVerdict : List (ℕ × A) → ℕ × Bool → Type 0
  IsVerdict issued x = (a : A) × (Maps.find x.0 issued ≡ some a) × (x.1 ≡ verdict a)

  pub record IsInOrder (s : VeriPool A) : Type 0 where
    -- a task with a promise is in a queue or in the hands of a thread, and no other is
    pub placed :
        (k : ℕ)
        → occurrences k s.in_queue + held k s.workers + occurrences k s.out_queue ≡ owned k s.pms
    -- a task on its way back has its verdict
    pub judged :
        (k p : ℕ) (a : A)
        → Maps.find k s.pms ≡ some (a, p)
        → 0 < occurrences k s.out_queue
        → Maps.find k s.results ≡ some (verdict a)
    pub named :
        (k p : ℕ) (a : A)
        → Maps.find k s.pms ≡ some (a, p)
        → (Maps.find p s.issued ≡ some a) × (p < s.next_promise)
    pub new : (p : ℕ) → s.next_promise ≤ p → Maps.find p s.issued ≡ none
    pub right : All (IsVerdict s.issued) s.resolved
    -- each promise waits or is resolved, once
    pub once :
        (p : ℕ)
        → occurrences p (answered s.resolved) + waits p s.pms
          ≡ (if ltb p s.next_promise then 1 else 0)
    pub keys : HasKeysOnce s.pms

  -- The pool runs in order, or it has stopped at a task whose address is in use.
  abbrev pub Fine : State A → Type 0
  Fine (running s) = IsInOrder s
  Fine (stopped e) = e ≡ assertion_failed

  IsVerdict-insert :
      (issued : List (ℕ × A)) (q : ℕ) (b : A) (xs : List (ℕ × Bool))
      → Maps.find q issued ≡ none
      → All (IsVerdict issued) xs
      → All (IsVerdict (Maps.insert q b issued)) xs
  IsVerdict-insert issued q b [] n h = tt
  IsVerdict-insert issued q b ((p, v) ∷ xs) n ((a, e, k), h) = (
    (a, ground (arith, Maps.find-insert q p b issued, ==_iff q p), k),
    IsVerdict-insert issued q b xs n h,
  )

  verify-named :
      (ptr : ℕ) (a : A) (s : VeriPool A)
      → IsInOrder s
      → Maps.find ptr s.pms ≡ none
      → (k p : ℕ) (b : A) → Maps.find k (Maps.insert ptr (a, s.next_promise) s.pms) ≡ some (b, p)
      → (Maps.find p (Maps.insert s.next_promise a s.issued) ≡ some b) × (p < s.next_promise + 1)
  verify-named ptr a s o e k p b f = elim (Bool-cases (ptr == k)) [
    | inl hit ↦
        let q : s.next_promise ≡ p =
          ground (arith, Maps.find-insert ptr k (a, s.next_promise) s.pms, ==_iff ptr k) in
        let r : a ≡ b =
          ground (arith, Maps.find-insert ptr k (a, s.next_promise) s.pms, ==_iff ptr k) in
        (
          ground (arith, Maps.find-insert s.next_promise p a s.issued, o.new s.next_promise),
          omega arith,
        )
    | inr other ↦
        let g : Maps.find k s.pms ≡ some (b, p) =
          ground (arith, Maps.find-insert ptr k (a, s.next_promise) s.pms) in
        let (was, low) = o.named k p b g in
        (ground (arith, Maps.find-insert s.next_promise p a s.issued), omega arith)
  ]

  pub verify-Fine : (ptr : ℕ) (a : A) (s : VeriPool A) → IsInOrder s → Fine (verify ptr a s)
  unfolding verify
  verify-Fine ptr a s o = elim (Option-cases (Maps.find ptr s.pms)) [
    | inr (x, e) ↦ rw e refl
    | inl e ↦ rw e (record {
      placed = λ k. ground (
        arith,
        occurrences-snoc k ptr s.in_queue,
        Maps.find-insert ptr k (a, s.next_promise) s.pms,
        o.placed k,
        ==_iff ptr k,
      );
      judged = λ k p b f pos. ground (
        arith,
        Maps.find-insert ptr k (a, s.next_promise) s.pms,
        o.placed k,
        o.judged k p b,
        ==_iff ptr k,
      );
      named = λ k p b f. verify-named ptr a s o e k p b f;
      new = λ p le. ground (arith, Maps.find-insert s.next_promise p a s.issued, o.new p);
      right =
          IsVerdict-insert s.issued s.next_promise a s.resolved (o.new s.next_promise (omega arith))
            o.right;
      once = λ p. ground (arith, waits-insert p ptr s.next_promise a s.pms e, o.once p);
      keys = insert-HasKeysOnce ptr (a, s.next_promise) s.pms e o.keys;
    })
  ]
