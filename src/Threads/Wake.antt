-- ===== src/Threads/Wake.antt =====
-- `RemoveFromSemaphoreBlocked` of thread_library.c where the thread to wake is not the head.
use osprograms.Base.{
  ℕ, suc, ◌+◌, ◌-◌, ◌<◌, ◌≡◌, refl, sym, ap, ◌∙◌, ◌≢◌, Bool, true, false, none, some, List, ◌∷◌,
  arith, ◌==◌, length, get_elem?, set, get_elem?-set_self, get_elem?-set_ne, get_elem?-lt, pos,
  negsuc,
}
use osprograms.Threads.Memory.{
  Pointer, Thread, Semaphore, Machine, Run, ok, fault, Cmd, pure, and_then, ◌>>◌, thread_at,
  change_thread, with_next, semaphore_at, change_semaphore, set_ready, set_semaphore_blocked,
}
use osprograms.Threads.Queues.{
  append_node, insert_into_ready_queue, search_from, search_queue, has_waiting_threads,
}
use osprograms.Threads.Semaphores.{
  get_semaphore_from_id, remove_waiting, remove_from_semaphore_blocked, my_semaphore_signal,
}
use osprograms.Threads.Count.{valued, with_semaphore, IsValued, with_semaphore-IsValued}
use osprograms.Threads.Order.{IsReady}
use osprograms.Threads.Chain.{NotIn, last, last-NotIn, linked, append_node-IsQueue}

-- The queue of the threads that wait for semaphores is `p` and then `q`, and only `q` waits for the
-- semaphore `i`.
pub record IsSecondWaiter (s : Machine) (i p q : ℕ) (t u : Thread) : Type 0 where
  pub first : s.semaphore_blocked_queue ≡ some p
  pub t_there : get_elem? s.threads p ≡ some (with_next (some q) t)
  pub t_other : (t.semaphore_blocked == i) ≡ false
  pub u_there : get_elem? s.threads q ≡ some (with_next none u)
  pub u_waits : (u.semaphore_blocked == i) ≡ true
  pub apart : p ≢ q

module _ (s : Machine) (i p q a : ℕ) (t u z : Thread) (h : IsSecondWaiter s i p q t u)
    (ts : List Thread) (inserted : insert_into_ready_queue q s ≡ ok tt (record s { threads = ts }))
    (kept : get_elem? ts p ≡ some (with_next (some q) t)) where
  -- The step of the walk that finds `q`.
  remove_waiting-fault : (fuel : ℕ) → remove_waiting (suc fuel) i p s ≡ fault
  unfolding remove_waiting thread_at change_thread
  remove_waiting-fault fuel =
      let cut = get_elem?-set_self ts p (with_next none t) (get_elem?-lt ts p _ kept) in
      rw (remove_waiting, h.t_there, h.u_there, h.u_waits, inserted, kept, cut) refl

insert-append :
    (s : Machine) (new a : ℕ)
    → s.ready_queue ≡ some a
    → insert_into_ready_queue new s ≡ append_node a new s
unfolding insert_into_ready_queue
insert-append s new a ready =
    ap
      (λ o. elim o as (λ _. Run (Unit {0})) [
        | none ↦ (set_ready (some new) >> change_thread (with_next none) (some new)) s
        | some head ↦ append_node head new s
      ])
      ready

some_rounds : (n : ℕ) → 0 < n → (k : ℕ) × (n ≡ suc k)
some_rounds n l = (n - 1, omega arith)

module _ (s : Machine) (i p q a : ℕ) (ps : List ℕ) (t u : Thread) (h : IsSecondWaiter s i p q t u)
    (ready : IsReady s a ps) (p_apart : NotIn p (a ∷ ps)) (q_apart : NotIn q (a ∷ ps)) where
  remove_from_semaphore_blocked-fault : remove_from_semaphore_blocked i s ≡ fault
  unfolding remove_from_semaphore_blocked thread_at
  remove_from_semaphore_blocked-fault =
      let (k, rounds) =
        some_rounds (length s.threads) (omega (arith, get_elem?-lt s.threads p _ h.t_there)) in
      let (z, run, _) =
        append_node-IsQueue s a q ps ready.queue ready.distinct q_apart ready.room
          (with_next none u) h.u_there in
      let l = last a ps in
      let kept : get_elem? (linked s.threads l z q (with_next none u)) p
          ≡ some (with_next (some q) t) =
        get_elem?-set_ne (set s.threads l (with_next (some q) z)) q p _ (λ e. h.apart (sym e))
        ∙ (get_elem?-set_ne s.threads l p _ (λ e. last-NotIn p a ps p_apart (sym e)) ∙ h.t_there) in
      let fails =
        ap (λ f. remove_waiting f i p s) rounds
        ∙ remove_waiting-fault s i p q a t u z h (linked s.threads l z q (with_next none u))
            (insert-append s q a ready.ready ∙ run) kept k in
      ap
        (λ o. elim o as (λ _. Run (Unit {0})) [
          | none ↦ ok tt s
          | some n ↦ and_then (thread_at (some n) s) (λ v. elim (v.semaphore_blocked == i) [
            | true ↦ insert_into_ready_queue n >> set_semaphore_blocked v.next
            | false ↦ remove_waiting (length s.threads) i n
          ])
        ])
        h.first
      ∙ rw h.t_there (
          ap
            (λ b.
              elim b as (λ _. Cmd (Unit {0})) [
                | true ↦ insert_into_ready_queue p >> set_semaphore_blocked (some q)
                | false ↦ remove_waiting (length s.threads) i p
              ]
                s)
            h.t_other
          ∙ fails)

  has_waiting_threads-second :
      (sem : Semaphore) → sem.semaphore_id ≡ i → has_waiting_threads sem s ≡ ok true s
  unfolding has_waiting_threads search_queue search_from thread_at
  has_waiting_threads-second sem e =
      let (k, rounds) =
        some_rounds (length s.threads) (omega (arith, get_elem?-lt s.threads p _ h.t_there)) in
      let test : Thread → Bool = λ v. v.semaphore_blocked == i in
      let more : length s.threads + 1 ≡ suc (suc k) = omega (arith, rounds) in
      ap
        (λ j.
          search_from (λ v. v.semaphore_blocked == j) (length s.threads + 1)
            s.semaphore_blocked_queue s)
        e
      ∙ (ap (λ o. search_from (λ v. v.semaphore_blocked == i) (length s.threads + 1) o s) h.first
          ∙ (ap (λ f. search_from (λ v. v.semaphore_blocked == i) f (some p) s) more
              ∙ rw (search_from, h.t_there)
                  (ap
                      (λ b.
                        elim b as (λ _. Cmd Bool) [
                          | true ↦ pure true
                          | false ↦ search_from test (suc k) (some q)
                        ]
                          s)
                      h.t_other
                    ∙ rw (search_from, h.u_there)
                        (ap
                          (λ b.
                            elim b as (λ _. Cmd Bool) [
                              | true ↦ pure true
                              | false ↦ search_from test k none
                            ]
                              s)
                          h.u_waits))))

-- Two threads wait for semaphores, the second one alone for this one, whose value is -1, and others
-- are ready, all in distinct nodes: `MySemaphoreSignal` reads through NULL, since the walk of
-- `RemoveFromSemaphoreBlocked` goes on behind the node that it took out.
pub my_semaphore_signal-second :
    (s : Machine) (m i p q a : ℕ) (n : Pointer) (ps : List ℕ) (t u : Thread) (sem : Semaphore)
    → sem.semaphore_id ≡ i
    → IsValued s m i (negsuc 0) n
    → IsSecondWaiter s i p q t u
    → IsReady s a ps
    → NotIn p (a ∷ ps)
    → NotIn q (a ∷ ps)
    → my_semaphore_signal sem s ≡ fault
unfolding my_semaphore_signal change_semaphore semaphore_at
my_semaphore_signal-second s m i p q a n ps t u sem e v h ready p_apart q_apart =
    let next = with_semaphore-IsValued s m i n (negsuc 0) v (pos 0) in
    let r = with_semaphore m (valued i (pos 0) n) s in
    let h' : IsSecondWaiter r i p q t u = record {
      first = h.first;
      t_there = h.t_there;
      t_other = h.t_other;
      u_there = h.u_there;
      u_waits = h.u_waits;
      apart = h.apart;
    } in
    let ready' : IsReady r a ps = record {
      ready = ready.ready;
      queue = ready.queue;
      distinct = ready.distinct;
      room = ready.room;
    } in
    rw (ap (λ j. get_semaphore_from_id j s) e ∙ v.found, v.there)
      (rw v.there (
        rw
          (
            next.there,
            has_waiting_threads-second r i p q a ps t u h' ready' p_apart q_apart
                (valued i (pos 0) n) refl,
            remove_from_semaphore_blocked-fault r i p q a ps t u h' ready' p_apart q_apart,
          )
          refl))
