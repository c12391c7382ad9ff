-- ===== src/Threads/Search.antt =====
-- The searches of the queues of thread_library.c.
use osprograms.Base.{
  ℕ, zero, suc, ◌+◌, ◌≤◌, ◌<◌, ◌≡◌, refl, sym, ap, ◌∙◌, Bool, true, false, ◌||◌, none, some, List,
  [], ◌∷◌, arith, ◌==◌, length, get_elem?,
}
use osprograms.Threads.Memory.{Pointer, Thread, Semaphore, Machine, ok, Cmd, pure, thread_at}
use osprograms.Threads.Queues.{
  search_from, search_queue, present_in_ready_queue, present_in_semaphore_blocked_queue,
  has_waiting_threads,
}
use osprograms.Threads.Chain.{IsQueue}

-- Whether a node at one of the addresses passes the test.
abbrev pub any_thread : (Thread → Bool) → List Thread → List ℕ → Bool
any_thread test ts [] = false
any_thread test ts (p ∷ ps) = elim (get_elem? ts p) [
  | none ↦ false
  | some t ↦ test t || any_thread test ts ps
]

-- The rounds end with the queue.
search_from-IsQueue :
    (test : Thread → Bool) (fuel : ℕ) (ps : List ℕ) (head : Pointer) (s : Machine)
    → IsQueue s.threads head ps
    → length ps < fuel
    → search_from test fuel head s ≡ ok (any_thread test s.threads ps) s
unfolding search_from thread_at
search_from-IsQueue test zero ps head s h l = absurd (omega arith)
search_from-IsQueue test (suc fuel) [] head s h l = rw (h, search_from) refl
search_from-IsQueue test (suc fuel) (p ∷ ps) head s (t, first, e, rest) l =
    ap (λ o. search_from test (suc fuel) o s) first
    ∙ at_node (search_from-IsQueue test fuel ps t.next s rest (omega arith))
  where
    Later : Type 0
    Later = search_from test fuel t.next s ≡ ok (any_thread test s.threads ps) s

    tested :
        (b : Bool)
        → Later
        → (elim b as (λ _. Cmd Bool) [ true ↦ pure true | false ↦ search_from test fuel t.next ]) s
          ≡ ok (b || any_thread test s.threads ps) s
    tested true later = refl
    tested false later = later

    at_node :
        Later → search_from test (suc fuel) (some p) s ≡ ok (any_thread test s.threads (p ∷ ps)) s
    at_node later =
        let found : search_from test (suc fuel) (some p) s
            ≡ ok (test t || any_thread test s.threads ps) s =
          rw (search_from, e) (tested (test t) later) in
        found
        ∙ ap (λ o. ok (elim o [ none ↦ false | some u ↦ test u || any_thread test s.threads ps ]) s)
            (sym e)

search_queue-IsQueue :
    (test : Thread → Bool) (ps : List ℕ) (head : Pointer) (s : Machine)
    → IsQueue s.threads head ps
    → length ps ≤ length s.threads
    → search_queue test head s ≡ ok (any_thread test s.threads ps) s
unfolding search_queue
search_queue-IsQueue test ps head s h l =
    search_from-IsQueue test (length s.threads + 1) ps head s h (omega arith)

-- Where the ready queue is the nodes `ps` and the queue of the semaphores is the nodes `qs`, neither
-- more than there are nodes, the searches end, leave the machine as it is, and say whether a node
-- of `ps` has this number, whether one of `qs` has it, and whether one of `qs` waits for `sem`.
pub present-any_thread :
    (s : Machine) (i : ℕ) (sem : Semaphore) (ps qs : List ℕ)
    → IsQueue s.threads s.ready_queue ps
    → IsQueue s.threads s.semaphore_blocked_queue qs
    → length ps ≤ length s.threads
    → length qs ≤ length s.threads
    → (present_in_ready_queue i s ≡ ok (any_thread (λ t. t.id == i) s.threads ps) s)
      × (present_in_semaphore_blocked_queue i s ≡ ok (any_thread (λ t. t.id == i) s.threads qs) s)
      × (has_waiting_threads sem s
          ≡ ok (any_thread (λ t. t.semaphore_blocked == sem.semaphore_id) s.threads qs) s)
unfolding present_in_ready_queue present_in_semaphore_blocked_queue has_waiting_threads
present-any_thread s i sem ps qs ready waiting l k = (
  search_queue-IsQueue _ ps s.ready_queue s ready l,
  search_queue-IsQueue _ qs s.semaphore_blocked_queue s waiting k,
  search_queue-IsQueue _ qs s.semaphore_blocked_queue s waiting k,
)
