-- ===== src/Threads/Queues.antt =====
-- The walks of the queues and the insertions of thread_library.c.
use osprograms.Base.{ℕ, zero, suc, ◌+◌, Bool, true, false, none, some, ◌==◌, length}
use osprograms.Threads.Memory.{
  Pointer, Thread, Semaphore, ok, out_of_fuel, Cmd, pure, and_then, ◌>>=◌, ◌>>◌, thread_at,
  change_thread, with_next, with_prev, new_thread, set_ready, set_blocked, set_semaphore_blocked,
}

-- `while (trav->next != NULL) trav = trav->next;`
unfoldable pub last_from : ℕ → ℕ → Cmd ℕ
unfolding thread_at
last_from zero p s = out_of_fuel
last_from (suc fuel) p s =
    and_then (thread_at (some p) s) (λ t. elim t.next [ none ↦ pure p | some q ↦ last_from fuel q ])

unfoldable pub last_thread : ℕ → Cmd ℕ
unfolding last_from
last_thread p s = last_from (length s.threads) p s

unfoldable pub insert_node : Pointer → Cmd ℕ
unfolding last_thread new_thread change_thread
insert_node none = new_thread
insert_node (some head) = do
  last ← last_thread head
  new ← new_thread
  change_thread (with_next (some new)) (some last)
  change_thread (with_prev (some last)) (some new)
  pure new

-- The part of the insertions for a queue with a head.
unfoldable pub append_node : ℕ → ℕ → Cmd (Unit {0})
unfolding last_thread change_thread
append_node head new = do
  last ← last_thread head
  change_thread (with_next (some new)) (some last)
  change_thread (with_next none) (some new)

unfoldable pub insert_into_blocked_queue : ℕ → Cmd (Unit {0})
unfolding append_node
insert_into_blocked_queue new s = elim s.blocked_queue [
  | none ↦ set_blocked s.ready_queue s
  | some head ↦ append_node head new s
]

unfoldable pub insert_into_semaphore_blocked_queue : ℕ → Cmd (Unit {0})
unfolding append_node
insert_into_semaphore_blocked_queue new s = elim s.semaphore_blocked_queue [
  | none ↦ set_semaphore_blocked s.ready_queue s
  | some head ↦ append_node head new s
]

unfoldable pub insert_into_ready_queue : ℕ → Cmd (Unit {0})
unfolding append_node change_thread
insert_into_ready_queue new s = elim s.ready_queue [
  | none ↦ (do set_ready (some new); change_thread (with_next none) (some new)) s
  | some head ↦ append_node head new s
]

-- `while (trav != NULL) { if (…) return 1; trav = trav->next; } return 0;`
unfoldable pub search_from : (Thread → Bool) → ℕ → Pointer → Cmd Bool
unfolding thread_at
search_from test zero p s = out_of_fuel
search_from test (suc fuel) none s = ok false s
search_from test (suc fuel) (some p) s =
    and_then (thread_at (some p) s)
      (λ t. elim (test t) [ true ↦ pure true | false ↦ search_from test fuel t.next ])

unfoldable pub search_queue : (Thread → Bool) → Pointer → Cmd Bool
unfolding search_from
search_queue test p s = search_from test (length s.threads + 1) p s

unfoldable pub present_in_ready_queue : ℕ → Cmd Bool
unfolding search_queue
present_in_ready_queue i s = search_queue (λ t. t.id == i) s.ready_queue s

unfoldable pub present_in_semaphore_blocked_queue : ℕ → Cmd Bool
unfolding search_queue
present_in_semaphore_blocked_queue i s = search_queue (λ t. t.id == i) s.semaphore_blocked_queue s

unfoldable pub has_waiting_threads : Semaphore → Cmd Bool
unfolding search_queue
has_waiting_threads sem s =
    search_queue (λ t. t.semaphore_blocked == sem.semaphore_id) s.semaphore_blocked_queue s
