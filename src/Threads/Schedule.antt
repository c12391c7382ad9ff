-- ===== src/Threads/Schedule.antt =====
-- The threads of thread_library.c: creation, yield and join.
use osprograms.Base.{
  ℕ, zero, suc, ◌+◌, ◌-◌, Bool, true, false, not, ◌&&◌, none, some, List, [], ◌∷◌, ◌++◌, ◌==◌,
  length, replicate,
}
use osprograms.Threads.Memory.{
  arr_size, Pointer, Thread, to_context, ok, leave, fault, out_of_fuel, Cmd, pure, stop, and_then,
  ◌>>=◌, ◌>>◌, thread_at, change_thread, with_next, set_ready,
}
use osprograms.Threads.Queues.{insert_node, insert_into_blocked_queue, present_in_ready_queue}

-- The running thread, `ready_queue->…`.
unfoldable pub running : Cmd Thread
unfolding thread_at
running s = thread_at s.ready_queue s

-- `entry` is the context that `makecontext` makes. The thread is returned by value.
unfoldable pub my_thread_create : ℕ → Cmd Thread
unfolding insert_node change_thread thread_at running
my_thread_create entry s =
    (do
      child ← insert_node s.ready_queue
      change_thread (λ t. record t { id = s.thread_count }) (some child)
      λ r. ok tt (record r { thread_count = s.thread_count + 1 })
      parent ← running
      change_thread (λ t. record t { parent = parent.id; context = entry }) (some child)
      thread_at (some child))
      s

-- `swapcontext(&from->context, &ready_queue->context)`: `here` is the context that it saves.
unfoldable pub swap_context : ℕ → ℕ → Cmd (Unit {0})
unfolding change_thread running
swap_context from here = do
  change_thread (λ t. record t { context = here }) (some from)
  to ← running
  leave (to_context to.context)

-- The thread goes on in a new node behind the others.
unfoldable pub my_thread_yield : ℕ → Cmd (Unit {0})
unfolding running insert_node swap_context
my_thread_yield here s = and_then (running s) (λ t. elim t.next [
  | none ↦ pure tt
  | some q ↦ do
    child ← λ r. insert_node r.ready_queue r
    u ← running
    set_ready u.next
    swap_context child here
])

-- The array `blockedFor`, with zeros behind the numbers.
abbrev pub padded : List ℕ → List ℕ
padded ids = ids ++ replicate (arr_size - length ids) 0

-- The running thread leaves the ready queue for the threads that it waits for.
unfoldable pub block_on_threads : List ℕ → ℕ → Cmd (Unit {0})
unfolding running change_thread insert_into_blocked_queue swap_context
block_on_threads ids here s = elim s.ready_queue [
  | none ↦ fault
  | some p ↦
      (do
        change_thread (λ t. record t { blocked_for = padded ids }) (some p)
        t ← running
        insert_into_blocked_queue p
        change_thread (with_next none) (some p)
        set_ready t.next
        swap_context p here)
        s
]

-- What `MyThreadJoin` returns without a switch.
pub data Joined : Type 0 where
  not_a_child joined : Joined

unfoldable pub my_thread_join : Thread → ℕ → Cmd Joined
unfolding running present_in_ready_queue block_on_threads
my_thread_join thread here = do
  t ← running
  elim (thread.parent == t.id) [
    | false ↦ pure not_a_child
    | true ↦ do
      present ← present_in_ready_queue thread.id
      elim present [
        | false ↦ pure joined
        | true ↦ do block_on_threads (thread.id ∷ []) here; pure joined
      ]
  ]

-- `trav->parent == ready_queue->id && !(ready_queue->id == 0 && trav->id == 0)`
abbrev pub is_child : ℕ → Thread → Bool
is_child me t = (t.parent == me) && not ((me == 0) && (t.id == 0))

-- The walk of `MyThreadJoinAll`; `room` is what is left of the array `children`.
unfoldable pub children_from : ℕ → ℕ → ℕ → Pointer → Cmd (List ℕ)
unfolding thread_at
children_from zero room me p s = out_of_fuel
children_from (suc fuel) room me none s = ok [] s
children_from (suc fuel) room me (some p) s = and_then (thread_at (some p) s) (λ t.
    elim (is_child me t) [
      | false ↦ children_from fuel room me t.next
      | true ↦ elim room [
        | zero ↦ stop
        | suc left ↦ do ids ← children_from fuel left me t.next; pure (t.id ∷ ids)
      ]
    ])

unfoldable pub my_thread_join_all : ℕ → Cmd (Unit {0})
unfolding running children_from block_on_threads
my_thread_join_all here s =
    (do
      t ← running
      ids ← children_from (length s.threads + 1) arr_size t.id s.ready_queue
      elim ids [ [] ↦ pure tt | i ∷ is ↦ block_on_threads (i ∷ is) here ])
      s
