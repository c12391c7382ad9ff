-- ===== src/Threads/Unblock.antt =====
-- `CheckForUnblocking`, `MyThreadInit` and the controller of thread_library.c.
use osprograms.Base.{
  ℕ, zero, suc, ◌+◌, Bool, true, false, not, none, some, List, [], ◌∷◌, ◌==◌, is_some, length,
}
use osprograms.Threads.Memory.{
  Pointer, to_controller, to_context, ok, leave, out_of_fuel, Cmd, pure, and_then, ◌>>=◌, ◌>>◌,
  thread_at, change_thread, with_next, new_thread, set_ready, set_blocked,
}
use osprograms.Threads.Queues.{
  insert_into_ready_queue, present_in_ready_queue, present_in_semaphore_blocked_queue,
}
use osprograms.Threads.Schedule.{running}

-- The loop over `blockedFor`, whose result is `flag`.
unfoldable pub is_blocked : List ℕ → Cmd Bool
unfolding present_in_ready_queue present_in_semaphore_blocked_queue
is_blocked [] s = ok false s
is_blocked (i ∷ ids) s = elim (i == 0) [
  | true ↦ ok false s
  | false ↦ and_then (present_in_ready_queue i s) (λ ready. elim ready [
    | true ↦ pure true
    | false ↦ do
      waiting ← present_in_semaphore_blocked_queue i
      elim waiting [ true ↦ pure true | false ↦ is_blocked ids ]
  ])
]

-- `p->next`
unfoldable pub next_of : Pointer → Cmd Pointer
unfolding thread_at
next_of p s = and_then (thread_at p s) (λ t. pure t.next)

-- `prev == trav`
abbrev pub same_pointer : Pointer → Pointer → Bool
same_pointer none none = true
same_pointer (some p) (some q) = p == q
same_pointer none (some q) = false
same_pointer (some p) none = false

-- The branch of the loop that takes `temp` out; it gives the new `prev` and `trav`.
unfoldable pub take_blocked : Pointer → ℕ → Cmd (Pointer × Pointer)
unfolding next_of change_thread insert_into_ready_queue
take_blocked prev temp = do
  at ← elim (same_pointer prev (some temp)) [
    | true ↦ do next ← λ s. next_of s.blocked_queue s; set_blocked next; pure (next, next)
    | false ↦ do next ← next_of (some temp); pure (prev, next)
  ]
  second ← next_of at.1
  third ← next_of second
  change_thread (with_next third) at.1
  insert_into_ready_queue temp
  pure at

-- `while (trav != NULL)` of `CheckForUnblocking`.
unfoldable pub unblock_from : ℕ → Pointer → Pointer → Cmd (Unit {0})
unfolding thread_at is_blocked take_blocked
unblock_from zero prev trav s = out_of_fuel
unblock_from (suc fuel) prev none s = ok tt s
unblock_from (suc fuel) prev (some p) s = and_then (thread_at (some p) s) (λ t. do
  blocked ← is_blocked t.blocked_for
  elim blocked [
    | true ↦ unblock_from fuel (some p) t.next
    | false ↦ do at ← take_blocked prev p; unblock_from fuel at.0 at.1
  ])

-- `if (isReadyEmpty == 1) setcontext(&ready_queue->context);`
unfoldable pub resume : Bool → Cmd (Unit {0})
unfolding running
resume false = pure tt
resume true = do t ← running; leave (to_context t.context)

-- The second part of `CheckForUnblocking`.
unfoldable pub unblock_rest : Bool → Cmd (Unit {0})
unfolding unblock_from resume
unblock_rest is_ready_empty = do
  λ s. unblock_from (length s.threads + 1) s.blocked_queue s.blocked_queue s
  resume is_ready_empty

unfoldable pub check_for_unblocking : Cmd (Unit {0})
unfolding thread_at is_blocked insert_into_ready_queue unblock_rest resume
check_for_unblocking s =
    let is_ready_empty = not (is_some s.ready_queue) in
    elim s.blocked_queue [
      | none ↦ ok tt s
      | some p ↦
          (do
            t ← thread_at (some p)
            blocked ← is_blocked t.blocked_for
            elim blocked [
              | true ↦ unblock_rest is_ready_empty
              | false ↦ do
                set_blocked t.next
                insert_into_ready_queue p
                elim t.next [ none ↦ resume is_ready_empty | some q ↦ unblock_rest is_ready_empty ]
            ])
            s
    ]

-- What runs from `getcontext(&controller)` on, each time the control comes back to it.
unfoldable pub controller : Cmd (Unit {0})
unfolding check_for_unblocking running next_of
controller = do
  check_for_unblocking
  λ s. elim s.ready_queue [
    | none ↦ ok tt s
    | some p ↦ elim s.start [
      | true ↦ (do t ← running; λ r. leave (to_context t.context) (record r { start = false })) s
      | false ↦ and_then (next_of (some p) s) (λ next. elim next [
        | some q ↦ do set_ready (some q); t ← running; leave (to_context t.context)
        | none ↦ do
          set_ready none
          check_for_unblocking
          λ r. elim r.ready_queue [
            | none ↦ ok tt r
            | some q ↦ (do t ← running; leave (to_context t.context)) r
          ]
      ])
    ]
  ]

-- The first thread's node keeps what its memory held for `next` and `parent`.
unfoldable pub my_thread_init : ℕ → Cmd (Unit {0})
unfolding new_thread change_thread controller
my_thread_init entry = do
  p ← λ s. new_thread (record s { start = true })
  set_ready (some p)
  λ s.
      change_thread (λ t. record t { id = s.thread_count; context = entry }) (some p)
        (record s { thread_count = s.thread_count + 1 })
  controller

-- `MyThreadExit`
unfoldable pub my_thread_exit : Cmd (Unit {0})
my_thread_exit = leave to_controller
