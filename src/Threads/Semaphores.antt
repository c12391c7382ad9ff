-- ===== src/Threads/Semaphores.antt =====
-- The semaphores of thread_library.c: creation, lookup, deletion, signal and wait.
use osprograms.Base.{
  ℕ, zero, suc, ◌+◌, Bool, true, false, Option, none, some, [], ◌∷◌, ◌++◌, ◌==◌, if◌then◌else◌,
  length, ℤ, suc_ℤ, pred_ℤ, is_int_max, is_int_min,
}
use osprograms.Threads.Memory.{
  is_negative, is_not_positive, Pointer, Semaphore, to_controller, to_context, ok, leave, fault,
  out_of_fuel, Cmd, pure, stop, and_then, ◌>>=◌, ◌>>◌, thread_at, change_thread, with_next,
  semaphore_at, change_semaphore, set_ready, set_semaphore_blocked,
}
use osprograms.Threads.Queues.{
  insert_into_semaphore_blocked_queue, insert_into_ready_queue, has_waiting_threads,
}

unfoldable pub last_semaphore_from : ℕ → ℕ → Cmd ℕ
unfolding semaphore_at
last_semaphore_from zero p s = out_of_fuel
last_semaphore_from (suc fuel) p s =
    and_then (semaphore_at (some p) s)
      (λ m. elim m.next_semaphore [ none ↦ pure p | some q ↦ last_semaphore_from fuel q ])

abbrev pub with_next_semaphore : Pointer → Semaphore → Semaphore
with_next_semaphore q m = record m { next_semaphore = q }

unfoldable pub insert_into_semaphore_queue : ℕ → Cmd (Unit {0})
unfolding last_semaphore_from change_semaphore
insert_into_semaphore_queue new s = elim s.semaphore_queue [
  | none ↦
      change_semaphore (with_next_semaphore none) (some new)
        (record s { semaphore_queue = some new })
  | some head ↦
      (do
        last ← last_semaphore_from (length s.semaphores) head
        change_semaphore (with_next_semaphore (some new)) (some last)
        change_semaphore (with_next_semaphore none) (some new))
        s
]

unfoldable pub semaphore_from : ℕ → ℕ → Pointer → Cmd Pointer
unfolding semaphore_at
semaphore_from zero i p s = out_of_fuel
semaphore_from (suc fuel) i none s = ok none s
semaphore_from (suc fuel) i (some p) s = and_then (semaphore_at (some p) s) (λ m.
    elim (m.semaphore_id == i) [
      | true ↦ pure (some p)
      | false ↦ semaphore_from fuel i m.next_semaphore
    ])

unfoldable pub get_semaphore_from_id : ℕ → Cmd Pointer
unfolding semaphore_from
get_semaphore_from_id i s = semaphore_from (length s.semaphores + 1) i s.semaphore_queue s

-- For a semaphore that is not the first, the walk starts at `blocked_queue`, a queue of threads, and
-- reads `trav->next` of a semaphore: through NULL, or of an object of another type, which C leaves
-- undefined before a second round.
unfoldable pub walk_of_threads : Cmd Bool
walk_of_threads s = elim s.blocked_queue [ none ↦ fault | some thread ↦ fault ]

unfoldable pub delete_semaphore : ℕ → Cmd Bool
unfolding semaphore_at walk_of_threads
delete_semaphore i s = elim s.semaphore_queue [
  | none ↦ ok false s
  | some p ↦ and_then (semaphore_at (some p) s) (λ m t. elim (m.semaphore_id == i) [
    | true ↦ ok true (record t { semaphore_queue = m.next_semaphore })
    | false ↦ walk_of_threads t
  ])
]

abbrev pub initial_semaphore : ℕ → ℤ → Semaphore
initial_semaphore i value = record {
  semaphore_id = i;
  semaphore_value = value;
  next_semaphore = none;
}

-- With a negative value it returns an undefined structure, `none`. The
-- insertion assigns the field `next` that `malloc` leaves.
unfoldable pub my_semaphore_init : ℤ → Cmd (Option Semaphore)
unfolding insert_into_semaphore_queue semaphore_at
my_semaphore_init value s = elim (is_negative value) [
  | true ↦ ok none s
  | false ↦
      (do
        insert_into_semaphore_queue (length s.semaphores)
        m ← semaphore_at (some (length s.semaphores))
        pure (some m))
        (record s {
          semaphores = s.semaphores ++ (initial_semaphore s.sem_count value ∷ []);
          sem_count = s.sem_count + 1;
        })
]

-- What `MySemaphoreDestroy` returns is 0 or -1.
pub data Outcome : Type 0 where
  zero_result minus_one : Outcome

unfoldable pub my_semaphore_destroy : Semaphore → Cmd Outcome
unfolding has_waiting_threads delete_semaphore
my_semaphore_destroy sem = do
  waiting ← has_waiting_threads sem
  elim waiting [
    | true ↦ pure minus_one
    | false ↦ do
      deleted ← delete_semaphore sem.semaphore_id
      if deleted then pure zero_result else pure minus_one
  ]

-- The walk of `RemoveFromSemaphoreBlocked` behind the head: it does not stop at the first match.
unfoldable pub remove_waiting : ℕ → ℕ → ℕ → Cmd (Unit {0})
unfolding thread_at change_thread insert_into_ready_queue
remove_waiting zero i trav s = out_of_fuel
remove_waiting (suc fuel) i trav s = and_then (thread_at (some trav) s) (λ t. elim t.next [
  | none ↦ pure tt
  | some p ↦ do
    u ← thread_at (some p)
    elim (u.semaphore_blocked == i) [
      | true ↦ do insert_into_ready_queue p; change_thread (with_next u.next) (some trav)
      | false ↦ pure tt
    ]
    v ← thread_at (some trav)
    elim v.next [ none ↦ stop | some q ↦ remove_waiting fuel i q ]
])

unfoldable pub remove_from_semaphore_blocked : ℕ → Cmd (Unit {0})
unfolding thread_at insert_into_ready_queue remove_waiting
remove_from_semaphore_blocked i s = elim s.semaphore_blocked_queue [
  | none ↦ ok tt s
  | some p ↦ and_then (thread_at (some p) s) (λ t. elim (t.semaphore_blocked == i) [
    | true ↦ do insert_into_ready_queue p; set_semaphore_blocked t.next
    | false ↦ remove_waiting (length s.threads) i p
  ])
]

abbrev pub with_value : (ℤ → ℤ) → Semaphore → Semaphore
with_value f m = record m { semaphore_value = f m.semaphore_value }

-- The overflow of `semaphoreValue++` or `semaphoreValue--`.
abbrev pub stop_if : Bool → Cmd (Unit {0})
stop_if true = stop
stop_if false = pure tt

unfoldable pub my_semaphore_signal : Semaphore → Cmd (Unit {0})
unfolding get_semaphore_from_id change_semaphore semaphore_at has_waiting_threads
    remove_from_semaphore_blocked
my_semaphore_signal semaphore = do
  p ← get_semaphore_from_id semaphore.semaphore_id
  old ← semaphore_at p
  stop_if (is_int_max old.semaphore_value)
  change_semaphore (with_value suc_ℤ) p
  sem ← semaphore_at p
  elim (is_not_positive sem.semaphore_value) [
    | false ↦ pure tt
    | true ↦ do
      waiting ← has_waiting_threads sem
      if waiting then remove_from_semaphore_blocked sem.semaphore_id else pure tt
  ]

-- The part of `MySemaphoreWait` for the running thread, which the head of the ready queue is.
unfoldable pub block_on_semaphore : ℕ → ℕ → Cmd (Unit {0})
unfolding thread_at change_thread insert_into_semaphore_blocked_queue
block_on_semaphore i here s = elim s.ready_queue [
  | none ↦ leave to_controller s
  | some p ↦
      (do
        change_thread (λ t. record t { semaphore_blocked = i }) (some p)
        t ← thread_at (some p)
        insert_into_semaphore_blocked_queue p
        change_thread (λ u. record u { context = here; next = none }) (some p)
        set_ready t.next
        elim t.next [
          | none ↦ pure tt
          | some q ↦ do u ← thread_at (some q); leave (to_context u.context)
        ])
        s
]

-- `here` is the context that `getcontext` saves.
unfoldable pub my_semaphore_wait : Semaphore → ℕ → Cmd (Unit {0})
unfolding get_semaphore_from_id change_semaphore semaphore_at block_on_semaphore
my_semaphore_wait semaphore here = do
  p ← get_semaphore_from_id semaphore.semaphore_id
  old ← semaphore_at p
  stop_if (is_int_min old.semaphore_value)
  change_semaphore (with_value pred_ℤ) p
  sem ← semaphore_at p
  elim (is_negative sem.semaphore_value) [
    | false ↦ pure tt
    | true ↦ block_on_semaphore sem.semaphore_id here
  ]
