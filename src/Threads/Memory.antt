-- ===== src/Threads/Memory.antt =====
-- The data of thread_library.c: `MyThread`, `MySemaphore`, the global queues, and the commands over
-- them.
use osprograms.Base.{
  ℕ, zero, suc, Bool, true, false, Option, none, some, List, [], ◌∷◌, ◌++◌, length, get_elem?, set,
  ℤ, pos, negsuc,
}

-- `blockedFor` has this length.
abbrev pub arr_size : ℕ
arr_size = 10

-- `value < 0`
abbrev pub is_negative : ℤ → Bool
is_negative (pos n) = false
is_negative (negsuc n) = true

-- `value <= 0`
abbrev pub is_not_positive : ℤ → Bool
is_not_positive (pos zero) = true
is_not_positive (pos (suc n)) = false
is_not_positive (negsuc n) = true

-- A `MyThread*` is an address, the node's place in `threads`, or NULL.
abbrev pub Pointer : Type 0
Pointer = Option ℕ

-- `struct MyThread`. A `context` is a point of the program, by number.
pub record Thread : Type 0 where
  pub context : ℕ
  pub id : ℕ
  pub next : Pointer
  pub prev : Pointer
  pub parent : ℕ
  pub blocked_for : List ℕ
  pub semaphore_blocked : ℕ

-- `struct MySemaphore`
pub record Semaphore : Type 0 where
  pub semaphore_id : ℕ
  pub semaphore_value : ℤ
  pub next_semaphore : Pointer

-- The globals, the nodes that `malloc` gave so far, and what the memory of the thread's node that
-- it gives at each address holds.
pub record Machine : Type 0 where
  pub threads : List Thread
  pub semaphores : List Semaphore
  pub ready_queue : Pointer
  pub blocked_queue : Pointer
  pub semaphore_blocked_queue : Pointer
  pub semaphore_queue : Pointer
  pub thread_count : ℕ
  pub sem_count : ℕ
  pub start : Bool
  pub memory : ℕ → Thread

-- Where `setcontext` and `swapcontext` go on: in the controller, or at a saved context.
pub data Control : Type 0 where
  to_controller : Control
  to_context : ℕ → Control

-- A call returns, or leaves for another context, or reads through NULL.
pub data Run (A : Type 0) : Type 0 where
  ok : A → Machine → Run A
  leave : Control → Machine → Run A
  fault : Run A
  out_of_fuel : Run A

abbrev pub Cmd : Type 0 → Type 0
Cmd A = Machine → Run A

abbrev pub pure : {A : Type 0} → A → Cmd A
pure = ok

abbrev pub stop : {A : Type 0} → Cmd A
stop s = fault

module _ {A B : Type 0} where
  abbrev pub and_then : Run A → (A → Cmd B) → Run B
  and_then (ok a s) k = k a s
  and_then (leave c s) k = leave c s
  and_then fault k = fault
  and_then out_of_fuel k = out_of_fuel

  infixl 5 ◌>>=◌ ◌>>◌
  abbrev pub ◌>>=◌ : Cmd A → (A → Cmd B) → Cmd B
  m >>= k = λ s. and_then (m s) k

  abbrev pub ◌>>◌ : Cmd A → Cmd B → Cmd B
  m >> n = m >>= λ _. n

abbrev pub from_option : {A : Type 0} → Option A → Cmd A
from_option none = stop
from_option (some a) = pure a

-- `*p`
unfoldable pub thread_at : Pointer → Cmd Thread
thread_at none s = fault
thread_at (some p) s = from_option (get_elem? s.threads p) s

-- `*p = t`
abbrev pub put_thread : ℕ → Thread → Cmd (Unit {0})
put_thread p t s = ok tt (record s { threads = set s.threads p t })

-- An assignment to fields of `*p`.
unfoldable pub change_thread : (Thread → Thread) → Pointer → Cmd (Unit {0})
unfolding thread_at
change_thread f none s = fault
change_thread f (some p) s = and_then (thread_at (some p) s) (λ t. put_thread p (f t))

abbrev pub with_next : Pointer → Thread → Thread
with_next q t = record t { next = q }

abbrev pub with_prev : Pointer → Thread → Thread
with_prev q t = record t { prev = q }

unfoldable pub semaphore_at : Pointer → Cmd Semaphore
semaphore_at none s = fault
semaphore_at (some p) s = from_option (get_elem? s.semaphores p) s

unfoldable pub change_semaphore : (Semaphore → Semaphore) → Pointer → Cmd (Unit {0})
unfolding semaphore_at
change_semaphore f none s = fault
change_semaphore f (some p) s =
    and_then (semaphore_at (some p) s)
      (λ m t. ok tt (record t { semaphores = set t.semaphores p (f m) }))

-- `malloc(sizeof(MyThread))`
unfoldable pub new_thread : Cmd ℕ
new_thread s =
    let p = length s.threads in ok p (record s { threads = s.threads ++ (s.memory p ∷ []) })

abbrev pub set_ready : Pointer → Cmd (Unit {0})
set_ready q s = ok tt (record s { ready_queue = q })

abbrev pub set_blocked : Pointer → Cmd (Unit {0})
set_blocked q s = ok tt (record s { blocked_queue = q })

abbrev pub set_semaphore_blocked : Pointer → Cmd (Unit {0})
set_semaphore_blocked q s = ok tt (record s { semaphore_blocked_queue = q })
