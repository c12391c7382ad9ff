-- ===== src/Threads/Tests.antt =====
-- The theorems of the thread library at small machines, and runs of its operations.
use osprograms.Base.{
  ℕ, ◌≡◌, refl, ◌≢◌, true, false, none, some, List, [], ◌∷◌, arith, ◌==◌, pos, negsuc,
}
use osprograms.Threads.Memory.{
  Pointer, Thread, Machine, ok, fault, thread_at, change_thread, semaphore_at,
}
use osprograms.Threads.Queues.{
  last_from, last_thread, append_node, insert_into_ready_queue, present_in_ready_queue,
  present_in_semaphore_blocked_queue, has_waiting_threads,
}
use osprograms.Threads.Semaphores.{semaphore_from, get_semaphore_from_id, my_semaphore_signal}
use osprograms.Threads.Order.{
  IsReady, Created, my_thread_create-IsQueue, Yielded, my_thread_yield-IsQueue,
}
use osprograms.Threads.Block.{Blocked, IsWaiting, block_on_threads-IsQueue}
use osprograms.Threads.Count.{valued, with_semaphore, IsValued}
use osprograms.Threads.Counter.{
  Operation, signals, waits_once, stays, up, down, operations, operations-Counts,
}
use osprograms.Threads.Wake.{IsSecondWaiter, my_semaphore_signal-second}
use osprograms.Threads.Search.{present-any_thread}
use osprograms.Threads.Unblock.{is_blocked, resume, check_for_unblocking}

abbrev thread : ℕ → Pointer → ℕ → Thread
thread i next context = record {
  context = context;
  id = i;
  next = next;
  prev = none;
  parent = 0;
  blocked_for = [];
  semaphore_blocked = 0;
}

-- Threads 0 and 1 are ready, and thread 2 is blocked; the semaphore has the value 2.
abbrev machine : Machine
machine = record {
  threads = thread 0 (some 1) 10 ∷ thread 1 none 11 ∷ thread 2 none 12 ∷ [];
  semaphores = valued 0 (pos 2) none ∷ [];
  ready_queue = some 0;
  blocked_queue = some 2;
  semaphore_blocked_queue = none;
  semaphore_queue = some 0;
  thread_count = 3;
  sem_count = 1;
  start = false;
  memory = λ _. thread 77 none 0;
}

differ : {p q : ℕ} → (p == q) ≡ false → p ≢ q
differ h k = absurd (ground (arith, h, k))

machine-IsReady : IsReady machine 0 (1 ∷ [])
machine-IsReady = record {
  ready = refl;
  queue = (thread 0 (some 1) 10, refl, refl, (thread 1 none 11, refl, refl, refl));
  distinct = ((differ refl, tt), (tt, tt));
  room = omega arith;
}

machine-IsWaiting : IsWaiting machine (0 ∷ 1 ∷ []) (2 ∷ [])
machine-IsWaiting = record {
  queue = (thread 2 none 12, refl, refl, refl);
  distinct = (tt, tt);
  room = omega arith;
  apart = ((differ refl, (differ refl, tt)), tt);
  outside = ((differ refl, tt), ((differ refl, tt), tt));
}

machine-IsValued : IsValued machine 0 0 (pos 2) none
unfolding get_semaphore_from_id semaphore_from semaphore_at
machine-IsValued = record { found = refl; there = refl }

my_thread_create-IsQueue_example : Created machine 0 55 (1 ∷ []) (thread 0 (some 1) 10)
my_thread_create-IsQueue_example =
    my_thread_create-IsQueue machine 0 55 (1 ∷ []) (thread 0 (some 1) 10) machine-IsReady refl refl

my_thread_yield-IsQueue_example : Yielded machine 1 56 [] (thread 1 none 11)
my_thread_yield-IsQueue_example =
    my_thread_yield-IsQueue machine 0 1 56 [] (thread 1 none 11) machine-IsReady refl refl

block_on_threads-IsQueue_example : Blocked machine 0 1 57 (1 ∷ []) [] (2 ∷ []) (thread 1 none 11)
block_on_threads-IsQueue_example =
    block_on_threads-IsQueue machine 0 1 57 (1 ∷ []) [] (2 ∷ []) (thread 1 none 11) machine-IsReady
      machine-IsWaiting refl

-- Thread 2 goes back to the ready queue when nothing it waits for is ready.
check_for_unblocking_example :
    check_for_unblocking machine
    ≡ ok tt (record machine {
      threads = thread 0 (some 1) 10 ∷ thread 1 (some 2) 11 ∷ thread 2 none 12 ∷ [];
      blocked_queue = none;
    })
unfolding check_for_unblocking thread_at is_blocked insert_into_ready_queue append_node last_thread
    last_from change_thread resume
check_for_unblocking_example = refl

abbrev waiter : ℕ → Pointer → ℕ → Thread
waiter i next sem = record (thread i next 20) { semaphore_blocked = sem }

-- Threads 1 and 2 wait for the semaphores 1 and 0, the latter with the value -1.
abbrev machine_waiting : Machine
machine_waiting = record machine {
  threads = thread 0 none 10 ∷ waiter 1 (some 2) 1 ∷ waiter 2 none 0 ∷ [];
  semaphores = valued 0 (negsuc 0) none ∷ [];
  blocked_queue = none;
  semaphore_blocked_queue = some 1;
}

machine_waiting-IsSecondWaiter :
    IsSecondWaiter machine_waiting 0 1 2 (waiter 1 (some 2) 1) (waiter 2 none 0)
machine_waiting-IsSecondWaiter = record {
  first = refl;
  t_there = refl;
  t_other = refl;
  u_there = refl;
  u_waits = refl;
  apart = differ refl;
}

machine_waiting-IsReady : IsReady machine_waiting 0 []
machine_waiting-IsReady = record {
  ready = refl;
  queue = (thread 0 none 10, refl, refl, refl);
  distinct = (tt, tt);
  room = omega arith;
}

machine_waiting-IsValued : IsValued machine_waiting 0 0 (negsuc 0) none
unfolding get_semaphore_from_id semaphore_from semaphore_at
machine_waiting-IsValued = record { found = refl; there = refl }

my_semaphore_signal-second_example :
    my_semaphore_signal (valued 0 (negsuc 0) none) machine_waiting ≡ fault
my_semaphore_signal-second_example =
    my_semaphore_signal-second machine_waiting 0 0 1 2 0 none [] (waiter 1 (some 2) 1)
      (waiter 2 none 0) (valued 0 (negsuc 0) none) refl machine_waiting-IsValued
      machine_waiting-IsSecondWaiter machine_waiting-IsReady (differ refl, tt) (differ refl, tt)

present-any_thread_example :
    (present_in_ready_queue 2 machine_waiting ≡ ok false machine_waiting)
    × (present_in_semaphore_blocked_queue 2 machine_waiting ≡ ok true machine_waiting)
    × (has_waiting_threads (valued 0 (negsuc 0) none) machine_waiting ≡ ok true machine_waiting)
present-any_thread_example =
    present-any_thread machine_waiting 2 (valued 0 (negsuc 0) none) (0 ∷ []) (1 ∷ 2 ∷ [])
      (thread 0 none 10, refl, refl, refl)
      (waiter 1 (some 2) 1, refl, refl, (waiter 2 none 0, refl, refl, refl)) (omega arith)
      (omega arith)

-- Wait, signal, wait, wait: the counter goes from 2 to 0.
abbrev some_operations : List Operation
some_operations = waits_once ∷ signals ∷ waits_once ∷ waits_once ∷ []

operations-Counts_example :
    operations some_operations (valued 0 (pos 9) none) 59 machine
    ≡ ok tt (with_semaphore 0 (valued 0 (pos 0) none) machine)
operations-Counts_example =
    operations-Counts 2 0 0 0 59 none (valued 0 (pos 9) none) some_operations machine refl
      (down (up (omega arith) (down (down stays)))) machine-IsValued
