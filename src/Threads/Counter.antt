-- ===== src/Threads/Counter.antt =====
-- A semaphore of thread_library.c against a counter that is never negative.
use osprograms.Base.{ℕ, suc, ◌^◌, ◌<◌, ◌≡◌, sym, ap, ◌∙◌, List, [], ◌∷◌, set-set, pos}
use osprograms.Threads.Memory.{Pointer, Semaphore, Machine, ok, Cmd, pure, ◌>>◌}
use osprograms.Threads.Semaphores.{my_semaphore_signal, my_semaphore_wait}
use osprograms.Threads.Count.{
  set_same, valued, with_semaphore, IsValued, with_semaphore-IsValued, my_semaphore_signal-pos,
  my_semaphore_wait-pos,
}

pub data Operation : Type 0 where
  signals waits_once : Operation

-- What the operations do to the counter, where no wait has to block and the counter stays below
-- 2 ^ 31.
pub data Counts : ℕ → List Operation → ℕ → Type 0 where
  stays : {n : ℕ} → Counts n [] n
  up :
      {n m : ℕ} {ops : List Operation}
      → suc n < 2 ^ 31
      → Counts (suc n) ops m
      → Counts n (signals ∷ ops) m
  down : {n m : ℕ} {ops : List Operation} → Counts n ops m → Counts (suc n) (waits_once ∷ ops) m

-- The operations on the semaphore `sem`, one after the other; `here` is the context of a wait.
abbrev pub operations : List Operation → Semaphore → ℕ → Cmd (Unit {0})
operations [] sem here = pure tt
operations (signals ∷ ops) sem here = my_semaphore_signal sem >> operations ops sem here
operations (waits_once ∷ ops) sem here = my_semaphore_wait sem here >> operations ops sem here

-- One more change of the same semaphore.
with_semaphore-again :
    (s : Machine) (p : ℕ) (m m' : Semaphore)
    → with_semaphore p m' (with_semaphore p m s) ≡ with_semaphore p m' s
with_semaphore-again s p m m' =
    ap (λ ms. record s { semaphores = ms }) (set-set s.semaphores p m m')

-- A run of signals and waits that a counter below 2 ^ 31 allows, of a semaphore that the lookup finds with the
-- counter's value, goes through without a switch, and the value is the counter's at the end; nothing
-- else changes.
pub operations-Counts :
    (n m p i here : ℕ) (q : Pointer) (sem : Semaphore) (ops : List Operation) (s : Machine)
    → sem.semaphore_id ≡ i
    → Counts n ops m
    → IsValued s p i (pos n) q
    → operations ops sem here s ≡ ok tt (with_semaphore p (valued i (pos m) q) s)
operations-Counts n m p i here q sem _ s e stays h =
    ap (λ ms. ok tt (record s { semaphores = ms })) (sym (set_same s.semaphores p _ h.there))
operations-Counts n m p i here q sem _ s e (up small c) h =
    let next = with_semaphore-IsValued s p i q (pos n) h (pos (suc n)) in
    let later = operations-Counts (suc n) m p i here q sem _ _ e c next in
    rw (my_semaphore_signal-pos s p i n q sem e small h)
      (later ∙ ap (λ r. ok tt r) (with_semaphore-again s p _ _))
operations-Counts (suc n) m p i here q sem _ s e (down c) h =
    let next = with_semaphore-IsValued s p i q (pos (suc n)) h (pos n) in
    let later = operations-Counts n m p i here q sem _ _ e c next in
    rw (my_semaphore_wait-pos s p i n here q sem e h)
      (later ∙ ap (λ r. ok tt r) (with_semaphore-again s p _ _))
