-- ===== src/Threads/Count.antt =====
-- The value that wait and signal of thread_library.c keep for a semaphore.
use osprograms.Base.{
  ℕ, zero, suc, ◌+◌, ◌^◌, ◌<◌, ◌≡◌, refl, sym, ap, ◌∙◌, subst, inl, inr, Bool, true, false, none,
  some, List, [], ◌∷◌, arith, leb, ◌==◌, Bool-cases, Option-cases, length, get_elem?, set,
  length-set, get_elem?-set_self, get_elem?-set_ne, get_elem?-lt, ℤ, pos,
}
use osprograms.Threads.Memory.{
  Pointer, Semaphore, Machine, Run, ok, Cmd, pure, and_then, ◌>>◌, semaphore_at, change_semaphore,
}
use osprograms.Threads.Semaphores.{
  semaphore_from, get_semaphore_from_id, my_semaphore_signal, my_semaphore_wait,
}

pub set-set : {A : Type 0} (xs : List A) (i : ℕ) (v w : A) → set (set xs i v) i w ≡ set xs i w
set-set [] i v w = refl
set-set (x ∷ xs) zero v w = refl
set-set (x ∷ xs) (suc i) v w = ap (λ r. x ∷ r) (set-set xs i v w)

pub set_same :
    {A : Type 0} (xs : List A) (i : ℕ) (v : A) → get_elem? xs i ≡ some v → set xs i v ≡ xs
set_same [] i v h = refl
set_same (x ∷ xs) zero v h = ground arith
set_same (x ∷ xs) (suc i) v h = ap (λ r. x ∷ r) (set_same xs i v h)

abbrev pub valued : ℕ → ℤ → Pointer → Semaphore
valued i value q = record { semaphore_id = i; semaphore_value = value; next_semaphore = q }

-- The machine with another value of the semaphore at `p`.
abbrev pub with_semaphore : ℕ → Semaphore → Machine → Machine
with_semaphore p m s = record s { semaphores = set s.semaphores p m }

module _ (s : Machine) (p i : ℕ) (k k' : ℤ) (q : Pointer) where
  abbrev after : Machine
  after = with_semaphore p (valued i k' q) s

  abbrev IsKept : ℕ → ℕ → Pointer → Type 0
  IsKept fuel j from =
      semaphore_from fuel j from after ≡ and_then (semaphore_from fuel j from s) (λ r _. ok r after)

  -- The test of a node's number.
  kept_test :
      (fuel j o : ℕ) (from : Pointer) (b : Bool)
      → IsKept fuel j from
      → elim b as (λ _. Cmd Pointer) [
        | true ↦ pure (some o)
        | false ↦ λ x. semaphore_from fuel j from x
      ]
          after
        ≡ and_then
            (elim b as (λ _. Cmd Pointer) [
              | true ↦ pure (some o)
              | false ↦ λ x. semaphore_from fuel j from x
            ]
              s)
            (λ r _. ok r after)
  kept_test fuel j o from true h = refl
  kept_test fuel j o from false h = h

  -- The lookup does not read the values.
  pub semaphore_from-valued :
      (fuel j : ℕ) (from : Pointer)
      → get_elem? s.semaphores p ≡ some (valued i k q)
      → IsKept fuel j from
  unfolding semaphore_from semaphore_at
  semaphore_from-valued zero j from e = refl
  semaphore_from-valued (suc fuel) j none e = refl
  semaphore_from-valued (suc fuel) j (some o) e = elim (Bool-cases (p == o)) [
    | inl same ↦
        let w : p ≡ o = ground (arith, same) in
        let old : get_elem? s.semaphores o ≡ some (valued i k q) =
          ap (λ n. get_elem? s.semaphores n) (sym w) ∙ e in
        let new : get_elem? (set s.semaphores p (valued i k' q)) o ≡ some (valued i k' q) =
          ap (λ n. get_elem? (set s.semaphores p (valued i k' q)) n) (sym w)
          ∙ get_elem?-set_self s.semaphores p _ (get_elem?-lt s.semaphores p _ e) in
        rw (old, new) (kept_test fuel j o q (i == j) (semaphore_from-valued fuel j q e))
    | inr differ ↦
        let keep =
          get_elem?-set_ne s.semaphores p o (valued i k' q)
            (λ w. absurd (ground (arith, differ, w))) in
        elim (Option-cases (get_elem? s.semaphores o)) [
          | inl n ↦ rw (keep, n) refl
          | inr (m, h) ↦
              rw (keep, h)
                (kept_test fuel j o m.next_semaphore (m.semaphore_id == j)
                  (semaphore_from-valued fuel j m.next_semaphore e))
        ]
  ]

-- The lookup finds the semaphore with this number at `p`, whose value is `k`.
pub record IsValued (s : Machine) (p i : ℕ) (k : ℤ) (q : Pointer) : Type 0 where
  pub found : get_semaphore_from_id i s ≡ ok (some p) s
  pub there : get_elem? s.semaphores p ≡ some (valued i k q)

module _ (s : Machine) (p i : ℕ) (q : Pointer) (k : ℤ) (h : IsValued s p i k q) where
  pub with_semaphore-IsValued : (k' : ℤ) → IsValued (with_semaphore p (valued i k' q) s) p i k' q
  unfolding get_semaphore_from_id
  with_semaphore-IsValued k' = record {
    found = rw (length-set s.semaphores p (valued i k' q)) (
        semaphore_from-valued s p i k k' q (length s.semaphores + 1) i s.semaphore_queue h.there
        ∙ ap (λ r. and_then r (λ n _. ok n (with_semaphore p (valued i k' q) s))) h.found);
    there = get_elem?-set_self s.semaphores p _ (get_elem?-lt s.semaphores p _ h.there);
  }

-- `MySemaphoreSignal` of a semaphore that no thread waits for counts up.
pub my_semaphore_signal-pos :
    (s : Machine) (p i n : ℕ) (q : Pointer) (sem : Semaphore)
    → sem.semaphore_id ≡ i
    → suc n < 2 ^ 31
    → IsValued s p i (pos n) q
    → my_semaphore_signal sem s ≡ ok tt (with_semaphore p (valued i (pos (suc n)) q) s)
unfolding my_semaphore_signal change_semaphore semaphore_at
my_semaphore_signal-pos s p i n q sem e small h =
    let next = with_semaphore-IsValued s p i q (pos n) h (pos (suc n)) in
    let room : leb (2 ^ 31) (n + 1) ≡ false = ground arith in
    rw (ap (λ j. get_semaphore_from_id j s) e ∙ h.found, h.there, room)
      (rw h.there (rw next.there refl))

-- `MySemaphoreWait` at a positive value counts down and goes on.
pub my_semaphore_wait-pos :
    (s : Machine) (p i n here : ℕ) (q : Pointer) (sem : Semaphore)
    → sem.semaphore_id ≡ i
    → IsValued s p i (pos (suc n)) q
    → my_semaphore_wait sem here s ≡ ok tt (with_semaphore p (valued i (pos n) q) s)
unfolding my_semaphore_wait change_semaphore semaphore_at
my_semaphore_wait-pos s p i n here q sem e h =
    let next = with_semaphore-IsValued s p i q (pos (suc n)) h (pos n) in
    rw (ap (λ j. get_semaphore_from_id j s) e ∙ h.found, h.there) (rw h.there (rw next.there refl))

-- `MySemaphoreSignal` and then `MySemaphoreWait` of a semaphore that the lookup finds and whose
-- value is not negative and less than INT_MAX return without a switch and leave the machine as it was.
pub my_semaphore_wait-my_semaphore_signal :
    (s : Machine) (p i n here : ℕ) (q : Pointer) (sem : Semaphore)
    → sem.semaphore_id ≡ i
    → suc n < 2 ^ 31
    → IsValued s p i (pos n) q
    → (my_semaphore_signal sem >> my_semaphore_wait sem here) s ≡ ok tt s
my_semaphore_wait-my_semaphore_signal s p i n here q sem e small h =
    let m = valued i (pos (suc n)) q in
    ap (λ r. and_then r (λ _. my_semaphore_wait sem here))
      (my_semaphore_signal-pos s p i n q sem e small h)
    ∙ (my_semaphore_wait-pos (with_semaphore p m s) p i n here q sem e
          (with_semaphore-IsValued s p i q (pos n) h (pos (suc n)))
        ∙ ap (λ ms. ok tt (record s { semaphores = ms }))
            (set-set s.semaphores p m (valued i (pos n) q) ∙ set_same s.semaphores p _ h.there))

-- `MySemaphoreWait` this many times.
abbrev pub waits : ℕ → Semaphore → ℕ → Machine → Run (Unit {0})
waits zero sem here = pure tt
waits (suc n) sem here = my_semaphore_wait sem here >> waits n sem here

-- A semaphore that the lookup finds lets as many calls of `MySemaphoreWait` through as its value
-- says, without a switch of context; only its value changes, to the rest.
pub waits-count :
    (n k : ℕ) (s : Machine) (p i here : ℕ) (q : Pointer) (sem : Semaphore)
    → sem.semaphore_id ≡ i
    → IsValued s p i (pos (n + k)) q
    → waits n sem here s ≡ ok tt (with_semaphore p (valued i (pos k) q) s)
waits-count zero k s p i here q sem e h =
    let same = subst (λ m. IsValued s p i (pos m) q) (k_eq k) h in
    ap (λ ms. ok tt (record s { semaphores = ms })) (sym (set_same s.semaphores p _ same.there))
  where
    k_eq : (k : ℕ) → 0 + k ≡ k
    k_eq k = omega arith
waits-count (suc n) k s p i here q sem e h =
    let m = valued i (pos (n + k)) q in
    let more = subst (λ j. IsValued s p i (pos j) q) (suc_eq n k) h in
    ap (λ r. and_then r (λ _. waits n sem here))
      (my_semaphore_wait-pos s p i (n + k) here q sem e more)
    ∙ (waits-count n k (with_semaphore p m s) p i here q sem e
          (with_semaphore-IsValued s p i q (pos (suc (n + k))) more (pos (n + k)))
        ∙ ap (λ ms. ok tt (record s { semaphores = ms }))
            (set-set s.semaphores p m (valued i (pos k) q)))
  where
    suc_eq : (n k : ℕ) → suc n + k ≡ suc (n + k)
    suc_eq n k = omega arith
