-- ===== src/Threads/Block.antt =====
-- What `MyThreadJoin` and `MyThreadJoinAll` of thread_library.c do to the queues when they block.
use osprograms.Base.{
  ℕ, ◌≤◌, ◌≡◌, refl, sym, ap, ◌∙◌, subst, none, some, List, [], ◌∷◌, ◌++◌, length, get_elem?, set,
  All, length-set, get_elem?-set_self, get_elem?-set_ne, get_elem?-lt,
}
use osprograms.Threads.Memory.{
  Pointer, Thread, Machine, to_context, ok, leave, from_option, thread_at, change_thread, with_next,
}
use osprograms.Threads.Queues.{append_node, insert_into_blocked_queue}
use osprograms.Threads.Schedule.{running, swap_context, padded, block_on_threads}
use osprograms.Threads.Chain.{
  IsQueue, NotIn, IsDistinct, last, last-NotIn, IsPath-set, linked, append_node-IsQueue,
}
use osprograms.Threads.Grow.{IsPath-change}
use osprograms.Threads.Order.{IsReady}

-- No address is in both.
abbrev pub IsApart : List ℕ → List ℕ → Type 0
IsApart ps qs = All (λ p. NotIn p qs) ps

abbrev pub Blocked : (s : Machine) → (a b here : ℕ) → (ids ps bs : List ℕ) → Thread → Type 0
Blocked s a b here ids ps bs v =
    (r : Machine) × (block_on_threads ids here s ≡ leave (to_context v.context) r)
    × IsQueue r.threads r.ready_queue (b ∷ ps)
    × IsQueue r.threads r.blocked_queue (bs ++ (a ∷ []))
    × ((u : Thread) × (get_elem? r.threads a ≡ some u)
        × (u.blocked_for ≡ padded ids)
        × (u.context ≡ here))

module _ (s : Machine) (a b here : ℕ) (ids ps : List ℕ) (v t : Thread)
    (e : get_elem? s.threads a ≡ some t) (t_next : t.next ≡ some b) (out : NotIn a (b ∷ ps))
    (queue : IsQueue s.threads t.next (b ∷ ps)) (e' : get_elem? s.threads b ≡ some v) where
  -- The machine with these heads of its queues.
  abbrev at : Pointer → Machine
  at q = record s { ready_queue = some a; blocked_queue = q }

  abbrev named : Thread
  named = record t { blocked_for = padded ids }

  abbrev cut : Thread
  cut = record named { next = none }

  abbrev saved : Thread
  saved = record cut { context = here }

  abbrev s1 : List Thread
  s1 = set s.threads a named

  s1_self : get_elem? s1 a ≡ some named
  s1_self = get_elem?-set_self s.threads a named (get_elem?-lt s.threads a t e)

  -- `swapcontext` in the nodes `ts`.
  switch :
      (ts : List Thread) (q : Pointer)
      → get_elem? ts b ≡ some v
      → thread_at t.next (record s { threads = ts; ready_queue = t.next; blocked_queue = q })
        ≡ ok v (record s { threads = ts; ready_queue = t.next; blocked_queue = q })
  unfolding thread_at
  switch ts q k =
      let r : Machine = record s { threads = ts; ready_queue = t.next; blocked_queue = q } in
      ap (λ n. thread_at n r) t_next ∙ ap (λ m. from_option m r) k

  -- With nobody blocked the head of `ready_queue` becomes the blocked queue.
  first_waiter : Blocked (at none) a b here ids ps [] v
  unfolding block_on_threads running change_thread insert_into_blocked_queue swap_context thread_at
  first_waiter =
      let s2 = set s1 a cut in
      let s3 = set s2 a saved in
      let k2 = get_elem?-set_self s1 a cut (get_elem?-lt s1 a named s1_self) in
      let k3 = get_elem?-set_self s2 a saved (get_elem?-lt s2 a cut k2) in
      let next =
        get_elem?-set_ne s2 a b saved out.0
        ∙ (get_elem?-set_ne s1 a b cut out.0 ∙ (get_elem?-set_ne s.threads a b named out.0 ∙ e')) in
      (
        record s { threads = s3; ready_queue = t.next; blocked_queue = some a },
        rw (e, s1_self, s1_self, k2, switch s3 (some a) next) refl,
        IsPath-set s2 a saved (b ∷ ps) t.next none out (
            IsPath-set s1 a cut (b ∷ ps) t.next none out
              (IsPath-set s.threads a named (b ∷ ps) t.next none out queue)),
        (saved, refl, k3, refl),
        (saved, k3, refl, refl),
      )

  module _ (c : ℕ) (cs : List ℕ) (out' : NotIn a (c ∷ cs))
      (apart : NotIn (last c cs) (b ∷ ps)) where
    appended :
        (z : Thread)
        → append_node c a (record s { threads = s1; ready_queue = some a; blocked_queue = some c })
          ≡ ok tt (record s {
            threads = linked s1 (last c cs) z a named;
            ready_queue = some a;
            blocked_queue = some c;
          })
        → IsQueue (linked s1 (last c cs) z a named) (some c) ((c ∷ cs) ++ (a ∷ []))
        → Blocked (at (some c)) a b here ids ps (c ∷ cs) v
    unfolding block_on_threads running change_thread insert_into_blocked_queue swap_context
        thread_at
    appended z run long =
        let l1 = set s1 (last c cs) (with_next (some a) z) in
        let l2 = set l1 a cut in
        let l3 = set l2 a cut in
        let l4 = set l3 a saved in
        let k2 : get_elem? l1 a ≡ some named =
          get_elem?-set_ne s1 (last c cs) a _ (λ i. last-NotIn a c cs out' (sym i)) ∙ s1_self in
        let k3 = get_elem?-set_self l1 a cut (get_elem?-lt l1 a named k2) in
        let k4 = get_elem?-set_self l2 a cut (get_elem?-lt l2 a cut k3) in
        let k5 = get_elem?-set_self l3 a saved (get_elem?-lt l3 a cut k4) in
        let behind = IsPath-set l3 a saved (b ∷ ps) t.next none out (
          IsPath-set l2 a cut (b ∷ ps) t.next none out (
            IsPath-set l1 a cut (b ∷ ps) t.next none out (
              IsPath-set s1 (last c cs) _ (b ∷ ps) t.next none apart
                (IsPath-set s.threads a named (b ∷ ps) t.next none out queue)))) in
        let next =
          get_elem?-set_ne l3 a b saved out.0
          ∙ (get_elem?-set_ne l2 a b cut out.0
              ∙ (get_elem?-set_ne l1 a b cut out.0
                  ∙ (get_elem?-set_ne s1 (last c cs) b _ apart.0
                      ∙ (get_elem?-set_ne s.threads a b named out.0 ∙ e')))) in
        (
          record s { threads = l4; ready_queue = t.next; blocked_queue = some c },
          rw (e, s1_self, run, k3, k4, switch l4 (some c) next) refl,
          behind,
          IsPath-change l3 a cut saved ((c ∷ cs) ++ (a ∷ [])) (some c) none k4 refl
              (IsPath-change l2 a cut cut ((c ∷ cs) ++ (a ∷ [])) (some c) none k3 refl long),
          (saved, k5, refl, refl),
        )

    later_waiter :
        IsQueue s.threads (some c) (c ∷ cs)
        → IsDistinct (c ∷ cs)
        → length (c ∷ cs) ≤ length s.threads
        → Blocked (at (some c)) a b here ids ps (c ∷ cs) v
    later_waiter queue' distinct room =
        let (z, run, long) =
          append_node-IsQueue
            (record s { threads = s1; ready_queue = some a; blocked_queue = some c }) c a cs
            (IsPath-set s.threads a named (c ∷ cs) (some c) none out' queue') distinct out'
            (rw (length-set s.threads a named) room) named s1_self in
        appended z run long

-- The blocked queue is the nodes at these addresses, none of them in `ps`.
pub record IsWaiting (s : Machine) (ps bs : List ℕ) : Type 0 where
  pub queue : IsQueue s.threads s.blocked_queue bs
  pub distinct : IsDistinct bs
  pub room : length bs ≤ length s.threads
  pub apart : IsApart bs ps
  pub outside : IsApart ps bs

last-IsApart : (c : ℕ) (cs ps : List ℕ) → IsApart (c ∷ cs) ps → NotIn (last c cs) ps
last-IsApart c [] ps h = h.0
last-IsApart c (d ∷ ds) ps h = last-IsApart d ds ps h.1

-- The part that `MyThreadJoin` and `MyThreadJoinAll` share, from the point where they block. Where
-- another thread is ready, and the ready queue and the blocked queue are distinct nodes, none of
-- them in both, the running thread goes behind the
-- blocked ones, with the numbers that it waits for and the context of the call saved in it; the
-- ready queue is the others in their order, and the control goes to the first one's context.
pub block_on_threads-IsQueue :
    (s : Machine) (a b here : ℕ) (ids ps bs : List ℕ) (v : Thread)
    → IsReady s a (b ∷ ps)
    → IsWaiting s (a ∷ b ∷ ps) bs
    → get_elem? s.threads b ≡ some v
    → Blocked s a b here ids ps bs v
block_on_threads-IsQueue s a b here ids ps [] v h w k =
    let (t, _, e, rest) = h.queue in
    subst (λ m. Blocked m a b here ids ps [] v)
      (λ i. record s { ready_queue = sym h.ready i; blocked_queue = sym w.queue i })
      (first_waiter s a b here ids ps v t e rest.1 h.distinct.0 rest k)
block_on_threads-IsQueue s a b here ids ps (c ∷ cs) v h w k =
    let (t, _, e, rest) = h.queue in
    let (u, first, there, more) = w.queue in
    subst (λ m. Blocked m a b here ids ps (c ∷ cs) v)
      (λ i. record s { ready_queue = sym h.ready i; blocked_queue = sym first i })
      (later_waiter s a b here ids ps v t e rest.1 h.distinct.0 rest k c cs w.outside.0
        (last-IsApart c cs (b ∷ ps) (apart_tail c cs w.apart)) (u, refl, there, more) w.distinct
        w.room)
  where
    apart_tail : (c : ℕ) (cs : List ℕ) → IsApart (c ∷ cs) (a ∷ b ∷ ps) → IsApart (c ∷ cs) (b ∷ ps)
    apart_tail c [] h = (h.0.1, tt)
    apart_tail c (d ∷ ds) h = (h.0.1, apart_tail d ds h.1)
