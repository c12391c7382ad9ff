-- ===== src/Threads/Order.antt =====
-- What creation and yield of thread_library.c do to the ready queue.
use osprograms.Base.{
  ℕ, ◌+◌, ◌≤◌, ◌<◌, ◌≡◌, refl, ap, ◌∙◌, none, some, List, [], ◌∷◌, ◌++◌, arith, length, get_elem?,
  set, get_elem?-set_self, get_elem?-set_ne, get_elem?-lt,
}
use osprograms.Threads.Memory.{
  Thread, Machine, to_context, ok, leave, from_option, thread_at, change_thread, with_prev,
}
use osprograms.Threads.Schedule.{running, my_thread_create, swap_context, my_thread_yield}
use osprograms.Threads.Chain.{IsQueue, IsDistinct, last}
use osprograms.Threads.Grow.{IsPath-change, grown, insert_node-IsQueue, grown-SameThread}
use osprograms.Threads.Queues.{insert_node}

-- The ready queue is the nodes at these addresses, the running thread's first.
pub record IsReady (s : Machine) (a : ℕ) (ps : List ℕ) : Type 0 where
  pub ready : s.ready_queue ≡ some a
  pub queue : IsQueue s.threads (some a) (a ∷ ps)
  pub distinct : IsDistinct (a ∷ ps)
  pub room : length (a ∷ ps) ≤ length s.threads

-- The memory that the next node gets has a NULL where `next` lies.
abbrev pub IsClean : Machine → Type 0
IsClean s = (s.memory (length s.threads)).next ≡ none

-- What `insertNode` gave, `t` being the node that was the last.
abbrev Inserted : (s : Machine) → (a l : ℕ) → (ps : List ℕ) → Thread → Type 0
Inserted s a l ps t =
    let us = grown s.threads l t (s.memory (length s.threads)) in
    (insert_node (some a) s ≡ ok (length s.threads) (record s { threads = us }))
    × IsQueue us (some a) (ps ++ (length s.threads ∷ []))
    × (get_elem? us (length s.threads) ≡ some (with_prev (some l) (s.memory (length s.threads))))

abbrev pub Created : (s : Machine) → (a entry : ℕ) → (ps : List ℕ) → Thread → Type 0
Created s a entry ps v =
    (child : Thread) × (r : Machine) × (my_thread_create entry s ≡ ok child r)
    × ((child.id ≡ s.thread_count) × (child.parent ≡ v.id) × (child.context ≡ entry))
    × (r.thread_count ≡ s.thread_count + 1)
    × (get_elem? r.threads (length s.threads) ≡ some child)
    × IsQueue r.threads r.ready_queue ((a ∷ ps) ++ (length s.threads ∷ []))

created :
    (s : Machine) (a entry l : ℕ) (ps : List ℕ) (v t w : Thread)
    → s.ready_queue ≡ some a
    → a < length s.threads
    → Inserted s a l (a ∷ ps) t
    → get_elem? (grown s.threads l t (s.memory (length s.threads))) a ≡ some w
    → w.id ≡ v.id
    → Created s a entry ps v
unfolding my_thread_create running change_thread thread_at
created s a entry l ps v t w ready below (run, queue, self) here same =
    let new = length s.threads in
    let us = grown s.threads l t (s.memory new) in
    let named : Thread = record (with_prev (some l) (s.memory new)) { id = s.thread_count } in
    let child : Thread = record named { parent = w.id; context = entry } in
    let named_self = get_elem?-set_self us new named (get_elem?-lt us new _ self) in
    let child_self =
      get_elem?-set_self (set us new named) new child
        (get_elem?-lt (set us new named) new named named_self) in
    let first = get_elem?-set_ne us new a named (λ k. omega arith) ∙ here in
    (
      child,
      record s { threads = set (set us new named) new child; thread_count = s.thread_count + 1 },
      rw (ap (λ q. insert_node q s) ready ∙ run, self, ready, first, named_self, child_self) refl,
      (refl, same, refl),
      refl,
      child_self,
      rw ready (
          IsPath-change (set us new named) new named child ((a ∷ ps) ++ (new ∷ [])) (some a) none
            named_self refl
            (IsPath-change us new _ named ((a ∷ ps) ++ (new ∷ [])) (some a) none self refl queue)),
    )

-- `MyThreadCreate`, where the ready queue is distinct nodes, the running thread's first, and the
-- memory of the new node has a NULL for `next`: it returns a thread
-- with the next number, the running thread's number for its parent and the context given, and puts
-- its node behind the ready queue's, whose order it keeps.
pub my_thread_create-IsQueue :
    (s : Machine) (a entry : ℕ) (ps : List ℕ) (v : Thread)
    → IsReady s a ps
    → IsClean s
    → get_elem? s.threads a ≡ some v
    → Created s a entry ps v
my_thread_create-IsQueue s a entry ps v h clean e =
    let (t, last_t, run, queue, self) =
      insert_node-IsQueue s a ps h.queue h.distinct h.room clean in
    let (w, here, same) = grown-SameThread s a ps h.queue h.distinct h.room clean t a v last_t e in
    created s a entry (last a ps) ps v t w h.ready (get_elem?-lt s.threads a v e) (run, queue, self)
      here same.0

abbrev pub Yielded : (s : Machine) → (b here : ℕ) → (ps : List ℕ) → Thread → Type 0
Yielded s b here ps v =
    (r : Machine) × (my_thread_yield here s ≡ leave (to_context v.context) r)
    × IsQueue r.threads r.ready_queue ((b ∷ ps) ++ (length s.threads ∷ []))
    × ((u : Thread) × (get_elem? r.threads (length s.threads) ≡ some u)
        × (u.context ≡ here)
        × (u.id ≡ (s.memory (length s.threads)).id))

yielded :
    (s : Machine) (a b here l : ℕ) (ps : List ℕ) (v t w o : Thread)
    → s.ready_queue ≡ some a
    → b < length s.threads
    → get_elem? s.threads a ≡ some o
    → o.next ≡ some b
    → Inserted s a l (a ∷ b ∷ ps) t
    → get_elem? (grown s.threads l t (s.memory (length s.threads))) b ≡ some w
    → w.context ≡ v.context
    → Yielded s b here ps v
unfolding my_thread_yield running swap_context change_thread thread_at
yielded s a b here l ps v t w o ready below first o_next
      (run, (o', _, first', (w', o'_next, at, rest)), self) there same =
    let new = length s.threads in
    let us = grown s.threads l t (s.memory new) in
    let saved : Thread = record (with_prev (some l) (s.memory new)) { context = here } in
    let next = get_elem?-set_ne us new b saved (λ k. omega arith) ∙ there in
    let head : running s ≡ ok o s =
      ap (λ q. thread_at q s) ready ∙ ap (λ m. from_option m s) first in
    (
      record s { threads = set us new saved; ready_queue = some b },
      rw
          (
            head,
            o_next,
            ap (λ q. insert_node q s) ready ∙ run,
            ready,
            first',
            o'_next,
            self,
            next,
            same,
          )
          refl,
      IsPath-change us new _ saved ((b ∷ ps) ++ (new ∷ [])) (some b) none self refl
          (w', refl, at, rest),
      (saved, get_elem?-set_self us new saved (get_elem?-lt us new _ self), refl, refl),
    )

-- `MyThreadYield` of a thread that others wait behind, where the ready queue is distinct nodes and
-- the memory of a new node has a NULL for `next`: the control goes to the context of the second thread, which the ready queue now
-- starts with, the others follow in their order, and last comes a new node, which has the context
-- of the call and the number that its memory held, whatever the number of the yielding thread.
pub my_thread_yield-IsQueue :
    (s : Machine) (a b here : ℕ) (ps : List ℕ) (v : Thread)
    → IsReady s a (b ∷ ps)
    → IsClean s
    → get_elem? s.threads b ≡ some v
    → Yielded s b here ps v
my_thread_yield-IsQueue s a b here ps v h clean e =
    let (t, last_t, run, queue, self) =
      insert_node-IsQueue s a (b ∷ ps) h.queue h.distinct h.room clean in
    let (w, there, same) =
      grown-SameThread s a (b ∷ ps) h.queue h.distinct h.room clean t b v last_t e in
    let (o, _, first, (_, o_next, _, _)) = h.queue in
    yielded s a b here (last b ps) ps v t w o h.ready (get_elem?-lt s.threads b v e) first o_next
      (run, queue, self) there same.1
