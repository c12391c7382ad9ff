-- ===== src/Threads/Chain.antt =====
-- A queue of thread_library.c as the list of its nodes' addresses.
use osprograms.Base.{
  ℕ, zero, suc, ◌≤◌, ◌≡◌, refl, sym, ◌∙◌, ◌≢◌, none, some, List, [], ◌∷◌, ◌++◌, arith, length,
  get_elem?, set, All, get_elem?-set_self, get_elem?-set_ne, get_elem?-lt,
}
use osprograms.Threads.Memory.{Pointer, Thread, Machine, ok, thread_at, change_thread, with_next}
use osprograms.Threads.Queues.{last_from, last_thread, append_node}

-- The nodes at the addresses, each with its `next` at the following one, lead from the first
-- pointer to the second.
abbrev pub IsPath : List Thread → Pointer → List ℕ → Pointer → Type 0
IsPath ts head [] end = head ≡ end
IsPath ts head (p ∷ ps) end =
    (t : Thread) × (head ≡ some p) × (get_elem? ts p ≡ some t) × IsPath ts t.next ps end

abbrev pub IsQueue : List Thread → Pointer → List ℕ → Type 0
IsQueue ts head ps = IsPath ts head ps none

abbrev pub NotIn : ℕ → List ℕ → Type 0
NotIn p ps = All (λ q. p ≢ q) ps

abbrev pub IsDistinct : List ℕ → Type 0
IsDistinct [] = Unit
IsDistinct (p ∷ ps) = NotIn p ps × IsDistinct ps

abbrev pub last : ℕ → List ℕ → ℕ
last a [] = a
last a (p ∷ ps) = last p ps

pub last-NotIn : (p a : ℕ) (ps : List ℕ) → NotIn p (a ∷ ps) → p ≢ last a ps
last-NotIn p a [] h = h.0
last-NotIn p a (q ∷ qs) h = last-NotIn p q qs h.1

module _ (ts : List Thread) where
  pub IsPath-set :
      (p : ℕ) (v : Thread) (ps : List ℕ) (head end : Pointer)
      → NotIn p ps
      → IsPath ts head ps end
      → IsPath (set ts p v) head ps end
  IsPath-set p v [] head end out h = h
  IsPath-set p v (q ∷ qs) head end out (t, first, e, rest) =
      (t, first, get_elem?-set_ne ts p q v out.0 ∙ e, IsPath-set p v qs t.next end out.1 rest)

  pub last-IsPath :
      (a : ℕ) (ps : List ℕ) (head end : Pointer)
      → IsPath ts head (a ∷ ps) end
      → (t : Thread) × (get_elem? ts (last a ps) ≡ some t) × (t.next ≡ end)
  last-IsPath a [] head end (t, first, e, rest) = (t, e, rest)
  last-IsPath a (q ∷ qs) head end (t, first, e, rest) = last-IsPath q qs t.next end rest

  -- A new end for the last node.
  pub relink-IsPath :
      (a : ℕ) (ps : List ℕ) (head end end' : Pointer) (u : Thread)
      → IsDistinct (a ∷ ps)
      → IsPath ts head (a ∷ ps) end
      → IsPath (set ts (last a ps) (with_next end' u)) head (a ∷ ps) end'
  relink-IsPath a [] head end end' u d (t, first, e, rest) =
      (with_next end' u, first, get_elem?-set_self ts a _ (get_elem?-lt ts a t e), refl)
  relink-IsPath a (q ∷ qs) head end end' u d (t, first, e, rest) =
      let other = last-NotIn a q qs d.0 in
      (
        t,
        first,
        get_elem?-set_ne ts (last q qs) a _ (λ k. other (sym k)) ∙ e,
        relink-IsPath q qs t.next end end' u d.1 rest,
      )

  pub snoc-IsPath :
      (p : ℕ) (t : Thread) (ps : List ℕ) (head : Pointer)
      → IsPath ts head ps (some p)
      → get_elem? ts p ≡ some t
      → IsPath ts head (ps ++ (p ∷ [])) t.next
  snoc-IsPath p t [] head h e = (t, h, e, refl)
  snoc-IsPath p t (q ∷ qs) head (u, first, k, rest) e =
      (u, first, k, snoc-IsPath p t qs u.next rest e)

pub last_from-IsQueue :
    (fuel a : ℕ) (ps : List ℕ) (head : Pointer) (s : Machine)
    → IsQueue s.threads head (a ∷ ps)
    → length (a ∷ ps) ≤ fuel
    → last_from fuel a s ≡ ok (last a ps) s
unfolding last_from thread_at
last_from-IsQueue zero a ps head s h l = absurd (omega arith)
last_from-IsQueue (suc fuel) a [] head s (t, first, e, rest) l = rw (e, rest) refl
last_from-IsQueue (suc fuel) a (q ∷ qs) head s (t, first, e, rest) l =
    rw (e, rest.1) (last_from-IsQueue fuel q qs t.next s rest (omega arith))

-- What an append at the node `l` does: the nodes other than `l` and `new` stay as they are.
abbrev pub linked : List Thread → ℕ → Thread → ℕ → Thread → List Thread
linked ts l t new u = set (set ts l (with_next (some new) t)) new (with_next none u)

module _ (s : Machine) (a new : ℕ) (ps : List ℕ) (queue : IsQueue s.threads (some a) (a ∷ ps))
    (distinct : IsDistinct (a ∷ ps)) (other : NotIn new (a ∷ ps))
    (room : length (a ∷ ps) ≤ length s.threads) (u : Thread)
    (there : get_elem? s.threads new ≡ some u) where
  pub append_node-IsQueue :
      (t : Thread) × (append_node a new s
        ≡ ok tt (record s { threads = linked s.threads (last a ps) t new u }))
      × IsQueue (linked s.threads (last a ps) t new u) (some a) ((a ∷ ps) ++ (new ∷ []))
  unfolding append_node last_thread change_thread thread_at
  append_node-IsQueue =
      let (t, e, end) = last-IsPath s.threads a ps (some a) none queue in
      let ts = set s.threads (last a ps) (with_next (some new) t) in
      let out = last-NotIn new a ps other in
      let k : get_elem? ts new ≡ some u =
        get_elem?-set_ne s.threads (last a ps) new _ (λ q. out (sym q)) ∙ there in
      (
        t,
        rw (last_from-IsQueue (length s.threads) a ps (some a) s queue room, e, k) refl,
        snoc-IsPath (set ts new (with_next none u)) new (with_next none u) (a ∷ ps) (some a)
            (IsPath-set ts new (with_next none u) (a ∷ ps) (some a) (some new) other
              (relink-IsPath s.threads a ps (some a) none (some new) t distinct queue))
            (get_elem?-set_self ts new (with_next none u) (get_elem?-lt ts new u k)),
      )

  -- A queue apart from this one stays.
  pub linked-IsQueue :
      (t : Thread) (qs : List ℕ) (head : Pointer)
      → NotIn (last a ps) qs
      → NotIn new qs
      → IsQueue s.threads head qs
      → IsQueue (linked s.threads (last a ps) t new u) head qs
  linked-IsQueue t qs head apart fresh h =
      IsPath-set _ new _ qs head none fresh
        (IsPath-set s.threads (last a ps) _ qs head none apart h)
