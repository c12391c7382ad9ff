-- ===== src/Threads/Grow.antt =====
-- `insertNode` of thread_library.c: the ready queue grows by a node of fresh memory.
use osprograms.Base.{
  ℕ, zero, suc, ◌≤◌, ◌≡◌, refl, sym, ap, ◌∙◌, subst, inl, inr, Option, none, some, List, [], ◌∷◌,
  ◌++◌, arith, ◌==◌, Bool-cases, length, get_elem?, set, get_elem?-set_self, get_elem?-set_ne,
  get_elem?-lt,
}
use osprograms.Threads.Memory.{
  Pointer, Thread, Machine, ok, thread_at, change_thread, with_next, with_prev, new_thread,
}
use osprograms.Threads.Queues.{last_thread, insert_node}
use osprograms.Threads.Chain.{
  IsPath, IsQueue, NotIn, IsDistinct, last, last-NotIn, IsPath-set, last-IsPath, relink-IsPath,
  snoc-IsPath, last_from-IsQueue,
}

pub get_elem?-append :
    {A : Type 0} (xs ys : List A) (i : ℕ) (v : A)
    → get_elem? xs i ≡ some v
    → get_elem? (xs ++ ys) i ≡ some v
get_elem?-append [] ys i v h = absurd (ground arith)
get_elem?-append (x ∷ xs) ys zero v h = h
get_elem?-append (x ∷ xs) ys (suc i) v h = get_elem?-append xs ys i v h

pub get_elem?-append_last :
    {A : Type 0} (xs : List A) (v : A) → get_elem? (xs ++ (v ∷ [])) (length xs) ≡ some v
get_elem?-append_last [] v = refl
get_elem?-append_last (x ∷ xs) v = get_elem?-append_last xs v

pub IsPath-append :
    (ts us : List Thread) (ps : List ℕ) (head end : Pointer)
    → IsPath ts head ps end
    → IsPath (ts ++ us) head ps end
IsPath-append ts us [] head end h = h
IsPath-append ts us (p ∷ ps) head end (t, first, e, rest) =
    (t, first, get_elem?-append ts us p t e, IsPath-append ts us ps t.next end rest)

-- The address of a new node is none of a queue's.
pub IsPath-NotIn :
    (ts : List Thread) (ps : List ℕ) (head end : Pointer)
    → IsPath ts head ps end
    → NotIn (length ts) ps
IsPath-NotIn ts [] head end h = tt
IsPath-NotIn ts (p ∷ ps) head end (t, first, e, rest) =
    let l = get_elem?-lt ts p t e in ((λ k. omega arith), IsPath-NotIn ts ps t.next end rest)

-- A change of a node that keeps its `next`.
pub IsPath-change :
    (ts : List Thread) (p : ℕ) (t v : Thread) (ps : List ℕ) (head end : Pointer)
    → get_elem? ts p ≡ some t
    → v.next ≡ t.next
    → IsPath ts head ps end
    → IsPath (set ts p v) head ps end
IsPath-change ts p t v [] head end e k h = h
IsPath-change ts p t v (q ∷ qs) head end e k (u, first, e', rest) = elim (Bool-cases (p == q)) [
  | inl same ↦
      let i : p ≡ q = ground (arith, same) in
      let w : some t ≡ some u = sym e ∙ (ap (λ n. get_elem? ts n) i ∙ e') in
      (
        v,
        first,
        ap (λ n. get_elem? (set ts p v) n) (sym i)
            ∙ get_elem?-set_self ts p v (get_elem?-lt ts p t e),
        subst (λ n. IsPath (set ts p v) n qs end) (sym (k ∙ next_eq w))
            (IsPath-change ts p t v qs u.next end e k rest),
      )
  | inr differ ↦ (
    u,
    first,
    get_elem?-set_ne ts p q v (λ i. absurd (ground (arith, differ, i))) ∙ e',
    IsPath-change ts p t v qs u.next end e k rest,
  )
]
  where
    next_eq : {t u : Thread} → some t ≡ some u → t.next ≡ u.next
    next_eq w = ap (λ o. elim o [ none ↦ none | some r ↦ r.next ]) w

-- The nodes after `insertNode`, which `t` was the last of and `u` is the memory of the new one.
abbrev pub grown : List Thread → ℕ → Thread → Thread → List Thread
grown ts l t u =
    set (set (ts ++ (u ∷ [])) l (with_next (some (length ts)) t)) (length ts) (with_prev (some l) u)

-- What a node is apart from its links.
abbrev pub SameThread : Thread → Thread → Type 0
SameThread t u = (t.id ≡ u.id) × (t.context ≡ u.context) × (t.parent ≡ u.parent)

module _ (s : Machine) (a : ℕ) (ps : List ℕ) (queue : IsQueue s.threads (some a) (a ∷ ps))
    (distinct : IsDistinct (a ∷ ps)) (room : length (a ∷ ps) ≤ length s.threads)
    (clean : (s.memory (length s.threads)).next ≡ none) where
  abbrev new : ℕ
  new = length s.threads

  abbrev fresh : Thread
  fresh = s.memory new

  pub insert_node-IsQueue :
      (t : Thread) × (get_elem? s.threads (last a ps) ≡ some t)
      × (insert_node (some a) s
          ≡ ok new (record s { threads = grown s.threads (last a ps) t fresh }))
      × IsQueue (grown s.threads (last a ps) t fresh) (some a) ((a ∷ ps) ++ (new ∷ []))
      × (get_elem? (grown s.threads (last a ps) t fresh) new
          ≡ some (with_prev (some (last a ps)) fresh))
  unfolding insert_node last_thread new_thread change_thread thread_at
  insert_node-IsQueue =
      let (t, e, end) = last-IsPath s.threads a ps (some a) none queue in
      let us = s.threads ++ (fresh ∷ []) in
      let ts = set us (last a ps) (with_next (some new) t) in
      let out = IsPath-NotIn s.threads (a ∷ ps) (some a) none queue in
      let e' = get_elem?-append s.threads (fresh ∷ []) (last a ps) t e in
      let k : get_elem? ts new ≡ some fresh =
        get_elem?-set_ne us (last a ps) new _ (λ q. last-NotIn new a ps out (sym q))
        ∙ get_elem?-append_last s.threads fresh in
      let self =
        get_elem?-set_self ts new (with_prev (some (last a ps)) fresh)
          (get_elem?-lt ts new fresh k) in
      (
        t,
        e,
        rw (last_from-IsQueue (length s.threads) a ps (some a) s queue room, e', k) refl,
        subst
            (λ n. IsPath (grown s.threads (last a ps) t fresh) (some a) ((a ∷ ps) ++ (new ∷ [])) n)
            clean
            (snoc-IsPath _ new (with_prev (some (last a ps)) fresh) (a ∷ ps) (some a)
              (IsPath-set ts new _ (a ∷ ps) (some a) (some new) out (
                relink-IsPath us a ps (some a) none (some new) t distinct
                  (IsPath-append s.threads (fresh ∷ []) (a ∷ ps) (some a) none queue)))
              self),
        self,
      )

  -- The old nodes keep all but their links.
  pub grown-SameThread :
      (t : Thread) (p : ℕ) (v : Thread)
      → get_elem? s.threads (last a ps) ≡ some t
      → get_elem? s.threads p ≡ some v
      → (w : Thread) × (get_elem? (grown s.threads (last a ps) t fresh) p ≡ some w) × SameThread w v
  grown-SameThread t p v e h =
      let us = s.threads ++ (fresh ∷ []) in
      let h' = get_elem?-append s.threads (fresh ∷ []) p v h in
      let l = get_elem?-lt s.threads p v h in
      let keep =
        get_elem?-set_ne (set us (last a ps) (with_next (some new) t)) new p
          (with_prev (some (last a ps)) fresh) (λ k. omega arith) in
      elim (Bool-cases (last a ps == p)) [
        | inl same ↦
            let i : last a ps ≡ p = ground (arith, same) in
            let w : some t ≡ some v = sym e ∙ (ap (λ n. get_elem? s.threads n) i ∙ h) in
            (
              with_next (some new) t,
              keep
                  ∙ (ap (λ n. get_elem? (set us (last a ps) (with_next (some new) t)) n) (sym i)
                      ∙ get_elem?-set_self us (last a ps) _ (
                          get_elem?-lt us (last a ps) t
                            (get_elem?-append s.threads (fresh ∷ []) (last a ps) t e))),
              same_thread w,
            )
        | inr differ ↦ (
          v,
          keep
              ∙ (get_elem?-set_ne us (last a ps) p _ (λ i. absurd (ground (arith, differ, i)))
                  ∙ h'),
          (refl, refl, refl),
        )
      ]
    where
      same_thread : {t v : Thread} → some t ≡ some v → SameThread t v
      same_thread {t} {v} w =
          let pick : Option Thread → Thread = λ o. elim o [ none ↦ t | some r ↦ r ] in
          (ap (λ o. (pick o).id) w, ap (λ o. (pick o).context) w, ap (λ o. (pick o).parent) w)
