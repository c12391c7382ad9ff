-- ===== src/Potato/Party/Good.antt =====
-- The invariant of the processes of master.c and player.c.
use osprograms.Base.{
  ℕ, ◌+◌, ◌≤◌, ◌<◌, ◌≡◌, refl, sym, ap, ◌∙◌, subst, inl, inr, true, false, none, some, List, arith,
  ◌==◌, Bool-cases, length, get_elem?, set, All, length-set, get_elem?-set_self, get_elem?-set_ne,
  get_elem?-lt,
}
use osprograms.Potato.Party.{
  Phase, told, ready, playing, gone, Player, Stage, accepting, dealing, awaiting, readying, going,
  ceasing, over, World, Result, waits, refused, breaks, goes, is_told, is_gone, listens,
  with_player,
}
use osprograms.Potato.Party.Potatoes.{is_cease, potatoes_in, potatoes, potatoes-set}

-- How many players the master knows to listen, and how many it has told to go ahead and to cease.
abbrev pub heard : ℕ → Stage → ℕ
heard n accepting = 0
heard n (readying k) = k
heard n _ = n

abbrev pub went : ℕ → Stage → ℕ
went n accepting = 0
went n (readying k) = 0
went n (going k) = k
went n _ = n

abbrev pub ceased : ℕ → Stage → ℕ
ceased n (ceasing r k) = k
ceased n (over r) = n
ceased n _ = 0

abbrev pub in_play : Stage → ℕ
in_play awaiting = 1
in_play _ = 0

-- The players that are there, and how far the master's loops have come.
abbrev pub IsFilled : ℕ → Stage → List Player → Type 0
IsFilled n accepting ps = length ps ≤ n
IsFilled n (readying k) ps = (length ps ≡ n) × (k ≤ n)
IsFilled n (going k) ps = (length ps ≡ n) × (k ≤ n)
IsFilled n (ceasing r k) ps = (length ps ≡ n) × (k ≤ n)
IsFilled n _ ps = length ps ≡ n

-- The player `j`, of whom the first `h` listen, the first `g` are told to go ahead, and the first
-- `c` to cease.
pub record IsPlace (h g c j : ℕ) (p : Player) : Type 0 where
  pub known : j < h → is_told p ≡ false
  pub ahead : j < g → p.go_ahead ≡ true
  pub left : is_gone p ≡ true → j < c
  pub plain : c ≤ j → All (λ m. is_cease m ≡ false) p.inbox

abbrev pub Places : ℕ → ℕ → ℕ → List Player → Type 0
Places h g c ps = (j : ℕ) (p : Player) → get_elem? ps j ≡ some p → IsPlace h g c j p

-- While the master waits, one potato, or the report that it has become, is on its way, and else none.
pub record IsGood (n : ℕ) (w : World) : Type 0 where
  pub filled : IsFilled n w.stage w.players
  pub places : Places (heard n w.stage) (went n w.stage) (ceased n w.stage) w.players
  pub count : potatoes w.players + length w.reports ≡ in_play w.stage

-- No connection is refused, and what holds behind the step.
abbrev pub Safe : (World → Type 0) → Result → Type 0
Safe P waits = Unit
Safe P refused = ⊥
Safe P breaks = Unit
Safe P (goes w) = P w

pub Places-set :
    (h g c i : ℕ) (ps : List Player) (q : Player)
    → Places h g c ps
    → i < length ps
    → IsPlace h g c i q
    → Places h g c (set ps i q)
Places-set h g c i ps q all l place j p e = elim (Bool-cases (i == j)) [
  | inl same ↦
      let e' : i ≡ j = ground arith in
      let here : get_elem? (set ps i q) i ≡ some p =
        subst (λ k. get_elem? (set ps i q) k ≡ some p) (sym e') e in
      let there : some q ≡ some p = sym (get_elem?-set_self ps i q l) ∙ here in
      let is : q ≡ p = ap (λ o. elim o as (λ _. Player) [ some y ↦ y | none ↦ q ]) there in
      subst (λ k. IsPlace h g c k p) e' (subst (λ r. IsPlace h g c i r) is place)
  | inr apart ↦ all j p (sym (get_elem?-set_ne ps i j q (ground arith)) ∙ e)
]

pub IsFilled-set :
    (n i : ℕ) (stage : Stage) (ps : List Player) (q : Player)
    → IsFilled n stage ps
    → IsFilled n stage (set ps i q)
IsFilled-set n i accepting ps q h = rw length-set h
IsFilled-set n i dealing ps q h = rw length-set h
IsFilled-set n i awaiting ps q h = rw length-set h
IsFilled-set n i (readying k) ps q h = (rw length-set h.0, h.1)
IsFilled-set n i (going k) ps q h = (rw length-set h.0, h.1)
IsFilled-set n i (ceasing r k) ps q h = (rw length-set h.0, h.1)
IsFilled-set n i (over r) ps q h = rw length-set h

pub IsFilled-le : (n : ℕ) (f : Stage) (ps : List Player) → IsFilled n f ps → length ps ≤ n
IsFilled-le n accepting ps h = h
IsFilled-le n dealing ps h = omega arith
IsFilled-le n awaiting ps h = omega arith
IsFilled-le n (readying k) ps h = omega (arith, h.0)
IsFilled-le n (going k) ps h = omega (arith, h.0)
IsFilled-le n (ceasing r k) ps h = omega (arith, h.0)
IsFilled-le n (over r) ps h = omega arith

-- Another player in place of one, with as many potatoes.
pub IsGood-set :
    (n i : ℕ) (p q : Player) (w : World)
    → IsGood n w
    → get_elem? w.players i ≡ some p
    → IsPlace (heard n w.stage) (went n w.stage) (ceased n w.stage) i q
    → potatoes_in q.inbox ≡ potatoes_in p.inbox
    → IsGood n (with_player i q w)
IsGood-set n i p q w h e place same = record {
  filled = IsFilled-set n i w.stage w.players q h.filled;
  places =
      Places-set (heard n w.stage) (went n w.stage) (ceased n w.stage) i w.players q h.places
        (get_elem?-lt w.players i p e) place;
  count = omega (arith, potatoes-set w.players i p q e, h.count);
}

-- Who is known to listen, and not told to cease, listens.
pub IsPlace-listens :
    (h g c j : ℕ) (p : Player) → j < h → c ≤ j → IsPlace h g c j p → listens p ≡ true
IsPlace-listens h g c j p l m k = by_phase p.phase refl
  where
    by_phase : (f : Phase) → p.phase ≡ f → listens p ≡ true
    by_phase told e = let no = k.known l in let so : is_told p ≡ true = rw e refl in absurd (cc)
    by_phase ready e = rw e refl
    by_phase playing e = rw e refl
    by_phase gone e = absurd (let l' : j < c = k.left (rw e refl) in omega arith)
