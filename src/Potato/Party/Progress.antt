-- ===== src/Potato/Party/Progress.antt =====
-- The processes of master.c and player.c do not wait for each other for ever.
use osprograms.Base.{
  ℕ, suc, ◌+◌, ◌≤◌, ◌<◌, ◌≡◌, refl, ◌≢◌, ◌⊎◌, inl, inr, Bool, true, false, some, List, [], ◌∷◌,
  arith, ltb, ◌==◌, Bool-cases, Option-cases, length, get_elem?, get_elem?-some, get_elem?-lt, Str,
  ℤ,
}
use osprograms.Potato.Player.{buffer_length, Libc, no_chance, Action, quit, overflow, report, send}
use osprograms.Potato.Party.{
  Phase, told, ready, playing, gone, Player, Stage, accepting, dealing, awaiting, readying, going,
  ceasing, over, World, Result, waits, refused, breaks, goes, Turn, connects, masters, plays, cease,
  is_told, is_gone, listens, deliver, master_step, act, player_step, step, run, IsRing, start,
}
use osprograms.Potato.Master.{htons, Message, first_potato, first_player}
use osprograms.Potato.Party.Good.{IsGood}
use osprograms.Potato.Party.Runs.{run-Safe}
use osprograms.Potato.Game.{listener}
use osprograms.Potato.Party.Potatoes.{potatoes_in, potatoes}

-- The step can be taken.
abbrev pub IsMove : Result → Type 0
IsMove waits = ⊥
IsMove refused = Unit
IsMove breaks = Unit
IsMove (goes w) = Unit

gone_phase : (p : Player) → p.phase ≡ gone → is_gone p ≡ true
gone_phase p e = rw e refl

-- A potato is in somebody's inbox.
holder_of :
    (ps : List Player)
    → 1 ≤ potatoes ps
    → (i : ℕ) × (p : Player) × (get_elem? ps i ≡ some p) × (1 ≤ potatoes_in p.inbox)
unfolding potatoes
holder_of [] h = absurd (omega arith)
holder_of (p ∷ ps) h = elim (Bool-cases (potatoes_in p.inbox == 0)) [
  | inl none_here ↦ let (i, q, e, l) = holder_of ps (ground (arith, none_here)) in (suc i, q, e, l)
  | inr some_here ↦ (0, p, refl, ground (arith, some_here))
]

module _ (libc : Libc) (port n : ℕ) (ring : IsRing port n) (nhops : ℤ) where
  deliver-IsMove : (at : ℕ) (m : Message) (w : World) → IsMove (deliver libc port n nhops at m w)
  unfolding deliver
  deliver-IsMove at m w = elim (Option-cases (listener port n n at)) [
    | inl e ↦ rw (deliver, e) tt
    | inr (j, e) ↦ elim (Option-cases (get_elem? w.players j)) [
      | inl e' ↦ rw (deliver, e, e') tt
      | inr (p, e') ↦ elim (Bool-cases (listens p)) [
        | inl hears ↦ rw (deliver, e, e', hears) tt
        | inr deaf ↦ rw (deliver, e, e', deaf) tt
      ]
    ]
  ]

  act-IsMove :
      (i : ℕ) (p : Player) (a : Action) (w : World) → IsMove (act libc port n nhops i p a w)
  act-IsMove i p quit w = tt
  act-IsMove i p overflow w = tt
  act-IsMove i p (report text) w = tt
  act-IsMove i p (send at next m) w = deliver-IsMove at m w

  -- Some turn can be taken.
  abbrev pub Moves : World → Type 0
  Moves w = (t : Turn) × IsMove (step libc port n nhops t w)

  -- A player who holds a potato can go on.
  module _ (i : ℕ) (w : World) where
    turn :
        (f : Phase) (g : Bool) (ms : List Message)
        → get_elem? w.players i ≡ some (record { phase = f; go_ahead = g; inbox = ms })
        → g ≡ true
        → f ≢ gone
        → 1 ≤ potatoes_in ms
        → IsMove (step libc port n nhops (plays i no_chance) w)
    unfolding step player_step potatoes_in
    turn told g ms e on stays some_potato = rw (step, e) tt
    turn ready g ms e on stays some_potato = rw (step, e) (rw on tt)
    turn gone g ms e on stays some_potato = absurd (stays refl)
    turn playing g [] e on stays some_potato = absurd (omega arith)
    turn playing g (m ∷ ms) e on stays some_potato =
        rw (step, e) (act-IsMove i (record { phase = playing; go_ahead = g; inbox = ms }) _ _)

  awaiting-Moves :
      (ps : List Player) (rs : List Str)
      → IsGood n (record { stage = awaiting; players = ps; reports = rs })
      → Moves (record { stage = awaiting; players = ps; reports = rs })
  awaiting-Moves ps (r ∷ rs) h = (masters 0, unfold step master_step in tt)
  awaiting-Moves ps [] h =
      let (i, p, e, l) = holder_of ps (omega (arith, h.count)) in
      let place = h.places i p e in
      (
        plays i no_chance,
        turn i _ p.phase p.go_ahead p.inbox e
            (place.ahead (omega (arith, h.filled, get_elem?-lt ps i p e)))
            (λ left. (let x : i < 0 = place.left (gone_phase p left) in omega arith)) l,
      )

  readying-Moves :
      (k : ℕ) (ps : List Player) (rs : List Str)
      → IsGood n (record { stage = readying k; players = ps; reports = rs })
      → Moves (record { stage = readying k; players = ps; reports = rs })
  readying-Moves k ps rs h = elim (Bool-cases (k == n)) [
    | inl end ↦ (masters 0, unfold step master_step in rw end tt)
    | inr more ↦
        let (p, e) = get_elem?-some ps k (ground (arith, more, h.filled.0, h.filled.1)) in
        elim (Bool-cases (is_told p)) [
          | inr hears ↦ (masters 0, unfold step master_step in rw (more, e, hears) tt)
          | inl deaf ↦ (plays k no_chance, told_moves p.phase p.go_ahead p.inbox e deaf)
        ]
  ]
    where
      told_moves :
          (f : Phase) (g : Bool) (ms : List Message)
          → get_elem? ps k ≡ some (record { phase = f; go_ahead = g; inbox = ms })
          → is_told (record { phase = f; go_ahead = g; inbox = ms }) ≡ true
          → IsMove (
              step libc port n nhops
                (plays k no_chance)
                (record { stage = readying k; players = ps; reports = rs }))
      told_moves told g ms e deaf = unfold step player_step in rw (step, e) tt
      told_moves ready g ms e deaf = absurd (cc)
      told_moves playing g ms e deaf = absurd (cc)
      told_moves gone g ms e deaf = absurd (cc)

  going-Moves :
      (k : ℕ) (ps : List Player) (rs : List Str)
      → Moves (record { stage = going k; players = ps; reports = rs })
  going-Moves k ps rs = elim (Bool-cases (k == n)) [
    | inl end ↦ (masters 0, unfold step master_step in rw end tt)
    | inr more ↦ elim (Option-cases (get_elem? ps k)) [
      | inl e ↦ (masters 0, unfold step master_step in rw (more, e) tt)
      | inr (p, e) ↦ (masters 0, unfold step master_step in rw (more, e) tt)
    ]
  ]

  ceasing-Moves :
      (r : Str) (k : ℕ) (ps : List Player) (rs : List Str)
      → Moves (record { stage = ceasing r k; players = ps; reports = rs })
  ceasing-Moves r k ps rs = elim (Bool-cases (k == n)) [
    | inl end ↦ (masters 0, unfold step master_step in rw end tt)
    | inr more ↦
        (masters 0, unfold step master_step in rw more (deliver-IsMove (port + k + 1) cease _))
  ]

  -- The game is over, or some turn can be taken.
  abbrev pub OverOrMoves : World → Type 0
  OverOrMoves w = ((r : Str) × (w.stage ≡ over r)) ⊎ Moves w

  IsGood-moves :
      (f : Stage) (ps : List Player) (rs : List Str)
      → IsGood n (record { stage = f; players = ps; reports = rs })
      → OverOrMoves (record { stage = f; players = ps; reports = rs })
  IsGood-moves accepting ps rs h = elim (Bool-cases (length ps == n)) [
    | inl end ↦ inr (masters 0, unfold step master_step in rw end tt)
    | inr more ↦
        let some_port : (htons port == 0) ≡ false = ground (arith, ring.0, ring.1) in
        let room : ltb (length ps) buffer_length ≡ true = ground (arith, more, h.filled, ring.2) in
        inr (connects, unfold step in rw (some_port, more, room) tt)
  ]
  IsGood-moves dealing ps rs h = inr (
    masters 0,
    unfold step master_step in deliver-IsMove (port + first_player n 0 + 1) (first_potato nhops) _,
  )
  IsGood-moves awaiting ps rs h = inr (awaiting-Moves ps rs h)
  IsGood-moves (readying k) ps rs h = inr (readying-Moves k ps rs h)
  IsGood-moves (going k) ps rs h = inr (going-Moves k ps rs)
  IsGood-moves (ceasing r k) ps rs h = inr (ceasing-Moves r k ps rs)
  IsGood-moves (over r) ps rs h = inl (r, refl)

  -- With at least one player, ports from 1 to 65535 and no more players than LEN, in every state that turns of the master and the players lead to, in any
  -- order and with any results of `rand()`, `recv` and `sprintf`, the game is over or some turn can be taken: the processes
  -- do not all wait for each other.
  pub run-OverOrMoves :
      0 < n → (ts : List Turn) (w : World) → run libc port n nhops ts start ≡ goes w → OverOrMoves w
  run-OverOrMoves some_player ts w e =
      let safe = run-Safe libc port n ring nhops some_player ts in
      IsGood-moves w.stage w.players w.reports (rw e at safe)
