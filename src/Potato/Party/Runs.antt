-- ===== src/Potato/Party/Runs.antt =====
-- The steps of master.c and the connections keep the invariant, and so does every sequence of steps.
use osprograms.Base.{
  ℕ, ◌+◌, ◌<◌, ◌≡◌, refl, sym, ap, ◌∙◌, subst, inl, inr, true, false, none, some, List, [], ◌∷◌,
  ◌++◌, arith, ltb, ◌==◌, Bool-cases, Option-cases, length, get_elem?, set, length-append,
  get_elem?-set_self, get_elem?-some, get_elem?-snoc, get_elem?-lt, Str, ℤ,
}
use osprograms.Potato.Player.{buffer_length, Libc}
use osprograms.Potato.Party.{
  told, Player, Stage, accepting, dealing, awaiting, readying, going, ceasing, over, World, Result,
  waits, refused, breaks, goes, Turn, connects, masters, plays, cease, is_told, master_step, step,
  run, IsRing, start,
}
use osprograms.Potato.Master.{htons, first_potato, first_player}
use native.Mathlib.Nat.{mod-lt}
use osprograms.Potato.Party.Good.{
  IsPlace, Places, IsGood, Safe, IsFilled-le, IsGood-set, IsPlace-listens,
}
use osprograms.Potato.Party.Steps.{received, deliver-goes, deliver-IsGood, player_step-IsGood}
use osprograms.Potato.Party.Potatoes.{potatoes_in, potatoes, potatoes_in-append, potatoes-append}

abbrev world : Stage → List Player → List Str → World
world f ps rs = record { stage = f; players = ps; reports = rs }

-- What holds of the players below `k`, and of the player `k`, holds below `k + 1`.
one_more :
    (P : Player → Type 0) (k j : ℕ) (p q : Player) (qs : List Player)
    → get_elem? qs k ≡ some p
    → P p
    → get_elem? qs j ≡ some q
    → (j < k → P q)
    → j < k + 1
    → P q
one_more P k j p q qs there holds e below l = elim (Bool-cases (j == k)) [
  | inl same ↦
      let e' : j ≡ k = ground (arith, same) in
      let here : get_elem? qs k ≡ some q = subst (λ i. get_elem? qs i ≡ some q) e' e in
      let is : p ≡ q =
        ap (λ o. elim o as (λ _. Player) [ some y ↦ y | none ↦ p ]) (sym there ∙ here) in
      subst P is holds
  | inr apart ↦ below (ground (arith, apart))
]

module _ (libc : Libc) (port n : ℕ) (ring : IsRing port n) (nhops : ℤ) (ps : List Player)
    (rs : List Str) (random : ℕ) where
  -- One more player is known to listen.
  hears-Places :
      (k : ℕ) (p : Player)
      → Places k 0 0 ps
      → get_elem? ps k ≡ some p
      → is_told p ≡ false
      → Places (k + 1) 0 0 ps
  hears-Places k p all there hears j q e =
      let place = all j q e in
      record {
        known = one_more (λ r. is_told r ≡ false) k j p q ps there hears e place.known;
        ahead = place.ahead;
        left = place.left;
        plain = place.plain;
      }

  -- All players are known to listen once the loop has met each.
  all_heard : (k c : ℕ) → k ≡ n → Places k 0 c ps → Places n 0 c ps
  all_heard k c e all = subst (λ h. Places h 0 c ps) e all

  ceases-Places : (k : ℕ) → Places n n k ps → Places n n (k + 1) ps
  ceases-Places k all j p e =
      let place = all j p e in
      record {
        known = place.known;
        ahead = place.ahead;
        left = λ g. (let l = place.left g in omega arith);
        plain = λ c. place.plain (omega arith);
      }

  readying-IsGood :
      (k : ℕ)
      → IsGood n (world (readying k) ps rs)
      → Safe
          (IsGood n)
          (master_step libc port n nhops random (readying k) (world (readying k) ps rs))
  unfolding master_step
  readying-IsGood k h = elim (Bool-cases (k == n)) [
    | inl end ↦ rw end (record {
      filled = (h.filled.0, omega arith);
      places = all_heard k 0 (ground (arith, end)) h.places;
      count = h.count;
    })
    | inr more ↦ elim (Option-cases (get_elem? ps k)) [
      | inl gone' ↦ rw (more, gone') tt
      | inr (p, there) ↦ elim (Bool-cases (is_told p)) [
        | inl deaf ↦ rw (more, there, deaf) tt
        | inr hears ↦
            rw (more, there, hears)
              (record {
                filled = (h.filled.0, ground (arith, more, h.filled.1));
                places = hears-Places k p h.places there hears;
                count = h.count;
              })
      ]
    ]
  ]

  -- One more player is told to go ahead.
  goes-Places :
      (k : ℕ) (q : Player) (qs : List Player)
      → Places n k 0 qs
      → get_elem? qs k ≡ some q
      → q.go_ahead ≡ true
      → Places n (k + 1) 0 qs
  goes-Places k p qs all there on j q e =
      let place = all j q e in
      record {
        known = place.known;
        ahead = one_more (λ r. r.go_ahead ≡ true) k j p q qs there on e place.ahead;
        left = place.left;
        plain = place.plain;
      }

  going-IsGood :
      (k : ℕ)
      → IsGood n (world (going k) ps rs)
      → Safe (IsGood n) (master_step libc port n nhops random (going k) (world (going k) ps rs))
  unfolding master_step
  going-IsGood k h = elim (Bool-cases (k == n)) [
    | inl end ↦ rw end (record {
      filled = h.filled.0;
      places = subst (λ g. Places n g 0 ps) (ground (arith, end)) h.places;
      count = h.count;
    })
    | inr more ↦
        let l : k < n = ground (arith, more, h.filled.1) in
        let (p, there) = get_elem?-some ps k (omega (arith, h.filled.0)) in
        let place = h.places k p there in
        let q : Player = record p { go_ahead = true } in
        let k' =
          IsGood-set n k p q (world (going k) ps rs) h there
            (record {
              known = place.known;
              ahead = λ _. refl;
              left = place.left;
              plain = place.plain;
            })
            refl in
        rw (more, there)
          (record {
            filled = (k'.filled.0, omega arith);
            places =
                goes-Places k q (set ps k q) k'.places
                  (get_elem?-set_self ps k q (get_elem?-lt ps k p there)) refl;
            count = k'.count;
          })
  ]

  dealing-IsGood :
      0 < n
      → IsGood n (world dealing ps rs)
      → Safe (IsGood n) (master_step libc port n nhops random dealing (world dealing ps rs))
  unfolding master_step
  dealing-IsGood some_player h =
      deliver-IsGood libc port n ring nhops (port + first_player n random + 1)
        (first_player n random) (first_potato nhops) (world dealing ps rs) refl
        (mod-lt random some_player) refl h.filled h.places h.count

  ceasing-IsGood :
      (r : Str) (k : ℕ)
      → IsGood n (world (ceasing r k) ps rs)
      → Safe
          (IsGood n)
          (master_step libc port n nhops random (ceasing r k) (world (ceasing r k) ps rs))
  unfolding master_step
  ceasing-IsGood r k h = elim (Bool-cases (k == n)) [
    | inl end ↦ rw end (record {
      filled = h.filled.0;
      places = subst (λ c. Places n n c ps) (ground (arith, end)) h.places;
      count = h.count;
    })
    | inr more ↦
        let l : k < n = ground (arith, more, h.filled.1) in
        let (p, there) = get_elem?-some ps k (omega (arith, h.filled.0)) in
        let place = h.places k p there in
        let hears = IsPlace-listens n n k k p l (omega arith) place in
        let next = world (ceasing r (k + 1)) ps rs in
        rw
          (
            more,
            deliver-goes libc port n ring nhops (port + k + 1) k cease p next refl l there hears,
          )
          (IsGood-set n k p (received cease p) next
            (record {
              filled = (h.filled.0, omega arith);
              places = ceases-Places k h.places;
              count = h.count;
            })
            there
            (record {
              known = place.known;
              ahead = place.ahead;
              left = λ g. omega arith;
              plain = λ c. absurd (omega arith);
            })
            (unfold potatoes_in in omega (arith, potatoes_in-append p.inbox cease)))
  ]

  -- The next step of the master.
  master_step-IsGood :
      (f : Stage)
      → 0 < n
      → IsGood n (world f ps rs)
      → Safe (IsGood n) (master_step libc port n nhops random f (world f ps rs))
  master_step-IsGood accepting some_player h = elim (Bool-cases (length ps == n)) [
    | inl end ↦
        unfold master_step in
        rw end (record {
          filled = (ground (arith, end), omega arith);
          places = h.places;
          count = h.count;
        })
    | inr more ↦ unfold master_step in rw more tt
  ]
  master_step-IsGood (readying k) some_player h = readying-IsGood k h
  master_step-IsGood (going k) some_player h = going-IsGood k h
  master_step-IsGood dealing some_player h = dealing-IsGood some_player h
  master_step-IsGood awaiting some_player h = awaited rs h
    where
      awaited :
          (rs : List Str)
          → IsGood n (world awaiting ps rs)
          → Safe (IsGood n) (master_step libc port n nhops random awaiting (world awaiting ps rs))
      awaited [] h = unfold master_step in tt
      awaited (r ∷ rs) h =
          unfold master_step in
          record {
            filled = (h.filled, omega arith);
            places = h.places;
            count = omega (arith, h.count);
          }
  master_step-IsGood (ceasing r k) some_player h = ceasing-IsGood r k h
  master_step-IsGood (over r) some_player h = unfold master_step in tt

module _ (libc : Libc) (port n : ℕ) (ring : IsRing port n) (nhops : ℤ) (some_player : 0 < n) where
  connects-IsGood :
      (f : Stage) (ps : List Player) (rs : List Str)
      → IsGood n (world f ps rs)
      → Safe (IsGood n) (step libc port n nhops connects (world f ps rs))
  unfolding step
  connects-IsGood accepting ps rs h = elim (Bool-cases (length ps == n)) [
    | inl end ↦ rw (some_port, end) tt
    | inr more ↦
        rw (some_port, more, room more)
          (record {
            filled = ground (arith, more, h.filled, length-append ps (new ∷ []));
            places = joined;
            count = unfold potatoes_in in omega (arith, potatoes-append ps new, h.count);
          })
  ]
    where
      some_port : (htons port == 0) ≡ false
      some_port = ground (arith, ring.0, ring.1)

      room : (length ps == n) ≡ false → ltb (length ps) buffer_length ≡ true
      room more = ground (arith, more, h.filled, ring.2)

      new : Player
      new = record { phase = told; go_ahead = false; inbox = [] }

      joined : Places 0 0 0 (ps ++ (new ∷ []))
      joined j p e = elim (get_elem?-snoc ps j new p e) [
        | inl old ↦ h.places j p old
        | inr (last, is) ↦ subst (IsPlace 0 0 0 j) is (record {
          known = λ l. absurd (omega arith);
          ahead = λ l. absurd (omega arith);
          left = λ g. absurd (cc);
          plain = λ c. tt;
        })
      ]
  connects-IsGood dealing ps rs h = tt
  connects-IsGood awaiting ps rs h = tt
  connects-IsGood (readying k) ps rs h = tt
  connects-IsGood (going k) ps rs h = tt
  connects-IsGood (ceasing r k) ps rs h = tt
  connects-IsGood (over r) ps rs h = tt

  step-IsGood : (t : Turn) (w : World) → IsGood n w → Safe (IsGood n) (step libc port n nhops t w)
  unfolding step
  step-IsGood connects w h = connects-IsGood w.stage w.players w.reports h
  step-IsGood (masters random) w h =
      master_step-IsGood libc port n ring nhops w.players w.reports random w.stage some_player h
  step-IsGood (plays i chance) w h = elim (Option-cases (get_elem? w.players i)) [
    | inl e ↦ rw (e, step) tt
    | inr (p, e) ↦
        rw (e, step)
          (player_step-IsGood libc port n ring nhops chance i p w h e
            (omega (arith, get_elem?-lt w.players i p e, IsFilled-le n w.stage w.players h.filled)))
  ]

  pub run-IsGood :
      (ts : List Turn) (w : World) → IsGood n w → Safe (IsGood n) (run libc port n nhops ts w)
  unfolding run
  run-IsGood [] w h = h
  run-IsGood (t ∷ ts) w h = taken (run-IsGood ts) (step libc port n nhops t w) (step-IsGood t w h)
    where
      taken :
          ((w' : World) → IsGood n w' → Safe (IsGood n) (run libc port n nhops ts w'))
          → (r : Result) → Safe (IsGood n) r
          → Safe (IsGood n) (elim r [
            | waits ↦ run libc port n nhops ts w
            | refused ↦ refused
            | breaks ↦ breaks
            | goes w' ↦ run libc port n nhops ts w'
          ])
      taken later waits k = later w h
      taken later refused k = k
      taken later breaks k = tt
      taken later (goes w') k = later w' k

  start-IsGood : IsGood n start
  start-IsGood = record {
    filled = omega arith;
    places = λ j p e. absurd (ground arith);
    count = unfold potatoes in refl;
  }

  -- With at least one player, ports from 1 to 65535 and no more players than LEN, whatever turns the master and the players take, and whatever `rand()`, `recv`
  -- and `sprintf` give them, no connection is refused: a player to whom the potato or the message to cease is sent
  -- listens. Where nothing overflows, the state is good: as long as the master waits for the
  -- report, exactly one potato or report is on its way, and else none; no player has left the game
  -- or got a message to cease whom the master has not told to.
  pub run-Safe : (ts : List Turn) → Safe (IsGood n) (run libc port n nhops ts start)
  run-Safe ts = run-IsGood ts start start-IsGood
