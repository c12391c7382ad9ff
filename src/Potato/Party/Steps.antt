-- ===== src/Potato/Party/Steps.antt =====
-- Each step of master.c and player.c keeps the invariant.
use osprograms.Base.{
  ℕ, ◌+◌, ◌≤◌, ◌<◌, ◌≡◌, refl, sym, ap, ◌∙◌, subst, inl, inr, Bool, true, false, some, List, [],
  ◌∷◌, ◌++◌, arith, ltb, ltb→lt, Bool-cases, length, get_elem?, set, All, length-append, length-set,
  set-set, get_elem?-some, get_elem?-lt, Str, ℤ,
}
use osprograms.Potato.Player.{Libc, Chance, Action}
use osprograms.Potato.Party.{
  Phase, told, ready, playing, gone, Player, Stage, accepting, dealing, awaiting, readying, going,
  ceasing, over, World, goes, listens, with_player, at_stage, deliver, act, player_step, IsRing,
}
use osprograms.Potato.Master.{Message}
use osprograms.Potato.Game.{listener}
use osprograms.Potato.Ring.{listener-cport}
use osprograms.Potato.Party.Potatoes.{
  is_cease, potatoes_in, potatoes, potatoes_in-append, potatoes-set, potatoes-le, Played, quits,
  overflows, reports_it, passes, play-Played,
}
use osprograms.Potato.Party.Good.{
  heard, went, ceased, in_play, IsFilled, IsPlace, Places, IsGood, Safe, Places-set, IsFilled-set,
  IsGood-set, IsPlace-listens,
}

-- A message that joins the others of a player.
abbrev pub received : Message → Player → Player
received m p = record p { inbox = p.inbox ++ (m ∷ []) }

All-snoc :
    (ms : List Message) (m : Message)
    → All (λ x. is_cease x ≡ false) ms
    → is_cease m ≡ false
    → All (λ x. is_cease x ≡ false) (ms ++ (m ∷ []))
All-snoc [] m h k = (k, tt)
All-snoc (x ∷ ms) m h k = (h.0, All-snoc ms m h.1 k)

in_play-awaiting : (f : Stage) → 1 ≤ in_play f → f ≡ awaiting
in_play-awaiting accepting h = absurd (omega arith)
in_play-awaiting dealing h = absurd (omega arith)
in_play-awaiting awaiting h = refl
in_play-awaiting (readying k) h = absurd (omega arith)
in_play-awaiting (going k) h = absurd (omega arith)
in_play-awaiting (ceasing r k) h = absurd (omega arith)
in_play-awaiting (over r) h = absurd (omega arith)

module _ (libc : Libc) (port n : ℕ) (ring : IsRing port n) (nhops : ℤ) where
  -- A connection to a player who listens is not refused.
  pub deliver-goes :
      (at j : ℕ) (m : Message) (p : Player) (w : World)
      → at ≡ port + j + 1
      → j < n
      → get_elem? w.players j ≡ some p
      → listens p ≡ true
      → deliver libc port n nhops at m w ≡ goes (with_player j (received m p) w)
  unfolding deliver
  deliver-goes at j m p w e l there hears =
      let found : listener port n n at ≡ some j =
        ap (λ k. listener port n n k) e ∙ listener-cport port n n j l ring.1 in
      rw (deliver, found, there, hears) refl

  -- A potato for a player of the ring, while the master waits.
  pub deliver-IsGood :
      (at j : ℕ) (m : Message) (w : World)
      → at ≡ port + j + 1
      → j < n
      → is_cease m ≡ false
      → length w.players ≡ n
      → Places n n 0 w.players
      → potatoes w.players + length w.reports ≡ 0
      → Safe (IsGood n) (deliver libc port n nhops at m (at_stage awaiting w))
  deliver-IsGood at j m w e l on size places count =
      let (p, there) = get_elem?-some w.players j (omega (arith, size)) in
      let place = places j p there in
      let hears = IsPlace-listens n n 0 j p l (omega arith) place in
      rw (deliver-goes at j m p (at_stage awaiting w) e l there hears) (record {
        filled = length-set w.players j (received m p) ∙ size;
        places = Places-set n n 0 j w.players (received m p) places (omega (arith, size)) (record {
          known = place.known;
          ahead = place.ahead;
          left = place.left;
          plain = λ c. All-snoc p.inbox m (place.plain c) on;
        });
        count =
            unfold potatoes_in in
            ground (
              arith,
              on,
              potatoes-set w.players j p (received m p) there,
              potatoes_in-append p.inbox m,
            );
      })

  -- A player who receives the message `m`.
  module _ (i : ℕ) (g : Bool) (m : Message) (ms : List Message) (w : World) (h : IsGood n w)
      (there : get_elem? w.players i
        ≡ some (record { phase = playing; go_ahead = g; inbox = m ∷ ms }))
      (l : i < n) where
    abbrev holder : Player
    holder = record { phase = playing; go_ahead = g; inbox = m ∷ ms }

    abbrev relieved : Player
    relieved = record { phase = playing; go_ahead = g; inbox = ms }

    abbrev emptied : World
    emptied = with_player i relieved w

    at-IsPlace : IsPlace (heard n w.stage) (went n w.stage) (ceased n w.stage) i holder
    at-IsPlace = h.places i holder there

    relieved-IsPlace : IsPlace (heard n w.stage) (went n w.stage) (ceased n w.stage) i relieved
    relieved-IsPlace = record {
      known = at-IsPlace.known;
      ahead = at-IsPlace.ahead;
      left = at-IsPlace.left;
      plain = λ c. (at-IsPlace.plain c).1;
    }

    -- Only a player who is told to cease has such a message.
    was_told : is_cease m ≡ true → i < ceased n w.stage
    was_told ends = elim (Bool-cases (ltb i (ceased n w.stage))) [
      | inl lt ↦ ltb→lt _ _ lt
      | inr not_lt ↦
          let le : ceased n w.stage ≤ i = ground (arith, not_lt) in
          let plain = (at-IsPlace.plain le).0 in absurd (cc)
    ]

    quits-IsGood :
        is_cease m ≡ true → IsGood n (with_player i (record relieved { phase = gone }) emptied)
    quits-IsGood ends = rw (set-set w.players i relieved (record relieved { phase = gone })) (
        IsGood-set n i holder (record relieved { phase = gone }) w h there
          (record {
            known = λ _. refl;
            ahead = at-IsPlace.ahead;
            left = λ _. was_told ends;
            plain = λ c. (at-IsPlace.plain c).1;
          })
          (unfold potatoes_in in ground (arith, ends)))

    reports-IsGood :
        (text : Str)
        → is_cease m ≡ false
        → IsGood n (record emptied { reports = w.reports ++ (text ∷ []) })
    reports-IsGood text on = record {
      filled = IsFilled-set n i w.stage w.players relieved h.filled;
      places =
          Places-set (heard n w.stage) (went n w.stage) (ceased n w.stage) i w.players relieved
            h.places (get_elem?-lt w.players i holder there) relieved-IsPlace;
      count =
          unfold potatoes_in in
          ground (
            arith,
            on,
            potatoes-set w.players i holder relieved there,
            length-append w.reports (text ∷ []),
            h.count,
          );
    }

    passes-IsGood :
        (at j : ℕ) (m' : Message)
        → is_cease m ≡ false
        → at ≡ port + j + 1
        → j < n
        → is_cease m' ≡ false
        → Safe (IsGood n) (deliver libc port n nhops at m' emptied)
    passes-IsGood at j m' on e k on' =
        subst (λ f. Safe (IsGood n) (deliver libc port n nhops at m' (at_stage f emptied)))
          (sym waiting) (deliver-IsGood at j m' emptied e k on' size places none_left)
      where
        held : potatoes_in ms + 1 ≡ potatoes_in (m ∷ ms)
        held = unfold potatoes_in in ground (arith, on)

        waiting : w.stage ≡ awaiting
        waiting =
            in_play-awaiting w.stage
              (omega (arith, held, potatoes-le w.players i holder there, h.count))

        size : length (set w.players i relieved) ≡ n
        size =
            length-set w.players i relieved ∙ subst (λ f. IsFilled n f w.players) waiting h.filled

        places : Places n n 0 (set w.players i relieved)
        places =
            subst (λ f. Places (heard n f) (went n f) (ceased n f) (set w.players i relieved))
              waiting
              (Places-set (heard n w.stage) (went n w.stage) (ceased n w.stage) i w.players relieved
                h.places (get_elem?-lt w.players i holder there) relieved-IsPlace)

        none_left : potatoes (set w.players i relieved) + length w.reports ≡ 0
        none_left =
            let one : in_play w.stage ≡ 1 = ap in_play waiting in
            omega (arith, held, one, potatoes-set w.players i holder relieved there, h.count)

  module _ (chance : Chance) (i : ℕ) (w : World) (h : IsGood n w) (l : i < n) where
    -- The fields of a player.
    abbrev player : Phase → Bool → List Message → Player
    player f g ms = record { phase = f; go_ahead = g; inbox = ms }

    by_fields :
        (f : Phase) (g : Bool) (ms : List Message)
        → get_elem? w.players i ≡ some (player f g ms)
        → Safe (IsGood n) (player_step libc port n nhops chance i (player f g ms) w)
    unfolding player_step
    by_fields told g ms there =
        IsGood-set n i (player told g ms) (player ready g ms) w h there
          (record {
            known = λ _. refl;
            ahead = (h.places i (player told g ms) there).ahead;
            left = λ e. absurd (cc);
            plain = (h.places i (player told g ms) there).plain;
          })
          refl
    by_fields ready false ms there = tt
    by_fields ready true ms there =
        IsGood-set n i (player ready true ms) (player playing true ms) w h there
          (record {
            known = λ _. refl;
            ahead = (h.places i (player ready true ms) there).ahead;
            left = λ e. absurd (cc);
            plain = (h.places i (player ready true ms) there).plain;
          })
          refl
    by_fields gone g ms there = tt
    by_fields playing g [] there = tt
    by_fields playing g (m ∷ ms) there = done (play-Played libc port n i chance m l)
      where
        done :
            {a : Action}
            → Played port n m a
            → Safe (IsGood n) (
                act libc port n nhops i
                  (player playing g ms)
                  a
                  (with_player i (player playing g ms) w))
        done (quits e) = quits-IsGood i g m ms w h there l e
        done overflows = tt
        done (reports_it {text} on) = reports-IsGood i g m ms w h there l text on
        done (passes {at} {next} {j} {m'} on e k on') =
            passes-IsGood i g m ms w h there l at j m' on e k on'

  pub player_step-IsGood :
      (chance : Chance) (i : ℕ) (p : Player) (w : World)
      → IsGood n w
      → get_elem? w.players i ≡ some p
      → i < n
      → Safe (IsGood n) (player_step libc port n nhops chance i p w)
  player_step-IsGood chance i p w h there l =
      by_fields chance i w h l p.phase p.go_ahead p.inbox there
