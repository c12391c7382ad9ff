-- ===== src/Potato/Party/Potatoes.antt =====
-- How many potatoes are on their way, and what a player does with one.
use osprograms.Base.{
  ℕ, zero, suc, ◌+◌, ◌%◌, ◌≤◌, ◌<◌, ◌≡◌, refl, ap, inl, inr, Bool, true, false, none, some, List,
  [], ◌∷◌, ◌++◌, arith, ◌==◌, if◌then◌else◌, Bool-cases, Option-cases, get_elem?, set, Str,
  is_int_min,
}
use osprograms.Potato.Player.{
  comma, Libc, Chance, printed_onto, Action, quit, overflow, report, send, is_one, play,
}
use osprograms.Potato.Ring.{right-IsLink, left-IsLink}
use osprograms.Potato.Master.{seat, Message, cease_type}
use osprograms.Potato.Party.{Player}

abbrev pub is_cease : Message → Bool
is_cease m = m.message_type == cease_type

unfoldable pub potatoes_in : List Message → ℕ
potatoes_in [] = 0
potatoes_in (m ∷ ms) = if is_cease m then potatoes_in ms else suc (potatoes_in ms)

unfoldable pub potatoes : List Player → ℕ
unfolding potatoes_in
potatoes [] = 0
potatoes (p ∷ ps) = potatoes_in p.inbox + potatoes ps

pub potatoes_in-append :
    (ms : List Message) (m : Message)
    → potatoes_in (ms ++ (m ∷ [])) ≡ potatoes_in ms + potatoes_in (m ∷ [])
unfolding potatoes_in
potatoes_in-append [] m = omega arith
potatoes_in-append (x ∷ ms) m = ground (arith, potatoes_in-append ms m)

pub potatoes-append :
    (ps : List Player) (p : Player) → potatoes (ps ++ (p ∷ [])) ≡ potatoes ps + potatoes_in p.inbox
unfolding potatoes
potatoes-append [] p = omega arith
potatoes-append (x ∷ ps) p = omega (arith, potatoes-append ps p)

pub potatoes-set :
    (ps : List Player) (i : ℕ) (p q : Player)
    → get_elem? ps i ≡ some p
    → potatoes (set ps i q) + potatoes_in p.inbox ≡ potatoes ps + potatoes_in q.inbox
unfolding potatoes
potatoes-set [] i p q e = absurd (ground arith)
potatoes-set (x ∷ ps) zero p q e =
    let same : potatoes_in x.inbox ≡ potatoes_in p.inbox =
      ap (λ o. elim o as (λ _. ℕ) [ some y ↦ potatoes_in y.inbox | none ↦ 0 ]) e in
    omega arith
potatoes-set (x ∷ ps) (suc i) p q e = omega (arith, potatoes-set ps i p q e)

pub potatoes-le :
    (ps : List Player) (i : ℕ) (p : Player)
    → get_elem? ps i ≡ some p
    → potatoes_in p.inbox ≤ potatoes ps
unfolding potatoes
potatoes-le [] i p e = absurd (ground arith)
potatoes-le (x ∷ ps) zero p e =
    let same : potatoes_in x.inbox ≡ potatoes_in p.inbox =
      ap (λ o. elim o as (λ _. ℕ) [ some y ↦ potatoes_in y.inbox | none ↦ 0 ]) e in
    omega arith
potatoes-le (x ∷ ps) (suc i) p e = omega (arith, potatoes-le ps i p e)

-- What a player does with a message: it quits on the one to cease, and else overflows, reports, or
-- passes the potato to a player of the ring.
pub data Played (port nplayers : ℕ) (m : Message) : Action → Type 0 where
  quits : is_cease m ≡ true → Played port nplayers m quit
  overflows : Played port nplayers m overflow
  reports_it : {text : Str} → is_cease m ≡ false → Played port nplayers m (report text)
  passes :
      {at next j : ℕ} {m' : Message}
      → is_cease m ≡ false
      → at ≡ port + j + 1
      → j < nplayers
      → is_cease m' ≡ false
      → Played port nplayers m (send at next m')

pub play-Played :
    (libc : Libc) (port nplayers i : ℕ) (chance : Chance) (m : Message)
    → i < nplayers
    → Played port nplayers m (play libc (seat port nplayers i) chance m)
unfolding play seat
play-Played libc port nplayers i chance m l = elim (Bool-cases (is_cease m)) [
  | inl ends ↦ rw (play, ends) (quits ends)
  | inr on ↦ elim (Bool-cases (is_one m.hops_left)) [
    | inl last ↦ elim (Option-cases (printed_onto libc chance m.sequence (libc.digits i))) [
      | inl full ↦ rw (play, on, last, full) overflows
      | inr (text, fits) ↦ rw (play, on, last, fits) (reports_it on)
    ]
    | inr more ↦ elim (Bool-cases (is_int_min m.hops_left)) [
      | inl least ↦ rw (play, on, more, least) overflows
      | inr above ↦
          elim (Option-cases
            (printed_onto libc chance m.sequence (libc.digits i ++ (comma ∷ [])))) [
              | inl full ↦ rw (play, on, more, above, full) overflows
              | inr (text, fits) ↦ elim (Bool-cases (chance.rand % 2 == 0)) [
                | inl left ↦
                    let link = left-IsLink port nplayers i l in
                    rw (play, on, more, above, fits, left) (passes on link.1 link.0 refl)
                | inr right ↦
                    let link = right-IsLink port nplayers i l in
                    rw (play, on, more, above, fits, right) (passes on link.1 link.0 refl)
              ]
            ]
    ]
  ]
]
