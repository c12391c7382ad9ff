-- ===== src/Potato/Trace.antt =====
-- A game with hops in master.c and player.c ends.
use osprograms.Base.{
  ℕ, zero, suc, ◌+◌, ◌%◌, ◌^◌, ◌<◌, ◌≡◌, refl, sym, subst, ◌⊎◌, inl, inr, false, [], ◌∷◌, ◌++◌,
  ◌==◌, Bool-cases, Option-cases, Str, ℤ, pos, pred_ℤ, is_int_min,
}
use native.Mathlib.Nat.{mod-lt}
use osprograms.Potato.Master.{seat, Message, potato_type, first_player}
use osprograms.Potato.Player.{comma, Libc, Chance, printed_onto, overflow, send, is_one, play}
use osprograms.Potato.Game.{Outcome, reported, overflowed, pass, game}
use osprograms.Potato.Ring.{listener-cport, IsLink, right-IsLink, left-IsLink, pass-send}

abbrev pub potato : ℤ → Str → Message
potato hops text = record { message_type = potato_type; hops_left = hops; sequence = text }

module _ (libc : Libc) (port nplayers : ℕ) where
  -- A player with hops to go sends the potato to a neighbour, unless something overflows.
  pub play-send :
      (i : ℕ) (chance : Chance) (hops : ℤ) (text : Str)
      → i < nplayers
      → is_one hops ≡ false
      → (play libc (seat port nplayers i) chance (potato hops text) ≡ overflow)
        ⊎ ((at : ℕ) × (j : ℕ) × (said : Str) × (play libc
                (seat port nplayers i)
                chance
                (potato hops text)
              ≡ send at j (potato (pred_ℤ hops) said))
            × IsLink port nplayers i at j)
  unfolding play seat
  play-send i chance hops text l more = elim (Bool-cases (is_int_min hops)) [
    | inl least ↦ inl (rw (play, more, least) refl)
    | inr above ↦
        elim (Option-cases (printed_onto libc chance text (libc.digits i ++ (comma ∷ [])))) [
          | inl full ↦ inl (rw (play, more, above, full) refl)
          | inr (said, ok) ↦ inr (elim (Bool-cases (chance.rand % 2 == 0)) [
            | inl left ↦
                (_, _, said, rw (play, more, above, ok, left) refl, left-IsLink port nplayers i l)
            | inr right ↦
                (_, _, said, rw (play, more, above, ok, right) refl, right-IsLink port nplayers i l)
          ])
        ]
  ]

  -- The last player has sent its report, or something overflowed.
  abbrev pub Ended : Outcome → Type 0
  Ended outcome = ((text : Str) × (outcome ≡ reported text)) ⊎ (outcome ≡ overflowed)

  module _ (low : port + nplayers < 2 ^ 16) where
    pass-Ended :
        (h : ℕ) (chances : ℕ → Chance) (i : ℕ) (text : Str)
        → i < nplayers
        → Ended (pass libc port nplayers chances (suc h) i (potato (pos (suc h)) text))
    unfolding pass play
    pass-Ended zero chances i text l =
        elim (Option-cases (printed_onto libc (chances 0) text (libc.digits i))) [
          | inl full ↦ inr (rw (pass, play, full) refl)
          | inr (said, ok) ↦ inl (said, rw (pass, play, ok) refl)
        ]
    pass-Ended (suc h) chances i text l =
        elim (play-send i (chances 0) (pos (suc (suc h))) text l refl) [
          | inl full ↦ inr (rw (pass, full) refl)
          | inr (at, j, said, played, link) ↦
              subst Ended
                (sym (
                  pass-send libc port nplayers low chances (suc h) i at j
                    (potato (pos (suc (suc h))) text) (potato (pos (suc h)) said) played link))
                (pass-Ended h (λ n. chances (n + 1)) j said link.0)
        ]

    -- A game of `suc h` hops with at least one player, whose ports are all below 2 ^ 16, whatever
    -- `rand()`, `recv` and `sprintf` give: `suc h` rounds are enough for it to end with a report to the
    -- master or with an overflow, and each potato on its way reaches a player.
    pub game-Ended :
        (start h : ℕ) (chances : ℕ → Chance)
        → 0 < nplayers
        → Ended (game libc port nplayers start chances (suc h) (pos (suc h)))
    unfolding game
    game-Ended start h chances some_player =
        let l = mod-lt start some_player in
        let found = listener-cport port nplayers nplayers (first_player nplayers start) l low in
        subst Ended (sym (rw (game, found) refl))
          (pass-Ended h chances (first_player nplayers start) [] l)
