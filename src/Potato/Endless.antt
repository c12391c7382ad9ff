-- ===== src/Potato/Endless.antt =====
-- A game of no hops in master.c and player.c.
use osprograms.Base.{
  ℕ, zero, suc, ◌+◌, ◌^◌, ◌<◌, ◌≡◌, refl, sym, subst, ◌⊎◌, inl, inr, false, [], arith, Str, ℤ, pos,
  negsuc, pred_ℤ,
}
use osprograms.Potato.Player.{Libc, Chance, is_one}
use osprograms.Potato.Trace.{potato, play-send}
use osprograms.Potato.Master.{first_player}
use osprograms.Potato.Game.{Outcome, overflowed, still_on, pass, game}
use osprograms.Potato.Ring.{listener-cport, pass-send}
use native.Mathlib.Nat.{mod-lt}

-- Zero or less.
abbrev pub IsSpent : ℤ → Type 0
IsSpent hops = (hops ≡ pos 0) ⊎ ((k : ℕ) × (hops ≡ negsuc k))

IsSpent-pred : (hops : ℤ) → IsSpent hops → IsSpent (pred_ℤ hops)
IsSpent-pred (pos zero) h = inr (0, refl)
IsSpent-pred (pos (suc n)) h = absurd (ground arith)
IsSpent-pred (negsuc n) h = inr (suc n, refl)

IsSpent-is_one : (hops : ℤ) → IsSpent hops → is_one hops ≡ false
IsSpent-is_one (pos zero) h = refl
IsSpent-is_one (pos (suc n)) h = absurd (ground arith)
IsSpent-is_one (negsuc n) h = refl

-- The potato is still on its way, or did not fit in `buf`.
abbrev pub GoesOn : Outcome → Type 0
GoesOn outcome = (outcome ≡ still_on) ⊎ (outcome ≡ overflowed)

module _ (libc : Libc) (port nplayers : ℕ) (low : port + nplayers < 2 ^ 16) where
  pass-GoesOn :
      (fuel : ℕ) (chances : ℕ → Chance) (i : ℕ) (hops : ℤ) (text : Str)
      → i < nplayers
      → IsSpent hops
      → GoesOn (pass libc port nplayers chances fuel i (potato hops text))
  unfolding pass
  pass-GoesOn zero chances i hops text l spent = inl refl
  pass-GoesOn (suc fuel) chances i hops text l spent =
      elim (play-send libc port nplayers i (chances 0) hops text l (IsSpent-is_one hops spent)) [
        | inl full ↦ inr (rw (pass, full) refl)
        | inr (at, j, said, played, link) ↦
            subst GoesOn
              (sym (
                pass-send libc port nplayers low chances fuel i at j (potato hops text)
                  (potato (pred_ℤ hops) said) played link))
              (pass-GoesOn fuel (λ n. chances (n + 1)) j (pred_ℤ hops) said link.0
                (IsSpent-pred hops spent))
      ]

  -- A game of no hops with at least one player, whose ports are all below 2 ^ 16, any fuel and
  -- whatever `rand()`, `recv` and `sprintf` give: it goes on past that fuel, or overflows the array
  -- `buf` or the number of hops, but is never over.
  pub game-GoesOn :
      (start fuel : ℕ) (chances : ℕ → Chance)
      → 0 < nplayers
      → GoesOn (game libc port nplayers start chances fuel (pos 0))
  unfolding game
  game-GoesOn start fuel chances some_player =
      let l = mod-lt start some_player in
      let found = listener-cport port nplayers nplayers (first_player nplayers start) l low in
      subst GoesOn (sym (rw (game, found) refl))
        (pass-GoesOn fuel chances (first_player nplayers start) (pos 0) [] l (inl refl))
