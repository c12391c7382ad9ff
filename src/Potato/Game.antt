-- ===== src/Potato/Game.antt =====
-- A game of master.c and player.c: the potato from the master to the last player's report.
use osprograms.Potato.Master.{seat, reaches, Message, first_potato, first_player}
use osprograms.Potato.Player.{Libc, Chance, quit, overflow, report, send, play}
use osprograms.Base.{ℕ, zero, suc, ◌+◌, Option, none, some, if◌then◌else◌, Str, ℤ}

-- How the game ends: with the text that the last player sends to the master, or not.
pub data Outcome : Type 0 where
  reported : Str → Outcome
  stopped overflowed unreachable still_on : Outcome

-- The player, of those below `k`, that listens at the port.
unfoldable pub listener : ℕ → ℕ → ℕ → ℕ → Option ℕ
unfolding seat reaches
listener port nplayers zero at = none
listener port nplayers (suc k) at =
    let rest = listener port nplayers k at in
    if reaches (seat port nplayers k).cport at then some k else rest

module _ (libc : Libc) (port nplayers : ℕ) where
  -- Player `i` receives the message; `chances` is what is left to chance, hop by hop.
  unfoldable pub pass : (ℕ → Chance) → ℕ → ℕ → Message → Outcome
  unfolding play listener seat
  pass chances zero i m = still_on
  pass chances (suc fuel) i m = elim (play libc (seat port nplayers i) (chances 0) m) [
    | quit ↦ stopped
    | overflow ↦ overflowed
    | report text ↦ reported text
    | send at next m' ↦ elim (listener port nplayers nplayers at) [
      | none ↦ unreachable
      | some j ↦ pass (λ n. chances (n + 1)) fuel j m'
    ]
  ]

  unfoldable pub game : ℕ → (ℕ → Chance) → ℕ → ℤ → Outcome
  unfolding pass listener seat
  game start chances fuel nhops =
      elim (listener port nplayers nplayers (port + first_player nplayers start + 1)) [
        | none ↦ unreachable
        | some j ↦ pass chances fuel j (first_potato nhops)
      ]
