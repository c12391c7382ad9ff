-- ===== src/Potato/Tests.antt =====
-- The theorems of the hot potato for a ring of three players.
use osprograms.Potato.Trace.{game-Ended}
use osprograms.Base.{
  ℕ, ◌+◌, ◌≡◌, refl, false, Option, none, some, List, [], ◌∷◌, ◌++◌, arith, length, codes, pos,
}
use osprograms.Potato.Trace.{Ended}
use osprograms.Potato.Ring.{IsLink, seat-IsLink}
use osprograms.Potato.Player.{
  Libc, Chance, no_chance, printed, printed_onto, left_player, right_player, play,
}
use osprograms.Potato.Master.{seat, reaches}
use osprograms.Potato.Party.{
  told, Stage, dealing, readying, World, Result, goes, Turn, connects, masters, plays, deliver,
  master_step, player_step, step, run, IsRing, start,
}
use osprograms.Potato.Game.{reported, listener, pass, game}
use osprograms.Potato.Party.Progress.{OverOrMoves, run-OverOrMoves}
use osprograms.Potato.Party.Good.{IsGood, Safe}
use osprograms.Potato.Party.Runs.{run-Safe}
use osprograms.Potato.Endless.{GoesOn, game-GoesOn}

-- A C library that prints numbers of one digit, and appends what it prints.
abbrev libc : Libc
libc = record { digits = λ i. (48 + i) ∷ []; onto = λ before text. before ++ text }

-- The results of `rand()`, with texts that arrive whole.
abbrev chances : ℕ → Chance
chances n = record { rand = n; received = 100 }

game-Ended_example : Ended libc 5000 3 (game libc 5000 3 7 chances 3 (pos 3))
game-Ended_example = game-Ended libc 5000 3 (omega arith) 7 2 chances (omega arith)

game-GoesOn_example : GoesOn (game libc 5000 3 7 chances 100 (pos 0))
game-GoesOn_example = game-GoesOn libc 5000 3 (omega arith) 7 100 chances (omega arith)

game_example : game libc 5000 3 7 chances 3 (pos 3) ≡ reported (codes "1,0,1")
unfolding game pass play seat listener reaches printed_onto printed
game_example = refl

seat-IsLink_example :
    IsLink 5000 3 2 (seat 5000 3 2).lport (left_player (seat 5000 3 2))
    × IsLink 5000 3 2 (seat 5000 3 2).rport (right_player (seat 5000 3 2))
seat-IsLink_example = seat-IsLink 5000 3 2 (omega arith)

one_player : IsRing 8000 1
one_player = (omega arith, omega arith, omega arith)

-- A player connects, and the master goes on.
abbrev some_turns : List Turn
some_turns =
    connects ∷ masters 0 ∷ plays 0 no_chance ∷ masters 0 ∷ masters 0 ∷ masters 0 ∷ masters 0 ∷ []

run-Safe_example : Safe (IsGood 1) (run libc 8000 1 (pos 2) some_turns start)
run-Safe_example = run-Safe libc 8000 1 one_player (pos 2) (omega arith) some_turns

-- The first turns of a game with one player: all are ready, and the master is about to send the potato.
abbrev stage_after : Result → Option (Stage × ℕ)
stage_after (goes w) = some (w.stage, length w.players)
stage_after _ = none

some_turns_example : stage_after (run libc 8000 1 (pos 2) some_turns start) ≡ some (dealing, 1)
unfolding run step master_step player_step deliver
some_turns_example = refl

abbrev two_turns : List Turn
two_turns = connects ∷ masters 0 ∷ []

-- A player has connected, and the master waits for its readiness.
abbrev connected : World
connected = record {
  stage = readying 0;
  players = record { phase = told; go_ahead = false; inbox = [] } ∷ [];
  reports = [];
}

run-OverOrMoves_example : OverOrMoves libc 8000 1 one_player (pos 2) connected
run-OverOrMoves_example =
    run-OverOrMoves libc 8000 1 one_player (pos 2) (omega arith) two_turns connected ran
  where
    ran : run libc 8000 1 (pos 2) two_turns start ≡ goes connected
    ran = unfold run step master_step in refl
