-- ===== src/Potato/Party.antt =====
-- The processes of master.c and player.c and the messages between them: a step is taken by one of
-- them, in any order.
pub mod Potatoes
pub mod Good
pub mod Steps
pub mod Runs
pub mod Progress
use osprograms.Base.{
  ℕ, ◌+◌, ◌^◌, ◌≤◌, ◌<◌, Bool, true, false, none, some, List, [], ◌∷◌, ◌++◌, ltb, ◌==◌,
  if◌then◌else◌, length, get_elem?, set, Str, ℤ, pos,
}
use osprograms.Potato.Master.{seat, htons, Message, cease_type, first_potato, first_player}
use osprograms.Potato.Player.{
  buffer_length, Libc, Chance, Action, quit, overflow, report, send, play,
}
use osprograms.Potato.Game.{listener}

-- A player that has connected: it knows its seat; it listens at its port and has said so; it is in
-- its loop; it has left the loop.
pub data Phase : Type 0 where
  told ready playing gone : Phase

-- The player's place in its program, whether the master has told it to go ahead, and what is sent
-- to its port and not received yet.
pub record Player : Type 0 where
  pub phase : Phase
  pub go_ahead : Bool
  pub inbox : List Message

-- The master's loops, with their `i`: over the connections, the readiness of the players and the
-- messages to go ahead; then it sends the potato, waits for the report, and sends the messages to
-- cease.
pub data Stage : Type 0 where
  accepting dealing awaiting : Stage
  readying going : ℕ → Stage
  ceasing : Str → ℕ → Stage
  over : Str → Stage

-- The players in the order of their numbers, and the reports sent to the master.
pub record World : Type 0 where
  pub stage : Stage
  pub players : List Player
  pub reports : List Str

-- A step that can not be taken yet, one that is taken, a connection to a port where nobody listens,
-- and an overflow: of `buf`, of the number of hops, or of the arrays `p` and
-- `newsockets`, which have LEN elements.
pub data Result : Type 0 where
  waits refused breaks : Result
  goes : World → Result

-- Who takes the next step: a new player connects, the master or a player goes on, with what is left to
-- chance.
pub data Turn : Type 0 where
  connects : Turn
  masters : ℕ → Turn
  plays : ℕ → Chance → Turn

abbrev pub cease : Message
cease = record { message_type = cease_type; hops_left = pos 0; sequence = [] }

abbrev pub is_told : Player → Bool
is_told p = elim p.phase [ told ↦ true | _ ↦ false ]

abbrev pub is_gone : Player → Bool
is_gone p = elim p.phase [ gone ↦ true | _ ↦ false ]

abbrev pub listens : Player → Bool
listens p = elim p.phase [ told ↦ false | ready ↦ true | playing ↦ true | gone ↦ false ]

abbrev pub with_player : ℕ → Player → World → World
with_player i p w = record w { players = set w.players i p }

abbrev pub at_stage : Stage → World → World
at_stage stage w = record w { stage = stage }

module _ (libc : Libc) (port nplayers : ℕ) (nhops : ℤ) where
  -- `createSendingSocket` and `send`.
  unfoldable pub deliver : ℕ → Message → World → Result
  unfolding listener
  deliver at m w = elim (listener port nplayers nplayers at) [
    | none ↦ refused
    | some j ↦ elim (get_elem? w.players j) [
      | none ↦ refused
      | some p ↦
          if listens p
          then goes (with_player j (record p { inbox = p.inbox ++ (m ∷ []) }) w)
          else refused
    ]
  ]

  unfoldable pub master_step : ℕ → Stage → World → Result
  unfolding deliver
  master_step random accepting w =
      if length w.players == nplayers then goes (at_stage (readying 0) w) else waits
  master_step random (readying k) w =
      if k == nplayers then goes (at_stage (going 0) w) else elim (get_elem? w.players k) [
        | none ↦ waits
        | some p ↦ if is_told p then waits else goes (at_stage (readying (k + 1)) w)
      ]
  master_step random (going k) w =
      if k == nplayers then goes (at_stage dealing w) else elim (get_elem? w.players k) [
        | none ↦ refused
        | some p ↦ goes (with_player k (record p { go_ahead = true }) (at_stage (going (k + 1)) w))
      ]
  master_step random dealing w =
      deliver (port + first_player nplayers random + 1) (first_potato nhops) (at_stage awaiting w)
  master_step random awaiting w = elim w.reports [
    | [] ↦ waits
    | r ∷ rs ↦ goes (record w { stage = ceasing r 0; reports = rs })
  ]
  master_step random (ceasing r k) w =
      if k == nplayers
      then goes (at_stage (over r) w)
      else deliver (port + k + 1) cease (at_stage (ceasing r (k + 1)) w)
  master_step random (over r) w = waits

  -- A message is received, and what `play` says is done.
  abbrev pub act : ℕ → Player → Action → World → Result
  act i p quit w = goes (with_player i (record p { phase = gone }) w)
  act i p overflow w = breaks
  act i p (report text) w = goes (record w { reports = w.reports ++ (text ∷ []) })
  act i p (send at next m) w = deliver at m w

  unfoldable pub player_step : Chance → ℕ → Player → World → Result
  unfolding deliver play seat
  player_step chance i p w = elim p.phase [
    | told ↦ goes (with_player i (record p { phase = ready }) w)
    | ready ↦ if p.go_ahead then goes (with_player i (record p { phase = playing }) w) else waits
    | gone ↦ waits
    | playing ↦ elim p.inbox [
      | [] ↦ waits
      | m ∷ ms ↦
          let p' = record p { inbox = ms } in
          act i p' (play libc (seat port nplayers i) chance m) (with_player i p' w)
    ]
  ]

  unfoldable pub step : Turn → World → Result
  unfolding master_step player_step
  step connects w = elim w.stage [
    | accepting ↦
        if htons port == 0
        then refused
        else if length w.players == nplayers
        then waits
        else if ltb (length w.players) buffer_length
        then goes (record w {
          players = w.players ++ (record { phase = told; go_ahead = false; inbox = [] } ∷ []);
        })
        else breaks
    | _ ↦ waits
  ]
  step (masters random) w = master_step random w.stage w
  step (plays i chance) w = elim (get_elem? w.players i) [
    | none ↦ waits
    | some p ↦ player_step chance i p w
  ]

  -- A sequence of turns; one that can not be taken is passed over.
  unfoldable pub run : List Turn → World → Result
  unfolding step
  run [] w = goes w
  run (t ∷ ts) w = elim (step t w) [
    | waits ↦ run ts w
    | refused ↦ refused
    | breaks ↦ breaks
    | goes w' ↦ run ts w'
  ]

-- The ports of the master and the players are from 1 to 65535, and the arrays of the master have room
-- for the players.
abbrev pub IsRing : ℕ → ℕ → Type 0
IsRing port nplayers = (1 ≤ port) × (port + nplayers < 2 ^ 16) × (nplayers ≤ buffer_length)

abbrev pub start : World
start = record { stage = accepting; players = []; reports = [] }
