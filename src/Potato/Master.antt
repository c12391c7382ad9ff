-- ===== src/Potato/Master.antt =====
-- master.c: what the master tells each player, and the potato that it starts the game with.
use osprograms.Base.{ℕ, ◌+◌, ◌%◌, ◌^◌, Bool, not, ◌&&◌, [], ◌==◌, if◌then◌else◌, Str, ℤ}

-- What a player receives on connecting: its number, the number of players, and the ports where it,
-- its left and its right neighbour listen.
pub record Seat : Type 0 where
  pub id : ℕ
  pub nplayers : ℕ
  pub cport : ℕ
  pub lport : ℕ
  pub rport : ℕ

unfoldable pub seat : ℕ → ℕ → ℕ → Seat
seat port nplayers i = record {
  id = i;
  nplayers = nplayers;
  cport = port + i + 1;
  lport = if i == 0 then port + nplayers else port + i;
  rport = if i + 1 == nplayers then port + 1 else port + i + 2;
}

-- A port has 16 bits.
abbrev pub htons : ℕ → ℕ
htons port = port % 2 ^ 16

-- Whether a connection to the port `at` meets a socket that was bound to `port`; 0 stands for any
-- port, and nobody can be reached there.
unfoldable pub reaches : ℕ → ℕ → Bool
reaches port at = htons port == htons at && not (htons at == 0)

-- What is sent to a player: the type, the hops and the trace so far.
pub record Message : Type 0 where
  pub message_type : ℕ
  pub hops_left : ℤ
  pub sequence : Str

abbrev pub potato_type : ℕ
potato_type = 1

abbrev pub cease_type : ℕ
cease_type = 2

abbrev pub first_potato : ℤ → Message
first_potato nhops = record { message_type = potato_type; hops_left = nhops; sequence = [] }

-- The player who gets the potato first, where `rand()` gave `random`.
abbrev pub first_player : ℕ → ℕ → ℕ
first_player nplayers random = random % nplayers
