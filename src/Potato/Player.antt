-- ===== src/Potato/Player.antt =====
-- player.c: what a player does with a message that it receives.
use osprograms.Base.{
  ℕ, zero, suc, ◌+◌, ◌-◌, ◌%◌, Bool, true, false, Option, none, some, [], ◌∷◌, ◌++◌, ltb, ◌==◌,
  if◌then◌else◌, length, take, Str, ℤ, pos, negsuc, pred_ℤ, is_int_min,
}
use osprograms.Potato.Master.{Seat, Message, potato_type, cease_type}

-- LEN
abbrev pub buffer_length : ℕ
buffer_length = 40960

abbrev pub comma : ℕ
comma = 44

-- What the C library decides: what `%d` prints, and what `sprintf(buf, "%s…", buf, …)` leaves in `buf`,
-- where the first text is in `buf` and the second one is to follow it: C leaves that undefined, since
-- `buf` is both read and written.
pub record Libc : Type 0 where
  pub digits : ℕ → Str
  pub onto : Str → Str → Str

-- What is left to chance in a round: what `rand()` gives, and how many bytes of the text that was sent the
-- one `recv` for it returns. The two numbers in front of it are taken to arrive whole.
pub record Chance : Type 0 where
  pub rand : ℕ
  pub received : ℕ

abbrev pub no_chance : Chance
no_chance = record { rand = 0; received = 0 }

-- The array `buf` has room for the text and its NUL, or overflows.
unfoldable pub printed : Str → Option Str
printed text = if ltb (length text) buffer_length then some text else none

-- What is in `buf` once a text is printed behind the one received.
unfoldable pub printed_onto : Libc → Chance → Str → Str → Option Str
unfolding printed
printed_onto libc chance sent text = printed (libc.onto (take chance.received sent) text)

pub data Action : Type 0 where
  quit : Action
  -- Of `buf`, or of the `int` hopsLeft-1.
  overflow : Action
  report : Str → Action
  -- The port, the number of the player that is printed, and the message.
  send : ℕ → ℕ → Message → Action

-- `hopsLeft == 1`
abbrev pub is_one : ℤ → Bool
is_one (pos zero) = false
is_one (pos (suc zero)) = true
is_one (pos (suc (suc n))) = false
is_one (negsuc n) = false

-- The numbers of the neighbours, `(id-1) < 0` being `id == 0`.
abbrev pub left_player : Seat → ℕ
left_player me = if me.id == 0 then me.nplayers - 1 else me.id - 1

abbrev pub right_player : Seat → ℕ
right_player me = (me.id + 1) % me.nplayers

abbrev pub forward : Seat → Bool → Message → Str → Action
forward me left m text =
    let next : Message = record {
      message_type = potato_type;
      hops_left = pred_ℤ m.hops_left;
      sequence = text;
    } in
    if left then send me.lport (left_player me) next else send me.rport (right_player me) next

module _ (libc : Libc) where
  -- One round of the loop.
  unfoldable pub play : Seat → Chance → Message → Action
  unfolding printed_onto
  play me chance m = elim (m.message_type == cease_type) [
    | true ↦ quit
    | false ↦ elim (is_one m.hops_left) [
      | true ↦ elim (printed_onto libc chance m.sequence (libc.digits me.id)) [
        | none ↦ overflow
        | some text ↦ report text
      ]
      | false ↦ elim (is_int_min m.hops_left) [
        | true ↦ overflow
        | false ↦ elim (printed_onto libc chance m.sequence (libc.digits me.id ++ (comma ∷ []))) [
          | none ↦ overflow
          | some text ↦ forward me (chance.rand % 2 == 0) m text
        ]
      ]
    ]
  ]
