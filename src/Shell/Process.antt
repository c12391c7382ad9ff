-- ===== src/Shell/Process.antt =====
-- A process of main1.c, and the steps on its descriptors that the shell is made of.
use osprograms.Run.{Run, ok, fault, out_of_fuel, Program, pure, and_then, ◌>>=◌, ◌>>◌}
use osprograms.Base.{
  ℕ, zero, suc, ◌+◌, ◌*◌, ◌≡◌, refl, Bool, true, false, Option, none, some, List, [], ◌∷◌, ◌++◌,
  append_assoc, ltb, if◌then◌else◌, length, get_elem?, set, Str,
}
use osprograms.Shell.System.{Action, runs, Event, Effects, System}
use osprograms.Shell.Token.{Token, tpipe, tpipe_err}
use osprograms.Shell.Command.{Command}
use osprograms.Shell.Descriptors.{read_end, write_end, Table, slot, put, lowest_free, close, dup2}

-- A process: its descriptors, the array `pipes`, for the record how many pipes were made, and what
-- is seen of it.
pub record Process : Type 0 where
  pub table : Table
  pub pipes : List ℕ
  pub made : ℕ
  pub effects : Effects

-- Whether the process goes on, or has called exit().
pub data Going : Type 0 where
  goes_on exits : Going

abbrev pub Routine : Type 0
Routine = Program Process Going

abbrev pub on_table : (Table → Table) → Program Process (Unit {0})
on_table f s = ok tt (record s { table = f s.table })

-- `pipes[i]`; `none` is an index below 0.
unfoldable pub pipe_at : Option ℕ → Program Process ℕ
pipe_at none s = fault
pipe_at (some i) s = elim (get_elem? s.pipes i) [ none ↦ fault | some fd ↦ ok fd s ]

abbrev pub end_of : Option ℕ → ℕ → Option ℕ
end_of none side = none
end_of (some id) side = some (2 * id + side)

-- A pipe's end is put in place of the descriptors `tos`, and both ends are closed.
abbrev pub to_pipe : Option ℕ → ℕ → ℕ → (ℕ → Table → Table) → Routine
to_pipe id other side place = do
  a ← pipe_at (end_of id other)
  on_table (close a)
  b ← pipe_at (end_of id side)
  on_table (place b)
  on_table (close b)
  pure goes_on

abbrev pub both_outputs : ℕ → Table → Table
both_outputs fd t = dup2 fd 2 (dup2 fd 1 t)

-- What follows where the process has not ended.
abbrev pub if_going : Routine → Routine → Routine
if_going a b s = and_then (a s) λ going. elim going [ exits ↦ pure exits | goes_on ↦ b ]

-- More events.
infixl 60 ◌⊕◌
abbrev pub ◌⊕◌ : Effects → List Event → Effects
f ⊕ es = record f { events = f.events ++ es }

pub ⊕_assoc : (f : Effects) (es es' : List Event) → (f ⊕ es) ⊕ es' ≡ f ⊕ (es ++ es')
⊕_assoc f es es' = rw (append_assoc f.events es es') refl

abbrev pub event_of : Action → Process → Event
event_of action s = record {
  action = action;
  stdin = slot s.table 0;
  stdout = slot s.table 1;
  stderr = slot s.table 2;
}

abbrev pub emit : Action → Routine
emit action s = ok goes_on (record s { effects = s.effects ⊕ (event_of action s ∷ []) })

-- `execvp` in a child. Where the program does not end, neither does the `wait` of the shell, which
-- starts the next command behind it: no fuel is enough.
abbrev pub exec_program : System → List Str → Routine
exec_program sys args s =
    if sys.ends (event_of (runs args) s) then emit (runs args) s else out_of_fuel

-- fork(): a child with a copy of the descriptors and the settings runs, and the parent waits for its
-- end. What the child changes of them is not seen, and where it meets undefined behaviour the parent
-- goes on.
abbrev pub waited : System → Process → Run Process Going → Run Process (Unit {0})
waited sys s (ok _ s') =
    ok tt (record s { effects = record s.effects { events = s'.effects.events } })
waited sys s fault = elim (sys.astray s.table s.effects) [
  | none ↦ out_of_fuel
  | some es ↦ ok tt (record s { effects = s.effects ⊕ es })
]
waited sys s out_of_fuel = out_of_fuel

abbrev pub forked : System → Routine → Program Process (Unit {0})
forked sys child s = waited sys s (child s)

-- `close((pipes+(2*outPipeId))[1])`
abbrev pub close_write_end : Option ℕ → Routine
close_write_end out_pipe = do fd ← pipe_at (end_of out_pipe 1); on_table (close fd); pure goes_on

-- `pipe(pipes+(2*currPipe))`: two new descriptors, stored in the array.
unfoldable pub make_pipe : ℕ → Program Process (Unit {0})
unfolding put lowest_free
make_pipe current s =
    let r = lowest_free s.table in
    let reading = put s.table r (some (read_end s.made)) in
    let w = lowest_free reading in
    if ltb (2 * current + 1) (length s.pipes)
    then ok tt (record s {
      table = put reading w (some (write_end s.made));
      pipes = set (set s.pipes (2 * current) r) (2 * current + 1) w;
      made = s.made + 1;
    })
    else fault

abbrev pub is_pipe : Token → Bool
is_pipe tpipe = true
is_pipe tpipe_err = true
is_pipe _ = false

abbrev pub before : ℕ → Option ℕ
before zero = none
before (suc n) = some n

abbrev pub is_last : List Command → Bool
is_last [] = true
is_last (c ∷ cs) = false
