-- ===== src/Shell/Parser/Reads.antt =====
-- `mkCmd` of parse.c ends, within the bounds of its array.
use osprograms.Base.{
  ℕ, ◌≤◌, ◌<◌, ◌≡◌, refl, ap, ◌⊎◌, inl, inr, true, Option, none, some, arith, lt→ltb, length,
}
use osprograms.Run.{pure}
use osprograms.Run.Returns
use osprograms.Run.Returns.{Returns, returns, bind, mono}
use osprograms.Shell.Token.{Token, terror, tamp, tsemi, tend, tword, end_of_input}
use osprograms.Shell.Command.{Command}
use osprograms.Shell.Parser.{
  Reader, Parser, advance, MadeCommand, no_command, empty_command, command, close_args, close_cmd,
  start_cmd, mk_cmd,
}
use osprograms.Shell.Lexer.Sizes.{weight}
use osprograms.Shell.Parser.Total.{
  size, size-advance, size-go_on, skip_separators-Returns, IsRoomy, new_cmd-IsRoomy, IsPart,
  read_parts-Returns,
}

-- A command was read, unless the input is at its end.
abbrev pub IsRead : ℕ → MadeCommand → Reader → Type 0
IsRead n (command c) t = (size t ≤ n) × ((size t < n) ⊎ (end_of_input t.look_ahead ≡ true))
IsRead n _ t = size t ≤ n

close_args-Returns :
    (n : ℕ) (c : Command) (r : Reader)
    → size r < n
    → IsRoomy c
    → Returns (IsRead n) (close_args c r)
unfolding close_args
close_args-Returns n c r s room =
    let fits = lt→ltb (length c.args) c.max_args room in
    rw (close_args, fits) (returns (omega arith, inl s))

close_cmd-Returns :
    (n : ℕ) (c : Command) (r : Reader) → size r < n → IsRoomy c → Returns (IsRead n) (close_cmd c r)
unfolding close_cmd
close_cmd-Returns n c r s room = by_token r.look_ahead refl
  where
    after : size (advance r) < n
    after = omega (arith, size-advance r)

    by_token : (k : Token) → r.look_ahead ≡ k → Returns (IsRead n) (close_cmd c r)
    by_token terror e = rw (close_cmd, e) (returns (omega arith))
    by_token tsemi e = rw (close_cmd, e) (close_args-Returns n c (advance r) after room)
    by_token tamp e =
        rw (close_cmd, e) (close_args-Returns n (record c { exec = tamp }) (advance r) after room)
    by_token _ e = rw (close_cmd, e) (close_args-Returns n c r s room)

IsRead-mono :
    (n m : ℕ) (made : MadeCommand) (t : Reader) → n ≤ m → IsRead n made t → IsRead m made t
IsRead-mono n m (command c) t l (s, inl k) = (omega arith, inl (omega arith))
IsRead-mono n m (command c) t l (s, inr k) = (omega arith, inr k)
IsRead-mono n m no_command t l s = omega arith
IsRead-mono n m empty_command t l s = omega arith

start_cmd-Returns :
    (fuel n : ℕ) (source : Token) (r : Reader)
    → size r < fuel
    → size r ≡ n
    → Returns (IsRead n) (start_cmd fuel source r)
unfolding start_cmd
start_cmd-Returns fuel n source r h same = by_token r.look_ahead refl
  where
    closed :
        size (advance r) < n
        → (o : Option Command) (t : Reader) → IsPart (size (advance r)) o t
        → Returns (IsRead n) (
            (elim o as (λ _. Parser MadeCommand) [
              | none ↦ pure no_command
              | some c' ↦ close_cmd c'
            ])
              t)
    closed less none t s = returns (omega arith)
    closed less (some c) t (s, room) = close_cmd-Returns n c t (omega arith) room

    by_token : (k : Token) → r.look_ahead ≡ k → Returns (IsRead n) (start_cmd fuel source r)
    by_token (tword w) e =
        let k = size-go_on r (rw e refl) in
        let less : size (advance r) < n = omega (arith, same, k, size-advance r) in
        rw (start_cmd, e)
          (Returns.bind
            (read_parts-Returns fuel _ (advance r) (omega arith) (new_cmd-IsRoomy w source))
            (closed less))
    by_token tend e = rw (start_cmd, e) (returns (omega (arith, ap weight e), inr (rw e refl)))
    by_token _ e = rw (start_cmd, e) (returns (omega (arith, ap weight e)))

pub mk_cmd-Returns :
    (fuel : ℕ) (source : Token) (r : Reader)
    → size r < fuel
    → Returns (IsRead (size r)) (mk_cmd fuel source r)
unfolding mk_cmd
mk_cmd-Returns fuel source r h = Returns.bind (skip_separators-Returns fuel r h) λ _ t s.
    Returns.mono (start_cmd-Returns fuel (size t) source t (omega arith) refl)
      λ made u k. IsRead-mono (size t) (size r) made u s k
