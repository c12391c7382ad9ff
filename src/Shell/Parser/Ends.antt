-- ===== src/Shell/Parser/Ends.antt =====
-- `mkCmd`, `mkPipe` and `parse` of parse.c end, within the bounds of their arrays.
use osprograms.Base.{
  ℕ, zero, suc, ◌+◌, ◌-◌, ◌*◌, ◌≤◌, ◌<◌, ◌≡◌, sym, subst, ◌⊎◌, inl, inr, true, false, Option, none,
  some, List, [], ◌∷◌, arith, Bool-cases, length,
}
use osprograms.Run.{pure, and_then, ◌>>◌}
use osprograms.Run.Returns
use osprograms.Run.Returns.{Returns, returns, bind, mono}
use osprograms.Shell.Token.{Token, tnil, pipe_token, end_of_input}
use osprograms.Shell.Command.{Command, PipeType, pout, Pipe, is_nil}
use osprograms.Shell.Parser.{
  Reader, Parser, advance, skip_rest, MadeCommand, no_command, empty_command, command, pipe_type,
  pipe_of, read_pipe, mk_pipe, read_line, parse,
}
use osprograms.Shell.Parser.Total.{
  size, size-advance, size-go_on, pipe_token-go_on, Shrinks, skip_rest-Returns, give_up-Returns,
}
use osprograms.Shell.Parser.Reads.{IsRead, mk_cmd-Returns}

read_pipe-Returns :
    (fuel : ℕ) (type : PipeType) (before : List Command) (c : Command) (r : Reader)
    → size r < fuel
    → Returns (Shrinks (size r)) (read_pipe fuel type before c r)
unfolding read_pipe
read_pipe-Returns zero type before c r h = absurd (omega arith)
read_pipe-Returns (suc fuel) type before c r h = elim (Bool-cases (pipe_token r.look_ahead)) [
  | inr end ↦ rw (read_pipe, end) (returns (omega arith))
  | inl on ↦
      let k = size-go_on r (pipe_token-go_on r.look_ahead on) in
      elim (Bool-cases (is_nil c.output_to)) [
        | inr two ↦
            rw (read_pipe, on, two)
              (Returns.mono (give_up-Returns fuel r (omega (arith, k)))
                λ _ t (_, s). omega (arith, k))
        | inl nil ↦
            let later : (before : List Command) (d : Command) (t : Reader)
                → size t < size r
                → Returns (Shrinks (size t)) (read_pipe fuel (pipe_type r.look_ahead) before d t) =
              λ b d t s. read_pipe-Returns fuel (pipe_type r.look_ahead) b d t (omega arith) in
            let one = size-advance r in
            rw (read_pipe, on, nil)
              (Returns.bind
                (mk_cmd-Returns fuel (pipe_of (pipe_type r.look_ahead)) (advance r)
                  (omega (arith, k)))
                (linked _ (omega (arith, k)) (later _)))
      ]
]
  where
    linked :
        (before : List Command)
        → size (advance r) < size r
        → ((d : Command) (t : Reader)
            → size t < size r
            → Returns (Shrinks (size t)) (read_pipe fuel (pipe_type r.look_ahead) before d t))
        → (made : MadeCommand) (t : Reader) → IsRead (size (advance r)) made t
        → Returns (Shrinks (size r)) (
            (elim made as (λ _. Parser (Option Pipe)) [
              | command d ↦ read_pipe fuel (pipe_type r.look_ahead) before d
              | _ ↦ do skip_rest fuel; pure none
            ])
              t)
    linked b less later (command d) t (s, _) =
        Returns.mono (later d t (omega arith)) λ _ u v. omega arith
    linked b less later no_command t s =
        Returns.bind (skip_rest-Returns fuel t (omega arith)) λ _ u v. returns (omega arith)
    linked b less later empty_command t s =
        Returns.bind (skip_rest-Returns fuel t (omega arith)) λ _ u v. returns (omega arith)

-- What `mkPipe` reads, if it returns a pipe.
abbrev IsParsed : ℕ → List Pipe → Reader → Type 0
IsParsed n [] t = size t ≤ n
IsParsed n (p ∷ ps) t = (size t ≤ n) × ((size t < n) ⊎ (end_of_input t.look_ahead ≡ true))

end-pipe_token : (t : Token) → end_of_input t ≡ true → pipe_token t ≡ false
end-pipe_token t h = ground arith

-- Fuel for the loop of `mkPipe`, which stops at the end of the input.
abbrev IsReady : ℕ → Reader → Type 0
IsReady fuel r = (2 * size r + 2 < fuel) ⊎ ((end_of_input r.look_ahead ≡ true) × (0 < fuel))

-- The loop reads nothing at the end of the input.
abbrev Stays : {A : Type 0} → Reader → A → Reader → Type 0
Stays r a t =
    (size t ≤ size r) × (end_of_input r.look_ahead ≡ true → end_of_input t.look_ahead ≡ true)

abbrev Loop : ℕ → Type 0
Loop fuel =
    (later : List Pipe) (r : Reader) → IsReady fuel r → Returns (Stays r) (read_line fuel later r)

more_pipes :
    (fuel : ℕ) (r : Reader)
    → 2 * size r + 1 < fuel
    → end_of_input r.look_ahead ≡ false
    → Loop fuel
    → (more : List Pipe) (t : Reader) → IsParsed (size r) more t
    → Returns (Stays r) (
        (elim more as (λ _. Parser (List Pipe)) [ [] ↦ pure [] | p ∷ ps ↦ read_line fuel (p ∷ ps) ])
          t)
more_pipes fuel r enough on loop [] t s = returns (s, λ e. cc)
more_pipes fuel r enough on loop (p ∷ ps) t (s, k) =
    Returns.mono (loop (p ∷ ps) t (next_round k)) λ _ u v. (omega (arith, v.0), λ e. cc)
  where
    next_round : ((size t < size r) ⊎ (end_of_input t.look_ahead ≡ true)) → IsReady fuel t
    next_round (inl less) = inl (omega arith)
    next_round (inr end) = inr (end, omega arith)

module _ (fuel n : ℕ) (enough : 2 * n < fuel) (loop : Loop fuel) where
  ready : (t : Reader) → ((size t < n) ⊎ (end_of_input t.look_ahead ≡ true)) → IsReady fuel t
  ready t (inl less) = inl (omega arith)
  ready t (inr end) = inr (end, omega arith)

  -- The pipe of a command that was read.
  piped :
      (c : Command) (r : Reader)
      → size r ≤ n
      → ((size r < n) ⊎ (end_of_input r.look_ahead ≡ true))
      → Returns
          (λ _ t. (size t ≤ n) × ((size t < n) ⊎ (end_of_input t.look_ahead ≡ true)))
          (read_pipe fuel pout [] c r)
  unfolding read_pipe
  piped c r s (inl less) =
      Returns.mono (read_pipe-Returns fuel pout [] c r (omega arith))
        λ _ t k. (omega arith, inl (omega arith))
  piped c r s (inr end) =
      let positive : fuel ≡ suc (fuel - 1) = omega arith in
      let alone : pipe_token r.look_ahead ≡ false = end-pipe_token r.look_ahead end in
      subst
        (λ f.
          Returns (λ _ t. (size t ≤ n) × ((size t < n) ⊎ (end_of_input t.look_ahead ≡ true)))
            (read_pipe f pout [] c r))
        (sym positive) (rw (read_pipe, alone) (returns (s, inr end)))

  later_pipes :
      (o : Option Pipe) (t : Reader)
      → size t ≤ n
      → ((size t < n) ⊎ (end_of_input t.look_ahead ≡ true))
      → Returns (IsParsed n) (
          (elim o as (λ _. Parser (List Pipe)) [
            | none ↦ pure []
            | some p ↦ λ t. and_then (read_line fuel [] t) λ later. pure (p ∷ later)
          ])
            t)
  later_pipes none t s k = returns s
  later_pipes (some p) t s k =
      Returns.bind (loop [] t (ready t k)) λ later u v. returns (omega (arith, v.0), after k u v)
    where
      after :
          ((size t < n) ⊎ (end_of_input t.look_ahead ≡ true))
          → (u : Reader)
          → (size u ≤ size t)
            × (end_of_input t.look_ahead ≡ true → end_of_input u.look_ahead ≡ true)
          → ((size u < n) ⊎ (end_of_input u.look_ahead ≡ true))
      after (inl less) u (v, _) = inl (omega arith)
      after (inr end) u (_, v) = inr (v end)

  made_pipe :
      (made : MadeCommand) (t : Reader)
      → IsRead n made t
      → Returns (IsParsed n) (
          (elim made as (λ _. Parser (List Pipe)) [
            | command c ↦ λ s. and_then (read_pipe fuel pout [] c s) λ pipe. elim pipe [
              | none ↦ pure []
              | some p ↦ λ t. and_then (read_line fuel [] t) λ later. pure (p ∷ later)
            ]
            | _ ↦ pure []
          ])
            t)
  made_pipe (command c) t (s, k) = Returns.bind (piped c t s k) λ o u (v, w). later_pipes o u v w
  made_pipe no_command t s = returns s
  made_pipe empty_command t s = returns s

-- Each pipe costs two calls, and reads a token.
mutual
  unfolding mk_pipe read_line

  mk_pipe-Returns :
      (fuel : ℕ) (r : Reader) → 2 * size r + 1 < fuel → Returns (IsParsed (size r)) (mk_pipe fuel r)
  mk_pipe-Returns zero r h = absurd (omega arith)
  mk_pipe-Returns (suc fuel) r h =
      Returns.bind (mk_cmd-Returns fuel tnil r (omega arith))
        (made_pipe fuel (size r) (omega arith) (λ later t k. read_line-Returns fuel later t k))

  read_line-Returns : (fuel : ℕ) → Loop fuel
  read_line-Returns zero later r h = absurd (ground arith)
  read_line-Returns (suc fuel) later r h = elim (Bool-cases (end_of_input r.look_ahead)) [
    | inl end ↦ rw (read_line, end) (returns (omega arith, λ e. e))
    | inr on ↦
        let enough : 2 * size r + 1 < fuel = ground (arith, on) in
        rw (read_line, on)
          (Returns.bind (mk_pipe-Returns fuel r enough)
            (more_pipes fuel r enough on (λ later t k. read_line-Returns fuel later t k)))
  ]

-- `parse` returns on every input: its loops end, within the fuel of the model, and no write to an
-- array of arguments leaves it.
pub parse-Returns : (input : List ℕ) → Returns (λ _ t. size t ≤ length input) (parse input)
unfolding parse
parse-Returns input =
    let one = size-advance (record { look_ahead = tnil; input = input }) in
    Returns.mono (mk_pipe-Returns (2 * length input + 2) _ (omega (arith, one)))
      λ ps t s. omega (arith, one, within _ ps t s)
  where
    within : (n : ℕ) (ps : List Pipe) (t : Reader) → IsParsed n ps t → size t ≤ n
    within n [] t s = s
    within n (p ∷ ps) t (s, _) = s
