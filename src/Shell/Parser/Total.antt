-- ===== src/Shell/Parser/Total.antt =====
-- `parse` of parse.c ends on every input, and stays within the arrays of its commands.
use osprograms.Base.{
  ℕ, zero, suc, ◌+◌, ◌≤◌, ◌<◌, ◌≡◌, refl, inl, inr, true, false, Option, none, some, [], ◌∷◌, ◌++◌,
  arith, ltb, lt→ltb, Bool-cases, length, length-append, Str,
}
use osprograms.Run.Returns.{Returns, returns, bind, mono}
use osprograms.Run.Returns
use osprograms.Shell.Token.{Token, tin, tword, in_cmd, pipe_token, cmd_token, end_of_input}
use osprograms.Shell.Lexer.Sizes.{weight, next_token-le}
use osprograms.Shell.Command.{Command, mk_word, new_cmd, is_nil, enlarged, add_arg}
use osprograms.Shell.Parser.{
  Reader, Parser, advance, skip_to_end, skip_rest, skip_separators, give_up, redirect_name,
  redirect_input, redirect_output, read_part, read_parts,
}
use osprograms.Run.{pure}

-- What is left to read, with the token ahead.
abbrev pub size : Reader → ℕ
size r = length r.input + weight r.look_ahead

pub size-advance : (r : Reader) → size (advance r) ≤ length r.input
unfolding advance
size-advance r = next_token-le r.input

-- A token that does not end the input has a weight.
pub size-go_on : (r : Reader) → end_of_input r.look_ahead ≡ false → size r ≡ length r.input + 1
size-go_on r h = rw h refl

in_cmd-go_on : (t : Token) → in_cmd t ≡ true → end_of_input t ≡ false
in_cmd-go_on t h = ground arith

cmd_token-go_on : (t : Token) → cmd_token t ≡ true → end_of_input t ≡ false
cmd_token-go_on t h = ground arith

pub pipe_token-go_on : (t : Token) → pipe_token t ≡ true → end_of_input t ≡ false
pipe_token-go_on t h = ground arith

abbrev pub Shrinks : {A : Type 0} → ℕ → A → Reader → Type 0
Shrinks n a t = size t ≤ n

skip_to_end-Returns :
    (fuel : ℕ) (r : Reader)
    → length r.input < fuel
    → Returns (Shrinks (length r.input)) (skip_to_end fuel r)
unfolding skip_to_end
skip_to_end-Returns zero r h = absurd (omega arith)
skip_to_end-Returns (suc fuel) r h = elim (Bool-cases (end_of_input (advance r).look_ahead)) [
  | inl end ↦ rw (skip_to_end, end) (returns (size-advance r))
  | inr on ↦
      let l = size-advance r in
      let k = size-go_on (advance r) on in
      rw (skip_to_end, on)
        (Returns.mono (skip_to_end-Returns fuel (advance r) (omega (arith, k, l)))
          λ _ t s. omega (arith, k, l, s))
]

pub skip_rest-Returns :
    (fuel : ℕ) (r : Reader) → size r < fuel → Returns (Shrinks (size r)) (skip_rest fuel r)
unfolding skip_rest
skip_rest-Returns zero r h = absurd (omega arith)
skip_rest-Returns (suc fuel) r h = elim (Bool-cases (end_of_input r.look_ahead)) [
  | inl end ↦
      let z : weight r.look_ahead ≡ 0 = rw end refl in
      rw (skip_rest, end) (returns (omega (arith, z)))
  | inr on ↦
      let l = size-advance r in
      let k = size-go_on r on in
      rw (skip_rest, on)
        (Returns.mono (skip_rest-Returns fuel (advance r) (omega (arith, k, l)))
          λ _ t s. omega (arith, k, l, s))
]

pub skip_separators-Returns :
    (fuel : ℕ) (r : Reader) → size r < fuel → Returns (Shrinks (size r)) (skip_separators fuel r)
unfolding skip_separators
skip_separators-Returns zero r h = absurd (omega arith)
skip_separators-Returns (suc fuel) r h = elim (Bool-cases (cmd_token r.look_ahead)) [
  | inr end ↦ rw (skip_separators, end) (returns (omega arith))
  | inl on ↦
      let l = size-advance r in
      let k = size-go_on r (cmd_token-go_on r.look_ahead on) in
      rw (skip_separators, on)
        (Returns.mono (skip_separators-Returns fuel (advance r) (omega (arith, k, l)))
          λ _ t s. omega (arith, k, l, s))
]

-- The array `args` has room for the NULL behind the arguments.
abbrev pub IsRoomy : Command → Type 0
IsRoomy c = length c.args < c.max_args

pub new_cmd-IsRoomy :
    (w : Str) (source : Token) → IsRoomy (record (new_cmd w) { input_from = source })
unfolding new_cmd
new_cmd-IsRoomy w source = omega arith

pub add_arg-IsRoomy :
    (w : Str) (c : Command) → IsRoomy c → (d : Command) × (add_arg w c ≡ some d) × IsRoomy d
unfolding add_arg
add_arg-IsRoomy w c h =
    let room : length c.args + 1 < enlarged c = ground arith in
    let fits : ltb (length c.args) (enlarged c) ≡ true = lt→ltb _ _ (omega (arith, room)) in
    (
      record c { max_args = enlarged c; args = c.args ++ (mk_word w ∷ []) },
      rw fits refl,
      omega (arith, room, length-append c.args (mk_word w ∷ [])),
    )

pub give_up-Returns :
    {A : Type 0} (fuel : ℕ) (r : Reader)
    → length r.input < fuel
    → Returns (λ (o : Option A) t. (o ≡ none) × (size t ≤ length r.input)) (give_up fuel r)
give_up-Returns fuel r h = Returns.bind (skip_to_end-Returns fuel r h) λ _ t s. returns (refl, s)

redirect_name-Returns :
    (fuel : ℕ) (r : Reader)
    → length r.input < fuel
    → Returns (Shrinks (length r.input)) (redirect_name fuel r)
unfolding redirect_name
redirect_name-Returns fuel r h = by_token (advance r).look_ahead refl
  where
    one : size (advance r) ≤ length r.input
    one = size-advance r

    two : size (advance (advance r)) ≤ length (advance r).input
    two = size-advance (advance r)

    lost : Returns (Shrinks {A = Option Str} (length r.input)) (give_up fuel (advance r))
    lost =
        Returns.mono (give_up-Returns fuel (advance r) (omega (arith, one, h)))
          λ _ t (_, s). omega (arith, one, s)

    by_token :
        (k : Token)
        → (advance r).look_ahead ≡ k
        → Returns (Shrinks (length r.input)) (redirect_name fuel r)
    by_token (tword w) e = rw (redirect_name, e) (returns (omega (arith, one, two)))
    by_token _ e = rw (redirect_name, e) lost

-- A command that is still being read has room for its NULL.
abbrev pub IsPart : ℕ → Option Command → Reader → Type 0
IsPart n none t = size t ≤ n
IsPart n (some c) t = (size t ≤ n) × IsRoomy c

module _ (fuel : ℕ) (c : Command) (r : Reader) (fits : length r.input < fuel)
    (roomy : IsRoomy c) where
  given_up : Returns (IsPart (length r.input)) (give_up fuel r)
  given_up = Returns.mono (give_up-Returns fuel r fits) λ _ t (e, s). rw e s

  redirect_input-Returns : Returns (IsPart (length r.input)) (redirect_input fuel c r)
  unfolding redirect_input
  redirect_input-Returns = elim (Bool-cases (is_nil c.input_from)) [
    | inr two ↦ rw (redirect_input, two) given_up
    | inl nil ↦ rw (redirect_input, nil) (Returns.bind (redirect_name-Returns fuel r fits) named)
  ]
    where
      named :
          (o : Option Str) (t : Reader)
          → size t ≤ length r.input
          → Returns (IsPart (length r.input)) (
              (elim o as (λ _. Parser (Option Command)) [
                | none ↦ pure none
                | some w ↦ pure (some (record c { input_from = tin; infile = some w }))
              ])
                t)
      named none t s = returns s
      named (some w) t s = returns (s, roomy)

  redirect_output-Returns : Returns (IsPart (length r.input)) (redirect_output fuel c r)
  unfolding redirect_output
  redirect_output-Returns = elim (Bool-cases (is_nil c.output_to)) [
    | inr two ↦ rw (redirect_output, two) given_up
    | inl nil ↦ rw (redirect_output, nil) (Returns.bind (redirect_name-Returns fuel r fits) named)
  ]
    where
      named :
          (o : Option Str) (t : Reader)
          → size t ≤ length r.input
          → Returns (IsPart (length r.input)) (
              (elim o as (λ _. Parser (Option Command)) [
                | none ↦ pure none
                | some w ↦ pure (some (record c { output_to = r.look_ahead; outfile = some w }))
              ])
                t)
      named none t s = returns s
      named (some w) t s = returns (s, roomy)

  read_part-Returns : Returns (IsPart (length r.input)) (read_part fuel c r)
  unfolding read_part
  read_part-Returns = by_token r.look_ahead refl
    where
      by_token :
          (k : Token) → r.look_ahead ≡ k → Returns (IsPart (length r.input)) (read_part fuel c r)
      by_token tin e = rw (read_part, e) redirect_input-Returns
      by_token (tword w) e =
          let (d, added, room) = add_arg-IsRoomy w c roomy in
          rw (read_part, e, added) (returns (size-advance r, room))
      by_token _ e = rw (read_part, e) redirect_output-Returns

pub read_parts-Returns :
    (fuel : ℕ) (c : Command) (r : Reader)
    → size r < fuel
    → IsRoomy c
    → Returns (IsPart (size r)) (read_parts fuel c r)
unfolding read_parts
read_parts-Returns zero c r h roomy = absurd (omega arith)
read_parts-Returns (suc fuel) c r h roomy = elim (Bool-cases (in_cmd r.look_ahead)) [
  | inr end ↦ rw (read_parts, end) (returns (omega arith, roomy))
  | inl on ↦
      let k = size-go_on r (in_cmd-go_on r.look_ahead on) in
      let later : (d : Command) (t : Reader)
          → size t < size r
          → IsRoomy d
          → Returns (IsPart (size t)) (read_parts fuel d t) =
        λ d t s room. read_parts-Returns fuel d t (omega arith) room in
      rw (read_parts, on)
        (Returns.bind (read_part-Returns fuel c r (omega (arith, k)) roomy) (part k later))
]
  where
    part :
        size r ≡ length r.input + 1
        → ((d : Command) (t : Reader)
            → size t < size r
            → IsRoomy d
            → Returns (IsPart (size t)) (read_parts fuel d t))
        → (o : Option Command) (t : Reader) → IsPart (length r.input) o t
        → Returns (IsPart (size r)) (
            (elim o as (λ _. Parser (Option Command)) [
              | none ↦ pure none
              | some d ↦ read_parts fuel d
            ])
              t)
    part k later none t s = returns (omega arith)
    part k later (some d) t (s, room) =
        Returns.mono (later d t (omega arith) room) (wider t (omega arith))
      where
        wider :
            (t : Reader)
            → size t ≤ size r
            → (o : Option Command) (u : Reader) → IsPart (size t) o u
            → IsPart (size r) o u
        wider t s none u h = omega arith
        wider t s (some d) u (h, room) = (omega arith, room)
