-- ===== src/Shell/Parser/Loop.antt =====
-- The loop of `mkCmd` of parse.c on the parts of a command of the grammar.
use osprograms.Base.{
  ℕ, zero, suc, ◌≡◌, refl, sym, subst, inl, inr, Bool, false, Option, none, some, List, [], ◌∷◌,
  ltb, Bool-cases, length, All, Str,
}
use osprograms.Run.Partial.{Partial, gives, faults, starves, then_Partial}
use osprograms.Shell.Token.{Token, tsemi, tin, tnl, tnil, tword, in_cmd}
use osprograms.Shell.Command.{Command, new_cmd}
use osprograms.Shell.Grammar.{
  Redirect, Chain, final, piped, Job, Invocation, invocation, redirect_token, sink_token, sink_file,
  source_token, end_token, pipe_token_of,
}
use osprograms.Shell.Grammar.Tokens.{
  words_then, source_then, sink_then, chain_then, separator_then, jobs_then, IsArgument, IsFile,
}
use osprograms.Shell.Parser.{
  Reader, Parser, advance, skip_separators, read_parts, MadeCommand, no_command, command,
  close_args, close_cmd, start_cmd, mk_cmd,
}
use osprograms.Shell.Parser.Parts.{
  at, Reads, reads, advance-Reads, IsClean, mk_word-clean, cmd, words_part, source_part, sink_part,
}
use osprograms.Run.{pure}

-- A file can take the place of the input that is free.
abbrev pub IsInlet : Token → Option Str → Type 0
IsInlet inlet none = Unit
IsInlet inlet (some f) = inlet ≡ tnil

-- The first command of a chain, before its output is joined to a pipe.
abbrev pub first_stage : Token → Option Str → Bool → Chain → Invocation
first_stage inlet file background (final name args sink) = record {
  exec = end_token background;
  input_from = source_token inlet file;
  output_to = sink_token sink;
  infile = file;
  outfile = sink_file sink;
  args = name ∷ args;
}
first_stage inlet file background (piped name args kind later) = record {
  exec = tsemi;
  input_from = source_token inlet file;
  output_to = tnil;
  infile = file;
  outfile = none;
  args = name ∷ args;
}

-- The tokens behind the first command.
abbrev pub behind_first : Bool → List Job → Chain → List Token
behind_first background js (final name args sink) = jobs_then js (tnl ∷ [])
behind_first background js (piped name args kind later) =
    pipe_token_of kind
    ∷ chain_then none later (separator_then background js (jobs_then js (tnl ∷ [])))

abbrev pub IsStage : List ℕ → Invocation → List Token → MadeCommand → Reader → Type 0
IsStage end v rest (command c) t = (invocation c ≡ v) × Reads end rest t
IsStage end v rest _ t = ⊥

pub IsClean-args : (args : List Str) → All IsArgument args → All IsClean args
IsClean-args [] p = tt
IsClean-args (a ∷ as') ((_, p), ps) = (p, IsClean-args as' ps)

pub close_args-Partial :
    {P : MadeCommand → Reader → Type 0} (c : Command) (r : Reader)
    → P (command c) r
    → Partial P (close_args c r)
unfolding close_args
close_args-Partial c r p = elim (Bool-cases (ltb (length c.args) c.max_args)) [
  | inl e ↦ rw (close_args, e) (gives p)
  | inr e ↦ rw (close_args, e) faults
]

-- What the loop over the parts leaves.
abbrev Parted : List ℕ → Invocation → List Token → Option Command → Reader → Type 0
Parted end v rest none t = ⊥
Parted end v rest (some c) t = (invocation c ≡ v) × Reads end rest t

module _ (end : List ℕ) (k : Token) (rest : List Token) (outside : in_cmd k ≡ false) where
  stops :
      (fuel : ℕ) (c : Command) (r : Reader)
      → Reads end (k ∷ rest) r
      → Partial (Parted end (invocation c) (k ∷ rest)) (read_parts fuel c r)
  unfolding read_parts
  stops zero c r s = starves
  stops (suc fuel) c r (reads input s) = rw (read_parts, outside) (gives (refl, reads input s))

  module _ (i : Token) (f : Option Str) (words : List Str) where
    sink-Parted :
        (sink : Option (Redirect × Str)) (fuel m : ℕ) (r : Reader)
        → IsFile (sink_file sink)
        → Reads end (sink_then sink (k ∷ rest)) r
        → Partial
            (Parted end
              (invocation (cmd tsemi i (sink_token sink) f (sink_file sink) 0 words))
              (k ∷ rest))
            (read_parts fuel (cmd tsemi i tnil f none m words) r)
    sink-Parted none fuel m r p s = stops fuel (cmd tsemi i tnil f none m words) r s
    sink-Parted (some (redirect, w)) fuel m r (_, p) s =
        sink_part end (k ∷ rest) tsemi i tnil f none redirect w words p
          (λ fuel' n t u.
            stops fuel' (cmd tsemi i (redirect_token redirect) f (some w) n words) t u)
          fuel m r s

  parts-Parted :
      (inlet : Token) (file : Option Str) (name : Str) (args : List Str)
      (sink : Option (Redirect × Str)) (fuel : ℕ) (r : Reader)
      → IsInlet inlet file
      → IsFile file
      → All IsArgument args
      → IsFile (sink_file sink)
      → Reads end (words_then args (source_then file (sink_then sink (k ∷ rest)))) r
      → Partial
          (Parted end
            (invocation (
              cmd tsemi
                (source_token inlet file)
                (sink_token sink)
                file
                (sink_file sink)
                0
                (name ∷ args)))
            (k ∷ rest))
          (read_parts fuel (cmd tsemi inlet tnil none none 4 (name ∷ [])) r)
  parts-Parted inlet none name args sink fuel r free p q w s =
      words_part end (sink_then sink (k ∷ rest)) tsemi inlet tnil none none args (name ∷ [])
        (IsClean-args args q)
        (λ fuel' m t u. sink-Parted inlet none (name ∷ args) sink fuel' m t w u) fuel 4 r s
  parts-Parted inlet (some f) name args sink fuel r free p q w s =
      words_part end (source_then (some f) (sink_then sink (k ∷ rest))) tsemi inlet tnil none none
        args (name ∷ []) (IsClean-args args q)
        (λ fuel' m t u. rw free (
          source_part end (sink_then sink (k ∷ rest)) tsemi inlet tnil none none f (name ∷ args) p.1
            (λ fuel'' n v x. sink-Parted tin (some f) (name ∷ args) sink fuel'' n v w x) fuel' m t
            u))
        fuel 4 r s

  -- The whole of `mkCmd` ahead of the last lines.
  pub mk_cmd-then :
      {Q : MadeCommand → Reader → Type 0} (inlet : Token) (file : Option Str) (name : Str)
      (args : List Str) (sink : Option (Redirect × Str)) (fuel : ℕ) (r : Reader)
      → IsInlet inlet file
      → IsFile file
      → IsArgument name
      → All IsArgument args
      → IsFile (sink_file sink)
      → Reads end (tword name ∷ words_then args (source_then file (sink_then sink (k ∷ rest)))) r
      → ((c : Command) (t : Reader)
          → (invocation c
              ≡ invocation (
                  cmd tsemi
                    (source_token inlet file)
                    (sink_token sink)
                    file
                    (sink_file sink)
                    0
                    (name ∷ args)))
            × Reads end (k ∷ rest) t
          → Partial Q (close_cmd c t))
      → Partial Q (mk_cmd fuel inlet r)
  unfolding mk_cmd skip_separators start_cmd new_cmd
  mk_cmd-then {Q = Q} inlet file name args sink zero r free p n q w s close = starves
  mk_cmd-then {Q = Q} inlet file name args sink (suc fuel) r free p n q w (reads input s) close =
      then_Partial
        (subst
          (λ w. Partial (Parted end V (k ∷ rest)) (
            read_parts (suc fuel) (cmd tsemi inlet tnil none none 4 (w ∷ []))
              (advance (at (tword name) input))))
          (sym (mk_word-clean name n.1))
          (parts-Parted inlet file name args sink (suc fuel) _ free p q w
            (advance-Reads end _ (tword name) input s)))
        closed
    where
      V : Invocation
      V = invocation (
          cmd tsemi (source_token inlet file) (sink_token sink) file (sink_file sink) 0
            (name ∷ args))

      closed :
          (part : Option Command) (t : Reader)
          → Parted end V (k ∷ rest) part t
          → Partial Q (
              (elim part as (λ _. Parser MadeCommand) [
                | none ↦ pure no_command
                | some c ↦ close_cmd c
              ])
                t)
      closed none t u = absurd u
      closed (some c) t u = close c t u
