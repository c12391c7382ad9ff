-- ===== src/Shell/Driver/Inlets.antt =====
-- The redirections of the commands of a pipe of main1.c.
use osprograms.Base.{
  ℕ, suc, ◌+◌, ◌*◌, ◌<◌, ◌≡◌, refl, ◌∙◌, ◌≢◌, Option, none, some, List, [], ◌∷◌, arith, length,
  get_elem?, set, length-set, get_elem?-set_self, get_elem?-set_ne,
}
use osprograms.Shell.Token.{Token, tpipe, tnil}
use osprograms.Shell.Command.{Command}
use osprograms.Shell.Descriptors.{
  Object, read_end, write_end, Table, slot, put, slot-put_ne, slot-lowest_free,
}
use osprograms.Shell.Process.{goes_on}
use osprograms.Shell.Driver.{external, choice_of, redirect_out, redirect_in, redirection}
use osprograms.Shell.Driver.Wiring.{
  shell_with, redirect_out-tpipe, redirect_in-tpipe, ran, new_read, new_write, with_pipe, new_apart,
  slot-new_write, with_ends,
}
use osprograms.Shell.System.{System, Event, Effects}
use osprograms.Run.{ok}

-- Commands that are no built-in ones, joined by `|`, with no file.
abbrev pub IsChained : Token → List Command → Type 0
IsChained inlet [] = ⊥
IsChained inlet (c ∷ []) =
    (choice_of c.args ≡ external) × (c.input_from ≡ inlet) × (c.output_to ≡ tnil)
IsChained inlet (c ∷ d ∷ cs) =
    ((choice_of c.args ≡ external) × (c.input_from ≡ inlet) × (c.output_to ≡ tpipe))
    × IsChained tpipe (d ∷ cs)

-- Each of them reads from the pipe before it and writes to the one behind it.
abbrev pub wired : Object → Object → Object → ℕ → List Command → List Event
wired i o e k [] = []
wired i o e k (c ∷ []) = ran c.args i o e ∷ []
wired i o e k (c ∷ d ∷ cs) = ran c.args i (write_end k) e ∷ wired (read_end k) o e (k + 1) (d ∷ cs)

module _ (ps : List ℕ) (current : ℕ) (t : Table) (k : ℕ) (room : 2 * current + 1 < length ps) where
  pub with_ends-read :
      get_elem? (with_ends ps current t k) (2 * current + 0) ≡ some (suc (suc (suc (new_read t k))))
  with_ends-read =
      let same : 2 * current + 0 ≡ 2 * current = omega arith in
      rw (same) (
        get_elem?-set_ne (set ps (2 * current) (suc (suc (suc (new_read t k))))) (2 * current + 1)
          (2 * current) _ (λ q. omega arith)
        ∙ get_elem?-set_self ps (2 * current) _ (omega arith))

  pub with_ends-write :
      get_elem? (with_ends ps current t k) (2 * current + 1)
      ≡ some (suc (suc (suc (new_write t k))))
  with_ends-write =
      get_elem?-set_self _ (2 * current + 1) _
        (omega (arith, length-set ps (2 * current) (suc (suc (suc (new_read t k))))))

  with_ends-before :
      (j : ℕ) → j < 2 * current → get_elem? (with_ends ps current t k) j ≡ get_elem? ps j
  with_ends-before j less =
      get_elem?-set_ne (set ps (2 * current) (suc (suc (suc (new_read t k))))) (2 * current + 1) j _
        (λ q. omega arith)
      ∙ get_elem?-set_ne ps (2 * current) j _ (λ q. omega arith)

  pub with_ends-length : length (with_ends ps current t k) ≡ length ps
  with_ends-length = length-set _ (2 * current + 1) _ ∙ length-set ps (2 * current) _

-- The pipe `id` of the array, whose end for reading is open.
pub record IsOpen (ps : List ℕ) (t : Table) (id a : ℕ) : Type 0 where
  pub r : ℕ
  pub w : ℕ
  pub reading : get_elem? ps (2 * id + 0) ≡ some (suc (suc (suc r)))
  pub writing : get_elem? ps (2 * id + 1) ≡ some (suc (suc (suc w)))
  pub apart : r ≢ w
  pub there : slot t r ≡ some (read_end a)

-- A descriptor that is open is not given to a new pipe.
module _ (t : Table) (k n : ℕ) (x : Object) (taken : slot t n ≡ some x) where
  not_new_read : new_read t k ≢ n
  not_new_read same = let free = slot-lowest_free t in absurd (cc)

  not_new_write : new_write t k ≢ n
  not_new_write same =
      let free = slot-lowest_free (put t (new_read t k) (some (read_end k))) in
      let kept = slot-put_ne t (new_read t k) n (some (read_end k)) not_new_read in absurd (cc)

  slot-with_pipe : slot (with_pipe t k) n ≡ some x
  slot-with_pipe =
      slot-put_ne (put t (new_read t k) (some (read_end k))) (new_write t k) n (some (write_end k))
        not_new_write
      ∙ (slot-put_ne t (new_read t k) n (some (read_end k)) not_new_read ∙ taken)

module _ (sys : System) (i o e : Object) (c : Command) where
  -- The last command of a pipe.
  pub last-redirection :
      (in_pipe : ℕ) (out_pipe : Option ℕ) (t : Table) (ps : List ℕ) (k : ℕ) (es : Effects) (a : ℕ)
      (p : IsOpen ps t in_pipe a)
      → c.input_from ≡ tpipe
      → c.output_to ≡ tnil
      → redirection sys c (some in_pipe) out_pipe (shell_with i o e t ps k es)
        ≡ ok goes_on (shell_with (read_end a) o e (put (put t p.w none) p.r none) ps k es)
  unfolding redirection redirect_out
  last-redirection in_pipe out_pipe t ps k es a p inp out = rw (out) (
      redirect_in-tpipe sys i o e ps k es c in_pipe p.r p.w a p.reading p.writing p.apart t inp
        p.there)

  -- The first command of a pipe, which has just been made.
  pub first-redirection :
      (in_pipe : Option ℕ) (id : ℕ) (t : Table) (ps : List ℕ) (k n : ℕ) (es : Effects)
      → 2 * id + 1 < length ps
      → c.input_from ≡ tnil
      → c.output_to ≡ tpipe
      → redirection sys c in_pipe
          (some id)
          (shell_with i o e (with_pipe t k) (with_ends ps id t k) n es)
        ≡ ok goes_on (
            shell_with i
              (write_end k)
              e
              (put (put (with_pipe t k) (new_read t k) none) (new_write t k) none)
              (with_ends ps id t k)
              n
              es)
  unfolding redirection redirect_in
  first-redirection in_pipe id t ps k n es room inp out =
      rw
        (
          redirect_out-tpipe sys i o e (with_ends ps id t k) n es c id (new_read t k)
              (new_write t k) k (with_ends-read ps id t k room) (with_ends-write ps id t k room)
              (new_apart t k) (with_pipe t k) out (slot-new_write t k),
          inp,
        )
        refl

  -- A command between two pipes.
  pub middle-redirection :
      (in_pipe id : ℕ) (t : Table) (ps : List ℕ) (k n : ℕ) (es : Effects) (a : ℕ)
      (p : IsOpen ps t in_pipe a)
      → 2 * id + 1 < length ps
      → in_pipe < id
      → c.input_from ≡ tpipe
      → c.output_to ≡ tpipe
      → redirection sys c
          (some in_pipe)
          (some id)
          (shell_with i o e (with_pipe t k) (with_ends ps id t k) n es)
        ≡ ok goes_on (
            shell_with
              (read_end a)
              (write_end k)
              e
              (put
                (put (put (put (with_pipe t k) (new_read t k) none) (new_write t k) none) p.w none)
                p.r
                none)
              (with_ends ps id t k)
              n
              es)
  unfolding redirection
  middle-redirection in_pipe id t ps k n es a p room less inp out =
      rw
        (redirect_out-tpipe sys i o e (with_ends ps id t k) n es c id (new_read t k) (new_write t k)
          k (with_ends-read ps id t k room) (with_ends-write ps id t k room) (new_apart t k)
          (with_pipe t k) out (slot-new_write t k))
        (redirect_in-tpipe sys i (write_end k) e (with_ends ps id t k) n es c in_pipe p.r p.w a
          (with_ends-before ps id t k room (2 * in_pipe + 0) (omega arith) ∙ p.reading)
          (with_ends-before ps id t k room (2 * in_pipe + 1) (omega arith) ∙ p.writing) p.apart _
          inp
          (slot-put_ne (put (with_pipe t k) (new_read t k) none) (new_write t k) p.r none
              (not_new_write t k p.r (read_end a) p.there)
            ∙ (slot-put_ne (with_pipe t k) (new_read t k) p.r none
                  (not_new_read t k p.r (read_end a) p.there)
                ∙ slot-with_pipe t k p.r (read_end a) p.there)))
