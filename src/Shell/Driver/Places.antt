-- ===== src/Shell/Driver/Places.antt =====
-- `where`, `cd` and `pwd` of main1.c.
use osprograms.Base.{
  ℕ, suc, ◌+◌, ◌<◌, ◌≡◌, refl, ap, ◌∙◌, inl, inr, Bool, true, not, ◌&&◌, Option, none, some, List,
  [], ◌∷◌, ◌++◌, arith, ltb, ◌==◌, if◌then◌else◌, lt→ltb, Bool-cases, length, All, Str, codes,
  free_of,
}
use osprograms.Shell.Environment.{getenv}
use osprograms.Shell.Builtins.{
  cwd_room, getcwd, print_directory, starts_with_slash, to_first, fields, builtin_place, chdir_to,
  change_to, change_directory, places, print_places_of, print_places,
}
use osprograms.Run.{ok, fault}
use osprograms.Shell.Token.{tnil}
use osprograms.Shell.Command.{Command}
use osprograms.Shell.System.{prints, System}
use osprograms.Shell.Descriptors.{slot}
use osprograms.Shell.Process.{Process, goes_on, if_going, ◌⊕◌}
use osprograms.Shell.Driver.{
  pwd, cd, places_of, choice_of, redirect_out, redirect_in, redirection, exec_pwd, exec_cd,
  exec_where, pr_cmd,
}

-- ':'
abbrev colon : ℕ
colon = 58

-- A path of at least one directory, as PATH spells it.
abbrev pub joined : Str → List Str → Str
joined d [] = d
joined d (e ∷ ds) = d ++ (colon ∷ joined e ds)

abbrev pub NoColons : List Str → Type 0
NoColons ds = All (λ d. free_of colon d ≡ true) ds

fields-plain : (d : Str) → free_of colon d ≡ true → fields d ≡ d ∷ []
unfolding fields
fields-plain [] h = refl
fields-plain (x ∷ d) h = elim (Bool-cases (x == colon)) [
  | inl e ↦ absurd (ground arith)
  | inr e ↦ rw e (ap (to_first x) (fields-plain d (rw e at h)))
]

fields-append :
    (d rest : Str) → free_of colon d ≡ true → fields (d ++ (colon ∷ rest)) ≡ d ∷ fields rest
unfolding fields
fields-append [] rest h = refl
fields-append (x ∷ d) rest h = elim (Bool-cases (x == colon)) [
  | inl e ↦ absurd (ground arith)
  | inr e ↦ rw e (ap (to_first x) (fields-append d rest (rw e at h)))
]

-- `strsep` takes a path apart that is put together with colons.
fields-joined : (d : Str) (ds : List Str) → NoColons (d ∷ ds) → fields (joined d ds) ≡ d ∷ ds
fields-joined d [] h = fields-plain d h.0
fields-joined d (e ∷ ds) h =
    fields-append d (joined e ds) h.0 ∙ ap (λ r. d ∷ r) (fields-joined e ds h.1)

-- Whether every path that `where` builds fits into `char path[20]`.
abbrev pub all_short : Str → List Str → Bool
all_short name [] = true
all_short name (d ∷ ds) = ltb (length d + (1 + length name)) 20 && all_short name ds

-- The paths that are there.
abbrev pub hits : (Str → Bool) → Str → List Str → List Str
hits there name [] = []
hits there name (d ∷ ds) =
    let rest = hits there name ds in
    if there (d ++ (47 ∷ name)) then (d ++ (47 ∷ name)) ∷ rest else rest

abbrev pub spaced_out : List Str → Str
spaced_out [] = []
spaced_out (w ∷ ws) = (32 ∷ w) ++ spaced_out ws

module _ (sys : System) (cwd name : Str) where
  places-hits :
      (ds : List Str)
      → places sys cwd name ds
        ≡ (if all_short name ds then some (spaced_out (hits (sys.stat cwd) name ds)) else none)
  unfolding places
  places-hits [] = refl
  places-hits (d ∷ ds) = elim (Bool-cases (ltb (length d + (1 + length name)) 20)) [
    | inr long ↦ rw long
    | inl short ↦ elim (Bool-cases (all_short name ds)) [
      | inr long ↦ rw (short, places-hits ds, long)
      | inl rest ↦ elim (Bool-cases (sys.stat cwd (d ++ (47 ∷ name)))) [
        | inl there ↦ rw (short, places-hits ds, rest, there)
        | inr not ↦ rw (short, places-hits ds, rest, not)
      ]
    ]
  ]

abbrev pub printed : Str → Process → Process
printed text t = record t {
  effects =
      t.effects
      ⊕ (record {
        action = prints text;
        stdin = slot t.table 0;
        stdout = slot t.table 1;
        stderr = slot t.table 2;
      }
          ∷ []);
}

-- What `where` prints, given the paths that are there.
abbrev pub where_text : Str → List Str → Str
where_text name paths = (name ++ (colon ∷ builtin_place name)) ++ (spaced_out paths ++ (10 ∷ []))

module _ (sys : System) (t : Process) (name d : Str) (ds : List Str)
    (path : getenv (codes "PATH") t.effects.settings.environ ≡ some (joined d ds))
    (plain : NoColons (d ∷ ds)) where
  abbrev pub found : List Str
  found = hits (sys.stat t.effects.settings.cwd) name (d ∷ ds)

  places-found :
      places sys t.effects.settings.cwd name (fields (joined d ds))
      ≡ (if all_short name (d ∷ ds) then some (spaced_out found) else none)
  places-found =
      rw (fields-joined d ds plain) (places-hits sys t.effects.settings.cwd name (d ∷ ds))

  print_places_of-found :
      print_places_of sys name t
      ≡ (if all_short name (d ∷ ds) then ok goes_on (printed (where_text name found) t) else fault)
  unfolding print_places_of
  print_places_of-found = elim (Bool-cases (all_short name (d ∷ ds))) [
    | inl e ↦ rw (path, print_places_of) (rw (rw e at places-found, print_places_of) (rw e))
    | inr e ↦ rw (path, print_places_of) (rw (rw e at places-found, print_places_of) (rw e))
  ]

  -- Where the redirections of a `where` with a name, the last command of its pipe, succeed, and PATH
  -- is made of directories without colons: if each of them, with a slash and the name, fits into the
  -- array of 20 bytes, it prints the name, that it is a built-in command where it is one, and, in
  -- their order, the paths that `stat` finds; else it writes past the array.
  pub pr_cmd-found :
      (fuel : ℕ) (c : Command) (in_pipe out_pipe : Option ℕ) (s : Process)
      → redirection sys c in_pipe out_pipe s ≡ ok goes_on t
      → c.args ≡ codes "where" ∷ name ∷ []
      → pr_cmd sys (suc fuel) true c in_pipe out_pipe s ≡ (
          if all_short name (d ∷ ds) then ok goes_on (printed (where_text name found) t) else fault)
  unfolding pr_cmd exec_where print_places
  pr_cmd-found fuel c in_pipe out_pipe s redirected args =
      let choice : choice_of c.args ≡ places_of = rw args refl in
      rw (pr_cmd, choice) (rw (redirected, args) print_places_of-found)

-- No redirection.
abbrev pub IsBare : Command → Type 0
IsBare c = (c.input_from ≡ tnil) × (c.output_to ≡ tnil)

module _ (sys : System) (fuel : ℕ) (c p : Command) (in_pipe out_pipe : Option ℕ) (s : Process)
    (bare_c : IsBare c) (bare_p : IsBare p) (dir reached : Str)
    (cd_args : c.args ≡ codes "cd" ∷ dir ∷ []) (pwd_args : p.args ≡ codes "pwd" ∷ []) where
  abbrev pub moved : Process
  moved = record s {
    effects = record s.effects { settings = record s.effects.settings { cwd = reached } };
  }

  -- The path that `cd` hands to chdir.
  abbrev pub target : Str
  target = if starts_with_slash dir then dir else s.effects.settings.cwd ++ (47 ∷ dir)

  bare :
      (q : Command) (r : Process) → IsBare q → redirection sys q in_pipe out_pipe r ≡ ok goes_on r
  unfolding redirection redirect_out redirect_in
  bare q r b = rw (b.1, b.0) refl

  change_to-moved :
      sys.chdir s.effects.settings.cwd target ≡ some reached
      → length s.effects.settings.cwd + (1 + length dir) < cwd_room
      → change_to sys dir s ≡ ok goes_on moved
  unfolding change_to getcwd chdir_to
  change_to-moved leads fits = elim (Bool-cases (starts_with_slash dir)) [
    | inl e ↦ rw (e, chdir_to) (rw (rw e at leads, chdir_to))
    | inr e ↦
        let short : ltb (length s.effects.settings.cwd) cwd_room ≡ true = ground arith in
        let room : ltb (length s.effects.settings.cwd + (1 + length dir)) cwd_room ≡ true =
          lt→ltb _ _ fits in
        rw e (rw (short) (rw room (rw (rw e at leads, chdir_to))))
  ]

  cd-moved :
      sys.chdir s.effects.settings.cwd target ≡ some reached
      → length s.effects.settings.cwd + (1 + length dir) < cwd_room
      → pr_cmd sys (suc fuel) true c in_pipe out_pipe s ≡ ok goes_on moved
  unfolding pr_cmd exec_cd change_directory
  cd-moved leads fits =
      let choice : choice_of c.args ≡ cd = rw cd_args refl in
      rw (pr_cmd, choice) (rw (bare c s bare_c, cd_args) (change_to-moved leads fits))

  -- A `cd` to a directory and then a `pwd`, each the last command of its pipe and without
  -- redirections: where `chdir` leads from the path of `cd`, which is taken from the current directory
  -- if it does not start with a slash, to a directory, and the paths fit into their arrays of 100
  -- bytes, that directory becomes the current one, and is printed.
  pub pwd-cd :
      sys.chdir s.effects.settings.cwd target ≡ some reached
      → length s.effects.settings.cwd + (1 + length dir) < cwd_room
      → length reached < cwd_room
      → if_going
          (pr_cmd sys (suc fuel) true c in_pipe out_pipe)
          (pr_cmd sys (suc fuel) true p in_pipe out_pipe)
          s
        ≡ ok goes_on (printed (reached ++ (10 ∷ [])) moved)
  unfolding pr_cmd exec_pwd print_directory getcwd
  pwd-cd leads fits short =
      let choice : choice_of p.args ≡ pwd = rw pwd_args refl in
      let room = lt→ltb _ _ short in
      rw (cd-moved leads fits) (rw (pr_cmd, choice) (rw (bare p moved bare_p) (rw room refl)))
