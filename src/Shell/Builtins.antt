-- ===== src/Shell/Builtins.antt =====
-- What the built-in commands of main1.c do once their descriptors are set: the inner parts of
-- exececho, execsetenv, execcd, execpwd, execwhere, execunsetenv and execnice.
use osprograms.Base.{
  ℕ, zero, suc, ◌+◌, ◌-◌, ◌*◌, ◌^◌, min, Bool, true, false, ◌&&◌, ◌||◌, Option, none, some, List,
  [], ◌∷◌, ◌++◌, ltb, leb, ◌==◌, if◌then◌else◌, length, Str, codes, str_eq, ℤ, pos, negsuc,
}
use osprograms.Shell.System.{Settings, prints, complains, System}
use osprograms.Run.{ok, fault, Program, stop, require, ◌>>=◌, ◌>>◌}
use osprograms.Shell.Process.{Process, goes_on, Routine, emit}
use osprograms.Shell.Environment.{getenv, putenv, unsetenv, entry_of}

-- `strcmp` with the names of the built-in commands.
abbrev pub builtin_names : List Str
builtin_names =
    codes "echo"
    ∷ codes "pwd"
    ∷ codes "setenv"
    ∷ codes "cd"
    ∷ codes "end"
    ∷ codes "where"
    ∷ codes "unsetenv"
    ∷ codes "nice"
    ∷ codes "logout"
    ∷ []

abbrev pub one_of : Str → List Str → Bool
one_of w [] = false
one_of w (n ∷ ns) = str_eq w n || one_of w ns

abbrev pub is_builtin_command : Str → Bool
is_builtin_command w = one_of w builtin_names

abbrev pub is_digits : Str → Bool
is_digits [] = true
is_digits (c ∷ cs) = leb 48 c && (leb c 57 && is_digits cs)

abbrev pub some_digits : Str → Bool
some_digits [] = false
some_digits (c ∷ cs) = is_digits (c ∷ cs)

unfoldable pub is_valid_int : Str → Bool
is_valid_int [] = false
is_valid_int (c ∷ cs) = if c == 45 || c == 43 then some_digits cs else some_digits (c ∷ cs)

-- `printf("%s ", c->args[i])` for each argument.
unfoldable pub spaced : List Str → Str
spaced [] = []
spaced (a ∷ args) = a ++ (32 ∷ spaced args)

unfoldable pub lines : List Str → Str
lines [] = []
lines (e ∷ es) = e ++ (10 ∷ lines es)

unfoldable pub echo_arguments : List Str → Routine
unfolding spaced
echo_arguments [] = stop
echo_arguments (name ∷ args) = emit (prints (spaced args ++ (10 ∷ [])))

-- `char cwd[100]`: where the path does not fit, `getcwd` leaves the array unset.
abbrev pub cwd_room : ℕ
cwd_room = 100

unfoldable pub getcwd : Program Process Str
getcwd s =
    if ltb (length s.effects.settings.cwd) cwd_room then ok s.effects.settings.cwd s else fault

unfoldable pub print_directory : Routine
unfolding getcwd
print_directory = do cwd ← getcwd; emit (prints (cwd ++ (10 ∷ [])))

unfoldable pub print_environ : Routine
unfolding lines
print_environ s = emit (prints (lines s.effects.settings.environ ++ (10 ∷ []))) s

abbrev pub change_settings : (Settings → Settings) → Routine
change_settings f s =
    ok goes_on (record s { effects = record s.effects { settings = f s.effects.settings } })

-- '/'
abbrev pub starts_with_slash : Str → Bool
starts_with_slash [] = false
starts_with_slash (x ∷ xs) = x == 47

abbrev pub to_first : ℕ → List Str → List Str
to_first x [] = (x ∷ []) ∷ []
to_first x (w ∷ ws) = (x ∷ w) ∷ ws

-- `strsep(&str, ":")` until it returns NULL.
unfoldable pub fields : Str → List Str
fields [] = [] ∷ []
fields (x ∷ xs) = if x == 58 then [] ∷ fields xs else to_first x (fields xs)

abbrev pub builtin_place : Str → Str
builtin_place n =
    if is_builtin_command n then codes " Built-in command " ++ (10 ∷ (n ++ (58 ∷ []))) else []

-- The commands that ask the system.
module _ (sys : System) where
  -- `if (chdir(path) != 0) perror("");`
  unfoldable pub chdir_to : Str → Routine
  chdir_to path s = elim (sys.chdir s.effects.settings.cwd path) [
    | none ↦ emit (complains []) s
    | some cwd ↦ change_settings (λ x. record x { cwd = cwd }) s
  ]

  unfoldable pub change_to_home : Routine
  unfolding chdir_to
  change_to_home s = elim (getenv (codes "HOME") s.effects.settings.environ) [
    | none ↦ fault
    | some home ↦ chdir_to home s
  ]

  unfoldable pub change_to : Str → Routine
  unfolding getcwd chdir_to
  change_to d = if starts_with_slash d then chdir_to d else (do
    cwd ← getcwd
    require (ltb (length cwd + (1 + length d)) cwd_room)
    chdir_to (cwd ++ (47 ∷ d)))

  unfoldable pub change_directory : List Str → Routine
  unfolding change_to_home change_to
  change_directory (name ∷ d ∷ args) = change_to d
  change_directory _ = change_to_home

  -- `putenv` of a string that is put together in the memory of `strdup(name)`, which has room for
  -- the name and its NUL.
  unfoldable pub put_variable : Str → Str → Routine
  unfolding putenv
  put_variable name entry = do
    require (ltb (length entry) (length name + 1))
    change_settings (λ x. record x { environ = putenv entry x.environ })

  unfoldable pub set_variable : List Str → Routine
  unfolding put_variable print_environ
  set_variable (name ∷ n ∷ []) = put_variable n (entry_of n [])
  set_variable (name ∷ n ∷ value ∷ args) = put_variable n (entry_of n value)
  set_variable _ = print_environ

  -- The loop of `execwhere`: the text that it prints, or none where `char path[20]` overflows.
  unfoldable pub places : Str → Str → List Str → Option Str
  places cwd name [] = some []
  places cwd name (d ∷ ds) =
      let rest = places cwd name ds in
      if ltb (length d + (1 + length name)) 20
      then elim rest [
        | none ↦ none
        | some text ↦
            some
              (if sys.stat cwd (d ++ (47 ∷ name)) then (32 ∷ (d ++ (47 ∷ name))) ++ text else text)
      ]
      else none

  unfoldable pub print_places_of : Str → Routine
  unfolding places fields
  print_places_of n s = elim (getenv (codes "PATH") s.effects.settings.environ) [
    | none ↦ fault
    | some path ↦ elim (places s.effects.settings.cwd n (fields path)) [
      | none ↦ fault
      | some text ↦ emit (prints ((n ++ (58 ∷ builtin_place n)) ++ (text ++ (10 ∷ [])))) s
    ]
  ]

  unfoldable pub print_places : List Str → Routine
  unfolding print_places_of
  print_places (name ∷ n ∷ args) = print_places_of n
  print_places _ = stop

unfoldable pub unset_variable : List Str → Routine
unfolding unsetenv
unset_variable (name ∷ n ∷ args) =
    change_settings (λ x. record x { environ = unsetenv n x.environ })
unset_variable _ = emit (complains (codes "Variable not input"))

-- `atoi` of digits, and of a number with its sign.
unfoldable pub digits_value : ℕ → Str → ℕ
digits_value n [] = n
digits_value n (c ∷ cs) = digits_value (10 * n + (c - 48)) cs

unfoldable pub minus : ℕ → ℤ
minus zero = pos 0
minus (suc n) = negsuc n

unfoldable pub atoi : Str → ℤ
unfolding digits_value minus
atoi [] = pos 0
atoi (c ∷ cs) =
    if c == 45
    then minus (digits_value 0 cs)
    else if c == 43
    then pos (digits_value 0 cs)
    else pos (digits_value 0 (c ∷ cs))

-- A priority runs from -20 to 19, and `setpriority` cuts what is beyond.
unfoldable pub clamped : ℤ → ℤ
clamped (pos n) = pos (min n 19)
clamped (negsuc n) = negsuc (min n 19)

unfoldable pub set_priority : System → ℤ → Routine
unfolding clamped
set_priority sys prio s =
    if sys.may_set s.effects.settings.priority (clamped prio)
    then change_settings (λ x. record x { priority = clamped prio }) s
    else emit (complains (codes "Cannnot set priority")) s

unfoldable pub nice_priority : List Str → ℤ
unfolding is_valid_int atoi
nice_priority (name ∷ a ∷ args) = if is_valid_int a then atoi a else pos 4
nice_priority _ = pos 4

abbrev pub in_int : ℤ → Bool
in_int (pos n) = ltb n (2 ^ 31)
in_int (negsuc n) = ltb n (2 ^ 31)

-- The call of `setpriority`; `atoi` has no meaning beyond an `int`.
unfoldable pub set_nice : System → List Str → Routine
unfolding set_priority nice_priority
set_nice sys args = do require (in_int (nice_priority args)); set_priority sys (nice_priority args)

-- The rest of the arguments that `nice` runs as a command.
unfoldable pub nice_rest : List Str → List Str
unfolding is_valid_int
nice_rest (n ∷ a ∷ b ∷ args) = if is_valid_int a then b ∷ args else a ∷ b ∷ args
nice_rest _ = []
