-- ===== src/Driver/Options.antt =====
-- The loop of main of malloclab-handout/mdriver.c over its options. What getopt returns is a list: the option's
-- character, its argument, and whether a realloc for it fails. strdup is taken to succeed.
pub mod Directory
use mar_2015_dynamic_storage.Base.{
  ℕ, zero, suc, ◌+◌, ◌-◌, ◌^◌, ◌%◌, ◌||◌, Bool, true, false, not, List, [], ◌∷◌, ◌++◌, Option, none,
  some, ◌==◌, ltb, leb, if◌then◌else◌, length, get_or,
}

-- the characters of a string, without the 0 at its end
abbrev pub Text : Type 0
Text = List ℕ

pub record Choice : Type 0 where
  pub c : ℕ
  pub optarg : Text
  pub realloc_fails : Bool

-- The variables of main and the globals that options set. `tracefiles` is the one file that an option names; the
-- numbers are bit patterns of `int`s.
pub record Options : Type 0 where
  pub tracefiles : Option Text
  pub num_tracefiles : ℕ
  pub onetime_flag : Bool
  pub tracedir : Text
  pub run_libc : Bool
  pub autograder : Bool
  pub verbose : ℕ
  pub debug_mode : ℕ
  pub set_timeout : ℕ

-- The loop goes on; the program exits with a status; or it reads or writes outside of `tracedir`.
pub data Parse : Type 0 where
  going : Options → Parse
  exits : ℕ → Parse
  overrun : Parse

abbrev pub maxline : ℕ
maxline = 1024

-- TRACEDIR of config.h, "./traces/"
abbrev pub default_dir : Text
default_dir = b'.' ∷ b'/' ∷ b't' ∷ b'r' ∷ b'a' ∷ b'c' ∷ b'e' ∷ b's' ∷ b'/' ∷ []

unfoldable pub first_options : Options
first_options = record {
  tracefiles = none;
  num_tracefiles = 0;
  onetime_flag = false;
  tracedir = default_dir;
  run_libc = false;
  autograder = false;
  verbose = 1;
  debug_mode = 1;
  set_timeout = 0;
}

-- the cases 'f' and 'c'
unfoldable pub one_file : (once : Bool) → Choice → Options → Parse
one_file once ch o =
    if ch.realloc_fails
    then exits 1
    else going (record o {
      num_tracefiles = 1;
      onetime_flag = once || o.onetime_flag;
      tracedir = b'.' ∷ b'/' ∷ [];
      tracefiles = some ch.optarg;
    })

-- the case 't': strcpy, the look at the last character, and strcat
unfoldable pub trace_directory : Choice → Options → Parse
trace_directory ch o =
    let n = length ch.optarg in
    if o.num_tracefiles == 1
    then going o
    else if n == 0 || not (ltb n maxline)
    then overrun
    else if get_or ch.optarg (n - 1) 0 == b'/'
    then going (record o { tracedir = ch.optarg })
    else if not (ltb (n + 1) maxline)
    then overrun
    else going (record o { tracedir = ch.optarg ++ b'/' ∷ [] })

unfoldable pub then_choose : Parse → (Options → Parse) → Parse
then_choose (going o) k = k o
then_choose (exits n) k = exits n
then_choose overrun k = overrun

module _ (atoi : Text → ℕ) where
  -- the `switch`
  unfoldable pub choose : Choice → Options → Parse
  choose ch o =
      if ch.c == b'A'
      then going (record o { autograder = true })
      else if ch.c == b'f'
      then one_file false ch o
      else if ch.c == b'c'
      then one_file true ch o
      else if ch.c == b't'
      then trace_directory ch o
      else if ch.c == b'l'
      then going (record o { run_libc = true })
      else if ch.c == b'V'
      then going (record o { verbose = (o.verbose + 1) % 2 ^ 32 })
      else if ch.c == b'v'
      then going (record o { verbose = atoi ch.optarg })
      else if ch.c == b'd'
      then going (record o { debug_mode = atoi ch.optarg })
      else if ch.c == b'D'
      then going (record o { debug_mode = 2 })
      else if ch.c == b's'
      then going (record o { set_timeout = atoi ch.optarg })
      else if ch.c == b'h'
      then exits 0
      else exits 1

  unfoldable pub choose_all : List Choice → Options → Parse
  choose_all [] o = going o
  choose_all (ch ∷ rest) o = then_choose (choose ch o) (choose_all rest)

-- The files that are tested: the one that an option names, or those of `default_tracefiles`.
unfoldable pub files : (default_tracefiles : List Text) → Options → List Text
files default_tracefiles o = elim o.tracefiles [ none ↦ default_tracefiles | some name ↦ name ∷ [] ]
