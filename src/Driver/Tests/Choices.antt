-- ===== src/Driver/Tests/Choices.antt =====
-- The options -t x -f y -V: the directory of -t gives way to that of the file.
use mar_2015_dynamic_storage.Base.{ℕ, ◌≡◌, refl, List, [], ◌∷◌, some, false}
use mar_2015_dynamic_storage.Driver.Options.{
  Text, Choice, Options, going, first_options, one_file, trace_directory, choose, then_choose,
  choose_all,
}
use mar_2015_dynamic_storage.Driver.Options.Directory.{IsSettled, choose_all-IsSettled}

abbrev choices : List Choice
choices =
    record { c = b't'; optarg = b'x' ∷ []; realloc_fails = false }
    ∷ record { c = b'f'; optarg = b'y' ∷ []; realloc_fails = false }
    ∷ record { c = b'V'; optarg = []; realloc_fails = false }
    ∷ []

abbrev pub chosen : Options
chosen = record {
  tracefiles = some (b'y' ∷ []);
  num_tracefiles = 1;
  onetime_flag = false;
  tracedir = b'.' ∷ b'/' ∷ [];
  run_libc = false;
  autograder = false;
  verbose = 2;
  debug_mode = 1;
  set_timeout = 0;
}

abbrev zero_always : Text → ℕ
zero_always t = 0

choosing : choose_all zero_always choices first_options ≡ going chosen
unfolding choose_all then_choose choose one_file trace_directory first_options
choosing = refl

choose_all-IsSettled_example : IsSettled chosen
choose_all-IsSettled_example = choose_all-IsSettled zero_always choices chosen choosing
