-- ===== src/Driver/Options/Directory.antt =====
-- What holds of the files and of their directory after any options.
use mar_2015_dynamic_storage.Base.{
  ℕ, ◌+◌, ◌-◌, ◌<◌, ◌≡◌, ◌⊎◌, inl, inr, refl, sym, ap, ◌∙◌, subst, Bool, true, false, List, [], ◌∷◌,
  ◌++◌, none, some, ◌==◌, arith, length, length-append, get_or, get_or-append, snoc_view,
}
use mar_2015_dynamic_storage.Driver.Options.{
  Text, Choice, Options, Parse, going, exits, overrun, first_options, one_file, trace_directory,
  choose, then_choose, choose_all,
}

-- A directory with a '/' at its end that fits MAXLINE characters.
pub record IsDirectory (dir : Text) : Type 0 where
  pub slash : (front : Text) × (dir ≡ front ++ b'/' ∷ [])
  pub fits : length dir < 1024

-- Either one file is named, and stands below "./", or none is, and onetime_flag is not set.
pub record IsSettled (o : Options) : Type 0 where
  pub directory : IsDirectory o.tracedir
  pub files :
      ((o.num_tracefiles ≡ 1)
        × (o.tracedir ≡ b'.' ∷ b'/' ∷ [])
        × ((name : Text) × (o.tracefiles ≡ some name)))
      ⊎ ((o.num_tracefiles ≡ 0) × (o.tracefiles ≡ none) × (o.onetime_flag ≡ false))

ends-slash :
    (xs : Text)
    → 0 < length xs
    → get_or xs (length xs - 1) 0 ≡ b'/'
    → (front : Text) × (xs ≡ front ++ b'/' ∷ [])
ends-slash xs n e =
    let (ys, a, f, l) = snoc_view (length xs - 1) xs (omega arith) in
    let last : get_or xs (length xs - 1) 0 ≡ a =
      ap (λ i. get_or xs i 0) (sym l)
      ∙ ap (λ zs. get_or zs (length ys) 0) f
      ∙ get_or-append ys (a ∷ []) 0 in
    (ys, f ∙ ap (λ c. ys ++ c ∷ []) (sym last ∙ e))

-- Another directory, where no file is named.
new_directory :
    (o : Options) (dir : Text)
    → IsSettled o
    → (o.num_tracefiles == 1) ≡ false
    → IsDirectory dir
    → IsSettled (record o { tracedir = dir })
new_directory o dir s e d = record {
  directory = d;
  files = elim s.files [ inl one ↦ absurd (ground (arith, one.0, e)) | inr default ↦ inr default ];
}

trace_directory_inv :
    (ch : Choice) (o x : Options)
    → trace_directory ch o ≡ going x
    → (o ≡ x)
      ⊎ ((o.num_tracefiles == 1) ≡ false)
        × (0 < length ch.optarg)
        × (length ch.optarg < 1024)
        × (get_or ch.optarg (length ch.optarg - 1) 0 ≡ b'/')
        × (record o { tracedir = ch.optarg } ≡ x)
      ⊎ ((o.num_tracefiles == 1) ≡ false)
        × (length ch.optarg + 1 < 1024)
        × (record o { tracedir = ch.optarg ++ b'/' ∷ [] } ≡ x)
unfolding trace_directory
trace_directory_inv ch o x e = ground (arith, e)

one_file_inv :
    (once : Bool) (ch : Choice) (o x : Options)
    → one_file once ch o ≡ going x
    → (x.num_tracefiles ≡ 1) × (x.tracedir ≡ b'.' ∷ b'/' ∷ []) × (x.tracefiles ≡ some ch.optarg)
unfolding one_file
one_file_inv once ch o x e = ground (arith, e)

first-IsSettled : IsSettled first_options
unfolding first_options
first-IsSettled = record {
  directory = record {
    slash = (b'.' ∷ b'/' ∷ b't' ∷ b'r' ∷ b'a' ∷ b'c' ∷ b'e' ∷ b's' ∷ [], refl);
    fits = omega arith;
  };
  files = inr (refl, refl, refl);
}

trace_directory-IsSettled :
    (ch : Choice) (o x : Options) → IsSettled o → trace_directory ch o ≡ going x → IsSettled x
trace_directory-IsSettled ch o x s e = elim (trace_directory_inv ch o x e) [
  | inl same ↦ subst IsSettled same s
  | inr (inl (e, n, fits, last, new)) ↦
      subst IsSettled new (
        new_directory o ch.optarg s e (record { slash = ends-slash ch.optarg n last; fits = fits }))
  | inr (inr (e, fits, new)) ↦ subst IsSettled new (
      new_directory o (ch.optarg ++ b'/' ∷ []) s e (record {
        slash = (ch.optarg, refl);
        fits = omega (arith, fits, length-append ch.optarg (b'/' ∷ []));
      }))
]

one_file-IsSettled :
    (once : Bool) (ch : Choice) (o x : Options) → one_file once ch o ≡ going x → IsSettled x
one_file-IsSettled once ch o x e =
    let (n, dir, name) = one_file_inv once ch o x e in
    record {
      directory =
          subst IsDirectory (sym dir) (record { slash = (b'.' ∷ [], refl); fits = omega arith });
      files = inl (n, dir, (ch.optarg, name));
    }

module _ (atoi : Text → ℕ) where
  choose_inv :
      (ch : Choice) (o x : Options)
      → choose atoi ch o ≡ going x
      → (x.num_tracefiles ≡ o.num_tracefiles)
          × (x.tracedir ≡ o.tracedir)
          × (x.tracefiles ≡ o.tracefiles)
          × (x.onetime_flag ≡ o.onetime_flag)
        ⊎ (one_file false ch o ≡ going x)
        ⊎ (one_file true ch o ≡ going x)
        ⊎ (trace_directory ch o ≡ going x)
  unfolding choose
  choose_inv ch o x e = ground (arith, e)

  choose-IsSettled :
      (ch : Choice) (o x : Options) → IsSettled o → choose atoi ch o ≡ going x → IsSettled x
  choose-IsSettled ch o x s e = elim (choose_inv ch o x e) [
    | inl (n, dir, named, once) ↦ record {
      directory = subst IsDirectory (sym dir) s.directory;
      files = elim s.files [
        | inl (n₁, dir₁, (name, named₁)) ↦ inl (n ∙ n₁, dir ∙ dir₁, (name, named ∙ named₁))
        | inr (n₁, named₁, once₁) ↦ inr (n ∙ n₁, named ∙ named₁, once ∙ once₁)
      ];
    }
    | inr (inl f) ↦ one_file-IsSettled false ch o x f
    | inr (inr (inl f)) ↦ one_file-IsSettled true ch o x f
    | inr (inr (inr f)) ↦ trace_directory-IsSettled ch o x s f
  ]

  then_choose_inv :
      (p : Parse) (k : Options → Parse) (x : Options)
      → then_choose p k ≡ going x
      → (o : Options) × (p ≡ going o) × (k o ≡ going x)
  unfolding then_choose
  then_choose_inv (going o) k x e = (o, refl, e)
  then_choose_inv (exits n) k x e = cc
  then_choose_inv overrun k x e = cc

  choose_all-keeps :
      (choices : List Choice) (o x : Options)
      → IsSettled o
      → choose_all atoi choices o ≡ going x
      → IsSettled x
  unfolding choose_all
  choose_all-keeps [] o x s e = let same : o ≡ x = cc in subst IsSettled same s
  choose_all-keeps (ch ∷ rest) o x s e =
      let (y, f, g) = then_choose_inv (choose atoi ch o) (choose_all atoi rest) x e in
      choose_all-keeps rest y x (choose-IsSettled ch o y s f) g

  -- Whatever the options are, where the loop over them neither ends the program nor leaves the array: `tracedir` ends
  -- with '/' and fits its array; and either one file is named and stands below "./", also if -t is given, or none is
  -- and onetime_flag is not set.
  pub choose_all-IsSettled :
      (choices : List Choice) (x : Options)
      → choose_all atoi choices first_options ≡ going x
      → IsSettled x
  choose_all-IsSettled choices x e = choose_all-keeps choices first_options x first-IsSettled e
