-- ===== src/Cmd/Iscsiadm/Binary.antt =====
-- Which program the command iscsiadm hands over to.
use qnap_csi.Base.{
  ◌≡◌, refl, ap, Bool, true, false, Bool-cases, inl, inr, ◌⊎◌, Option, none, some, List, [], ◌∷◌,
  ◌++◌, Text, lit, is_blank, Result, ok, err, All,
}
use qnap_csi.Cmd.Iscsiadm.{
  System, Ending, executed, fatal, panicked, iscsi_paths, find_path, chroot_dir, iscsiadm_path,
  handed, hand_over, run_in_root, main, chroot_failed, not_found, exec_failed,
}

-- The first of the paths that is there.
abbrev pub IsFirst : (Text → Bool) → List Text → Text → Type 0
IsFirst there paths path =
    (before : List Text) × (behind : List Text) × (paths ≡ before ++ path ∷ behind)
    × All (λ p. there p ≡ false) before
    × (there path ≡ true)

-- Each of the paths has a text.
abbrev pub AllGiven : List Text → Type 0
AllGiven paths = All (λ p. is_blank p ≡ false) paths

find_path-given :
    (there : Text → Bool) (paths : List Text)
    → AllGiven paths
    → is_blank (find_path there paths) ≡ false
    → IsFirst there paths (find_path there paths)
unfolding find_path is_blank
find_path-given there [] given h = absurd (cc h)
find_path-given there (p ∷ ps) (g, gs) h = elim (Bool-cases (there p)) [
  | inl yes_there ↦ rw yes_there ([], ps, refl, tt, yes_there)
  | inr missing ↦
      let (before, behind, e, none_before, found) = find_path-given there ps gs (rw missing at h) in
      rw missing (p ∷ before, behind, ap (λ l. p ∷ l) e, (missing, none_before), found)
]

find_path-blank :
    (there : Text → Bool) (paths : List Text)
    → AllGiven paths
    → is_blank (find_path there paths) ≡ true
    → All (λ p. there p ≡ false) paths
unfolding find_path
find_path-blank there [] given h = tt
find_path-blank there (p ∷ ps) (g, gs) h = elim (Bool-cases (there p)) [
  | inl yes_there ↦ absurd (cc (rw yes_there at h, g))
  | inr missing ↦ (missing, find_path-blank there ps gs (rw missing at h))
]

pub iscsi_paths-AllGiven : AllGiven iscsi_paths
unfolding iscsi_paths is_blank lit
iscsi_paths-AllGiven = (refl, (refl, (refl, (refl, tt))))

-- The value of a variable, and another one where it is blank or not set.
abbrev pub IsGiven : Text → Text → Type 0
IsGiven value path = (is_blank value ≡ false) × (path ≡ value)

module _ {W : Type 0} (sys : System W) where
  abbrev pub Root : Text → Type 0
  Root dir =
      IsGiven (sys.getenv (lit "HOST_DIR")) dir
      ⊎ ((is_blank (sys.getenv (lit "HOST_DIR")) ≡ true) × (dir ≡ lit "/host"))

  -- The program that ISCSIADM_PATH names, else the first that is there.
  abbrev pub Chosen : W → Text → Type 0
  Chosen w path =
      IsGiven (sys.getenv (lit "ISCSIADM_PATH")) path
      ⊎ ((is_blank (sys.getenv (lit "ISCSIADM_PATH")) ≡ true)
          × IsFirst (λ p. sys.stat p w) iscsi_paths path)

  abbrev pub IsMissing : W → Type 0
  IsMissing w =
      (is_blank (sys.getenv (lit "ISCSIADM_PATH")) ≡ true)
      × All (λ p. sys.stat p w ≡ false) iscsi_paths

  -- What has happened at an end, from the state behind the chroot.
  abbrev pub Handed : List Text → W → Ending × W → Type 0
  Handed args w (executed path argv environ, w') =
      Chosen w path
      × (argv ≡ path ∷ args)
      × (environ ≡ sys.environ)
      × (sys.exec path argv environ w ≡ (none, w'))
  Handed args w (fatal message, w') =
      (IsMissing w × (message ≡ not_found) × (w' ≡ w))
      ⊎ ((path : Text) × (e : Text) × Chosen w path
          × (sys.exec path (path ∷ args) sys.environ w ≡ (some e, w'))
          × (message ≡ exec_failed))
  Handed args w (panicked, w') = ⊥

  hand_over-Handed :
      (path name : Text) (args : List Text) (w : W)
      → Chosen w path
      → Handed args w (hand_over sys path (name ∷ args) w)
  unfolding hand_over handed
  hand_over-Handed path name args w chosen = go (sys.exec path (path ∷ args) sys.environ w) refl
    where
      go :
          (r : Option Text × W)
          → sys.exec path (path ∷ args) sys.environ w ≡ r
          → Handed args w (handed sys path (path ∷ args) r.0, r.1)
      go (none, w') e = (chosen, refl, refl, e)
      go (some message, w') e = inr (path, message, chosen, e, refl)

  in_root-Handed :
      (name : Text) (args : List Text) (w : W)
      → Handed args w (run_in_root sys (name ∷ args) (ok tt) w)
  unfolding run_in_root iscsiadm_path
  in_root-Handed name args w = elim (Bool-cases (is_blank (sys.getenv (lit "ISCSIADM_PATH")))) [
    | inl unset ↦ elim (Bool-cases (is_blank (find_path (λ p. sys.stat p w) iscsi_paths))) [
      | inl none_there ↦
          rw (unset, none_there)
            (inl (
              (
                unset,
                find_path-blank (λ p. sys.stat p w) iscsi_paths iscsi_paths-AllGiven none_there,
              ),
              refl,
              refl,
            ))
      | inr some_there ↦
          rw (unset, some_there)
            (hand_over-Handed _ name args w (
              inr (
                unset,
                find_path-given (λ p. sys.stat p w) iscsi_paths iscsi_paths-AllGiven some_there,
              )))
    ]
    | inr given ↦
        rw (given, given)
          (hand_over-Handed (sys.getenv (lit "ISCSIADM_PATH")) name args w (inl (given, refl)))
  ]

  chroot_dir-Root : Root (chroot_dir sys)
  unfolding chroot_dir
  chroot_dir-Root = elim (Bool-cases (is_blank (sys.getenv (lit "HOST_DIR")))) [
    | inl unset ↦ inr (unset, rw unset refl)
    | inr given ↦ inl (given, rw given refl)
  ]

  -- Where the change of the root fails, and else.
  abbrev pub HandsOver : List Text → W → Ending × W → Type 0
  HandsOver args w r =
      (dir : Text) × Root dir
      × (((e : Text) × ((sys.chroot dir w).0 ≡ err e)
            × (r ≡ (fatal chroot_failed, (sys.chroot dir w).1)))
          ⊎ (((sys.chroot dir w).0 ≡ ok tt) × Handed args (sys.chroot dir w).1 r))

  -- For a command line with at least the command's name: the command iscsiadm changes the root to
  -- the directory that HOST_DIR names, to /host if it names none, and exits with an error if that
  -- fails. In the new root it takes the program that ISCSIADM_PATH names, and else the first of the
  -- four paths that is there. It executes that program with its path in place of the name, and with
  -- the arguments and the environment that it was given; it exits with an error if it finds no program,
  -- just then when ISCSIADM_PATH is blank and none of the four is there, or if the execution fails.
  pub main-HandsOver :
      (name : Text) (args : List Text) (w : W) → HandsOver args w (main sys (name ∷ args) w)
  unfolding main run_in_root
  main-HandsOver name args w =
      (chroot_dir sys, chroot_dir-Root, go (sys.chroot (chroot_dir sys) w) refl)
    where
      go :
          (r : Result (Unit {0}) × W)
          → sys.chroot (chroot_dir sys) w ≡ r
          → ((e : Text) × (r.0 ≡ err e)
              × (run_in_root sys (name ∷ args) r.0 r.1 ≡ (fatal chroot_failed, r.1)))
            ⊎ ((r.0 ≡ ok tt) × Handed args r.1 (run_in_root sys (name ∷ args) r.0 r.1))
      go (ok _, w') e = inr (refl, in_root-Handed name args w')
      go (err e, w') _ = inl (e, refl, refl)
