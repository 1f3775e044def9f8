-- ===== src/Cmd/Iscsiadm.antt =====
-- The command iscsiadm of cmd/iscsiadm/main.go, which stands in the driver's image in place of the
-- iscsiadm of the host and hands over to it. The calls of the system are parameters.
pub mod Binary
use qnap_csi.Base.{
  Bool, Option, none, some, List, [], ◌∷◌, Text, lit, is_blank, Result, ok, err, if◌then◌else◌,
}
use qnap_csi.Qnap.Client.{Method}

-- What the command calls of the system, over its state `W`. An exec that succeeds does not return,
-- so that it gives no error.
pub record System (W : Type 0) : Type 0 where
  pub getenv : Text → Text
  pub environ : List Text
  pub chroot : Text → Method W (Unit {0})
  -- Whether os.Stat gives no error.
  pub stat : Text → W → Bool
  pub exec : Text → List Text → List Text → W → Option Text × W

-- Another program in place of the command, an error that is logged before it exits with status 1,
-- or a panic.
pub data Ending : Type 0 where
  executed : Text → List Text → List Text → Ending
  fatal : Text → Ending
  panicked : Ending

unfoldable pub iscsi_paths : List Text
iscsi_paths =
    lit "/sbin/iscsiadm"
    ∷ lit "/usr/local/sbin/iscsiadm"
    ∷ lit "/bin/iscsiadm"
    ∷ lit "/usr/local/bin/iscsiadm"
    ∷ []

-- The loop over the paths, which ends at the first that is there; "" if none is.
find_path : (Text → Bool) → List Text → Text
find_path there [] = []
find_path there (path ∷ paths) =
    let rest = find_path there paths in if there path then path else rest

abbrev pub chroot_failed : Text
chroot_failed = lit "Failed to chroot"

abbrev pub not_found : Text
not_found = lit "iscsiadm binary not found, consider specifying ISCSIADM_PATH"

abbrev pub exec_failed : Text
exec_failed = lit "Failed to exec"

module _ {W : Type 0} (sys : System W) where
  pub chroot_dir : Text
  chroot_dir = let dir = sys.getenv (lit "HOST_DIR") in if is_blank dir then lit "/host" else dir

  iscsiadm_path : W → Text
  unfolding iscsi_paths find_path
  iscsiadm_path w =
      let path = sys.getenv (lit "ISCSIADM_PATH") in
      if is_blank path then find_path (λ p. sys.stat p w) iscsi_paths else path

  handed : Text → List Text → Option Text → Ending
  handed path args none = executed path args sys.environ
  handed path args (some e) = fatal exec_failed

  -- `os.Args[1:]` panics without a first argument.
  hand_over : Text → List Text → W → Ending × W
  unfolding handed
  hand_over path [] w = (panicked, w)
  hand_over path (name ∷ args) w =
      let (e, w') = sys.exec path (path ∷ args) sys.environ w in (handed path (path ∷ args) e, w')

  run_in_root : List Text → Result (Unit {0}) → W → Ending × W
  unfolding iscsiadm_path hand_over
  run_in_root args (err e) w = (fatal chroot_failed, w)
  run_in_root args (ok _) w =
      let path = iscsiadm_path w in
      if is_blank path then (fatal not_found, w) else hand_over path args w

  pub main : List Text → W → Ending × W
  unfolding chroot_dir run_in_root
  main args w = let (r, w') = sys.chroot chroot_dir w in run_in_root args r w'
