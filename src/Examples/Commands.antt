-- ===== src/Examples/Commands.antt =====
-- The command iscsiadm on a host that has the program in /usr/local/sbin, and the plugin's command with a
-- node id.
use qnap_csi.Base.{◌≡◌, none, [], ◌∷◌, lit, text_eq, ok, err, if◌then◌else◌, arith}
use qnap_csi.Base.Int.{negsuc}
use qnap_csi.Cmd.Iscsiadm.{System, executed, iscsi_paths, chroot_dir}
use qnap_csi.Cmd.Iscsiadm.Binary.{HandsOver, main-HandsOver}
use qnap_csi.Cmd.Plugin.{Flags, default_flags, Build, Process}
use qnap_csi.Cmd.Plugin.Arguments.{main_of_args, ended}
use qnap_csi.Cmd.Plugin.Arguments.Printed.{args_of, main_of_args-args_of}
use qnap_csi.Cmd.Plugin.Starts.{Starts}
use qnap_csi.Examples.Start.{os}

abbrev system : System (Unit {0})
system = record {
  getenv = λ name. [];
  environ = lit "PATH=/bin" ∷ [];
  chroot = λ dir w. (ok tt, w);
  stat = λ path w. text_eq path (lit "/usr/local/sbin/iscsiadm");
  exec = λ path args environ w. (none, w);
}

main-HandsOver_example :
    HandsOver system
      (lit "-m" ∷ lit "session" ∷ [])
      tt
      (qnap_csi.Cmd.Iscsiadm.main system (lit "iscsiadm" ∷ lit "-m" ∷ lit "session" ∷ []) tt)
main-HandsOver_example = main-HandsOver system (lit "iscsiadm") (lit "-m" ∷ lit "session" ∷ []) tt

abbrev process : Process (Unit {0}) (Unit {0})
process = record {
  os = os;
  getenv = λ name. if text_eq name (lit "QNAP_USERNAME") then lit "admin" else lit "secret";
  parse_level = λ level. if text_eq level (lit "info") then ok tt else err (lit "unknown level");
  set_global_level = λ level w. w;
  enable_debug_logging = λ w. w;
}

abbrev build : Build
build = record { version = lit "v0.1.0"; commit = lit "abc"; git_tree_state = lit "clean" }

abbrev node_flags : Flags
node_flags = record default_flags { node_id = lit "node-1" }

abbrev pool_flags : Flags
pool_flags = record node_flags { url = lit "http://nas:8080/?a=b"; storage_pool_id = negsuc 1 }

main_of_args-args_of_example :
    main_of_args process build (args_of pool_flags) tt
    ≡ ended (qnap_csi.Cmd.Plugin.main process build pool_flags tt)
main_of_args-args_of_example =
    main_of_args-args_of process build pool_flags tt (omega arith, omega arith)
