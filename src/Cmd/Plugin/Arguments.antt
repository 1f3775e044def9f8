-- ===== src/Cmd/Plugin/Arguments.antt =====
-- The command line of the plugin: cmd/qnap-csi-plugin/main.go from its beginning.
pub mod Printed
use qnap_csi.Base.{Bool, Option, none, some, List, [], ◌∷◌, Text, lit, text_eq, if◌then◌else◌}
use qnap_csi.Base.Int.{ℤ}
use qnap_csi.Go.Flag.{Setter, text_flag, bool_flag, int_flag, Parsed, parsed, usage, parse}
use qnap_csi.Cmd.Plugin.{Flags, default_flags, Build, Process, Ending, main}

-- Which flags there are, as main declares them.
pub formal : Text → Option (Setter Flags)
formal name =
    if text_eq name (lit "endpoint")
    then some (text_flag (λ v f. record f { endpoint = v }))
    else if text_eq name (lit "url")
    then some (text_flag (λ v f. record f { url = v }))
    else if text_eq name (lit "log-level")
    then some (text_flag (λ v f. record f { log_level = v }))
    else if text_eq name (lit "version")
    then some (bool_flag (λ v f. record f { version = v }))
    else if text_eq name (lit "controller")
    then some (bool_flag (λ v f. record f { controller = v }))
    else if text_eq name (lit "prefix")
    then some (text_flag (λ v f. record f { prefix = v }))
    else if text_eq name (lit "node-id")
    then some (text_flag (λ v f. record f { node_id = v }))
    else if text_eq name (lit "portal")
    then some (text_flag (λ v f. record f { portal = v }))
    else if text_eq name (lit "storage-pool-id")
    then some (int_flag (λ v f. record f { storage_pool_id = v }))
    else none

-- The usage, with whether it was asked for, or the end of main behind flag.Parse.
pub data Started (W : Type 0) : Type 0 where
  printed_usage : Bool → W → Started W
  ended : Ending W → Started W

module _ {W L : Type 0} (proc : Process W L) (build : Build) where
  with_flags : Parsed Flags → W → Started W
  with_flags (parsed flags) w = ended (main proc build flags w)
  with_flags (usage asked) w = printed_usage asked w

  -- From the arguments behind the command's name.
  pub main_of_args : List Text → W → Started W
  unfolding with_flags formal
  main_of_args args w = with_flags (parse formal args default_flags) w
