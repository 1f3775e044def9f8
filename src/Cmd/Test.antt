-- ===== src/Cmd/Test.antt =====
-- The command of cmd/qnap-csi-test/main.go, which asks a running driver to unpublish one volume. The
-- connection of google.golang.org/grpc is a parameter.
use qnap_csi.Base.{Option, none, some, Text, lit, Result, ok, err}
use qnap_csi.Qnap.Client.{Method}

-- A connection, over the state `W`, with the client of the node service on it.
pub record Connection (W : Type 0) : Type 0 where
  pub dial : Text → Method W (Unit {0})
  pub node_unpublish_volume : Text → Text → Method W (Unit {0})
  pub close : W → W

-- An error that is logged before the command exits with status 1, or the end of main, with the error
-- that it logs.
pub data Ending : Type 0 where
  fatal : Text → Ending
  finished : Option Text → Ending

abbrev pub socket : Text
socket = lit "unix:///tmp/csi/csi.sock"

logged : Result (Unit {0}) → Option Text
logged (ok _) = none
logged (err e) = some e

module _ {W : Type 0} (conn : Connection W) where
  -- Behind Dial, the deferred Close included.
  unpublish : Result (Unit {0}) → W → Ending × W
  unfolding logged
  unpublish (err e) w = (fatal (lit "Failed to listen to socket"), w)
  unpublish (ok _) w =
      let (r, w') = conn.node_unpublish_volume (lit "testvol1") (lit "/tmp/lala") w in
      (finished (logged r), conn.close w')

  pub main : W → Ending × W
  unfolding unpublish
  main w = let (r, w') = conn.dial socket w in unpublish r w'
