-- ===== src/Driver/Server/Serving.antt =====
-- The end of Run of driver/driver.go, where it serves: the goroutine that serves and the one that
-- waits for the context, interleaved in any order with the gRPC server and the goroutine of
-- cmd/qnap-csi-plugin/main.go that waits for a signal. The server
-- of google.golang.org/grpc is a parameter.
pub mod Readiness
pub mod Stop
use qnap_csi.Base.{◌≡◌, Bool, true, false, Option, none, some, Text}
use qnap_csi.Driver.Server.{Server}

-- The gRPC server, in a state `G`: NewServer, the calls of Serve and GracefulStop, what the server
-- does by itself while it handles requests, and with which error Serve may return, if any.
pub record Grpc (G : Type 0) : Type 1 where
  pub new_server : G
  pub serve : G → G
  pub graceful_stop : G → G
  pub Moves : G → G → Type 0
  pub Returns : G → Option Text → Type 0

-- Where the goroutine of the error group is; behind Serve, with what it returned.
pub data Main : Type 0 where
  spawning : Main
  calling : Main
  serving : Main
  returned : Option Text → Main

-- Where the goroutine that waits for the context is.
pub data Watcher : Type 0 where
  absent waiting woken unset stopping : Watcher

pub record Serving (G : Type 0) : Type 0 where
  pub server : Server
  pub grpc : G
  pub cancelled : Bool
  pub main : Main
  pub watcher : Watcher

module _ {G : Type 0} (g : Grpc G) where
  -- Behind `d.setReady(true)`.
  unfoldable pub begin : Server → Serving G
  begin server = record {
    server = server;
    grpc = g.new_server;
    cancelled = false;
    main = spawning;
    watcher = absent;
  }

  -- The goroutine of the command's run that waits for a signal: it cancels the context of Run.
  unfoldable pub caught : Serving G → Serving G
  caught s = record s { cancelled = true }

  -- `d.setReady(false)` of the watcher
  unfoldable pub unready : Serving G → Serving G
  unready s = record s { server = record s.server { ready = false }; watcher = unset }

  -- `d.srv.GracefulStop()`
  unfoldable pub stop : Serving G → Serving G
  stop s = record s { grpc = g.graceful_stop s.grpc; watcher = stopping }

  pub data Step (s : Serving G) : Serving G → Type 0 where
    cancel : Step s (caught s)
    move : (t : G) → g.Moves s.grpc t → Step s (record s { grpc = t })
    spawn : s.main ≡ spawning → Step s (record s { main = calling; watcher = waiting })
    call : s.main ≡ calling → Step s (record s { main = serving; grpc = g.serve s.grpc })
    return :
        (e : Option Text)
        → s.main ≡ serving
        → g.Returns s.grpc e
        → Step s (record s { main = returned e })
    wake : s.watcher ≡ waiting → s.cancelled ≡ true → Step s (record s { watcher = woken })
    unset_ready : s.watcher ≡ woken → Step s (unready s)
    call_stop : s.watcher ≡ unset → Step s (stop s)

  pub data Steps (s : Serving G) : Serving G → Type 0 where
    here : Steps s s
    later : {t u : Serving G} → Steps s t → Step t u → Steps s u
