-- ===== src/Driver/Calls/Distinct.antt =====
-- The names on the NAS through a sequence of calls.
use qnap_csi.Base.{List, [], ◌∷◌}
use qnap_csi.Qnap.Client.{Client}
use qnap_csi.Qnap.Contract.{Contract, AreDistinct}
use qnap_csi.Driver.Handler.{Outcome, reply, status, panics, still_waiting, Ends}
use qnap_csi.Driver.Config.{Config, Libraries}
use qnap_csi.Driver.Create.{create_volume}
use qnap_csi.Driver.Create.Distinct.{distinct, create_volume-distinct}
use qnap_csi.Driver.Delete.{delete_volume}
use qnap_csi.Driver.Delete.Distinct.{delete_volume-distinct}
use qnap_csi.Driver.Calls.{Call, creates, deletes, serve, serve_all}

module _ {W : Type 0} (c : Client W) (K : Contract c) (libs : Libraries) (d : Config) where
  pub distinct-end :
      {A : Type 0} (r : Outcome A × W) → Ends (distinct c K) r → AreDistinct (K.volumes r.1)
  distinct-end (reply a, w) h = h
  distinct-end (status code message, w) h = h
  distinct-end (panics, w) h = absurd h
  distinct-end (still_waiting, w) h = h

  serve-AreDistinct :
      (call : Call) (w : W)
      → AreDistinct (K.volumes w)
      → AreDistinct (K.volumes (serve c libs d call w))
  unfolding serve
  serve-AreDistinct (creates fuel req) w h =
      distinct-end (create_volume c libs d fuel req w)
        (create_volume-distinct c K libs d fuel req w h)
  serve-AreDistinct (deletes id) w h =
      distinct-end (delete_volume c id w) (delete_volume-distinct c K id w h)

  -- For a NAS that keeps the contract, and on which no index and no name stands twice: none does
  -- after any sequence of calls of CreateVolume and DeleteVolume, whatever comes of each, errors of
  -- the NAS in the midst of a call included.
  pub serve_all-AreDistinct :
      (calls : List Call) (w : W)
      → AreDistinct (K.volumes w)
      → AreDistinct (K.volumes (serve_all c libs d calls w))
  unfolding serve_all
  serve_all-AreDistinct [] w h = h
  serve_all-AreDistinct (call ∷ calls) w h =
      serve_all-AreDistinct calls (serve c libs d call w) (serve-AreDistinct call w h)
