-- ===== src/Driver/Calls.antt =====
-- The calls of the controller service that change the NAS, one behind the other.
pub mod Distinct
pub mod Interleaved
pub mod Pairs
use qnap_csi.Base.{ℕ, List, [], ◌∷◌, Text}
use qnap_csi.Qnap.Client.{Client}
use qnap_csi.Driver.Config.{Config, Libraries}
use qnap_csi.Driver.Create.{CreateVolumeRequest, create_volume}
use qnap_csi.Driver.Delete.{delete_volume}

-- A CreateVolume, with the number of its looks at the LUN, or a DeleteVolume.
pub data Call : Type 0 where
  creates : ℕ → CreateVolumeRequest → Call
  deletes : Text → Call

module _ {W : Type 0} (c : Client W) (libs : Libraries) (d : Config) where
  serve : Call → W → W
  serve (creates fuel req) w = (create_volume c libs d fuel req w).1
  serve (deletes id) w = (delete_volume c id w).1

  -- The NAS behind a sequence of calls, whatever comes of each.
  pub serve_all : List Call → W → W
  unfolding serve
  serve_all [] w = w
  serve_all (call ∷ calls) w = serve_all calls (serve call w)
