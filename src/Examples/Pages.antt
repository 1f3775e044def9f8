-- ===== src/Examples/Pages.antt =====
-- A page of ListVolumes on the NAS in memory.
use qnap_csi.Base.{◌≡◌, refl, ◌≤◌, map, arith, list_set, length}
use qnap_csi.Base.Int.{pos, eq_ℤ}
use qnap_csi.Driver.Handler.{reply}
use qnap_csi.Driver.Listing.{ListVolumesRequest, Page, list_volumes}
use qnap_csi.Driver.Listing.Paging.OnePage.{
  page_for, room_of, list_volumes_page, list_volumes_bounded,
}
use qnap_csi.Examples.Nas.{Nas, nas_client, with_iqn, libraries, two_targets}
use qnap_csi.Examples.Volumes.{token, token_read}

abbrev listed_targets : Nas
listed_targets = map with_iqn two_targets

abbrev second_page : ListVolumesRequest
second_page = record { starting_token = token; max_entries = pos 1 }

abbrev page : Page
page = page_for (list_set eq_ℤ) (room_of (pos 1) listed_targets) token_read.0 listed_targets

list_volumes_page_example :
    list_volumes nas_client libraries second_page two_targets ≡ (reply page, two_targets)
list_volumes_page_example =
    list_volumes_page nas_client libraries token 1 token_read.0 listed_targets two_targets
      (omega arith) (omega arith) token_read.1 refl refl

is_page : (list_volumes nas_client libraries second_page two_targets).0 ≡ reply page
is_page =
    rw
      (list_volumes_page nas_client libraries token 1 token_read.0 listed_targets two_targets
        (omega arith) (omega arith) token_read.1 refl refl)
      refl

list_volumes_bounded_example : length page.entries ≤ 1
list_volumes_bounded_example =
    list_volumes_bounded nas_client libraries second_page page two_targets (omega arith)
      (omega arith) is_page
