-- ===== src/Examples/Volumes.antt =====
-- DeleteVolume and ListVolumes on the NAS in memory, and the client on a network that answers
-- every request alike.
use qnap_csi.Base.{
  Yields, zero, suc, ◌≡◌, ◌≢◌, ◌↔◌, refl, false, true, List, [], ◌∷◌, Text, lit, is_blank, arith,
  list_set, ok, some,
}
use qnap_csi.Base.Int.{ℤ, pos, negsuc, eq_ℤ}
use qnap_csi.Go.Xml.{element, nil}
use qnap_csi.Qnap.Types.{StorageIscsiTargetInfo, StorageIscsiBlockLun}
use qnap_csi.Qnap.Client.{listed}
use qnap_csi.Qnap.Ledger.{recorded}
use qnap_csi.Qnap.Session.{Network, Session, new_client, login, Account}
use qnap_csi.Qnap.Session.Login.{LetIn, login_lem}
use qnap_csi.Qnap.Session.Exchange.{Obeys}
use qnap_csi.Qnap.Api.{api_client}
use qnap_csi.Qnap.Answer.Laws.{ZeroText, Natural, NaturalIndex, Exactly}
use qnap_csi.Qnap.Api.Answers.{api_client_lem}
use qnap_csi.Driver.Handler.{Ends, both, errs, Never, panics}
use qnap_csi.Driver.Delete.{delete_volume}
use qnap_csi.Driver.Delete.Laws.{carried_out, deletions, delete_volume-carried_out}
use qnap_csi.Driver.Delete.Healthy.{Healthy, delete_volume_succeeds}
use qnap_csi.Driver.Listing.{ListVolumesRequest, list_volumes, seen_ids}
use qnap_csi.Driver.Token.{seen_indexes_to_base64_string}
use qnap_csi.Driver.Token.Int64.{HoldsInt64}
use qnap_csi.Driver.Listing.Paging.Seen.{Same, seen_ids-token}
use qnap_csi.Driver.Listing.Panic.{list_volumes_panics_iff}
use qnap_csi.Driver.Listing.Paging.{names, unseen}
use qnap_csi.Driver.Listing.Paging.Walk.{walk, pages_complete}
use qnap_csi.Examples.Nas.{Nas, nas_client, libraries, two_targets, ints-IsFinSet}

delete_volume-carried_out_example :
    Ends
      (carried_out (deletions (lit "b2") (listed nas_client two_targets)) [])
      (delete_volume (recorded nas_client) (lit "b2") (two_targets, []))
delete_volume-carried_out_example =
    delete_volume-carried_out nas_client (lit "b2") (two_targets, [])

pub nas-Deletes : Healthy nas_client
nas-Deletes = record {
  login = λ w. (tt, refl);
  list = λ w. (_, refl);
  target = λ i w. (tt, refl);
  lun = λ i w. (tt, refl);
}

id_given : is_blank (lit "b2") ≡ false
unfolding is_blank lit
id_given = refl

delete_volume_succeeds_example :
    Ends
      (both (carried_out (deletions (lit "b2") (listed nas_client two_targets)) []) (errs Never))
      (delete_volume (recorded nas_client) (lit "b2") (two_targets, []))
delete_volume_succeeds_example =
    delete_volume_succeeds nas_client nas-Deletes (lit "b2") (two_targets, []) id_given

abbrev first_page : ListVolumesRequest
first_page = record { starting_token = []; max_entries = pos 1 }

list_volumes_panics_iff_example :
    ((list_volumes nas_client libraries first_page two_targets).0 ≡ panics) ↔ (
      (is_blank [] ≡ true)
      × ((nas_client.login two_targets).0 ≡ ok tt)
      × ((ts : List StorageIscsiTargetInfo) × ((nas_client.get_storage_iscsi_target_list
              two_targets).0
            ≡ ok ts)
          × (ts ≢ [])))
list_volumes_panics_iff_example =
    list_volumes_panics_iff nas_client libraries first_page two_targets

-- The token behind a page that has the target 0.
abbrev pub token : Text
token = seen_indexes_to_base64_string (pos 0 ∷ [])

zero-HoldsInt64 : HoldsInt64 (list_set eq_ℤ) ints-IsFinSet (pos 0 ∷ [])
zero-HoldsInt64 (pos zero) h = (omega arith, omega arith)
zero-HoldsInt64 (pos (suc n)) h = absurd (ground (arith, h))
zero-HoldsInt64 (negsuc n) h = absurd (cc h)

pub token_read :
    (s : List ℤ) × (seen_ids (list_set eq_ℤ) token ≡ some s)
    × Same (list_set eq_ℤ) ints-IsFinSet s (pos 0 ∷ [])
token_read = seen_ids-token (list_set eq_ℤ) ints-IsFinSet (pos 0 ∷ []) (λ e. cc) zero-HoldsInt64

pages_complete_example :
    walk (list_set eq_ℤ) 1 two_targets 3 token
    ≡ some (names (unseen (list_set eq_ℤ) token_read.0 two_targets))
pages_complete_example =
    pages_complete (list_set eq_ℤ) ints-IsFinSet 0 two_targets token token_read.0 (omega arith)
      ((omega arith, omega arith), ((omega arith, omega arith), tt)) token_read.1

abbrev answering : Network Nas
answering = record {
  post = λ req w. (ok (record { status_code = 200; body = [] }), w);
  parse_xml = λ body. ok (element (lit "QDocRoot") [] nil);
}

abbrev account : Account
account = new_client (lit "admin") (lit "secret") (lit "http://10.0.0.2:8080/")

api_client_lem_example :
    let c = api_client answering account in
    ((pool : ℤ) → Obeys answering ZeroText (c.get_storage_pool_subscription pool))
    × ((lun : ℤ) → Obeys answering ZeroText (c.get_storage_iscsi_lun lun))
    × Obeys answering ZeroText c.get_storage_iscsi_target_list
    × ((name : Text) (data_digest header_digest cluster : _)
        → Obeys answering
            (NaturalIndex (λ i. i))
            (c.create_storage_iscsi_target name data_digest header_digest cluster))
    × ((target : ℤ) (chap : _) (user pass : Text) (mutual_chap : _) (user' pass' : Text)
        → Obeys answering Natural
            (c.create_storage_iscsi_initiator target chap user pass mutual_chap user' pass'))
    × ((target : ℤ) → Obeys answering (Exactly target) (c.delete_storage_iscsi_target target))
    × ((name : Text) (pool capacity : ℤ) (thin : _) (sector : ℤ) (wc fua ssd tiering : _)
        → Obeys answering
            (NaturalIndex StorageIscsiBlockLun.result)
            (c.create_storage_iscsi_block_lun name pool capacity thin sector wc fua ssd tiering))
    × ((lun : ℤ) (run_in_background : _)
        → Obeys answering
            (Exactly (pos 0))
            (c.delete_storage_iscsi_block_lun lun run_in_background))
    × ((lun target : ℤ)
        → Obeys answering (Exactly (pos 0)) (c.attach_storage_iscsi_target_lun lun target))
api_client_lem_example = api_client_lem answering account

abbrev session : Session Nas
session = record { world = two_targets; sid = lit "old" }

login_lem_example :
    Yields
      (λ _. LetIn answering account two_targets (login answering account session).1.sid)
      (λ _. (login answering account session).1.sid ≡ lit "old")
      (login answering account session).0
login_lem_example = login_lem answering account session
