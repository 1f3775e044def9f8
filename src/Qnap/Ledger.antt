-- ===== src/Qnap/Ledger.antt =====
-- A client that keeps a list of the changes it asks of the NAS, newest first, around any client.
use qnap_csi.Base.{List, [], ◌∷◌, Text, Result, ok, err, if◌then◌else◌}
use qnap_csi.Base.Int.{ℤ, eq_ℤ}
use qnap_csi.Qnap.Client.{Client, Method}

-- Creations and attachments that succeeded, with the index that the NAS gave; deletions as they
-- were asked for, whatever came of them.
pub data Event : Type 0 where
  target_created : ℤ → Text → Event
  target_deleted : ℤ → Event
  initiator_created : ℤ → Event
  lun_created : ℤ → Text → ℤ → Event
  lun_deleted : ℤ → Event
  attached : ℤ → ℤ → Event

abbrev on_success : {A : Type 0} → (A → Event) → Result A → List Event → List Event
on_success event (ok a) log = event a ∷ log
on_success event (err e) log = log

module _ {W : Type 0} where
  -- A call that changes nothing on the NAS.
  abbrev pub reads : {A : Type 0} → Method W A → Method (W × List Event) A
  reads m (w, log) = let (r, w') = m w in (r, (w', log))

  abbrev pub creates : {A : Type 0} → Method W A → (A → Event) → Method (W × List Event) A
  creates m event (w, log) = let (r, w') = m w in (r, (w', on_success event r log))

  abbrev pub deletes : {A : Type 0} → Method W A → Event → Method (W × List Event) A
  deletes m event (w, log) = let (r, w') = m w in (r, (w', event ∷ log))

  abbrev pub recorded : Client W → Client (W × List Event)
  recorded c = record {
    login = reads c.login;
    get_storage_pool_subscription = λ pool. reads (c.get_storage_pool_subscription pool);
    get_storage_iscsi_lun = λ lun. reads (c.get_storage_iscsi_lun lun);
    get_storage_iscsi_target_list = reads c.get_storage_iscsi_target_list;
    create_storage_iscsi_target = λ name data_digest header_digest cluster.
        creates (c.create_storage_iscsi_target name data_digest header_digest cluster)
          (λ i. target_created i name);
    create_storage_iscsi_initiator = λ target chap user pass mutual_chap mutual_user mutual_pass.
        creates
          (c.create_storage_iscsi_initiator target chap user pass mutual_chap mutual_user
            mutual_pass)
          (λ _. initiator_created target);
    delete_storage_iscsi_target =
        λ target. deletes (c.delete_storage_iscsi_target target) (target_deleted target);
    create_storage_iscsi_block_lun = λ name pool capacity thin sector wc fua ssd tiering.
        creates (c.create_storage_iscsi_block_lun name pool capacity thin sector wc fua ssd tiering)
          (λ block. lun_created block.result name capacity);
    delete_storage_iscsi_block_lun = λ lun background.
        deletes (c.delete_storage_iscsi_block_lun lun background) (lun_deleted lun);
    attach_storage_iscsi_target_lun = λ lun target.
        creates (c.attach_storage_iscsi_target_lun lun target) (λ _. attached lun target);
  }

-- Takes the first `i` out.
pub remove : ℤ → List ℤ → List ℤ
remove i [] = []
remove i (j ∷ js) = let rest = remove i js in if eq_ℤ i j then js else j ∷ rest

-- The targets that were created and not asked to be deleted since.
unfoldable pub open_targets : List Event → List ℤ
unfolding remove
open_targets [] = []
open_targets (target_created i name ∷ log) = i ∷ open_targets log
open_targets (target_deleted i ∷ log) = remove i (open_targets log)
open_targets (_ ∷ log) = open_targets log

-- The LUNs, likewise.
unfoldable pub open_luns : List Event → List ℤ
unfolding remove
open_luns [] = []
open_luns (lun_created i name capacity ∷ log) = i ∷ open_luns log
open_luns (lun_deleted i ∷ log) = remove i (open_luns log)
open_luns (_ ∷ log) = open_luns log
