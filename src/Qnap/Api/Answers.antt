-- ===== src/Qnap/Api/Answers.antt =====
-- What the answers of the NAS are when the methods of qnap/api.go succeed.
use qnap_csi.Base.{Bool, Text}
use qnap_csi.Base.Int.{ℤ, pos}
use qnap_csi.Qnap.Types.{StorageIscsiBlockLun}
use qnap_csi.Qnap.Session.{Network, Account}
use qnap_csi.Qnap.Session.Exchange.{Obeys, exchange-Obeys}
use qnap_csi.Qnap.Answer.{
  pool_answer, lun_answer, targets_answer, create_target_answer, create_initiator_answer,
  block_lun_answer, done_answer,
}
use qnap_csi.Qnap.Answer.Laws.{
  ZeroText, Natural, NaturalIndex, Exactly, pool_lem, lun_lem, targets_lem, done_lem,
  create_target_lem, create_initiator_lem, block_lun_lem,
}
use qnap_csi.Qnap.Api.{
  api_client, get_storage_pool_subscription, get_storage_iscsi_lun, get_storage_iscsi_target_list,
  create_storage_iscsi_target, create_storage_iscsi_initiator, delete_storage_iscsi_target,
  create_storage_iscsi_block_lun, delete_storage_iscsi_block_lun, attach_storage_iscsi_target_lun,
}

module _ {W : Type 0} (net : Network W) (a : Account) where
  -- Each method of the client other than Login does one request, which carries the session id, and
  -- keeps that id, and it succeeds only if the answer has the status code 200 and a readable document. Then: a query for
  -- the pool, a LUN or the targets has the result "0"; a creation has a result that is not
  -- negative, which is the index that the method returns for a target and a LUN; the deletion of a
  -- target has the index of that target as its result; the deletion of a LUN and an attachment
  -- have the result 0.
  pub api_client_lem :
      let c = api_client net a in
      ((pool : ℤ) → Obeys net ZeroText (c.get_storage_pool_subscription pool))
      × ((lun : ℤ) → Obeys net ZeroText (c.get_storage_iscsi_lun lun))
      × Obeys net ZeroText c.get_storage_iscsi_target_list
      × ((name : Text) (data_digest header_digest cluster : Bool)
          → Obeys net
              (NaturalIndex (λ i. i))
              (c.create_storage_iscsi_target name data_digest header_digest cluster))
      × ((target : ℤ) (chap : Bool) (user pass : Text) (mutual_chap : Bool) (user' pass' : Text)
          → Obeys net Natural
              (c.create_storage_iscsi_initiator target chap user pass mutual_chap user' pass'))
      × ((target : ℤ) → Obeys net (Exactly target) (c.delete_storage_iscsi_target target))
      × ((name : Text) (pool capacity : ℤ) (thin : Bool) (sector : ℤ) (wc fua ssd tiering : Bool)
          → Obeys net
              (NaturalIndex StorageIscsiBlockLun.result)
              (c.create_storage_iscsi_block_lun name pool capacity thin sector wc fua ssd tiering))
      × ((lun : ℤ) (run_in_background : Bool)
          → Obeys net (Exactly (pos 0)) (c.delete_storage_iscsi_block_lun lun run_in_background))
      × ((lun target : ℤ)
          → Obeys net (Exactly (pos 0)) (c.attach_storage_iscsi_target_lun lun target))
  unfolding get_storage_pool_subscription get_storage_iscsi_lun get_storage_iscsi_target_list
      create_storage_iscsi_target create_storage_iscsi_initiator delete_storage_iscsi_target
      create_storage_iscsi_block_lun delete_storage_iscsi_block_lun attach_storage_iscsi_target_lun
  api_client_lem = (
    λ pool. exchange-Obeys net ZeroText _ _ _ pool_answer pool_lem,
    λ lun. exchange-Obeys net ZeroText _ _ _ lun_answer lun_lem,
    exchange-Obeys net ZeroText _ _ _ targets_answer targets_lem,
    λ name d h cl.
        exchange-Obeys net (NaturalIndex (λ i. i)) _ _ _ create_target_answer create_target_lem,
    λ target chap u p m u' p'.
        exchange-Obeys net Natural _ _ _ create_initiator_answer create_initiator_lem,
    λ target. exchange-Obeys net (Exactly target) _ _ _ (done_answer target) (done_lem target),
    λ name pool capacity thin sector wc fua ssd tiering.
        exchange-Obeys net (NaturalIndex StorageIscsiBlockLun.result) _ _ _ block_lun_answer
          block_lun_lem,
    λ lun b. exchange-Obeys net (Exactly (pos 0)) _ _ _ (done_answer (pos 0)) (done_lem (pos 0)),
    λ lun target.
        exchange-Obeys net (Exactly (pos 0)) _ _ _ (done_answer (pos 0)) (done_lem (pos 0)),
  )
