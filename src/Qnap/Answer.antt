-- ===== src/Qnap/Answer.antt =====
-- What the methods of qnap/api.go make of a document that the NAS answers: the struct, and the
-- error that its result stands for.
pub mod Laws
use qnap_csi.Base.{List, [], ◌∷◌, Text, lit, text_eq, not, Result, ok, err, if◌then◌else◌}
use qnap_csi.Base.Int.{ℤ, pos, ltb_ℤ, eq_ℤ}
use qnap_csi.Go.Xml.{Element, string_at, int_at}
use qnap_csi.Qnap.Types.{
  StoragePoolSubscriptionInfo, StorageLogicalVolumes, StorageIscsiLun, StorageIscsiTargetInfo,
  StorageIscsiBlockLun,
}
use qnap_csi.Qnap.Session.{◌>>=◌}
use qnap_csi.Qnap.Fill.{pool_of, logical_volumes_of, lun_of, targets_of_list, block_lun_of}

abbrev unknown_error : Text
unknown_error = lit "unknown error occurred"

abbrev pub result_text : Element → Text
result_text e = string_at (lit "result" ∷ []) e

abbrev pub result_int : Element → Result ℤ
result_int e = int_at (lit "result" ∷ []) e

-- `if xmlStruct.Result != "0"`
unless_zero : {A : Type 0} → Element → A → Result A
unless_zero e a = if not (text_eq (result_text e) (lit "0")) then err unknown_error else ok a

pub pool_answer : Element → Result StoragePoolSubscriptionInfo
unfolding unless_zero
pool_answer e = pool_of e >>= λ pool.
    if text_eq (result_text e) (lit "-1") then err (lit "invalid pool id") else unless_zero e pool

pub volumes_answer : Element → Result StorageLogicalVolumes
unfolding unless_zero
volumes_answer e = logical_volumes_of e >>= λ volumes. unless_zero e volumes

pub lun_answer : Element → Result StorageIscsiLun
unfolding unless_zero
lun_answer e = unless_zero e (lun_of e)

pub targets_answer : Element → Result (List StorageIscsiTargetInfo)
unfolding unless_zero
targets_answer e = targets_of_list e >>= λ ts. unless_zero e ts

-- `if xmlStruct.Result < 0`
pub create_target_answer : Element → Result ℤ
create_target_answer e = result_int e >>= λ i. if ltb_ℤ i (pos 0) then err unknown_error else ok i

pub create_initiator_answer : Element → Result (Unit {0})
create_initiator_answer e =
    result_int e >>= λ i. if ltb_ℤ i (pos 0) then err unknown_error else ok tt

pub block_lun_answer : Element → Result StorageIscsiBlockLun
block_lun_answer e =
    block_lun_of e >>= λ block. if ltb_ℤ block.result (pos 0) then err unknown_error else ok block

-- `if xmlStruct.Result != wanted`
pub done_answer : ℤ → Element → Result (Unit {0})
done_answer wanted e =
    result_int e >>= λ i. if not (eq_ℤ i wanted) then err unknown_error else ok tt
