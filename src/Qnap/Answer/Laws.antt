-- ===== src/Qnap/Answer/Laws.antt =====
-- What the results in the answers are when no error comes of them.
use qnap_csi.Base.{
  ℕ, true, false, not, ◌≡◌, refl, sym, ap, ◌∙◌, Bool, if◌then◌else◌, List, [], ◌∷◌, Text, lit,
  text_eq, text_eq_iff, Result, ok, err, arith,
}
use qnap_csi.Base.Int.{ℤ, pos, negsuc, ltb_ℤ, eq_ℤ, eq_ℤ_iff}
use qnap_csi.Go.Xml.{Element, string_at, int_at}
use qnap_csi.Qnap.Types.{
  StorageIscsiBlockLun, StoragePoolSubscriptionInfo, StorageIscsiTargetInfo, StorageIscsiLun,
}
use qnap_csi.Qnap.Session.{◌>>=◌}
use qnap_csi.Qnap.Session.Exchange.{bind-ok, guard-ok, bind-guard}
use qnap_csi.Qnap.Fill.{pool_of, targets_of_list, lun_of, block_lun_of}
use qnap_csi.Qnap.Answer.{
  unknown_error, result_text, result_int, unless_zero, pool_answer, lun_answer, targets_answer,
  create_target_answer, create_initiator_answer, block_lun_answer, done_answer,
}

-- The answer has the text "0" as its result.
pub ZeroText : {A : Type 0} → Element → A → Type 0
ZeroText e a = result_text e ≡ lit "0"

-- The answer has a result that is not negative.
pub Natural : {A : Type 0} → Element → A → Type 0
Natural e a = (n : ℕ) × (result_int e ≡ ok (pos n))

-- That result is the index in the value.
pub NaturalIndex : {A : Type 0} → (A → ℤ) → Element → A → Type 0
NaturalIndex index e a = (n : ℕ) × (index a ≡ pos n) × (result_int e ≡ ok (pos n))

-- It has this result.
pub Exactly : {A : Type 0} → ℤ → Element → A → Type 0
Exactly wanted e a = result_int e ≡ ok wanted

not-false : (s t : Text) → not (text_eq s t) ≡ false → s ≡ t
not-false s t h = (text_eq_iff s t).0 (ground (arith, h))

unless_zero_lem : {A : Type 0} (e : Element) (a b : A) → unless_zero e a ≡ ok b → ZeroText e b
unfolding unless_zero ZeroText
unless_zero_lem e a b h =
    not-false (result_text e) (lit "0")
      (guard-ok (not (text_eq (result_text e) (lit "0"))) unknown_error a b h).0

natural_lem : (i : ℤ) → ltb_ℤ i (pos 0) ≡ false → (n : ℕ) × (i ≡ pos n)
natural_lem (pos n) h = (n, refl)
natural_lem (negsuc n) h = absurd (ground (arith, h))

pub pool_lem : (e : Element) (a : StoragePoolSubscriptionInfo) → pool_answer e ≡ ok a → ZeroText e a
unfolding pool_answer
pool_lem e a h =
    let (pool, _, h') =
      bind-ok (pool_of e)
        (λ pool.
          if text_eq (result_text e) (lit "-1")
          then err (lit "invalid pool id")
          else unless_zero e pool)
        a h in
    unless_zero_lem e pool a (zero_of (text_eq (result_text e) (lit "-1")) pool h')
  where
    zero_of :
        (b : Bool) (pool : StoragePoolSubscriptionInfo)
        → (if b then err (lit "invalid pool id") else unless_zero e pool) ≡ ok a
        → unless_zero e pool ≡ ok a
    zero_of true pool h = absurd (cc h)
    zero_of false pool h = h

pub lun_lem : (e : Element) (a : StorageIscsiLun) → lun_answer e ≡ ok a → ZeroText e a
unfolding lun_answer
lun_lem e a h = unless_zero_lem e (lun_of e) a h

pub targets_lem :
    (e : Element) (a : List StorageIscsiTargetInfo) → targets_answer e ≡ ok a → ZeroText e a
unfolding targets_answer
targets_lem e a h =
    let (ts, _, h') = bind-ok (targets_of_list e) (λ ts. unless_zero e ts) a h in
    unless_zero_lem e ts a h'

pub done_lem :
    (wanted : ℤ) (e : Element) (a : Unit {0}) → done_answer wanted e ≡ ok a → Exactly wanted e a
unfolding done_answer Exactly
done_lem wanted e a h =
    let (i, hi, hw, _) =
      bind-guard (result_int e) (λ i. not (eq_ℤ i wanted)) unknown_error (λ _. tt) a h in
    hi ∙ ap ok ((eq_ℤ_iff i wanted).0 (ground (arith, hw)))

pub create_target_lem :
    (e : Element) (i : ℤ) → create_target_answer e ≡ ok i → NaturalIndex (λ j. j) e i
unfolding create_target_answer NaturalIndex
create_target_lem e i h =
    let (j, hj, hn, hji) =
      bind-guard (result_int e) (λ i. ltb_ℤ i (pos 0)) unknown_error (λ i. i) i h in
    let (n, hn') = natural_lem j hn in (n, sym hji ∙ hn', hj ∙ ap ok hn')

pub create_initiator_lem :
    (e : Element) (a : Unit {0}) → create_initiator_answer e ≡ ok a → Natural e a
unfolding create_initiator_answer Natural
create_initiator_lem e a h =
    let (j, hj, hn, _) =
      bind-guard (result_int e) (λ i. ltb_ℤ i (pos 0)) unknown_error (λ _. tt) a h in
    let (n, hn') = natural_lem j hn in (n, hj ∙ ap ok hn')

result_index : Result StorageIscsiBlockLun → Result ℤ
result_index (ok b) = ok b.result
result_index (err m) = err m

block_lun_of-result :
    (e : Element) (b : StorageIscsiBlockLun) → block_lun_of e ≡ ok b → result_int e ≡ ok b.result
unfolding block_lun_of result_index
block_lun_of-result e b h =
    go (result_int e) (int_at (lit "volumeID" ∷ []) e) (string_at (lit "authPassed" ∷ []) e) h
  where
    go :
        (r v : Result ℤ) (passed : Text)
        → (r >>= λ i. v >>= λ j. ok (record { auth_passed = passed; result = i; volume_id = j }))
          ≡ ok b
        → r ≡ ok b.result
    go (ok i) (ok j) passed h = ap result_index h
    go (ok i) (err m) passed h = absurd (cc h)
    go (err m) v passed h = absurd (cc h)

pub block_lun_lem :
    (e : Element) (b : StorageIscsiBlockLun)
    → block_lun_answer e ≡ ok b
    → NaturalIndex StorageIscsiBlockLun.result e b
unfolding block_lun_answer NaturalIndex
block_lun_lem e b h =
    let (b', hb, hn, hbb) =
      bind-guard (block_lun_of e) (λ b. ltb_ℤ b.result (pos 0)) unknown_error (λ b. b) b h in
    let (n, hn') = natural_lem b'.result hn in
    (n, sym (ap StorageIscsiBlockLun.result hbb) ∙ hn', block_lun_of-result e b' hb ∙ ap ok hn')
