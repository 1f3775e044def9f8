-- ===== src/Qnap/Contract/Distinct.antt =====
-- That no index and no name stands twice, through an addition and a removal.
use qnap_csi.Base.{
  ◌≡◌, refl, Bool, true, false, inl, inr, [], ◌∷◌, ◌++◌, Text, text_eq, text_eq_iff, arith,
}
use qnap_csi.Base.Int.{ℤ, eq_ℤ}
use qnap_csi.Qnap.Client.{Client}
use qnap_csi.Qnap.Contract.{
  Contract, Volumes, has_index, has_name, AreDistinct, without_index, without_name,
}

has_index-added :
    (i j : ℤ) (name : Text) (vs : Volumes)
    → has_index i vs ≡ false
    → eq_ℤ j i ≡ false
    → has_index i (vs ++ (j, name) ∷ []) ≡ false
has_index-added i j name [] h e = rw e refl
has_index-added i j name ((k, n) ∷ vs) h e = ground (arith, has_index-added i j name vs)

has_name-added :
    (name : Text) (j : ℤ) (n : Text) (vs : Volumes)
    → has_name name vs ≡ false
    → text_eq n name ≡ false
    → has_name name (vs ++ (j, n) ∷ []) ≡ false
has_name-added name j n [] h e = rw e refl
has_name-added name j n ((k, m) ∷ vs) h e = ground (arith, has_name-added name j n vs)

eq_ℤ_comm : (i j : ℤ) → eq_ℤ i j ≡ false → eq_ℤ j i ≡ false
eq_ℤ_comm i j h = ground arith

text_eq_comm : (a b : Text) → text_eq a b ≡ false → text_eq b a ≡ false
text_eq_comm a b h = ground (arith, text_eq_iff a b, text_eq_iff b a)

pub AreDistinct-added :
    (i : ℤ) (name : Text) (vs : Volumes)
    → AreDistinct vs
    → has_index i vs ≡ false
    → has_name name vs ≡ false
    → AreDistinct (vs ++ (i, name) ∷ [])
AreDistinct-added i name [] d hi hn = (refl, refl, tt)
AreDistinct-added i name ((j, n) ∷ vs) (dj, dn, d) hi hn = ground (
  arith,
  AreDistinct-added i name vs d,
  has_index-added j i name vs dj,
  has_name-added n i name vs dn,
  eq_ℤ_comm j i,
  text_eq_comm n name,
)

has_index-without :
    (i j : ℤ) (vs : Volumes) → has_index i vs ≡ false → has_index i (without_index j vs) ≡ false
has_index-without i j [] h = refl
has_index-without i j ((k, n) ∷ vs) h = ground (arith, has_index-without i j vs)

has_name-without :
    (name : Text) (j : ℤ) (vs : Volumes)
    → has_name name vs ≡ false
    → has_name name (without_index j vs) ≡ false
has_name-without name j [] h = refl
has_name-without name j ((k, n) ∷ vs) h = ground (arith, has_name-without name j vs)

pub AreDistinct-without : (j : ℤ) (vs : Volumes) → AreDistinct vs → AreDistinct (without_index j vs)
AreDistinct-without j [] d = tt
AreDistinct-without j ((k, n) ∷ vs) (dk, dn, d) =
    ground
      (arith, AreDistinct-without j vs d, has_index-without k j vs dk, has_name-without n j vs dn)

-- A name that is new is taken away again.
pub without_name-added :
    (name : Text) (i : ℤ) (vs : Volumes)
    → has_name name vs ≡ false
    → without_name name (vs ++ (i, name) ∷ []) ≡ vs
without_name-added name i [] h = ground (arith, (text_eq_iff name name).1 refl)
without_name-added name i ((k, n) ∷ vs) h = ground (arith, without_name-added name i vs)

pub has_name-last :
    (name : Text) (i : ℤ) (vs : Volumes) → has_name name (vs ++ (i, name) ∷ []) ≡ true
has_name-last name i [] = ground (arith, (text_eq_iff name name).1 refl)
has_name-last name i ((k, n) ∷ vs) = ground (arith, has_name-last name i vs)

pub without_name-twice :
    (name : Text) (vs : Volumes) → without_name name (without_name name vs) ≡ without_name name vs
without_name-twice name [] = refl
without_name-twice name ((k, n) ∷ vs) = ground (arith, without_name-twice name vs)

module _ {W : Type 0} (c : Client W) (K : Contract c) where
  pub deleted-AreDistinct :
      (i : ℤ) (w : W)
      → AreDistinct (K.volumes w)
      → AreDistinct (K.volumes (c.delete_storage_iscsi_target i w).1)
  deleted-AreDistinct i w d = elim (K.delete_target_any i w) [
    | inl same ↦ rw same d
    | inr gone ↦ rw gone (AreDistinct-without i (K.volumes w) d)
  ]

  pub created-AreDistinct :
      (name : Text) (data_digest header_digest cluster : Bool) (w : W)
      → AreDistinct (K.volumes w)
      → has_name name (K.volumes w) ≡ false
      → AreDistinct
          (K.volumes (c.create_storage_iscsi_target name data_digest header_digest cluster w).1)
  created-AreDistinct name data_digest header_digest cluster w d new =
      elim (K.create_target_any name data_digest header_digest cluster w) [
        | inl same ↦ rw same d
        | inr (i, fresh, added) ↦ rw added (AreDistinct-added i name (K.volumes w) d fresh new)
      ]
