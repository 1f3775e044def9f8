-- ===== src/Qnap/Contract.antt =====
-- What the driver relies on the NAS for: an abstract view of the targets, as indexes with names, and
-- how the calls of qnap.Client change it.
pub mod Removal
pub mod Distinct
use qnap_csi.Base.{
  ◌≡◌, ◌⊎◌, Bool, true, false, ◌||◌, Option, none, some, List, [], ◌∷◌, ◌++◌, map, Text, text_eq,
  ok, if◌then◌else◌,
}
use qnap_csi.Base.Int.{ℤ, pos, eq_ℤ}
use qnap_csi.Qnap.Types.{StorageIscsiTargetInfo}
use qnap_csi.Qnap.Client.{Client}

abbrev pub Volumes : Type 0
Volumes = List (ℤ × Text)

abbrev pub volumes_of : List StorageIscsiTargetInfo → Volumes
volumes_of = map (λ t. (t.target_index, t.name))

abbrev pub has_index : ℤ → Volumes → Bool
has_index i [] = false
has_index i ((j, n) ∷ vs) = eq_ℤ j i || has_index i vs

abbrev pub has_name : Text → Volumes → Bool
has_name name [] = false
has_name name ((j, n) ∷ vs) = text_eq n name || has_name name vs

-- No index and no name stands twice.
abbrev pub AreDistinct : Volumes → Type 0
AreDistinct [] = Unit
AreDistinct ((j, n) ∷ vs) = (has_index j vs ≡ false) × (has_name n vs ≡ false) × AreDistinct vs

abbrev pub without_index : ℤ → Volumes → Volumes
without_index i [] = []
without_index i ((j, n) ∷ vs) =
    let rest = without_index i vs in if eq_ℤ j i then rest else (j, n) ∷ rest

abbrev pub without_name : Text → Volumes → Volumes
without_name name [] = []
without_name name ((j, n) ∷ vs) =
    let rest = without_name name vs in if text_eq n name then rest else (j, n) ∷ rest

pub record Contract {W : Type 0} (c : Client W) : Type 0 where
  pub volumes : W → Volumes
  -- The login changes nothing, and neither does the list, which tells of all targets.
  pub login : (w : W) → volumes (c.login w).1 ≡ volumes w
  pub list : (w : W) → volumes (c.get_storage_iscsi_target_list w).1 ≡ volumes w
  pub listed :
      (w : W) (ts : List StorageIscsiTargetInfo)
      → (c.get_storage_iscsi_target_list w).0 ≡ ok ts
      → volumes_of ts ≡ volumes w
  -- A deletion that succeeds takes the target away; whatever it answers, it takes that target away or
  -- none. That of a LUN leaves the targets.
  pub delete_target :
      (i : ℤ) (w : W)
      → (c.delete_storage_iscsi_target i w).0 ≡ ok tt
      → volumes (c.delete_storage_iscsi_target i w).1 ≡ without_index i (volumes w)
  pub delete_target_any :
      (i : ℤ) (w : W)
      → (volumes (c.delete_storage_iscsi_target i w).1 ≡ volumes w)
        ⊎ (volumes (c.delete_storage_iscsi_target i w).1 ≡ without_index i (volumes w))
  pub delete_lun :
      (i : ℤ) (background : Bool) (w : W)
      → volumes (c.delete_storage_iscsi_block_lun i background w).1 ≡ volumes w
  -- A creation that succeeds adds the target behind the others; whatever it answers, it adds a target
  -- of the name with a new index or none. The other calls leave the targets.
  pub create_target :
      (name : Text) (data_digest header_digest cluster : Bool) (w : W) (i : ℤ)
      → (c.create_storage_iscsi_target name data_digest header_digest cluster w).0 ≡ ok i
      → volumes (c.create_storage_iscsi_target name data_digest header_digest cluster w).1
        ≡ volumes w ++ (i, name) ∷ []
  pub create_target_any :
      (name : Text) (data_digest header_digest cluster : Bool) (w : W)
      → (volumes (c.create_storage_iscsi_target name data_digest header_digest cluster w).1
          ≡ volumes w)
        ⊎ ((i : ℤ) × (has_index i (volumes w) ≡ false)
            × (volumes (c.create_storage_iscsi_target name data_digest header_digest cluster w).1
                ≡ volumes w ++ (i, name) ∷ []))
  pub create_initiator :
      (target : ℤ) (w : W)
      → volumes (c.create_storage_iscsi_initiator target false [] [] false [] [] w).1 ≡ volumes w
  pub create_lun :
      (name : Text) (pool capacity : ℤ) (w : W)
      → volumes
          (c.create_storage_iscsi_block_lun name pool capacity false
            (pos 512)
            false
            false
            false
            false
            w).1
        ≡ volumes w
  pub look : (lun : ℤ) (w : W) → volumes (c.get_storage_iscsi_lun lun w).1 ≡ volumes w
  pub attach :
      (lun target : ℤ) (w : W)
      → volumes (c.attach_storage_iscsi_target_lun lun target w).1 ≡ volumes w
