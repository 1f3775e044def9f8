-- ===== src/Driver/Create/Valid.antt =====
-- The requests that CreateVolume does not refuse before its first call of the NAS.
use qnap_csi.Base.{ℕ, ◌≡◌, ◌≢◌, refl, false, some, List, [], ◌∷◌, is_blank}
use qnap_csi.Base.Int.{pos}
use qnap_csi.Name.{clean_iscsi_name}
use qnap_csi.Size.Laws.{Grants, extract_storage_iff}
use qnap_csi.Driver.Handler.{reply}
use qnap_csi.Driver.Capabilities.{VolumeCapability, validate_capabilities}
use qnap_csi.Driver.Config.{Libraries}
use qnap_csi.Driver.Create.{
  sized, check_size, check_violations, check_capabilities, CreateVolumeRequest, Plan, check_request,
}
use qnap_csi.Driver.Create.Replies.{Passes, check_request-Passes}
use mathlib.Core.Path.{subst}

-- The request passes the checks, and its capacity range stands for `n` bytes.
abbrev pub IsValid : Libraries → CreateVolumeRequest → ℕ → Type 0
IsValid libs req n =
    (is_blank req.name ≡ false)
    × ((cap : VolumeCapability) × (caps : List VolumeCapability) × (req.volume_capabilities
          ≡ some (cap ∷ caps))
        × (validate_capabilities libs.modes libs.strings (cap ∷ caps) ≡ []))
    × Grants req.capacity_range n

pub valid-check :
    (libs : Libraries) (req : CreateVolumeRequest) (n : ℕ)
    → IsValid libs req n
    → check_request libs req ≡ reply (record { name = clean_iscsi_name req.name; size = pos n })
unfolding check_request check_capabilities check_violations check_size sized
valid-check libs req n (given, (cap, caps, e, fine), granted) =
    rw (given, e, fine, (extract_storage_iff req.capacity_range (pos n)).1 (n, refl, granted))

-- And no other request passes them.
pub passed-IsValid :
    (libs : Libraries) (req : CreateVolumeRequest) (plan : Plan)
    → check_request libs req ≡ reply plan
    → ((n : ℕ) × IsValid libs req n) × (plan.name ≡ clean_iscsi_name req.name)
passed-IsValid libs req plan e =
    let (given, named, granted, (caps, asked, some_caps, fine)) : Passes libs req (reply plan) =
      subst (Passes libs req) e (check_request-Passes libs req) in
    let (n, _, g) = (extract_storage_iff req.capacity_range plan.size).0 granted in
    ((n, (given, split caps asked some_caps fine, g)), named)
  where
    split :
        (caps : List VolumeCapability)
        → req.volume_capabilities ≡ some caps
        → caps ≢ []
        → validate_capabilities libs.modes libs.strings caps ≡ []
        → (cap : VolumeCapability) × (caps : List VolumeCapability) × (req.volume_capabilities
            ≡ some (cap ∷ caps))
          × (validate_capabilities libs.modes libs.strings (cap ∷ caps) ≡ [])
    split [] asked some_caps fine = absurd (some_caps refl)
    split (cap ∷ caps) asked some_caps fine = (cap, caps, asked, fine)
