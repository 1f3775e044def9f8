-- ===== src/Driver/Node/Disk/Laws.antt =====
-- When there is a connector.
use mathlib.Core.Path.{subst}
use qnap_csi.Base.{
  ◌≡◌, ◌≢◌, refl, Bool, false, ◌||◌, none, List, Text, lit, is_blank, Bool-cases, inl, inr, Result,
  ok, err, arith,
}
use qnap_csi.Base.Int.{ℤ}
use qnap_csi.Go.Decimal.{atoi}
use qnap_csi.Qnap.Session.{◌>>=◌}
use qnap_csi.Driver.Node.Disk.{
  Json, Fields, Secrets, IscsiDisk, get, disk_of, complete, get_iscsi_info,
  NodePublishVolumeRequest, get_iscsi_disk_mounter, build_iscsi_connector, has_no_portals,
  parse_session_secret, parse_discovery_secret, parse_secret,
}

-- A disk is made of the four parts that can fail.
from_parts :
    (r₁ r₂ : Result Secrets) (r₃ : Result (List Text)) (r₄ : Result ℤ)
    (g : Secrets → Secrets → List Text → ℤ → IscsiDisk) (disk : IscsiDisk)
    → (r₁ >>= λ a. r₂ >>= λ b. r₃ >>= λ c. r₄ >>= λ d. ok (g a b c d)) ≡ ok disk
    → (a : Secrets) × (b : Secrets) × (c : List Text) × (d : ℤ) × (g a b c d ≡ disk)
from_parts (ok a) (ok b) (ok c) (ok d) g disk h = (a, b, c, d, cc h)
from_parts (ok a) (ok b) (ok c) (err e) g disk h = absurd (cc h)
from_parts (ok a) (ok b) (err e) r₄ g disk h = absurd (cc h)
from_parts (ok a) (err e) r₃ r₄ g disk h = absurd (cc h)
from_parts (err e) r₂ r₃ r₄ g disk h = absurd (cc h)

module _ (json : Json) (id : Text) (context : Fields) where
  disk_of-connector :
      (secret : Fields) (a b : Secrets) (c : List Text) (d : ℤ)
      → is_blank id ≡ false
      → is_blank (get context (lit "iqn")) ≡ false
      → build_iscsi_connector (disk_of id context secret a b c d) ≢ none
  unfolding build_iscsi_connector disk_of has_no_portals
  disk_of-connector secret a b c d named target = rw (named, target) (λ e. cc)

  -- A request with an id, from which a disk comes about, gives a connector.
  pub get_iscsi_info-connector :
      (disk : IscsiDisk)
      → is_blank id ≡ false
      → get_iscsi_info json id context ≡ ok disk
      → build_iscsi_connector disk ≢ none
  unfolding get_iscsi_info complete
  get_iscsi_info-connector disk named h = elim (Bool-cases missing) [
    | inl m ↦ absurd (cc (rw m at h))
    | inr m ↦
        let (a, b, c, d, e) =
          from_parts (parse_session_secret secret) (parse_discovery_secret secret)
            (json.string_list (get context (lit "portals"))) (atoi (get context (lit "lun")))
            (disk_of id context secret) disk (rw m at h) in
        subst (λ disk. build_iscsi_connector disk ≢ none) e
          (disk_of-connector secret a b c d named (ground (arith, m)))
  ]
    where
      secret : Fields
      secret = parse_secret json (get context (lit "secret"))

      missing : Bool
      missing =
          is_blank (get context (lit "targetPortal"))
          || is_blank (get context (lit "iqn"))
          || is_blank (get context (lit "lun"))

-- The connector of the mounter.
pub get_iscsi_disk_mounter-connector :
    (disk : IscsiDisk) (req : NodePublishVolumeRequest)
    → (get_iscsi_disk_mounter disk req).connector ≡ build_iscsi_connector disk
unfolding get_iscsi_disk_mounter
get_iscsi_disk_mounter-connector disk req = refl

pub get_iscsi_disk_mounter-target_path :
    (disk : IscsiDisk) (req : NodePublishVolumeRequest)
    → (get_iscsi_disk_mounter disk req).target_path ≡ req.target_path
unfolding get_iscsi_disk_mounter
get_iscsi_disk_mounter-target_path disk req = refl
