-- ===== src/Driver/Capabilities.antt =====
-- validateCapabilities of driver/controller.go. The enumeration of access modes and the names of
-- its members come from the CSI library.
pub mod Laws
use qnap_csi.Base.{
  ℕ, Bool, not, List, [], ◌∷◌, Option, none, some, ◌++◌, Text, lit, text_eq, ◌==◌, FinSet,
  if◌then◌else◌,
}

pub record Modes : Type 0 where
  pub unknown : ℕ
  pub single_node_writer : ℕ
  pub name : ℕ → Text

abbrev pub supported_access_mode : Modes → ℕ
supported_access_mode modes = modes.single_node_writer

pub data AccessType : Type 0 where
  no_access_type block mount : AccessType

pub record VolumeCapability : Type 0 where
  pub access_mode : Option ℕ
  pub access_type : AccessType

module _ (modes : Modes) (sets : FinSet text_eq) where
  -- GetAccessMode().GetMode()
  get_mode : Option ℕ → ℕ
  get_mode none = modes.unknown
  get_mode (some m) = m

  add_mode : ℕ → sets.Carrier → sets.Carrier
  add_mode m s =
      if not (m == supported_access_mode modes)
      then sets.insert (lit "unsupported access mode " ++ modes.name m) s
      else s

  add_type : AccessType → sets.Carrier → sets.Carrier
  add_type block s = s
  add_type mount s = s
  add_type no_access_type s = sets.insert (lit "unsupported access type") s

  violations : List VolumeCapability → sets.Carrier → sets.Carrier
  violations [] s = s
  violations (c ∷ caps) s =
      violations caps (add_type c.access_type (add_mode (get_mode c.access_mode) s))

  unfoldable pub validate_capabilities : List VolumeCapability → List Text
  unfolding violations add_type add_mode get_mode
  validate_capabilities caps = sets.to_list (violations caps sets.empty)
