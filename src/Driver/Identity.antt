-- ===== src/Driver/Identity.antt =====
-- The identity service: driver/identity.go.
use qnap_csi.Base.{Bool, List, [], ◌∷◌, Text}
use qnap_csi.Driver.Config.{Config}

pub record PluginInfo : Type 0 where
  pub name : Text
  pub vendor_version : Text

pub get_plugin_info : Config → PluginInfo
get_plugin_info d = record { name = d.name; vendor_version = d.version }

pub data PluginCapability : Type 0 where
  controller_service volume_accessibility_constraints unknown_expansion : PluginCapability

pub get_plugin_capabilities : List PluginCapability
get_plugin_capabilities =
    controller_service ∷ volume_accessibility_constraints ∷ unknown_expansion ∷ []

-- What Probe answers of the driver's field `ready`.
unfoldable pub probe : Bool → Bool
probe ready = ready
