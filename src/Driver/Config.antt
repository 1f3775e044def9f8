-- ===== src/Driver/Config.antt =====
-- The fields of the struct Driver of driver/driver.go that the services read, and the libraries
-- that they call.
use qnap_csi.Base.{Text, text_eq, FinSet}
use qnap_csi.Base.Int.{ℤ, eq_ℤ}
use qnap_csi.Driver.Capabilities.{Modes}

pub record Config : Type 0 where
  pub name : Text
  pub version : Text
  pub storage_pool_id : ℤ
  pub node_id : Text
  pub portal : Text
  pub config_dir : Text

pub record Libraries : Type 1 where
  pub modes : Modes
  pub strings : FinSet text_eq
  pub ints : FinSet eq_ℤ
