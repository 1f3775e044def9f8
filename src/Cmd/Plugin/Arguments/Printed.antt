-- ===== src/Cmd/Plugin/Arguments/Printed.antt =====
-- The command line that gives every flag its value.
use qnap_csi.Base.{◌≡◌, refl, ◌∙◌, Bool, some, List, [], ◌∷◌, Text, lit, text_eq}
use qnap_csi.Base.Int.{ℤ, IsInt64}
use qnap_csi.Go.Decimal.{itoa}
use qnap_csi.Go.Literal.Printed.{bool_text, parse_int-itoa, parse_bool-bool_text}
use qnap_csi.Go.Flag.{text_flag, bool_flag, int_flag, parsed, parse}
use qnap_csi.Go.Flag.Named.{
  IsName, with_value, parse-text_flag, parse-bool_flag, parse-int_flag, parse-nil,
}
use qnap_csi.Cmd.Plugin.{Flags, Build, Process, default_flags, main}
use qnap_csi.Cmd.Plugin.Arguments.{formal, ended, with_flags, main_of_args}

text_field :
    (name value : Text) {set : Text → Flags → Flags} (args : List Text) (f : Flags)
    → IsName name × (formal name ≡ some (text_flag set))
    → parse formal (with_value name value ∷ args) f ≡ parse formal args (set value f)
text_field name value {set} args f (h, declared) =
    parse-text_flag formal name value set args f h declared

bool_field :
    (name : Text) (b : Bool) {set : Bool → Flags → Flags} (args : List Text) (f : Flags)
    → IsName name × (formal name ≡ some (bool_flag set))
    → parse formal (with_value name (bool_text b) ∷ args) f ≡ parse formal args (set b f)
bool_field name b {set} args f (h, declared) =
    parse-bool_flag formal name (bool_text b) b set args f h declared (parse_bool-bool_text b)

int_field :
    (name : Text) (z : ℤ) {set : ℤ → Flags → Flags} (args : List Text) (f : Flags)
    → IsInt64 z
    → IsName name × (formal name ≡ some (int_flag set))
    → parse formal (with_value name (itoa z) ∷ args) f ≡ parse formal args (set z f)
int_field name z {set} args f fits (h, declared) =
    parse-int_flag formal name (itoa z) z set args f h declared (parse_int-itoa z fits)

-- All flags, in the order of their declarations.
pub args_of : Flags → List Text
args_of f =
    with_value (lit "endpoint") f.endpoint
    ∷ with_value (lit "url") f.url
    ∷ with_value (lit "log-level") f.log_level
    ∷ with_value (lit "version") (bool_text f.version)
    ∷ with_value (lit "controller") (bool_text f.controller)
    ∷ with_value (lit "prefix") f.prefix
    ∷ with_value (lit "node-id") f.node_id
    ∷ with_value (lit "portal") f.portal
    ∷ with_value (lit "storage-pool-id") (itoa f.storage_pool_id)
    ∷ []

endpoint_declared :
    IsName (lit "endpoint")
    × (formal (lit "endpoint") ≡ some (text_flag (λ v f. record f { endpoint = v })))
unfolding formal lit text_eq
endpoint_declared = (refl, refl)

url_declared :
    IsName (lit "url") × (formal (lit "url") ≡ some (text_flag (λ v f. record f { url = v })))
unfolding formal lit text_eq
url_declared = (refl, refl)

log_level_declared :
    IsName (lit "log-level")
    × (formal (lit "log-level") ≡ some (text_flag (λ v f. record f { log_level = v })))
unfolding formal lit text_eq
log_level_declared = (refl, refl)

version_declared :
    IsName (lit "version")
    × (formal (lit "version") ≡ some (bool_flag (λ v f. record f { version = v })))
unfolding formal lit text_eq
version_declared = (refl, refl)

controller_declared :
    IsName (lit "controller")
    × (formal (lit "controller") ≡ some (bool_flag (λ v f. record f { controller = v })))
unfolding formal lit text_eq
controller_declared = (refl, refl)

prefix_declared :
    IsName (lit "prefix")
    × (formal (lit "prefix") ≡ some (text_flag (λ v f. record f { prefix = v })))
unfolding formal lit text_eq
prefix_declared = (refl, refl)

node_id_declared :
    IsName (lit "node-id")
    × (formal (lit "node-id") ≡ some (text_flag (λ v f. record f { node_id = v })))
unfolding formal lit text_eq
node_id_declared = (refl, refl)

portal_declared :
    IsName (lit "portal")
    × (formal (lit "portal") ≡ some (text_flag (λ v f. record f { portal = v })))
unfolding formal lit text_eq
portal_declared = (refl, refl)

storage_pool_id_declared :
    IsName (lit "storage-pool-id")
    × (formal (lit "storage-pool-id") ≡ some (int_flag (λ v f. record f { storage_pool_id = v })))
unfolding formal lit text_eq
storage_pool_id_declared = (refl, refl)

parse-args_of :
    (f : Flags) → IsInt64 f.storage_pool_id → parse formal (args_of f) default_flags ≡ parsed f
unfolding args_of
parse-args_of f fits =
    text_field _ _ _ _ endpoint_declared
    ∙ text_field _ _ _ _ url_declared
    ∙ text_field _ _ _ _ log_level_declared
    ∙ bool_field _ _ _ _ version_declared
    ∙ bool_field _ _ _ _ controller_declared
    ∙ text_field _ _ _ _ prefix_declared
    ∙ text_field _ _ _ _ node_id_declared
    ∙ text_field _ _ _ _ portal_declared
    ∙ int_field _ _ _ _ fits storage_pool_id_declared
    ∙ parse-nil formal f

-- A command line that gives every flag its value, each as -name=value, a Boolean as true or false and
-- the storage pool in decimal, starts main with these values, whatever texts they are, if the storage
-- pool's id fits an int64.
pub main_of_args-args_of :
    {W L : Type 0} (proc : Process W L) (build : Build) (f : Flags) (w : W)
    → IsInt64 f.storage_pool_id
    → main_of_args proc build (args_of f) w ≡ ended (main proc build f w)
unfolding main_of_args with_flags
main_of_args-args_of proc build f w fits = rw (parse-args_of f fits) refl
