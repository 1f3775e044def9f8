-- ===== src/Driver/Node/Disk/Contexts.antt =====
-- The context that CreateVolume replies with, as getISCSIInfo reads it.
use qnap_csi.Base.{◌≡◌, refl, false, none, [], ◌∷◌, Text, lit, text_eq, is_blank, ok, arith}
use qnap_csi.Base.Int.{pos, int32_of}
use qnap_csi.Go.Decimal.{atoi, itoa, itoa_nat, atoi-itoa}
use qnap_csi.Driver.Config.{Config}
use qnap_csi.Driver.Create.{Plan, volume_of}
use qnap_csi.Driver.Node.Disk.{
  Json, Fields, no_secrets, lookup, get, or_empty, portal_mounter, disk_of, complete,
  get_iscsi_info, parse_secret, parse_session_secret, parse_discovery_secret, parse_secrets,
  int32_of_int,
}

zero_read : atoi (lit "0") ≡ ok (pos 0)
unfolding itoa itoa_nat lit
zero_read = atoi-itoa (pos 0) (omega arith, omega arith)

zero_given : is_blank (lit "0") ≡ false
unfolding is_blank lit
zero_given = refl

not_true : text_eq [] (lit "true") ≡ false
unfolding text_eq lit
not_true = refl

no_secret : (json : Json) → json.string_map [] ≡ none → parse_secret json [] ≡ []
unfolding parse_secret
no_secret json e = rw (parse_secret, e)

module _ (d : Config) (plan : Plan) (iqn : Text) where
  abbrev context : Fields
  context = (volume_of d plan iqn).volume_context

  get-context :
      (get context (lit "targetPortal") ≡ d.portal)
      × (get context (lit "iqn") ≡ iqn)
      × (get context (lit "lun") ≡ lit "0")
      × (get context (lit "portals") ≡ lit "[]")
      × (get context (lit "secret") ≡ [])
      × (get context (lit "iscsiInterface") ≡ [])
      × (get context (lit "initiatorName") ≡ [])
      × (get context (lit "discoveryCHAPAuth") ≡ [])
      × (get context (lit "sessionCHAPAuth") ≡ [])
  unfolding get lookup or_empty volume_of text_eq lit
  get-context = (refl, refl, refl, refl, refl, refl, refl, refl, refl)

  -- With a JSON decoder that reads "[]" as the empty list and refuses the empty text, a portal and
  -- an IQN that are not blank: getISCSIInfo takes the context that CreateVolume replies with, and
  -- finds the portal with its port, the IQN, LUN 0, and no secrets and no CHAP in it.
  pub volume_of-context :
      (json : Json) (id : Text)
      → json.string_list (lit "[]") ≡ ok []
      → json.string_map [] ≡ none
      → is_blank d.portal ≡ false
      → is_blank iqn ≡ false
      → get_iscsi_info json id (volume_of d plan iqn).volume_context
        ≡ ok (record {
          portals = portal_mounter d.portal ∷ [];
          iqn = iqn;
          lun = pos 0;
          iface = [];
          chap_discovery = false;
          chap_session = false;
          secret = [];
          session_secret = no_secrets;
          discovery_secret = no_secrets;
          initiator_name = [];
          vol_name = id;
        })
  unfolding get_iscsi_info complete disk_of parse_secret parse_session_secret parse_discovery_secret
      parse_secrets int32_of_int int32_of
  volume_of-context json id empty none_read portal_given iqn_given =
      let (e₁, e₂, e₃, e₄, e₅, e₆, e₇, e₈, e₉) = get-context in
      rw (
        e₁,
        e₂,
        e₃,
        e₄,
        e₅,
        e₆,
        e₇,
        e₈,
        e₉,
        portal_given,
        iqn_given,
        zero_given,
        not_true,
        no_secret json none_read,
        empty,
        zero_read,
      )
