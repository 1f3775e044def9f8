-- ===== src/Driver/Capabilities/Laws.antt =====
-- Which capabilities are free of violations.
use qnap_csi.Base.{
  ℕ, ◌≡◌, ◌≢◌, refl, ◌↔◌, true, List, [], ◌∷◌, Option, none, some, ◌++◌, arith, Text, lit, text_eq,
  text_eq_refl, FinSet, IsFinSet, contains, All,
}
use qnap_csi.Driver.Capabilities.{
  Modes, VolumeCapability, AccessType, no_access_type, block, mount, violations, add_type, add_mode,
  get_mode, validate_capabilities,
}

-- The one access mode, on a block device or a mount.
abbrev pub IsSupported : Modes → VolumeCapability → Type 0
IsSupported modes c =
    (c.access_mode ≡ some modes.single_node_writer) × (c.access_type ≢ no_access_type)

module _ (modes : Modes) (sets : FinSet text_eq) (L : IsFinSet sets) where
  to_list-insert : (a : Text) (s : sets.Carrier) → sets.to_list (sets.insert a s) ≢ []
  to_list-insert a s e =
      let found : contains text_eq (sets.to_list (sets.insert a s)) a ≡ true =
        rw (L.contains-to_list, L.has-insert, text_eq_refl) refl in
      absurd (cc (rw e at found))

  empty-add_type :
      (s : sets.Carrier) (t : AccessType)
      → (sets.to_list (add_type modes sets t s) ≡ [])
        ↔ ((sets.to_list s ≡ []) × (t ≢ no_access_type))
  unfolding add_type
  empty-add_type s no_access_type = ground (arith, to_list-insert (lit "unsupported access type") s)
  empty-add_type s block = ground arith
  empty-add_type s mount = ground arith

  empty-add_mode :
      (s : sets.Carrier) (m : ℕ)
      → (sets.to_list (add_mode modes sets m s) ≡ [])
        ↔ ((sets.to_list s ≡ []) × (m ≡ modes.single_node_writer))
  unfolding add_mode
  empty-add_mode s m =
      ground (arith, to_list-insert (lit "unsupported access mode " ++ modes.name m) s)

  module _ (distinct : modes.unknown ≢ modes.single_node_writer) where
    get_mode_iff :
        (o : Option ℕ)
        → (get_mode modes sets o ≡ modes.single_node_writer) ↔ (o ≡ some modes.single_node_writer)
    unfolding get_mode
    get_mode_iff none = ground arith
    get_mode_iff (some m) = ground arith

    empty-violations :
        (caps : List VolumeCapability) (s : sets.Carrier)
        → (sets.to_list (violations modes sets caps s) ≡ [])
          ↔ ((sets.to_list s ≡ []) × All (IsSupported modes) caps)
    unfolding violations
    empty-violations [] s = ground arith
    empty-violations (c ∷ caps) s =
        let s' = add_mode modes sets (get_mode modes sets c.access_mode) s in
        ground (
          arith,
          empty-violations caps (add_type modes sets c.access_type s'),
          empty-add_type s' c.access_type,
          empty-add_mode s (get_mode modes sets c.access_mode),
          get_mode_iff c.access_mode,
        )

    -- With any lawful set of texts, and modes of which the unknown one is not the single-node
    -- writer, validateCapabilities reports nothing exactly when each capability asks for the
    -- single-node writer and is a block device or a mount.
    pub validate_capabilities_iff :
        (caps : List VolumeCapability)
        → (validate_capabilities modes sets caps ≡ []) ↔ All (IsSupported modes) caps
    unfolding validate_capabilities
    validate_capabilities_iff caps =
        ground (arith, empty-violations caps sets.empty, L.to_list-empty)
