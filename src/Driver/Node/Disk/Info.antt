-- ===== src/Driver/Node/Disk/Info.antt =====
-- What getISCSIInfo makes of a volume context.
use mathlib.Core.Path.{subst}
use qnap_csi.Base.{
  ℕ, ◌+◌, ◌%◌, ◌^◌, ◌≤◌, ◌<◌, ◌≡◌, ◌⊎◌, refl, inl, inr, true, false, Bool-cases, List, [], ◌∷◌,
  ◌++◌, map, All, Text, lit, is_blank, Result, ok, err, arith,
}
use qnap_csi.Base.Int.{ℤ, pos, negsuc, pos_part, neg_part, int32_of}
use qnap_csi.Go.Decimal.{atoi}
use qnap_csi.Go.Strings.{contains_byte}
use qnap_csi.Driver.Node.Disk.{
  Json, Fields, IscsiDisk, get, portal_mounter, parse_secret, parse_session_secret,
  parse_discovery_secret, int32_of_int, disk_of, complete, get_iscsi_info,
}
use qnap_csi.Driver.Node.Disk.Chap.{
  bind_rule, SessionRead, DiscoveryRead, parse_session_secret-SessionRead,
  parse_discovery_secret-DiscoveryRead,
}

-- The values of an int32.
abbrev pub IsInt32 : ℤ → Type 0
IsInt32 z = (pos_part z < 2 ^ 31) × (neg_part z ≤ 2 ^ 31)

-- A 32-bit number that differs from the other by a multiple of 2 ^ 32.
abbrev pub WrapsTo : ℤ → ℤ → Type 0
WrapsTo l z = IsInt32 z × ((pos_part l + neg_part z) % 2 ^ 32 ≡ (pos_part z + neg_part l) % 2 ^ 32)

int32_of_int-WrapsTo : (l : ℤ) → WrapsTo l (int32_of_int l)
unfolding int32_of_int int32_of
int32_of_int-WrapsTo (pos n) = ground arith
int32_of_int-WrapsTo (negsuc n) = ground arith

abbrev pub HasPort : Text → Type 0
HasPort t = contains_byte t b':' ≡ true

contains_byte-append_right :
    (s t : Text) (c : ℕ) → contains_byte t c ≡ true → contains_byte (s ++ t) c ≡ true
unfolding contains_byte
contains_byte-append_right [] t c h = h
contains_byte-append_right (a ∷ s) t c h = ground (arith, contains_byte-append_right s t c h)

portal_mounter-HasPort : (t : Text) → HasPort (portal_mounter t)
unfolding portal_mounter
portal_mounter-HasPort t = elim (Bool-cases (contains_byte t b':')) [
  | inl h ↦ rw h h
  | inr h ↦ rw h (contains_byte-append_right t (lit ":3260") b':' default_port)
]
  where
    default_port : contains_byte (lit ":3260") b':' ≡ true
    default_port = unfold contains_byte lit in refl

All-HasPort : (ts : List Text) → All HasPort (map portal_mounter ts)
All-HasPort [] = tt
All-HasPort (t ∷ ts) = (portal_mounter-HasPort t, All-HasPort ts)

abbrev pub Fails : {A : Type 0} → Result A → Type 0
Fails r = (e : Text) × (r ≡ err e)

module _ (json : Json) (id : Text) (context : Fields) where
  abbrev pub secret_of : Fields
  secret_of = parse_secret json (get context (lit "secret"))

  -- Where it is, and which numbers and secrets it has.
  abbrev pub IsRead : IscsiDisk → Type 0
  IsRead disk =
      (disk.vol_name ≡ id)
      × (disk.iqn ≡ get context (lit "iqn"))
      × (is_blank disk.iqn ≡ false)
      × (is_blank (get context (lit "targetPortal")) ≡ false)
      × ((ps : List Text) × (json.string_list (get context (lit "portals")) ≡ ok ps)
          × (disk.portals ≡ map portal_mounter (get context (lit "targetPortal") ∷ ps)))
      × All HasPort disk.portals
      × ((l : ℤ) × (atoi (get context (lit "lun")) ≡ ok l) × WrapsTo l disk.lun)
      × SessionRead secret_of (ok disk.session_secret)
      × DiscoveryRead secret_of (ok disk.discovery_secret)

  -- Which part of the context is no good.
  abbrev pub IsUnreadable : Text → Type 0
  IsUnreadable e =
      (is_blank (get context (lit "targetPortal")) ≡ true)
      ⊎ (is_blank (get context (lit "iqn")) ≡ true)
      ⊎ (is_blank (get context (lit "lun")) ≡ true)
      ⊎ SessionRead secret_of (err e)
      ⊎ DiscoveryRead secret_of (err e)
      ⊎ Fails (json.string_list (get context (lit "portals")))
      ⊎ Fails (atoi (get context (lit "lun")))

  abbrev pub InfoRead : Result IscsiDisk → Type 0
  InfoRead (ok disk) = IsRead disk
  InfoRead (err e) = IsUnreadable e

  complete-InfoRead :
      is_blank (get context (lit "targetPortal")) ≡ false
      → is_blank (get context (lit "iqn")) ≡ false
      → InfoRead (complete json id context secret_of)
  unfolding complete disk_of
  complete-InfoRead portal target =
      bind_rule InfoRead (parse_session_secret secret_of) _
        (λ a ha.
          bind_rule InfoRead (parse_discovery_secret secret_of) _
            (λ b hb.
              bind_rule InfoRead (json.string_list (get context (lit "portals"))) _
                (λ ps hps.
                  bind_rule InfoRead (atoi (get context (lit "lun"))) _
                    (λ l hl. (
                      refl,
                      refl,
                      target,
                      portal,
                      (ps, hps, refl),
                      All-HasPort (get context (lit "targetPortal") ∷ ps),
                      (l, hl, int32_of_int-WrapsTo l),
                      subst (SessionRead secret_of) ha (parse_session_secret-SessionRead secret_of),
                      subst (DiscoveryRead secret_of) hb
                          (parse_discovery_secret-DiscoveryRead secret_of),
                    ))
                    (λ e h. inr (inr (inr (inr (inr (inr (e, h))))))))
                (λ e h. inr (inr (inr (inr (inr (inl (e, h))))))))
            (λ e h. inr (
              inr (
                inr (
                  inr (
                    inl (
                      subst (DiscoveryRead secret_of) h
                        (parse_discovery_secret-DiscoveryRead secret_of))))))))
        (λ e h. inr (
          inr (
            inr (
              inl (subst (SessionRead secret_of) h (parse_session_secret-SessionRead secret_of))))))

  -- The disk of getISCSIInfo has the id and the IQN of the request, which is not blank, the target
  -- portal and the listed ones, each with a port, the LUN as a number that wraps at 32 bits, and for
  -- the session and the discovery each either no secret, where the context has none, or a CHAP secret
  -- with the four texts of its keys. At an error one of these parts is missing or cannot be read, one
  -- of the eight keys included if there is a secret.
  pub get_iscsi_info-InfoRead : InfoRead (get_iscsi_info json id context)
  unfolding get_iscsi_info
  get_iscsi_info-InfoRead = elim (Bool-cases (is_blank (get context (lit "targetPortal")))) [
    | inl p ↦ rw p (inl p)
    | inr p ↦ elim (Bool-cases (is_blank (get context (lit "iqn")))) [
      | inl i ↦ rw (p, i) (inr (inl i))
      | inr i ↦ elim (Bool-cases (is_blank (get context (lit "lun")))) [
        | inl l ↦ rw (p, i, l) (inr (inr (inl l)))
        | inr l ↦ rw (p, i, l) (complete-InfoRead p i)
      ]
    ]
  ]
