-- ===== src/Driver/Node/Attach/Release.antt =====
-- The order in which DetachDisk changes the host.
use qnap_csi.Base.{
  ◌≡◌, refl, ◌⊎◌, inl, inr, Bool-cases, List, [], ◌∷◌, ◌++◌, onto, Text, lit, Result, ok, err,
}
use qnap_csi.Base.Int.{ℤ, pos, eq_ℤ}
use qnap_csi.Driver.Node.Disk.{Connector, IscsiDiskUnmounter}
use qnap_csi.Driver.Node.Host.{
  Host, Change, unmounted, volume_disconnected, disconnected, tree_removed, file_removed, recorded,
  Loaded, found, faulty, reword,
}
use qnap_csi.Driver.Node.Attach.{detach_disk, release_loaded, release, close, remove_tree, less_one}
use qnap_csi.Driver.Node.Attach.Order.{Finishes, Finishes-bind}

-- All the changes of DetachDisk.
abbrev pub detach_plan : Connector → Text → Text → List Change
detach_plan c target_path info_path =
    unmounted target_path
    ∷ volume_disconnected c
    ∷ disconnected c.target_iqn c.target_portals
    ∷ tree_removed target_path
    ∷ file_removed info_path
    ∷ []

module _ {W : Type 0} (h : Host W) (target_path info_path : Text) (old : List Change) where
  abbrev Log : Type 0
  Log = W × List Change

  -- Nothing, the mount only, or all of it.
  abbrev pub Detached : Unit {0} → Log → Type 0
  Detached _ s =
      (s.1 ≡ old)
      ⊎ ((s.1 ≡ unmounted target_path ∷ old)
          ⊎ ((c : Connector) × (s.1 ≡ onto (detach_plan c target_path info_path) old)))

  -- A beginning of it.
  abbrev pub Begun : Log → Type 0
  Begun s =
      (s.1 ≡ old)
      ⊎ ((c : Connector) × (done : List Change) × (rest : List Change) × (detach_plan c target_path
              info_path
            ≡ done ++ rest)
          × (s.1 ≡ onto done old))

  close-Finishes :
      (c : Connector) (w : W)
      → Finishes Detached Begun
          (close (recorded h) c target_path info_path (w, unmounted target_path ∷ old))
  unfolding close remove_tree
  close-Finishes c w =
      Finishes-bind Detached Begun ((recorded h).disconnect_volume c) _
        (w, unmounted target_path ∷ old)
        (λ _ _. closed (
          h.remove info_path
            (h.remove_all target_path
              (h.disconnect c.target_iqn c.target_portals (h.disconnect_volume c w).1)).1))
        (inr (
          c,
          unmounted target_path ∷ volume_disconnected c ∷ [],
          disconnected c.target_iqn c.target_portals
              ∷ tree_removed target_path
              ∷ file_removed info_path
              ∷ [],
          refl,
          refl,
        ))
    where
      closed :
          (r : Result (Unit {0}) × W)
          → Finishes Detached Begun (r.0, (r.1, onto (detach_plan c target_path info_path) old))
      closed (ok _, w') = inr (inr (c, refl))
      closed (err e, w') = inr (c, detach_plan c target_path info_path, [], refl, refl)

  release-Finishes :
      (c : Connector) (count : ℤ) (w : W)
      → Finishes Detached Begun (release (recorded h) c target_path info_path count (w, old))
  unfolding release
  release-Finishes c count w =
      Finishes-bind Detached Begun ((recorded h).unmount target_path) _ (w, old)
        (λ _ _. elim (Bool-cases (eq_ℤ (less_one count) (pos 0))) [
          | inl last ↦ rw last (close-Finishes c (h.unmount target_path w).1)
          | inr in_use ↦ rw in_use (inr (inl refl))
        ])
        (inr (
          c,
          unmounted target_path ∷ [],
          volume_disconnected c
              ∷ disconnected c.target_iqn c.target_portals
              ∷ tree_removed target_path
              ∷ file_removed info_path
              ∷ [],
          refl,
          refl,
        ))

  loaded-Finishes :
      (loaded : Loaded) (count : ℤ) (w : W)
      → Finishes Detached Begun
          (release_loaded (recorded h) loaded target_path info_path count (w, old))
  unfolding release_loaded
  loaded-Finishes (found c) count w = release-Finishes c count w
  loaded-Finishes (faulty fault) count w = elim (Bool-cases fault.is_not_exist) [
    | inl gone ↦ rw gone (inl refl)
    | inr other ↦ rw other (inl refl)
  ]

  -- At a value DetachDisk has asked the host for nothing, or to unmount the target path, or to
  -- unmount it, to disconnect the volume and the target, to remove the path and then the file of
  -- the connector, in this order; at an error for a beginning of these.
  pub detach_disk-Finishes :
      (u : IscsiDiskUnmounter) (w : W)
      → Finishes Detached Begun (detach_disk (recorded h) u target_path info_path (w, old))
  unfolding detach_disk
  detach_disk-Finishes u w =
      Finishes-bind Detached Begun ((recorded h).mount_count target_path) _ (w, old)
        (λ count _.
          Finishes-bind Detached Begun
            (reword (λ e. lit "error checking if path exists: " ++ e)
              ((recorded h).path_exists target_path))
            _ _
            (λ there _. elim (Bool-cases there) [
              | inl present ↦ rw present (
                  loaded-Finishes
                    (h.get_connector_from_file info_path
                      (h.path_exists target_path (h.mount_count target_path w).1).1).0
                    count
                    (h.get_connector_from_file info_path
                      (h.path_exists target_path (h.mount_count target_path w).1).1).1)
              | inr gone ↦ rw gone (inl refl)
            ])
            (inl refl))
        (inl refl)
