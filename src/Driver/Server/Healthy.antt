-- ===== src/Driver/Server/Healthy.antt =====
-- Run on a host where no call fails.
use qnap_csi.Base.{
  ◌≡◌, refl, ◌⊎◌, inl, inr, true, none, some, ◌++◌, Text, lit, text_eq_iff, Result, ok, err,
}
use qnap_csi.Go.Path.{join_path, dir}
use qnap_csi.Qnap.Client.{Method}
use qnap_csi.Driver.Handler.{Succeeds}
use qnap_csi.Driver.Node.Attach.Order.{Finishes}
use qnap_csi.Driver.Node.Host.{Fault, ◌>>=◌, reword}
use qnap_csi.Driver.Server.{
  Os, Url, Running, address_of, run, bind, check_scheme, parse_endpoint, configure, set_ready,
  on_host, check_removed,
}

-- No call fails, but that the socket need not be there.
pub record Sound {W : Type 0} (os : Os W) : Type 0 where
  pub remove :
      (path : Text) (w : W)
      → ((os.remove path w).0 ≡ none)
        ⊎ ((fault : Fault) × ((os.remove path w).0 ≡ some fault) × (fault.is_not_exist ≡ true))
  pub mkdir_all : (path : Text) → Succeeds (os.mkdir_all path)
  pub listen : (network address : Text) → Succeeds (os.listen network address)

-- With a value.
abbrev Serves : {S A : Type 0} → Result A × S → Type 0
Serves = Finishes (λ _ _. Unit {0}) (λ _. ⊥)

Serves-bind :
    {S A B : Type 0} (m : Method S A) (f : A → Method S B) (s : S)
    → Succeeds m
    → ((a : A) → Serves (f a (m s).1))
    → Serves ((m >>= f) s)
Serves-bind m f s h k = let (a, e) = h s in rw e (k a)

Serves-ok : {S : Type 0} (r : Result (Unit {0}) × S) → Serves r → r.0 ≡ ok tt
Serves-ok (ok a, s) h = refl
Serves-ok (err e, s) h = absurd h

Succeeds-reword :
    {S A : Type 0} (f : Text → Text) (m : Method S A) → Succeeds m → Succeeds (reword f m)
Succeeds-reword f m h s = let (a, e) = h s in (a, rw e refl)

module _ {W : Type 0} (os : Os W) (sound : Sound os) where
  Succeeds-on_host : {A : Type 0} (m : Method W A) → Succeeds m → Succeeds (on_host os m)
  unfolding on_host
  Succeeds-on_host m h s = h s.host

  Succeeds-told :
      {A : Type 0} (f : Text → Text) (m : Method W A)
      → Succeeds m
      → Succeeds (reword f (on_host os m))
  Succeeds-told f m h = Succeeds-reword f (on_host os m) (Succeeds-on_host m h)

  Succeeds-remove :
      (path : Text)
      → Succeeds (on_host os (λ w. let (r, w') = os.remove path w in (check_removed path r, w')))
  unfolding on_host check_removed
  Succeeds-remove path s = elim (sound.remove path s.host) [
    | inl gone ↦ (tt, rw gone refl)
    | inr (fault, e, missing) ↦ (tt, rw (e, missing) refl)
  ]

  bind-Serves : (u : Url) (s : Running W) → Serves (bind os u s)
  unfolding bind configure set_ready
  bind-Serves u s =
      Serves-bind
        (on_host os (λ w.
          let (r, w') = os.remove (address_of os u) w in (check_removed (address_of os u) r, w')))
        _ s (Succeeds-remove (address_of os u))
        (λ _.
          Serves-bind
            (reword (λ e. lit "failed to make directories for sock, error: " ++ e)
              (on_host os (os.mkdir_all (dir u.path))))
            _ _ (Succeeds-told _ (os.mkdir_all (dir u.path)) (sound.mkdir_all (dir u.path)))
            (λ _.
              Serves-bind
                (reword (λ e. lit "failed to make directories for config, error: " ++ e)
                  (on_host os (os.mkdir_all (join_path (dir u.path) (lit "config")))))
                _ _
                (Succeeds-told _ (os.mkdir_all (join_path (dir u.path) (lit "config")))
                  (sound.mkdir_all (join_path (dir u.path) (lit "config"))))
                (λ _.
                  Serves-bind
                    (reword (λ e. lit "failed to listen: " ++ e)
                      (on_host os (os.listen u.scheme (address_of os u))))
                    _ _
                    (Succeeds-told _ (os.listen u.scheme (address_of os u))
                      (sound.listen u.scheme (address_of os u)))
                    (λ _. tt))))

  -- On a host where no call fails, but that the socket need not be there yet, Run of a driver whose
  -- endpoint is a URL of the scheme unix gets to serve.
  pub run_serves :
      (s : Running W) (u : Url)
      → os.parse_url s.server.endpoint ≡ ok u
      → u.scheme ≡ lit "unix"
      → (run os s).0 ≡ ok tt
  unfolding run parse_endpoint check_scheme
  run_serves s u parsed unix =
      rw (parsed, (text_eq_iff u.scheme (lit "unix")).1 unix)
        (Serves-ok (bind os u s) (bind-Serves u s))
