-- ===== src/Driver/Server/Serving/Readiness.antt =====
-- When Probe says that the driver is ready, while it serves and while it stops.
use mathlib.Core.Path.{subst}
use qnap_csi.Base.{
  ◌≡◌, ◌≢◌, refl, sym, ap, ◌∙◌, ◌⊎◌, inl, inr, Bool-cases, Bool, true, false, not, none, some, ok,
  err, Result,
}
use qnap_csi.Driver.Identity.{probe}
use qnap_csi.Driver.Node.Attach.Order.{Finishes}
use qnap_csi.Driver.Server.{Server, Os, Running, run}
use qnap_csi.Driver.Server.Ready.{IsReady, IsNotReady, run-ready}
use qnap_csi.Driver.Server.Serving.{
  Grpc, Serving, Main, spawning, calling, serving, returned, Watcher, absent, waiting, woken, unset,
  stopping, begin, caught, unready, stop, Step, cancel, move, spawn, call, return, wake,
  unset_ready, call_stop, Steps, here, later,
}

-- What the driver relies on the gRPC server for: whether GracefulStop has been called is a matter
-- of that call only, and Serve returns without an error only behind it.
pub record GrpcContract {G : Type 0} (g : Grpc G) : Type 0 where
  pub is_asked : G → Bool
  pub new_server : is_asked g.new_server ≡ false
  pub graceful_stop : (x : G) → is_asked (g.graceful_stop x) ≡ true
  pub serve : (x : G) → is_asked (g.serve x) ≡ is_asked x
  pub moves : (x y : G) → g.Moves x y → is_asked y ≡ is_asked x
  pub returns : (x : G) → g.Returns x none → is_asked x ≡ true

-- The watcher is behind `d.setReady(false)`.
abbrev pub is_unset : Watcher → Bool
is_unset absent = false
is_unset waiting = false
is_unset woken = false
is_unset unset = true
is_unset stopping = true

-- The watcher has seen the context cancelled.
abbrev is_woken : Watcher → Bool
is_woken absent = false
is_woken waiting = false
is_woken woken = true
is_woken unset = true
is_woken stopping = true

-- What Probe answers.
abbrev pub Answers : {G : Type 0} → Bool → Serving G → Type 0
Answers b s = probe s.server.ready ≡ b

module _ {G : Type 0} (g : Grpc G) (K : GrpcContract g) where
  pub record Inv (s : Serving G) : Type 0 where
    pub readiness : s.server.ready ≡ not (is_unset s.watcher)
    signal : is_woken s.watcher ≡ true → s.cancelled ≡ true
    asked : K.is_asked s.grpc ≡ true → s.watcher ≡ stopping
    answered : s.main ≡ returned none → s.watcher ≡ stopping
    first : s.main ≡ spawning → s.watcher ≡ absent
    pub awaited : s.watcher ≡ absent → s.main ≡ spawning
    pub told : s.watcher ≡ stopping → K.is_asked s.grpc ≡ true

  begin-Inv : (server : Server) → server.ready ≡ true → Inv (begin g server)
  unfolding begin
  begin-Inv server ready = record {
    readiness = ready;
    signal = λ e. absurd (cc e);
    asked = λ e. absurd (cc (e, K.new_server));
    answered = λ e. absurd (cc e);
    first = λ _. refl;
    awaited = λ _. refl;
    told = λ e. absurd (cc e);
  }

  Step-Inv : {s t : Serving G} → Step g s t → Inv s → Inv t
  unfolding caught unready stop
  Step-Inv {s} cancel v = record {
    readiness = v.readiness;
    signal = λ _. refl;
    asked = v.asked;
    answered = v.answered;
    first = v.first;
    awaited = v.awaited;
    told = v.told;
  }
  Step-Inv {s} (move t moved) v = record {
    readiness = v.readiness;
    signal = v.signal;
    asked = λ e. v.asked (sym (K.moves s.grpc t moved) ∙ e);
    answered = v.answered;
    first = v.first;
    awaited = v.awaited;
    told = λ e. K.moves s.grpc t moved ∙ v.told e;
  }
  Step-Inv {s} (spawn at) v =
      let new : s.watcher ≡ absent = v.first at in
      record {
        readiness = rw new at v.readiness;
        signal = λ e. absurd (cc e);
        asked = λ e. absurd (cc (v.asked e, new));
        answered = λ e. absurd (cc e);
        first = λ e. absurd (cc e);
        awaited = λ e. absurd (cc e);
        told = λ e. absurd (cc e);
      }
  Step-Inv {s} (call at) v = record {
    readiness = v.readiness;
    signal = v.signal;
    asked = λ e. v.asked (sym (K.serve s.grpc) ∙ e);
    answered = λ e. absurd (cc e);
    first = λ e. absurd (cc e);
    awaited = λ e. absurd (cc (v.awaited e, at));
    told = λ e. K.serve s.grpc ∙ v.told e;
  }
  Step-Inv {s} (return e at given) v = record {
    readiness = v.readiness;
    signal = v.signal;
    asked = v.asked;
    answered = λ q. v.asked (K.returns s.grpc (subst (λ o. g.Returns s.grpc o) (cc q) given));
    first = λ q. absurd (cc q);
    awaited = λ e. absurd (cc (v.awaited e, at));
    told = v.told;
  }
  Step-Inv {s} (wake at seen) v = record {
    readiness = rw at at v.readiness;
    signal = λ _. seen;
    asked = λ e. absurd (cc (v.asked e, at));
    answered = λ e. absurd (cc (v.answered e, at));
    first = λ e. absurd (cc (v.first e, at));
    awaited = λ e. absurd (cc e);
    told = λ e. absurd (cc e);
  }
  Step-Inv {s} (unset_ready at) v = record {
    readiness = refl;
    signal = λ _. v.signal (rw at refl);
    asked = λ e. absurd (cc (v.asked e, at));
    answered = λ e. absurd (cc (v.answered e, at));
    first = λ e. absurd (cc (v.first e, at));
    awaited = λ e. absurd (cc e);
    told = λ e. absurd (cc e);
  }
  Step-Inv {s} (call_stop at) v = record {
    readiness = rw at at v.readiness;
    signal = λ _. v.signal (rw at refl);
    asked = λ _. refl;
    answered = λ _. refl;
    first = λ e. absurd (cc (v.first e, at));
    awaited = λ e. absurd (cc e);
    told = λ _. K.graceful_stop s.grpc;
  }

  pub Steps-Inv : {s t : Serving G} → Inv s → Steps g s t → Inv t
  Steps-Inv v here = v
  Steps-Inv v (later r st) = Step-Inv st (Steps-Inv v r)

  run-Ready :
      {W : Type 0} (os : Os W) (s : Running W)
      → s.server.ready ≡ false
      → (run os s).0 ≡ ok tt
      → (run os s).1.server.ready ≡ true
  unfolding probe
  run-Ready os s new served = go (run os s) (run-ready os s new) served
    where
      go :
          (r : Result (Unit {0}) × Running _)
          → Finishes (IsReady os s.server.endpoint) (IsNotReady os) r
          → r.0 ≡ ok tt
          → r.1.server.ready ≡ true
      go (ok _, t) h e = h.0
      go (err message, t) h e = absurd (cc e)

  pub reached-Inv :
      {W : Type 0} (os : Os W) (s : Running W) {t : Serving G}
      → s.server.ready ≡ false
      → (run os s).0 ≡ ok tt
      → Steps g (begin g (run os s).1.server) t
      → Inv t
  reached-Inv os s new served r =
      Steps-Inv (begin-Inv (run os s).1.server (run-Ready os s new served)) r

  stopped : (t : Serving G) → Inv t → t.watcher ≡ stopping → (t.cancelled ≡ true) × Answers false t
  unfolding probe
  stopped t v at = (v.signal (rw at refl), rw at at v.readiness)

  ready_before : (t : Serving G) → Inv t → t.cancelled ≡ false → Answers true t
  unfolding probe
  ready_before t v uncancelled = go t.watcher refl
    where
      seen : {w : Watcher} → t.watcher ≡ w → is_woken w ≡ true → ⊥
      seen at woke = absurd (cc (v.signal (ap is_woken at ∙ woke), uncancelled))

      go : (w : Watcher) → t.watcher ≡ w → t.server.ready ≡ true
      go absent at = rw at at v.readiness
      go waiting at = rw at at v.readiness
      go woken at = rw at at v.readiness
      go unset at = absurd (seen at refl)
      go stopping at = absurd (seen at refl)

  returned-none : (m : Main) → (m ≢ returned none) ⊎ (m ≡ returned none)
  returned-none spawning = inl (λ e. cc e)
  returned-none calling = inl (λ e. cc e)
  returned-none serving = inl (λ e. cc e)
  returned-none (returned none) = inr refl
  returned-none (returned (some e)) = inl (λ q. cc q)

  -- Once Run has got to serve, in whatever order the two goroutines, the gRPC server and the signal
  -- move: until the context is cancelled Probe answers that the driver is ready; when the gRPC
  -- server has been asked to stop, and when Run has returned without an error, the context is
  -- cancelled and Probe answers that the driver is not ready.
  pub serving-ready :
      {W : Type 0} (os : Os W) (s : Running W) (t : Serving G)
      → s.server.ready ≡ false
      → (run os s).0 ≡ ok tt
      → Steps g (begin g (run os s).1.server) t
      → ((t.cancelled ≡ true) ⊎ Answers true t)
        × ((K.is_asked t.grpc ≡ false) ⊎ ((t.cancelled ≡ true) × Answers false t))
        × ((t.main ≢ returned none) ⊎ ((t.cancelled ≡ true) × Answers false t))
  serving-ready os s t new served r =
      let v : Inv t = reached-Inv os s new served r in
      (
        elim (Bool-cases t.cancelled) [ inl e ↦ inl e | inr e ↦ inr (ready_before t v e) ],
        elim (Bool-cases (K.is_asked t.grpc)) [
          | inl e ↦ inr (stopped t v (v.asked e))
          | inr e ↦ inl e
        ],
        elim (returned-none t.main) [ inl n ↦ inl n | inr e ↦ inr (stopped t v (v.answered e)) ],
      )
