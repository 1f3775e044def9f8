-- ===== src/Qnap/Session/Exchange.antt =====
-- What an exchange with the NAS must be for a method of the client to succeed.
use qnap_csi.Base.{
  Bool, true, false, if◌then◌else◌, ◌≡◌, refl, Text, Result, ok, err, Yields, arith,
}
use qnap_csi.Go.Url.{Values}
use qnap_csi.Go.Xml.{Element}
use qnap_csi.Qnap.Client.{Method}
use qnap_csi.Qnap.Session.{
  Request, Response, Network, Session, exchange, checked, request_of, ◌>>=◌,
}

-- A success of a chain is one of both its steps.
pub bind-ok :
    {A B : Type 0} (r : Result A) (f : A → Result B) (b : B)
    → (r >>= f) ≡ ok b
    → (a : A) × (r ≡ ok a) × (f a ≡ ok b)
bind-ok (ok a) f b h = (a, refl, h)
bind-ok (err e) f b h = absurd (cc h)

-- So is one past an error exit.
pub guard-ok :
    {A : Type 0} (b : Bool) (message : Text) (a c : A)
    → (if b then err message else ok a) ≡ ok c
    → (b ≡ false) × (a ≡ c)
guard-ok true message a c h = absurd (cc h)
guard-ok false message a c h = (refl, cc h)

pub bind-guard :
    {A B : Type 0} (r : Result A) (b : A → Bool) (message : Text) (f : A → B) (c : B)
    → (r >>= λ a. if b a then err message else ok (f a)) ≡ ok c
    → (a : A) × (r ≡ ok a) × (b a ≡ false) × (f a ≡ c)
bind-guard r b message f c h =
    let (a, hr, ha) = bind-ok r (λ a. if b a then err message else ok (f a)) c h in
    let (hb, hf) = guard-ok (b a) message (f a) c ha in (a, hr, hb, hf)

module _ {W : Type 0} (net : Network W) where
  -- The request is answered with the status code 200 and a document that is as `P` says.
  abbrev pub Answered : {A : Type 0} → (Element → A → Type 0) → Request → W → A → Type 0
  Answered P req w a =
      (r : Response) × (e : Element) × ((net.post req w).0 ≡ ok r)
      × (r.status_code ≡ 200)
      × (net.parse_xml r.body ≡ ok e)
      × P e a

  -- The method does one request, which carries the session id, keeps that id, and succeeds only
  -- where the answer has the status code 200 and a document that is as `P` says. But for the id the
  -- request is always the same.
  unfoldable pub Obeys : {A : Type 0} → (Element → A → Type 0) → Method (Session W) A → Type 0
  Obeys {A} P m =
      (endpoint : Text) × (params : Values) × (form : Values) × ((s : Session W)
        → ((m s).1.sid ≡ s.sid)
          × ((net.post (request_of endpoint s.sid params form) s.world).1 ≡ (m s).1.world)
          × Yields (Answered P (request_of endpoint s.sid params form) s.world) (λ _. Unit) (m s).0)

  checked_lem :
      (r : Response) (e : Element)
      → checked net r ≡ ok e
      → (r.status_code ≡ 200) × (net.parse_xml r.body ≡ ok e)
  unfolding checked
  checked_lem r e h = ground arith

  -- A success of an exchange is one of the request, of the document and of what is made of it.
  pub exchange-ok :
      {A : Type 0} (req : Request) (f : Element → Result A) (s : Session W) (a : A)
      → (exchange net req f s).0 ≡ ok a
      → (r : Response) × (e : Element) × ((net.post req s.world).0 ≡ ok r)
        × (r.status_code ≡ 200)
        × (net.parse_xml r.body ≡ ok e)
        × (f e ≡ ok a)
  unfolding exchange
  exchange-ok req f s a h =
      let (e, he, hfe) = bind-ok _ f a h in
      let (r, hr, hc) = bind-ok _ (checked net) e he in
      let (h200, hp) = checked_lem r e hc in (r, e, hr, h200, hp, hfe)

  pub exchange-Obeys :
      {A : Type 0} (P : Element → A → Type 0) (endpoint : Text) (params form : Values)
      (f : Element → Result A)
      → ((e : Element) (a : A) → f e ≡ ok a → P e a)
      → Obeys P (λ s. exchange net (request_of endpoint s.sid params form) f s)
  unfolding Obeys exchange
  exchange-Obeys {A} P endpoint params form f hf = (
    endpoint,
    params,
    form,
    λ s. (refl, refl, yields s (exchange net (request_of endpoint s.sid params form) f s).0 refl),
  )
    where
      yields :
          (s : Session W) (x : Result A)
          → (exchange net (request_of endpoint s.sid params form) f s).0 ≡ x
          → Yields (Answered P (request_of endpoint s.sid params form) s.world) (λ _. Unit) x
      yields s (ok a) h =
          let (r, e, hr, h200, hp, hfe) =
            exchange-ok (request_of endpoint s.sid params form) f s a h in
          (r, e, hr, h200, hp, hf e a hfe)
      yields s (err message) h = tt
