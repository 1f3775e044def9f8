-- ===== src/Qnap/Session/Login.antt =====
-- What Login makes of the session.
use qnap_csi.Base.{
  ◌≡◌, refl, not, [], ◌∷◌, Text, lit, text_eq, text_eq_iff, Result, ok, err, Yields, arith,
}
use qnap_csi.Go.Url.{encode_values}
use qnap_csi.Go.Xml.{Element, string_at}
use qnap_csi.Qnap.Session.{
  Request, Network, Account, Session, exchange, session_of, keep_sid, login,
}
use qnap_csi.Qnap.Session.Exchange.{guard-ok, exchange-ok, Answered}

session_of_lem :
    {W : Type 0} (net : Network W) (e : Element) (sid : Text)
    → session_of net e ≡ ok sid
    → (string_at (lit "authPassed" ∷ []) e ≡ lit "1") × (string_at (lit "authSid" ∷ []) e ≡ sid)
unfolding session_of
session_of_lem net e sid h =
    let (passed, named) =
      guard-ok (not (text_eq (string_at (lit "authPassed" ∷ []) e) (lit "1")))
        (lit "invalid username or password") (string_at (lit "authSid" ∷ []) e) sid h in
    (
      (text_eq_iff (string_at (lit "authPassed" ∷ []) e) (lit "1")).0 (ground (arith, passed)),
      named,
    )

module _ {W : Type 0} (net : Network W) (a : Account) where
  -- The user and the encoded password, at the endpoint of logins.
  abbrev pub login_request : Request
  login_request = record {
    endpoint = a.login_endpoint;
    query = [];
    body = encode_values ((lit "user", a.username) ∷ (lit "pwd", a.password) ∷ []);
  }

  -- The answer to the login request lets the user in, with this session id.
  abbrev pub LetIn : W → Text → Type 0
  LetIn w sid =
      Answered net
        (λ e id.
          (string_at (lit "authPassed" ∷ []) e ≡ lit "1") × (string_at (lit "authSid" ∷ []) e ≡ id))
        login_request w sid

  -- Login keeps the session id when it fails. When it succeeds, the answer to the user and the
  -- encoded password at the login endpoint has the status code 200 and a readable document whose
  -- authPassed is "1", and its authSid is the new session id.
  pub login_lem :
      (s : Session W)
      → Yields
          (λ _. LetIn s.world (login net a s).1.sid)
          (λ _. (login net a s).1.sid ≡ s.sid)
          (login net a s).0
  unfolding login keep_sid exchange
  login_lem s = go (exchange net login_request (session_of net) s).0 refl
    where
      after : Session W
      after = (exchange net login_request (session_of net) s).1

      go :
          (r : Result Text)
          → (exchange net login_request (session_of net) s).0 ≡ r
          → Yields
              (λ _. LetIn s.world (keep_sid net r after).1.sid)
              (λ _. (keep_sid net r after).1.sid ≡ s.sid)
              (keep_sid net r after).0
      go (ok sid) h =
          let (r, e, hr, h200, hp, hs) = exchange-ok net login_request (session_of net) s sid h in
          (r, e, hr, h200, hp, session_of_lem net e sid hs)
      go (err message) h = refl
