-- ===== src/Qnap/Session.antt =====
-- The state of qnap.Client and its HTTP exchange: NewClient, postFormReq, getSid and Login.
-- The network with the NAS behind it is `post`, and `parse_xml` the tokenizer of encoding/xml.
pub mod Exchange
pub mod Login
use qnap_csi.Base.{
  ℕ, not, ◌++◌, List, [], ◌∷◌, Text, lit, text_eq, Result, ok, err, ◌==◌, if◌then◌else◌,
}
use qnap_csi.Go.Url.{Values, encode_values}
use qnap_csi.Go.Xml.{Element, string_at}
use qnap_csi.Go.Base64.{encode}
use qnap_csi.Go.Strings.{trim_right}
use qnap_csi.Qnap.Client.{Method}

-- addParamsToURL gives the endpoint with the encoded parameters as its query.
pub record Request : Type 0 where
  pub endpoint : Text
  pub query : Text
  pub body : Text

-- addParamsToURL of the parameters, behind the session id, and the encoded form.
pub request_of : Text → Text → Values → Values → Request
request_of endpoint sid params form = record {
  endpoint = endpoint;
  query = encode_values ((lit "sid", sid) ∷ params);
  body = encode_values form;
}

pub record Response : Type 0 where
  pub status_code : ℕ
  pub body : Text

pub record Network (W : Type 0) : Type 0 where
  pub post : Request → Method W Response
  pub parse_xml : Text → Result Element

-- The fields of qnap.Client that never change.
pub record Account : Type 0 where
  pub login_endpoint : Text
  pub disk_manage_endpoint : Text
  pub iscsi_portal_endpoint : Text
  pub iscsi_target_settings_endpoint : Text
  pub iscsi_lun_settings_endpoint : Text
  pub username : Text
  pub password : Text

-- NewClient, for a URL that url.Parse accepts.
pub new_client : Text → Text → Text → Account
new_client username password url =
    let base = trim_right url b'/' in
    record {
      login_endpoint = base ++ lit "/cgi-bin/authLogin.cgi";
      disk_manage_endpoint = base ++ lit "/cgi-bin/disk/disk_manage.cgi";
      iscsi_portal_endpoint = base ++ lit "/cgi-bin/disk/iscsi_portal_setting.cgi";
      iscsi_target_settings_endpoint = base ++ lit "/cgi-bin/disk/iscsi_target_setting.cgi";
      iscsi_lun_settings_endpoint = base ++ lit "/cgi-bin/disk/iscsi_lun_setting.cgi";
      username = username;
      password = encode password;
    }

-- The world with the session id that the client keeps.
pub record Session (W : Type 0) : Type 0 where
  pub world : W
  pub sid : Text

-- `if err != nil { return err }`
infixl 5 ◌>>=◌
abbrev pub ◌>>=◌ : {A B : Type 0} → Result A → (A → Result B) → Result B
ok a >>= f = f a
err e >>= f = err e

module _ {W : Type 0} (net : Network W) where
  checked : Response → Result Element
  checked r =
      if not (r.status_code == 200) then err (lit "status code not 200") else net.parse_xml r.body

  -- A request and what is made of the answer to it.
  pub exchange : {A : Type 0} → Request → (Element → Result A) → Method (Session W) A
  exchange req f s =
      let (r, w) = net.post req s.world in (r >>= checked >>= f, record { world = w; sid = s.sid })

  -- The answer to Login: the new session id.
  session_of : Element → Result Text
  session_of e =
      if not (text_eq (string_at (lit "authPassed" ∷ []) e) (lit "1"))
      then err (lit "invalid username or password")
      else ok (string_at (lit "authSid" ∷ []) e)

  keep_sid : Result Text → Session W → Result (Unit {0}) × Session W
  keep_sid (ok sid) s = (ok tt, record s { sid = sid })
  keep_sid (err e) s = (err e, s)

  pub login : Account → Method (Session W) (Unit {0})
  login a s =
      let (r, s') =
        exchange
          (record {
            endpoint = a.login_endpoint;
            query = [];
            body = encode_values ((lit "user", a.username) ∷ (lit "pwd", a.password) ∷ []);
          })
          session_of s in
      keep_sid r s'
