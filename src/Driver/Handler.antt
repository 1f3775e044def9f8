-- ===== src/Driver/Handler.antt =====
-- What a handler of the CSI services gives, and the ways it calls the NAS.
use qnap_csi.Base.{◌≡◌, refl, Text, Result, ok, err}
use qnap_csi.Qnap.Client.{Method}

-- The gRPC codes in use.
pub data Code : Type 0 where
  invalid_argument out_of_range internal already_exists not_found unimplemented : Code

-- A reply, an error status, a panic, or a loop that is still waiting when its fuel is used up.
pub data Outcome (A : Type 0) : Type 0 where
  reply : A → Outcome A
  status : Code → Text → Outcome A
  panics : Outcome A
  still_waiting : Outcome A

abbrev pub Handler : Type 0 → Type 0 → Type 0
Handler W A = W → Outcome A × W

abbrev pub continue : {W A B : Type 0} → Outcome A → (A → Handler W B) → Handler W B
continue (reply a) f w = f a w
continue (status code message) f w = (status code message, w)
continue panics f w = (panics, w)
continue still_waiting f w = (still_waiting, w)

infixl 5 ◌>>=◌ ◌>>◌
abbrev pub ◌>>=◌ : {W A B : Type 0} → Handler W A → (A → Handler W B) → Handler W B
◌>>=◌ m f w = let (r, w') = m w in continue r f w'

abbrev pub ◌>>◌ : {W B : Type 0} → Handler W (Unit {0}) → Handler W B → Handler W B
m >> k = m >>= λ _. k

abbrev pub pure : {W A : Type 0} → A → Handler W A
pure a w = (reply a, w)

abbrev pub fail : {W A : Type 0} → Code → Text → Handler W A
fail code message w = (status code message, w)

-- `if err := …; err != nil { undo; return status.Error(codes.Internal, message) }`
abbrev undone : {W A : Type 0} → Result A → (W → W) → Text → Handler W A
undone (ok a) undo message w = (reply a, w)
undone (err e) undo message w = (status internal message, undo w)

abbrev pub call_or : {W A : Type 0} → Method W A → (W → W) → Text → Handler W A
call_or m undo message w = let (r, w') = m w in undone r undo message w'

abbrev pub call : {W A : Type 0} → Method W A → Text → Handler W A
call m message = call_or m (λ w. w) message

-- `_ = m`: the error is dropped.
abbrev pub ignore : {W A : Type 0} → Method W A → W → W
ignore m w = (m w).1

-- How a handler may end: what holds at a reply, at an error status, and while it waits.
pub record Ending (W A : Type 0) : Type 1 where
  pub at_reply : A → W → Type 0
  pub at_status : Code → Text → W → Type 0
  pub at_wait : W → Type 0

-- The end is as `E` says, and is no panic.
abbrev pub Ends : {W A : Type 0} → Ending W A → Outcome A × W → Type 0
Ends E (reply a, w) = E.at_reply a w
Ends E (status code message, w) = E.at_status code message w
Ends E (panics, w) = ⊥
Ends E (still_waiting, w) = E.at_wait w

-- A block ends as its rest does from a reply of its first step, and else as that step does.
pub Ends-bind :
    {W A B : Type 0} (E : Ending W A) (E' : Ending W B) (m : Handler W A) (f : A → Handler W B)
    (w : W)
    → Ends E (m w)
    → ((a : A) (w' : W) → E.at_reply a w' → Ends E' (f a w'))
    → ((code : Code) (message : Text) (w' : W)
        → E.at_status code message w'
        → E'.at_status code message w')
    → ((w' : W) → E.at_wait w' → E'.at_wait w')
    → Ends E' ((m >>= f) w)
Ends-bind {W} {A} E E' m f w h hp hf hg = go (m w) h
  where
    go : (r : Outcome A × W) → Ends E r → Ends E' (continue r.0 f r.1)
    go (reply a, w') h = hp a w' h
    go (status code message, w') h = hf code message w' h
    go (panics, w') h = absurd h
    go (still_waiting, w') h = hg w' h

-- A call whose error ends the handler, after what undoes the steps before it, and the rest.
pub Ends-call_or :
    {W A B : Type 0} (E : Ending W B) (m : Method W A) (undo : W → W) (message : Text)
    (f : A → Handler W B) (w : W)
    → ((a : A) → (m w).0 ≡ ok a → Ends E (f a (m w).1))
    → ((e : Text) → (m w).0 ≡ err e → E.at_status internal message (undo (m w).1))
    → Ends E ((call_or m undo message >>= f) w)
Ends-call_or {W} {A} E m undo message f w hp hf = go (m w).0 refl
  where
    go :
        (r : Result A)
        → (m w).0 ≡ r
        → Ends E (let o = undone r undo message (m w).1 in continue o.0 f o.1)
    go (ok a) h = hp a h
    go (err e) h = hf e h

pub Ends-call :
    {W A B : Type 0} (E : Ending W B) (m : Method W A) (message : Text) (f : A → Handler W B)
    (w : W)
    → ((a : A) → (m w).0 ≡ ok a → Ends E (f a (m w).1))
    → ((e : Text) → (m w).0 ≡ err e → E.at_status internal message (m w).1)
    → Ends E ((call m message >>= f) w)
Ends-call E m = Ends-call_or E m (λ w. w)

-- An end as two say.
abbrev pub both : {W A : Type 0} → Ending W A → Ending W A → Ending W A
both E E' = record {
  at_reply = λ a w. E.at_reply a w × E'.at_reply a w;
  at_status = λ code message w. E.at_status code message w × E'.at_status code message w;
  at_wait = λ w. E.at_wait w × E'.at_wait w;
}

pub both-Ends :
    {W A : Type 0} (E E' : Ending W A) (r : Outcome A × W)
    → Ends E r
    → Ends E' r
    → Ends (both E E') r
both-Ends E E' (reply a, w) h h' = (h, h')
both-Ends E E' (status code message, w) h h' = (h, h')
both-Ends E E' (panics, w) h h' = h
both-Ends E E' (still_waiting, w) h h' = (h, h')

-- The method succeeds in every state.
abbrev pub Succeeds : {W A : Type 0} → Method W A → Type 0
Succeeds {W} {A} m = (w : W) → (a : A) × ((m w).0 ≡ ok a)

-- A call that succeeds, and the rest.
pub Ends-succeeds :
    {W A B : Type 0} (E : Ending W B) (m : Method W A) (undo : W → W) (message : Text)
    (f : A → Handler W B) (w : W)
    → Succeeds m
    → ((a : A) → Ends E (f a (m w).1))
    → Ends E ((call_or m undo message >>= f) w)
Ends-succeeds E m undo message f w sound h =
    Ends-call_or E m undo message f w (λ a _. h a)
      (λ e failed. let (a, found) = sound w in absurd (cc))

-- An end with an error only if `R` says so.
abbrev pub errs : {W A : Type 0} → (Code → Text → Type 0) → Ending W A
errs R = record {
  at_reply = λ _ _. Unit;
  at_status = λ code message _. R code message;
  at_wait = λ _. ⊥;
}

abbrev pub Never : Code → Text → Type 0
Never _ _ = ⊥
