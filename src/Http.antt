-- ===== src/Http.antt =====
-- Responses and handlers: backend/src/utils/responseHelper.js, and what an Express handler does.
-- A handler runs in a world `W` and ends by a response, by `next(err)` or by `next()`. An early
-- `return sendError(...)` and an exception both end a handler at once; the `try`/`catch` that every
-- controller has round its body turns an exception into `next(err)`.
use task.Prelude.{ℕ, String, List, Bool, Option, if◌then◌else◌}

pub record FieldError : Type 0 where
  pub field : String
  pub message : String

-- An exception: its message, the status that some errors carry, and the field errors.
pub record Exception : Type 0 where
  pub message : String
  pub status_code : Option ℕ
  pub errors : List FieldError

-- The JSON object of a response: `{ success: true, data }` or `{ success: false, message, errors }`.
pub data Envelope (A : Type 0) : Type 0 where
  success : A → Envelope A
  failure : String → List FieldError → Envelope A

pub record Response (A : Type 0) : Type 0 where
  pub status : ℕ
  pub json : Envelope A

pub data Outcome (A : Type 0) : Type 0 where
  responded : Response A → Outcome A
  next_error : Exception → Outcome A
  next : Outcome A

-- `sendSuccess(res, data, statusCode)`
abbrev pub send_success : {A : Type 0} → A → ℕ → Outcome A
send_success a status = responded (record { status = status; json = success a })

-- `sendError(res, message, errors, statusCode)`
abbrev pub send_error : {A : Type 0} → String → List FieldError → ℕ → Outcome A
send_error message errors status =
    responded (record { status = status; json = failure message errors })

-- A step of a handler goes on with a value or has ended the handler.
pub data Flow (R A : Type 0) : Type 0 where
  go : A → Flow R A
  stop : Outcome R → Flow R A

abbrev pub Handler : Type 0 → Type 0 → Type 0 → Type 0
Handler W R A = W → Flow R A × W

module _ {W R A : Type 0} where
  abbrev pub pure : A → Handler W R A
  pure a w = (go a, w)

  abbrev pub finish : Outcome R → Handler W R A
  finish o w = (stop o, w)

  abbrev pub raise : Exception → Handler W R A
  raise e = finish (next_error e)

infixl 5 ◌>>=◌ ◌>>◌
abbrev pub ◌>>=◌ : {W R A B : Type 0} → Handler W R A → (A → Handler W R B) → Handler W R B
◌>>=◌ m f w = let (r, w') = m w in elim r [ go a ↦ f a w' | stop o ↦ (stop o, w') ]

abbrev pub ◌>>◌ : {W R A B : Type 0} → Handler W R A → Handler W R B → Handler W R B
m >> k = m >>= λ _. k

-- `if (test) return outcome`
abbrev pub return_if : {W R : Type 0} → Bool → Outcome R → Handler W R Unit
return_if b o w = (if b then stop o else go tt, w)

-- The outcome of a body whose last step is a `return`.
abbrev pub outcome : {R : Type 0} → Flow R (Outcome R) → Outcome R
outcome (go o) = o
outcome (stop o) = o

abbrev pub run_handler : {W R : Type 0} → Handler W R (Outcome R) → W → Outcome R × W
run_handler m w = let (r, w') = m w in (outcome r, w')

-- The fields of a request that the controllers and the audit log read; `user` is what
-- `authenticate` attached.
pub record User : Type 0 where
  pub id : String
  pub email : String
  pub role : String

pub record Request : Type 0 where
  pub user : User
  pub request_id : String
  pub ip : String
  pub method : String
  pub original_url : String
  pub user_agent : Option String

-- A step keeps a predicate of the world, whether it goes on or ends the handler.
pub record Keeps {ℓ} {W R A : Type 0} (P : W → Type ℓ) (m : Handler W R A) : Type ℓ where
  pub at : (w : W) → P w → P (m w).1

module _ {ℓ} {W R A B : Type 0} (P : W → Type ℓ) where
  abbrev resume : (A → Handler W R B) → Flow R A → W → Flow R B × W
  resume f r w = elim r [ go a ↦ f a w | stop o ↦ (stop o, w) ]

  Keeps-resume :
      (f : A → Handler W R B)
      → ((a : A) → Keeps P (f a))
      → (r : Flow R A) (w : W) → P w
      → P (resume f r w).1
  Keeps-resume f k (go a) w h = (k a).at w h
  Keeps-resume f k (stop o) w h = h

  pub Keeps-bind :
      {m : Handler W R A} {f : A → Handler W R B}
      → Keeps P m
      → ((a : A) → Keeps P (f a))
      → Keeps P (m >>= f)
  Keeps-bind {m} {f} h k = record { at = λ w p. Keeps-resume f k (m w).0 (m w).1 (h.at w p) }

  pub Keeps-then :
      {m : Handler W R A} {k : Handler W R B} → Keeps P m → Keeps P k → Keeps P (m >> k)
  Keeps-then h k = Keeps-bind h λ _. k

pub Keeps-pure {ℓ} : {W R A : Type 0} (P : W → Type ℓ) (a : A) → Keeps {R = R} P (pure a)
Keeps-pure P a = record { at = λ w h. h }
