-- ===== src/Agent/Gate.antt =====
-- `lambda_gate_check` (szl_mesh_agent.py), and the requests that it reads. A request's identifier,
-- model and label are texts, if they are there; its score is any JSON value.
use szl_mesh.Common.Json.{Json}
use szl_mesh.Common.Result.{
  Result, ok, raise, ◌>>=◌, bind-ok, ok_inj, raise_inj, Exception, Result-cases,
}
use szl_mesh.Common.Order.{◌=?◌, str_ord}
use szl_mesh.Common.{
  Bool, true, false, not, ◌&&◌, String, Option, none, some, if◌then◌else◌, ◌≡◌, refl, sym, ap, ◌∙◌,
  inl, inr,
}

-- What the source uses of Python's floats. `to_float` is `float(x)`, which raises where the value is
-- no number and no text of one.
pub record Floats : Type 1 where
  pub F : Type 0
  pub zero : F
  pub half : F
  pub one : F
  pub is_equal : F → F → Bool
  pub is_at_least : F → F → Bool
  pub to_json : F → Json
  pub to_float : Json → Result F
  pub one_at_least_half : is_at_least one half ≡ true
  pub zero_not_at_least_half : is_at_least zero half ≡ false

abbrev pub truthy : Option String → Bool
truthy none = false
truthy (some s) = not (s =? "")

abbrev pub or_default {ℓ} : {A : Type ℓ} → Option A → A → A
or_default none d = d
or_default (some a) d = a

module _ (floats : Floats) where
  open floats use {F, zero, half, one, is_equal, is_at_least}

  pub record Request : Type 0 where
    pub request_id : Option String
    pub model : Option String
    pub label : Option String
    pub lambda_score : Option Json

  -- `float(request.get("lambda_score", 0.0))`
  unfoldable pub given_score : Request → Result F
  given_score request = elim request.lambda_score [ none ↦ ok zero | some x ↦ floats.to_float x ]

  abbrev pub score_of : Request → F → F
  score_of request given =
      if is_equal given zero
      then (if truthy request.request_id && truthy request.model then one else zero)
      else given

  -- Whether the request passes, and its score.
  unfoldable pub lambda_gate_check : Request → Result (Bool × F)
  unfolding given_score
  lambda_gate_check request = given_score request >>= λ given.
      ok (is_at_least (score_of request given) half, score_of request given)

  -- The score of a request: the number that it gives, unless that is zero; then it is one where the
  -- request names itself and its model, and zero otherwise.
  pub record Scored (request : Request) (score : F) : Type 0 where
    pub given : F
    pub read : given_score request ≡ ok given
    pub kept : is_equal given zero ≡ false → score ≡ given
    pub complete :
        is_equal given zero ≡ true
        → (truthy request.request_id && truthy request.model) ≡ true
        → score ≡ one
    pub incomplete :
        is_equal given zero ≡ true
        → (truthy request.request_id && truthy request.model) ≡ false
        → score ≡ zero

  pub lambda_gate_check-Scored :
      (request : Request) (passed : Bool) (score : F)
      → lambda_gate_check request ≡ ok (passed, score)
      → Scored request score × (is_at_least score half ≡ passed)
  unfolding lambda_gate_check
  lambda_gate_check-Scored request passed score e =
      let (given, read, answer) = bind-ok (given_score request) _ (passed, score) e in
      let same : score_of request given ≡ score = ap (λ (x : Bool × F). x.1) (ok_inj answer) in
      (
        record {
          given = given;
          read = read;
          kept = λ other. sym same ∙ rw other refl;
          complete = λ unscored named. sym same ∙ rw (unscored, named) refl;
          incomplete = λ unscored unnamed. sym same ∙ rw (unscored, unnamed) refl;
        },
        ap (λ x. is_at_least x half) (sym same) ∙ ap (λ (x : Bool × F). x.0) (ok_inj answer),
      )

  pub lambda_gate_check-raise :
      (request : Request) (e : Exception)
      → lambda_gate_check request ≡ raise e
      → given_score request ≡ raise e
  unfolding lambda_gate_check
  lambda_gate_check-raise request e raised = elim (Result-cases (given_score request)) [
    | inl (given, read) ↦ absurd (cc (rw (read, lambda_gate_check) at raised))
    | inr (x, read) ↦ read ∙ ap raise (raise_inj (rw (read, lambda_gate_check) at raised))
  ]

  -- A request with no score passes exactly if it names itself and its model.
  pub lambda_gate_unscored :
      (request : Request) (given : F)
      → given_score request ≡ ok given
      → is_equal given zero ≡ true
      → (truthy request.request_id && truthy request.model) ≡ true
      → lambda_gate_check request ≡ ok (true, one)
  unfolding lambda_gate_check
  lambda_gate_unscored request given read unscored named =
      rw (read, unscored, named, floats.one_at_least_half) refl
