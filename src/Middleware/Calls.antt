-- ===== src/Middleware/Calls.antt =====
-- What a run that called the handler went through, and what an action that returned did.
use oati.Prelude.{
  Result, ok, throw, Bool, true, false, not, Option, none, some, ◌≡◌, refl, ap, if◌then◌else◌,
}
use oati.Evaluator.Types.{Verdict, allow, deny}
use oati.Middleware.Types.{
  of_result, Try, threw, got, Response, MiddlewareContext, Log, Action, ◌>>=◌,
}
use oati.Middleware.Flow.{is_allow, Flow, answer_by, after}

-- The handler is called with this context.
abbrev pub Calls : MiddlewareContext → Try Response × Option MiddlewareContext × Log → Type 0
Calls context r = r.1 ≡ some context

pub after-Calls {ℓ} :
    {A : Type ℓ} (call : Action A) (rest : A → Flow) (log : Log) (context : MiddlewareContext)
    → Calls context (after call rest log)
    → (a : A) × (log' : Log) × (call log ≡ (got a, log')) × Calls context (rest a log')
unfolding after
after-Calls {A} call rest log context h = inverted (call log) refl h
  where
    inverted :
        (answer : Try A × Log)
        → call log ≡ answer
        → Calls context (elim answer.0 [
          | got value ↦ rest value answer.1
          | threw failure ↦ (threw failure, none, answer.1)
        ])
        → (a : A) × (log' : Log) × (call log ≡ (got a, log')) × Calls context (rest a log')
    inverted (got a, log') e h = (a, log', e, h)
    inverted (threw f, log') e h = cc

pub >>=-got {κ ℓ} :
    {A : Type κ} {B : Type ℓ} (call : Action A) (rest : A → Action B) (log log' : Log) (b : B)
    → (call >>= rest) log ≡ (got b, log')
    → (a : A) × (log1 : Log) × (call log ≡ (got a, log1)) × (rest a log1 ≡ (got b, log'))
unfolding ◌>>=◌
>>=-got {A} {B} call rest log log' b h = inverted (call log) refl h
  where
    inverted :
        (answer : Try A × Log)
        → call log ≡ answer
        → ◌≡◌ {A = Try B × Log}
            (elim answer.0 [
              | got value ↦ rest value answer.1
              | threw failure ↦ (threw failure, answer.1)
            ])
            (got b, log')
        → (a : A) × (log1 : Log) × (call log ≡ (got a, log1)) × (rest a log1 ≡ (got b, log'))
    inverted (got a, log1) e h = (a, log1, e, h)
    inverted (threw f, log1) e h = cc

value_or {ℓ} : {A : Type ℓ} → A → Try A → A
value_or default (threw f) = default
value_or default (got a) = a

pub got-injective {ℓ} : {A : Type ℓ} (a b : A) → got a ≡ got b → a ≡ b
unfolding value_or
got-injective a b h = ap (value_or a) h

-- A test that leads to a refusal failed, and the rest called the handler.
pub unless-Calls :
    (test : Bool) (call : Action Response) (rest : Flow) (log : Log) (context : MiddlewareContext)
    → Calls context ((if test then answer_by call else rest) log)
    → (test ≡ false) × Calls context (rest log)
unless-Calls true call rest log context h = cc
unless-Calls false call rest log context h = (refl, h)

pub verified_of : (b : Bool) → not b ≡ false → b ≡ true
verified_of true h = refl
verified_of false h = cc

-- An allowed evaluation that returned.
pub allowed_of : (v : Verdict) → not (is_allow v) ≡ false → v ≡ allow
allowed_of allow h = refl
allowed_of deny h = cc

pub result-got : {A : Type 0} (r : Result A) (a : A) → of_result r ≡ got a → r ≡ ok a
result-got {A} (ok b) a h = ap (λ (x : A). ok x) (got-injective b a h)
result-got {A} (throw e) a h = cc
