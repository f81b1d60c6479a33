-- ===== src/Fdc/Wired.antt =====
-- packages/executor/src/pipeline.ts with the client of packages/executor/src/fdc.ts: what its
-- failures do to a job.
use flare_hack.Prelude.{
  ℕ, ◌+◌, ◌≡◌, refl, ap, ◌∙◌, Bool, true, false, Option, none, some, ◌∷◌, Except, ok, err, Text,
  codes, ◌===◌, starts_with,
}
use flare_hack.Dict.{Dict}
use flare_hack.Json.{Json, string, object, Fields, get_field}
use flare_hack.Fdc.{
  FdcError, verifier_not_ready, other_error, is_retryable, Answer, check_status, prepare_request,
}
use flare_hack.Fdc.Client.{
  FdcClient, Network, VerifierBody, body_with, verifier_url, client_prepare_request,
  client_fetch_proof, SubmitResult, client_submit_request, client_is_round_finalized,
}
use flare_hack.Pipeline.{
  observed, Failure, Job, Services, advance, recover, lost_race, save, step, threw, finish_step,
}

-- An error with the text that it shows.
abbrev pub failure_of : (FdcError → Text) → FdcError → Failure
failure_of shows e = record { retryable = is_retryable e; message = shows e }

abbrev pub as_failure : {A : Type 0} → (FdcError → Text) → Except FdcError A → Except Failure A
as_failure shows (ok a) = ok a
as_failure shows (err e) = err (failure_of shows e)

abbrev pub or_other : {A : Type 0} → Option A → Except FdcError A
or_other none = err other_error
or_other (some a) = ok a

abbrev pub round_of_result : SubmitResult → Except FdcError ℕ
round_of_result s = elim s.result [ none ↦ err other_error | some (round, tx_hash) ↦ ok round ]

-- `job.abiEncodedRequest!` and `job.roundId!`: viem refuses what is not there.
abbrev pub submit_given : Network → FdcClient → Option Text → Except FdcError ℕ
submit_given net c none = err other_error
submit_given net c (some request) =
    round_of_result (client_submit_request net c.registry_cache request)

abbrev pub finalized_given : Network → FdcClient → Option ℕ → Except FdcError Bool
finalized_given net c none = err other_error
finalized_given net c (some round) =
    or_other (client_is_round_finalized net c.registry_cache round).0

abbrev pub proof_given : Network → FdcClient → Option Text → Option ℕ → Except FdcError Text
proof_given net c (some request) (some round) = client_fetch_proof net c request round
proof_given net c _ _ = err other_error

-- The pipeline's services, with the client in them and `owner` as the executor's address; the rest
-- is `sv`.
abbrev pub with_fdc : (FdcError → Text) → Network → FdcClient → Text → Services → Services
with_fdc shows net c owner sv = record sv {
  prepare_request = λ tx. as_failure shows (client_prepare_request net c tx (some owner));
  submit_request = λ request. as_failure shows (submit_given net c request);
  is_round_finalized = λ round. as_failure shows (finalized_given net c round);
  fetch_proof = λ request round. as_failure shows (proof_given net c request round);
}

-- The message that the verifier's answer has for its status.
abbrev pub detail_in : Fields → Option Json
detail_in fields = get_field (codes "errorMessage") fields

-- The verifier answers with HTTP 200 and a status that is neither VALID nor begins with OK.
pub record NotReady (answer : Answer) (status : Text) : Type 0 where
  pub served : answer.ok_status ≡ true
  pub fields : Fields
  pub body : answer.body ≡ some (object fields)
  pub says : get_field (codes "status") fields ≡ some (string status)
  pub not_ok : starts_with status (codes "OK") ≡ false
  pub not_valid : (status === codes "VALID") ≡ false

prepare_request-NotReady :
    (answer : Answer) (x : ℕ) (status : Text)
    → (n : NotReady answer (x ∷ status))
    → prepare_request answer ≡ err (verifier_not_ready (x ∷ status) (detail_in n.fields))
unfolding prepare_request check_status
prepare_request-NotReady answer x status n =
    rw (n.served, n.body, n.says, n.not_ok, n.not_valid) refl

client_prepare_request-NotReady :
    (net : Network) (c : FdcClient) (tx owner : Text) (body : VerifierBody) (answer : Answer)
    (x : ℕ) (status : Text)
    → body_with c tx (some owner) (net.to_hex32 (codes "XRPPayment")) (net.to_hex32 c.source_id)
      ≡ some body
    → net.post_verifier (verifier_url c) c.api_key body ≡ some answer
    → (n : NotReady answer (x ∷ status))
    → client_prepare_request net c tx (some owner)
      ≡ err (verifier_not_ready (x ∷ status) (detail_in n.fields))
unfolding client_prepare_request
client_prepare_request-NotReady net c tx owner body answer x status built sent n =
    rw (built, sent, client_prepare_request) (prepare_request-NotReady answer x status n)

advance-observed :
    (sv : Services) (job : Job) (e : Failure)
    → sv.prepare_request job.xrpl_tx_id ≡ err e
    → advance observed sv job ≡ threw job e
unfolding advance
advance-observed sv job e failed = rw (failed, advance) refl

recover-retryable :
    (sv : Services) (job : Job) (e : Failure)
    → job.state ≡ observed
    → e.retryable ≡ true
    → recover sv job e ≡ record job { attempts = job.attempts + 1; last_error = some e.message }
unfolding recover
recover-retryable sv job e at retry =
    let race : lost_race sv job e ≡ false = rw (at, lost_race) refl in rw (race, retry) refl

-- A retryable failure of the first call leaves the job where it was.
step-retryable :
    (sv : Services) (job : Job) (files : Dict Job) (e : Failure)
    → job.state ≡ observed
    → sv.prepare_request job.xrpl_tx_id ≡ err e
    → e.retryable ≡ true
    → step sv job files
      ≡ save sv (record job { attempts = job.attempts + 1; last_error = some e.message }) files
unfolding step
step-retryable sv job files e at failed retry =
    ap (finish_step sv files) (ap (λ s. advance s sv job) at ∙ advance-observed sv job e failed)
    ∙ ap (λ j. save sv j files) (recover-retryable sv job e at retry)

-- However often the verifier answers that it is not ready, a job that waits for it is not failed: the step leaves it as it was but for the count of attempts, the shown error, which has the status and the verifier's message, and the time, and writes it down like that.
pub step-NotReady :
    (shows : FdcError → Text) (net : Network) (c : FdcClient) (owner : Text) (sv : Services)
    (job : Job) (files : Dict Job) (body : VerifierBody) (answer : Answer) (x : ℕ) (status : Text)
    → job.state ≡ observed
    → body_with c job.xrpl_tx_id
        (some owner)
        (net.to_hex32 (codes "XRPPayment"))
        (net.to_hex32 c.source_id)
      ≡ some body
    → net.post_verifier (verifier_url c) c.api_key body ≡ some answer
    → (n : NotReady answer (x ∷ status))
    → step (with_fdc shows net c owner sv) job files
      ≡ save
          (with_fdc shows net c owner sv)
          (record job {
            attempts = job.attempts + 1;
            last_error = some (shows (verifier_not_ready (x ∷ status) (detail_in n.fields)));
          })
          files
step-NotReady shows net c owner sv job files body answer x status at built sent n =
    step-retryable (with_fdc shows net c owner sv) job files
      (failure_of shows (verifier_not_ready (x ∷ status) (detail_in n.fields))) at
      (ap (as_failure shows) (
        client_prepare_request-NotReady net c job.xrpl_tx_id owner body answer x status built sent
          n))
      refl
