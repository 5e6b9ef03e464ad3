-- ===== src/Signer.antt =====
-- pkg/signer/pool.go: the pool of workers that sign. Its goroutines take turns: a step of the pool
-- is one action of one of them. What was submitted and answered so far is kept beside the channel and
-- the workers. A request is told apart by its answer channel.
pub mod Pool
pub mod MockHsm
use go_certa.Prelude.{
  ℕ, zero, suc, ◌<◌, ℤ, Str, Option, List, [], ◌∷◌, ◌++◌, length, Bool, true, false, ◌≡◌,
}

pub record SignRequest : Type 0 where
  pub csr_der : Str
  pub serial : ℤ
  pub validity : ℤ
  pub dns_names : List Str
  pub res_chan : ℕ

-- SignResponse: the certificate, or none for an error.
abbrev pub SignResponse : Type 0
SignResponse = Option Str

-- Issuer: SignCertificate.
abbrev pub Issuer : Type 0
Issuer = Str → ℤ → ℤ → List Str → SignResponse

-- A worker waits in its select, has a request in hand, or has returned.
pub data Worker : Type 0 where
  idle stopped : Worker
  busy : SignRequest → Worker

pub record WorkerPool : Type 0 where
  pub queue_size : ℕ
  pub jobs : List SignRequest
  pub workers : List Worker
  pub cancelled : Bool
  pub submitted : List SignRequest
  pub answered : List (SignRequest × SignResponse)

unfoldable pub idle_workers : ℕ → List Worker
idle_workers zero = []
idle_workers (suc n) = idle ∷ idle_workers n

-- NewWorkerPool and the goroutines that Start spawns.
unfoldable pub started : ℕ → ℕ → WorkerPool
unfolding idle_workers
started queue_size workers = record {
  queue_size = queue_size;
  jobs = [];
  workers = idle_workers workers;
  cancelled = false;
  submitted = [];
  answered = [];
}

abbrev pub queue_depth : WorkerPool → ℕ
queue_depth p = length p.jobs

abbrev pub sign_with : Issuer → SignRequest → SignResponse
sign_with issuer r = issuer r.csr_der r.serial r.validity r.dns_names

-- The pools that the actions change.
abbrev pub enqueue : SignRequest → WorkerPool → WorkerPool
enqueue r p = record p { jobs = p.jobs ++ r ∷ []; submitted = r ∷ p.submitted }

abbrev pub hand_over : SignRequest → List Worker → List Worker → WorkerPool → WorkerPool
hand_over r front back p = record p {
  workers = front ++ busy r ∷ back;
  submitted = r ∷ p.submitted;
}

abbrev pub take_job :
    SignRequest → List SignRequest → List Worker → List Worker → WorkerPool → WorkerPool
take_job r rest front back p = record p { jobs = rest; workers = front ++ busy r ∷ back }

abbrev pub answer_job : Issuer → SignRequest → List Worker → List Worker → WorkerPool → WorkerPool
answer_job issuer r front back p = record p {
  workers = front ++ idle ∷ back;
  answered = (r, sign_with issuer r) ∷ p.answered;
}

abbrev pub stop_worker : List Worker → List Worker → WorkerPool → WorkerPool
stop_worker front back p = record p { workers = front ++ stopped ∷ back }

-- The actions. Submit puts a request into the channel if there is room, or hands it to a waiting
-- worker; a worker takes the oldest request, also when the context is cancelled, since select chooses
-- freely; it answers; it returns only when the context is cancelled and it has no request.
pub data Step (issuer : Issuer) : WorkerPool → WorkerPool → Type 0 where
  submit :
      (p : WorkerPool) (r : SignRequest)
      → length p.jobs < p.queue_size
      → Step issuer p (enqueue r p)
  hand :
      (p : WorkerPool) (r : SignRequest) (front back : List Worker)
      → p.jobs ≡ []
      → p.workers ≡ front ++ idle ∷ back
      → Step issuer p (hand_over r front back p)
  take :
      (p : WorkerPool) (r : SignRequest) (rest : List SignRequest) (front back : List Worker)
      → p.jobs ≡ r ∷ rest
      → p.workers ≡ front ++ idle ∷ back
      → Step issuer p (take_job r rest front back p)
  respond :
      (p : WorkerPool) (r : SignRequest) (front back : List Worker)
      → p.workers ≡ front ++ busy r ∷ back
      → Step issuer p (answer_job issuer r front back p)
  cancel : (p : WorkerPool) → Step issuer p (record p { cancelled = true })
  leave :
      (p : WorkerPool) (front back : List Worker)
      → p.cancelled ≡ true
      → p.workers ≡ front ++ idle ∷ back
      → Step issuer p (stop_worker front back p)

pub data Steps (issuer : Issuer) : WorkerPool → WorkerPool → Type 0 where
  here : (p : WorkerPool) → Steps issuer p p
  step : (p q r : WorkerPool) → Step issuer p q → Steps issuer q r → Steps issuer p r
