-- ===== src/Examples/Signer.antt =====
-- pkg/signer on a pool of one worker and a channel for one request.
use go_certa.Prelude.{pos, codes, some, [], refl, arith}
use go_certa.Signer.{
  SignRequest, Issuer, WorkerPool, idle_workers, started, enqueue, take_job, answer_job, Steps,
  here, step, submit, take, respond,
}
use go_certa.Signer.Pool.{Accounts, started-Accounts, steps-Accounts}

abbrev issuer : Issuer
issuer csr serial validity names = some csr

abbrev request : SignRequest
request = record {
  csr_der = codes "csr";
  serial = pos 5;
  validity = pos 90;
  dns_names = [];
  res_chan = 1;
}

abbrev queued : WorkerPool
queued = enqueue request (started 1 1)

abbrev working : WorkerPool
working = take_job request [] [] [] queued

abbrev answered : WorkerPool
answered = answer_job issuer request [] [] working

one_request : Steps issuer (started 1 1) answered
unfolding started idle_workers
one_request = step (started 1 1) queued answered (submit (started 1 1) request (omega arith)) (
    step queued working answered (take queued request [] [] [] refl refl)
      (step working answered answered (respond working request [] [] refl) (here answered)))

steps-Accounts_example : Accounts issuer answered
steps-Accounts_example = steps-Accounts issuer one_request (started-Accounts issuer 1 1)
