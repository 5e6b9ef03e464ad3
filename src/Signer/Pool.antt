-- ===== src/Signer/Pool.antt =====
-- pkg/signer/pool.go: what becomes of the requests of a pool.
use go_certa.Prelude.{
  ℕ, zero, suc, ◌+◌, ◌≤◌, ◌==◌, if◌then◌else◌, List, [], ◌∷◌, ◌++◌, length, length-append, ◌≡◌,
  refl, ap, arith, All,
}
use go_certa.Signer.{
  SignRequest, SignResponse, Issuer, Worker, idle, stopped, busy, WorkerPool, idle_workers, started,
  sign_with, Step, submit, hand, take, respond, cancel, leave, Steps, here, step,
}

-- How often the answer channel `k` is waited on.
abbrev one : ℕ → SignRequest → ℕ
one k r = if r.res_chan == k then 1 else 0

abbrev pub waiting : ℕ → List SignRequest → ℕ
waiting k [] = 0
waiting k (r ∷ rs) = one k r + waiting k rs

abbrev pub in_hand : ℕ → List Worker → ℕ
in_hand k [] = 0
in_hand k (idle ∷ ws) = in_hand k ws
in_hand k (stopped ∷ ws) = in_hand k ws
in_hand k (busy r ∷ ws) = one k r + in_hand k ws

abbrev pub served : ℕ → List (SignRequest × SignResponse) → ℕ
served k [] = 0
served k ((r, x) ∷ rest) = one k r + served k rest

-- Every request that was submitted is in the channel, in a worker's hand or answered, once; the
-- answers are the issuer's; the channel keeps to its size.
pub record Accounts (issuer : Issuer) (p : WorkerPool) : Type 0 where
  pub balance :
      (k : ℕ) → waiting k p.submitted ≡ waiting k p.jobs + in_hand k p.workers + served k p.answered
  pub genuine : All (λ a. a.1 ≡ sign_with issuer a.0) p.answered
  pub bounded : length p.jobs ≤ p.queue_size

waiting-append :
    (k : ℕ) (rs : List SignRequest) (r : SignRequest)
    → waiting k (rs ++ r ∷ []) ≡ waiting k rs + one k r
waiting-append k [] r = omega arith
waiting-append k (x ∷ rs) r = omega (arith, waiting-append k rs r)

in_hand-append :
    (k : ℕ) (front : List Worker) (w : Worker) (back : List Worker)
    → in_hand k (front ++ w ∷ back) ≡ in_hand k front + in_hand k (w ∷ back)
in_hand-append k [] w back = omega arith
in_hand-append k (idle ∷ front) w back = in_hand-append k front w back
in_hand-append k (stopped ∷ front) w back = in_hand-append k front w back
in_hand-append k (busy r ∷ front) w back = omega (arith, in_hand-append k front w back)

in_hand_idle : (k n : ℕ) → in_hand k (idle_workers n) ≡ 0
unfolding idle_workers
in_hand_idle k zero = refl
in_hand_idle k (suc n) = in_hand_idle k n

pub started-Accounts :
    (issuer : Issuer) (queue_size workers : ℕ) → Accounts issuer (started queue_size workers)
unfolding started
started-Accounts issuer queue_size workers = record {
  balance = λ k. omega (arith, in_hand_idle k workers);
  genuine = tt;
  bounded = omega arith;
}

step-Accounts :
    (issuer : Issuer) {p q : WorkerPool} → Step issuer p q → Accounts issuer p → Accounts issuer q
step-Accounts issuer (submit p r room) a = record {
  balance = λ k. omega (arith, a.balance k, waiting-append k p.jobs r);
  genuine = a.genuine;
  bounded = omega (arith, room, length-append p.jobs (r ∷ []));
}
step-Accounts issuer (hand p r front back none_waits at) a = record {
  balance = λ k. omega (
    arith,
    a.balance k,
    ap (in_hand k) at,
    in_hand-append k front idle back,
    in_hand-append k front (busy r) back,
  );
  genuine = a.genuine;
  bounded = a.bounded;
}
step-Accounts issuer (take p r rest front back oldest at) a = record {
  balance = λ k. omega (
    arith,
    a.balance k,
    ap (waiting k) oldest,
    ap (in_hand k) at,
    in_hand-append k front idle back,
    in_hand-append k front (busy r) back,
  );
  genuine = a.genuine;
  bounded = omega (arith, a.bounded, ap length oldest);
}
step-Accounts issuer (respond p r front back at) a = record {
  balance = λ k. omega (
    arith,
    a.balance k,
    ap (in_hand k) at,
    in_hand-append k front idle back,
    in_hand-append k front (busy r) back,
  );
  genuine = (refl, a.genuine);
  bounded = a.bounded;
}
step-Accounts issuer (cancel p) a = record {
  balance = a.balance;
  genuine = a.genuine;
  bounded = a.bounded;
}
step-Accounts issuer (leave p front back c at) a = record {
  balance = λ k. omega (
    arith,
    a.balance k,
    ap (in_hand k) at,
    in_hand-append k front idle back,
    in_hand-append k front stopped back,
  );
  genuine = a.genuine;
  bounded = a.bounded;
}

-- However the goroutines of a pool take turns, each request that was submitted is in the channel, in
-- the hand of one worker, or answered, exactly once, every answer is what the issuer signs for its
-- request, and the channel never holds more than its size.
pub steps-Accounts :
    (issuer : Issuer) {p q : WorkerPool} → Steps issuer p q → Accounts issuer p → Accounts issuer q
steps-Accounts issuer (here p) a = a
steps-Accounts issuer (step p m q s rest) a = steps-Accounts issuer rest (step-Accounts issuer s a)
