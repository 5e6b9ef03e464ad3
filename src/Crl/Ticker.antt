-- ===== src/Crl/Ticker.antt =====
-- pkg/protocols/crl/generator.go: the background goroutine and the mutex of the generator.
use go_certa.Prelude.{ℕ, Str, true, Option, none, some, List, [], ◌∷◌, ◌≡◌, refl, arith}
use go_certa.Storage
use go_certa.Storage.{RevocationRecord}
use go_certa.Crl.{
  Signer, Service, Result, generate_crl, regenerate, tick, start, stop, outcome, latest_crl,
}

-- What can happen to a service, with the clock and what ListRevoked returns at that time.
pub data Happening : Type 0 where
  ticks regenerates starts : ℕ → Storage.Result (List RevocationRecord) → Happening
  stops : Happening

abbrev after_start : Service → Option (Result (Unit {0}) × Service) → Service
after_start s none = s
after_start s (some r) = r.1

-- A call that waits for the mutex has set `running` before it waits.
pub happen : Signer → Happening → Service → Service
happen sign (ticks now records) s = tick sign now records s
happen sign (regenerates now records) s = outcome s (regenerate sign now records s)
happen sign (starts now records) s =
    after_start (record s { running = true }) (start sign now records s)
happen sign stops s = stop s

pub history : Signer → List Happening → Service → Service
history sign [] s = s
history sign (h ∷ hs) s = history sign hs (happen sign h s)

-- The mutex is held, and what is served is what it was.
record Jammed (der : Str) (at : ℕ) (number : ℕ) (s : Service) : Type 0 where
  held : s.generator.held ≡ true
  served : s.cached_crl ≡ der
  dated : s.last_generated ≡ at
  numbered : s.generator.crl_number ≡ number

happen-Jammed :
    (sign : Signer) (h : Happening) (der : Str) (at number : ℕ) (s : Service)
    → Jammed der at number s
    → Jammed der at number (happen sign h s)
unfolding happen tick regenerate generate_crl start stop
happen-Jammed sign (ticks now records) der at number s j = ground arith
happen-Jammed sign (regenerates now records) der at number s j = ground arith
happen-Jammed sign (starts now records) der at number s j = ground arith
happen-Jammed sign stops der at number s j = ground arith

history-Jammed :
    (sign : Signer) (hs : List Happening) (der : Str) (at number : ℕ) (s : Service)
    → Jammed der at number s
    → Jammed der at number (history sign hs s)
unfolding history
history-Jammed sign [] der at number s j = j
history-Jammed sign (h ∷ hs) der at number s j =
    history-Jammed sign hs der at number (happen sign h s) (happen-Jammed sign h der at number s j)

tick-Jammed :
    (sign : Signer) (now : ℕ) (records : Storage.Result (List RevocationRecord)) (s : Service)
    → Jammed s.cached_crl s.last_generated s.generator.crl_number (tick sign now records s)
unfolding tick regenerate generate_crl
tick-Jammed sign now records s = record {
  held = refl;
  served = refl;
  dated = refl;
  numbered = refl;
}

blocked :
    (sign : Signer) (at : ℕ) (found : Storage.Result (List RevocationRecord)) (t : Service)
    → t.generator.held ≡ true
    → regenerate sign at found t ≡ none
unfolding regenerate generate_crl
blocked sign at found t h = ground arith

-- The first tick takes the generator's mutex and nothing gives it back: whatever happens after it,
-- the service serves the list that it served before, no list is numbered any more, and a call of
-- Regenerate does not return.
pub tick_freezes :
    (sign : Signer) (now : ℕ) (records : Storage.Result (List RevocationRecord)) (s : Service)
    (hs : List Happening)
    → let t = history sign hs (tick sign now records s) in
      (latest_crl t ≡ latest_crl s)
      × (t.generator.crl_number ≡ s.generator.crl_number)
      × ((at : ℕ) (found : Storage.Result (List RevocationRecord))
          → regenerate sign at found t ≡ none)
unfolding latest_crl
tick_freezes sign now records s hs =
    let j = history-Jammed sign hs _ _ _ _ (tick-Jammed sign now records s) in
    (simp (j.served, j.dated), j.numbered, λ at found. blocked sign at found _ j.held)
