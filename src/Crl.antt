-- ===== src/Crl.antt =====
-- pkg/protocols/crl/generator.go: the generator of revocation lists, and the service that
-- regenerates them and serves the last one. Signing is a parameter. The generator's mutex is part of
-- the state: a call that needs it while it is held does not return.
pub mod Listed
pub mod Ticker
pub mod Handler
use go_certa.Prelude.{
  ℕ, ◌+◌, ◌*◌, ℤ, pos, ◌+ℤ◌, ◌-ℤ◌, is_pos, Str, Bool, true, false, Option, none, some, List, [],
  ◌∷◌, is_empty, if◌then◌else◌,
}
use go_certa.Storage.{RevocationRecord, normalize_serial}
use go_certa.Storage
use go_certa.Ca.Types.{minute, hour}
use go_certa.Ca.Serial.{set_string_16}

pub record Entry : Type 0 where
  pub serial_number : ℤ
  pub revocation_time : ℕ
  pub reason_code : ℤ

-- x509.RevocationList, as a template.
pub record RevocationList : Type 0 where
  pub number : ℕ
  pub this_update : ℤ
  pub next_update : ℤ
  pub entries : List Entry

pub data Error : Type 0 where
  fetch_failed : Storage.Error → Error
  invalid_serial sign_failed not_ready initial_failed : Error

pub data Result {ℓ} (A : Type ℓ) : Type ℓ where
  ok : A → Result A
  err : Error → Result A

-- x509.CreateRevocationList with the issuer and its signer.
abbrev pub Signer : Type 0
Signer = RevocationList → Option Str

-- `held` says whether the mutex is locked between two calls.
pub record Generator : Type 0 where
  pub validity : ℤ
  pub crl_number : ℕ
  pub held : Bool

unfoldable pub new_crl_generator : ℤ → Generator
new_crl_generator validity = record {
  validity = if is_pos validity then validity else pos (24 * hour);
  crl_number = 0;
  held = false;
}

abbrev pub entry_of : RevocationRecord → ℤ → Entry
entry_of rec n = record {
  serial_number = n;
  revocation_time = rec.revoked_at;
  reason_code = rec.reason;
}

-- The loop over the records: none, where a serial is not hexadecimal.
unfoldable pub to_entries : List RevocationRecord → Option (List Entry)
to_entries [] = some []
to_entries (rec ∷ recs) =
    let rest = to_entries recs in
    elim (set_string_16 (normalize_serial rec.serial)) [
      | none ↦ none
      | some n ↦ elim rest [ none ↦ none | some es ↦ some (entry_of rec n ∷ es) ]
    ]

unfoldable pub list_of : Generator → ℕ → List Entry → RevocationList
list_of g now entries = record {
  number = g.crl_number + 1;
  this_update = pos now -ℤ pos minute;
  next_update = pos now +ℤ g.validity;
  entries = entries;
}

abbrev signed : Option Str → Result Str
signed none = err sign_failed
signed (some der) = ok der

-- What follows the lock: the records as the storage returns them, the list, its number, its
-- signature. The number is used up also where signing fails.
numbered : Signer → ℕ → Option (List Entry) → Generator → Result Str × Generator
unfolding list_of
numbered sign now none g = (err invalid_serial, g)
numbered sign now (some entries) g =
    (signed (sign (list_of g now entries)), record g { crl_number = g.crl_number + 1 })

built : Signer → ℕ → Storage.Result (List RevocationRecord) → Generator → Result Str × Generator
unfolding numbered to_entries
built sign now (Storage.Result.err e) g = (err (fetch_failed e), g)
built sign now (Storage.Result.ok records) g = numbered sign now (to_entries records) g

-- GenerateCRL, given what ListRevoked returns; none, if the mutex is held: the call waits for good.
unfoldable pub generate_crl :
    Signer
    → ℕ
    → Storage.Result (List RevocationRecord)
    → Generator
    → Option (Result Str × Generator)
unfolding built
generate_crl sign now records g = if g.held then none else some (built sign now records g)

pub record Service : Type 0 where
  pub generator : Generator
  pub interval : ℤ
  pub cached_crl : Str
  pub last_generated : ℕ
  pub running : Bool

unfoldable pub new_crl_service : Generator → ℤ → Service
new_crl_service g interval = record {
  generator = g;
  interval = if is_pos interval then interval else pos (6 * hour);
  cached_crl = [];
  last_generated = 0;
  running = false;
}

-- The cache is written only after a list was signed.
cache : ℕ → Service → Result Str × Generator → Result Str × Service
cache now s (err e, g) = (err e, record s { generator = g })
cache now s (ok der, g) =
    (ok der, record s { generator = g; cached_crl = der; last_generated = now })

unfoldable pub regenerate :
    Signer → ℕ → Storage.Result (List RevocationRecord) → Service → Option (Result Str × Service)
unfolding cache
regenerate sign now records s = elim (generate_crl sign now records s.generator) [
  | none ↦ none
  | some r ↦ some (cache now s r)
]

unfoldable pub latest_crl : Service → Result (Str × ℕ)
latest_crl s = if is_empty s.cached_crl then err not_ready else ok (s.cached_crl, s.last_generated)

-- g.mu.TryLock() with its result dropped: a free mutex is taken, and nothing gives it back.
unfoldable pub try_lock : Generator → Generator
try_lock g = record g { held = true }

-- What the background goroutine does at a tick, before Regenerate is called.
abbrev at_tick : Service → Service
at_tick s = record s { generator = try_lock s.generator }

abbrev pub outcome : Service → Option (Result Str × Service) → Service
outcome s none = s
outcome s (some r) = r.1

unfoldable pub tick : Signer → ℕ → Storage.Result (List RevocationRecord) → Service → Service
unfolding try_lock
tick sign now records s = outcome (at_tick s) (regenerate sign now records (at_tick s))

-- Start up to the launch of the goroutine; none, if it waits for the mutex.
start_regenerated : Option (Result Str × Service) → Option (Result (Unit {0}) × Service)
start_regenerated none = none
start_regenerated (some (err e, s)) = some (err initial_failed, s)
start_regenerated (some (ok der, s)) = some (ok tt, s)

unfoldable pub start :
    Signer
    → ℕ
    → Storage.Result (List RevocationRecord)
    → Service
    → Option (Result (Unit {0}) × Service)
unfolding start_regenerated
start sign now records s =
    if s.running
    then some (ok tt, s)
    else start_regenerated (regenerate sign now records (record s { running = true }))

unfoldable pub stop : Service → Service
stop s = if s.running then record s { running = false } else s
