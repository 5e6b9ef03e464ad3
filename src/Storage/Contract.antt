-- ===== src/Storage/Contract.antt =====
-- The interface Storage of pkg/storage/storage.go as a contract: its operations, and the abstract
-- machine that says what they do. A serial is in one of four phases; a call that writes is an event
-- at one serial; the phase and the event decide the answer and the next phase.
pub mod History
pub mod Reserved
use go_certa.Prelude.{
  ◌==◌, ℕ, ℤ, Str, is_empty, str_eq, if◌then◌else◌, Bool, true, false, Option, none, some, ◌≡◌,
  List, [],
}
use go_certa.Storage.{
  Context, ContextError, not_found, already_exists, already_revoked, invalid_input, context,
  CertificateRecord, RevocationRecord, Result, ok, err, normalize_serial,
}

-- The methods that write, as calls.
pub data Call : Type 0 where
  saves : Option CertificateRecord → Call
  revokes : Str → ℤ → ℕ → Call
  reserves : Str → Call

pub data Phase : Type 0 where
  unused reserved issued revoked : Phase

-- An event saves a certificate (marked revoked or not), revokes one, or reserves the serial.
pub data Event : Type 0 where
  save : Bool → Event
  revoke reserve : Event

abbrev pub next : Phase → Event → Phase
next unused (save r) = if r then revoked else issued
next reserved (save r) = if r then revoked else issued
next issued revoke = revoked
next unused reserve = reserved
next p e = p

abbrev pub answer : Phase → Event → Result (Unit {0})
answer unused (save r) = ok tt
answer reserved (save r) = ok tt
answer issued (save r) = err already_exists
answer revoked (save r) = err already_exists
answer unused revoke = err not_found
answer reserved revoke = err not_found
answer issued revoke = ok tt
answer revoked revoke = err already_revoked
answer unused reserve = ok tt
answer p reserve = err already_exists

-- The store takes this step of the abstract machine at the serial `n`.
pub record Steps {State : Type 0} (phase : State → Str → Phase) (s : State) (n : Str) (e : Event)
    (r : Result (Unit {0}) × State) : Type 0 where
  pub answers : r.0 ≡ answer (phase s n) e
  pub moves : (k : Str) → phase r.1 k ≡ (if str_eq n k then next (phase s n) e else phase s k)

abbrev pub call_serial : Call → Str
call_serial (saves none) = []
call_serial (saves (some cert)) = normalize_serial cert.serial
call_serial (revokes serial reason revoked_at) = normalize_serial serial
call_serial (reserves serial) = normalize_serial serial

abbrev pub call_event : Call → Event
call_event (saves none) = save false
call_event (saves (some cert)) = save cert.revoked
call_event (revokes serial reason revoked_at) = revoke
call_event (reserves serial) = reserve

-- What a lookup of a certificate returns in each phase.
abbrev pub Shows : Phase → Result CertificateRecord → Type 0
Shows unused r = r ≡ err not_found
Shows reserved r = r ≡ err not_found
Shows issued r = (c : CertificateRecord) × (r ≡ ok c) × (c.revoked ≡ false)
Shows revoked r = (c : CertificateRecord) × (r ≡ ok c) × (c.revoked ≡ true)

-- An implementation: its operations, the phase that its state gives each serial, and the laws.
pub record Store : Type 1 where
  pub State : Type 0
  pub Valid : State → Type 0
  pub phase : State → Str → Phase
  -- The context, the clock's reading, the call.
  pub execute : Context → ℕ → Call → State → Result (Unit {0}) × State
  pub get_certificate : Context → Str → State → Result CertificateRecord
  pub get_revocation : Context → Str → State → Result RevocationRecord
  pub list_revoked : Context → State → Result (List RevocationRecord)
  pub keeps :
      (ctx : Context) (now : ℕ) (c : Call) (s : State) → Valid s → Valid (execute ctx now c s).1
  pub refines :
      (s : State) (now : ℕ) (c : Call)
      → Valid s
      → is_empty (call_serial c) ≡ false
      → Steps phase s (call_serial c) (call_event c) (execute none now c s)
  pub rejects :
      (s : State) (now : ℕ) (c : Call) (e : ContextError)
      → is_empty (call_serial c) ≡ false
      → execute (some e) now c s ≡ (err (context e), s)
  pub invalid :
      (s : State) (now : ℕ) (c : Call)
      → is_empty (call_serial c) ≡ true
      → execute none now c s ≡ (err invalid_input, s)
  -- A call that is invalid under a dead context fails one way or the other.
  pub idle :
      (s : State) (ctx : Context) (now : ℕ) (c : Call)
      → is_empty (call_serial c) ≡ true
      → (execute ctx now c s).1 ≡ s
  pub shows :
      (s : State) (serial : Str)
      → is_empty (normalize_serial serial) ≡ false
      → Shows (phase s (normalize_serial serial)) (get_certificate none serial s)
  pub unavailable :
      (s : State) (serial : Str) (e : ContextError)
      → is_empty (normalize_serial serial) ≡ false
      → get_certificate (some e) serial s ≡ err (context e)
  -- A revocation is on record at once, under the clock's time if none is given.
  pub records :
      (s s' : State) (now revoked_at : ℕ) (serial : Str) (reason : ℤ)
      → execute none now (revokes serial reason revoked_at) s ≡ (ok tt, s')
      → get_revocation none serial s'
        ≡ ok (record {
          serial = normalize_serial serial;
          revoked_at = if revoked_at == 0 then now else revoked_at;
          reason = reason;
        })
